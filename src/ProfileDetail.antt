-- ===== src/ProfileDetail.antt =====
-- components/ProfilesWidgetProfileDetailCore.tsx under frontend/packages/profile-ui/src: one profile,
-- its versions and its editor, over a provider that has all optional operations, as the OpenAPI
-- provider does. A handler is cut at each `await`.
pub mod Loads
pub mod Drafts
pub mod Editing
pub mod Restoring
pub mod Creating
pub mod Schemas
pub mod Answers
pub mod Runs
pub mod Names
pub mod Versions
pub mod Views
pub mod Modes
pub mod Controls
pub mod Screen
pub mod Offers
pub mod Counts
pub mod OnScreen
pub mod Panes
use april_profile_kilo.ProfilesList.{code_of, code_text}
use april_profile_kilo.Base.{
  Bool, List, Option, Text, [], any, codes, false, if◌then◌else◌, leb, ltb, map, none, not, some,
  suc, true, zero, ℕ, ◌&&◌, ◌++◌, ◌-◌, ◌==◌, ◌∷◌,
}
use april_profile_kilo.Telemetry.{
  EventName, HostContext, Meta, Output, details_failed, details_requested, emit, failed,
  host_request_id, profiles_list,
}
use april_profile_kilo.Value.{Value, number, of_option, string}
use april_profile_kilo.Transport.Promise.{Outcome, fulfilled, rejected}
use april_profile_kilo.FamilyDetail.{given}
use april_profile_kilo.Errors.{ErrorReport, Issue, Thrown, as_provider_error, report_profile_error}
use april_profile_kilo.Editor.{Mode, form, Panels}
use april_profile_kilo.Providers.{Details, ListItem}
use april_profile_kilo.Runtime.{Runtime}

-- What the host and the list are called with, in order.
pub data Notice : Type 0 where
  told : Output → Notice
  list_updated : ListItem → Notice
  list_asked : Notice
  entity_deleted_notice created_selected : Text → Notice

pub record DetailProps : Type 0 where
  pub host : HostContext
  pub observes : Bool
  pub initial_type : Option Text

pub record ProfileState : Type 0 where
  -- the properties that change from render to render
  pub entity_id : Option Text
  pub list_items : List ListItem
  pub details_loading : Bool
  pub versions_loading : Bool
  pub details_error : Option Text
  pub mutation_error : Option Text
  pub selected_document : Option Value
  pub head_version : Option ℕ
  pub viewed_version : Option ℕ
  pub versions : List (ℕ × Details)
  pub edit_mode : Bool
  pub edit_draft_mode : Mode
  pub edit_draft_value : Value
  pub edit_draft_text : Text
  pub edit_issues : Option (List Issue)
  pub create_type : Option Text
  pub create_name : Text
  pub create_draft_mode : Mode
  pub create_draft_value : Value
  pub create_draft_text : Text
  pub create_issues : Option (List Issue)
  pub create_opened : Bool
  pub type_options : List (Text × Text)
  pub version_sheet : Bool
  pub busy_entity : Option Text
  pub request_id : ℕ
  -- the loads whose signal has fired
  pub fired : List ℕ
  pub notices : List Notice

abbrev pub note : Notice → ProfileState → ProfileState
note n s = record s { notices = s.notices ++ n ∷ [] }

abbrev pub report_event : DetailProps → EventName → Meta → ProfileState → ProfileState
report_event p event meta s = record s {
  notices = s.notices ++ map told (emit p.observes p.host profiles_list event meta);
}

abbrev pub profile_report : DetailProps → Thrown → ErrorReport
profile_report p e = report_profile_error (of_option (host_request_id p.host)) e

-- `reportError(error, setDetailsErrorMessage)` and `reportError(error, setMutationErrorMessage)`
unfoldable pub show_load_error : DetailProps → Thrown → ProfileState → ProfileState
show_load_error p e s =
    note (told (failed (profile_report p e)))
      (record s { details_error = some (profile_report p e).message })

unfoldable pub show_change_error : DetailProps → Thrown → ProfileState → ProfileState
show_change_error p e s =
    note (told (failed (profile_report p e)))
      (record s { mutation_error = some (profile_report p e).message })

-- `historicalView`
unfoldable pub is_historical : ProfileState → Bool
is_historical s = elim s.viewed_version [
  | none ↦ false
  | some viewed ↦ elim s.head_version [ none ↦ false | some head ↦ ltb viewed head ]
]

-- `setEditDraftValue(structuredClone(document))` and the setters that go with it.
abbrev pub reset_editor : Runtime → Value → ProfileState → ProfileState
reset_editor rt document s = record s {
  edit_draft_value = document;
  edit_draft_text = rt.pretty document;
  edit_draft_mode = form;
}

-- `applyDetailsSnapshot`
unfoldable pub apply_snapshot : Runtime → Details → ProfileState → ProfileState
apply_snapshot rt d s = record (reset_editor rt d.document s) {
  selected_document = some d.document;
  head_version = some d.version;
  viewed_version = some d.version;
  edit_issues = none;
  edit_mode = false;
}

-- The record `Record<number, ProfileDetails>`.
unfoldable pub version_at : ℕ → List (ℕ × Details) → Option Details
version_at k [] = none
version_at k ((j, d) ∷ m) = if j == k then some d else version_at k m

unfoldable pub put_version : ℕ → Details → List (ℕ × Details) → List (ℕ × Details)
put_version k d [] = (k, d) ∷ []
put_version k d ((j, e) ∷ m) = if j == k then (j, d) ∷ m else (j, e) ∷ put_version k d m

unfoldable pub put_versions : List Details → List (ℕ × Details) → List (ℕ × Details)
unfolding put_version
put_versions [] m = m
put_versions (d ∷ ds) m = put_versions ds (put_version d.version d m)

-- What a call of `loadVersionMap` has captured; a call without a signal is never aborted.
pub record VersionLoad : Type 0 where
  pub entity : Text
  pub head : Details
  pub signal : Option ℕ
  pub id : ℕ

abbrev pub has_fired : Option ℕ → ProfileState → Bool
has_fired none s = false
has_fired (some id) s = any (λ (n : ℕ). n == id) s.fired

-- `loadVersionMap` up to its `await`, or to its end where the head is the only version.
unfoldable pub begin_versions : VersionLoad → ProfileState → ProfileState
begin_versions l s =
    if leb l.head.version 1
    then (if s.request_id == l.id then record s { versions = (l.head.version, l.head) ∷ [] } else s)
    else record s { versions_loading = true }

unfoldable pub older_from : ℕ → ℕ → List ℕ
older_from first_one zero = []
older_from first_one (suc n) = first_one ∷ older_from (suc first_one) n

-- `olderVersions`
unfoldable pub older_versions : ℕ → List ℕ
unfolding older_from
older_versions n = older_from 1 (n - 1)

-- `Promise.all`: every value, or an error.
unfoldable pub all_answers : List (Outcome Details) → Outcome (List Details)
all_answers [] = fulfilled []
all_answers (rejected e ∷ os) = rejected e
all_answers (fulfilled d ∷ os) = elim (all_answers os) [
  | fulfilled ds ↦ fulfilled (d ∷ ds)
  | rejected e ↦ rejected e
]

-- What `loadVersionMap` awaits, where `ask` is what becomes of a call of `provider.getByVersion`.
unfoldable pub version_answers : (ℕ → Outcome Details) → VersionLoad → Outcome (List Details)
unfolding all_answers older_versions
version_answers ask l = all_answers (map ask (older_versions l.head.version))

abbrev pub stop_versions : VersionLoad → ProfileState → ProfileState
stop_versions l s = if s.request_id == l.id then record s { versions_loading = false } else s

-- `loadVersionMap` after its `await` of all older versions.
unfoldable pub versions_answered :
    DetailProps → VersionLoad → Outcome (List Details) → ProfileState → ProfileState
unfolding put_versions show_load_error
versions_answered p l (fulfilled snaps) s =
    let filled_map = put_versions snaps ((l.head.version, l.head) ∷ []) in
    stop_versions l (
      if s.request_id == l.id && not (has_fired l.signal s)
      then record s { versions = filled_map }
      else s)
versions_answered p l (rejected e) s =
    stop_versions l
      (if s.request_id == l.id && not (has_fired l.signal s) then show_load_error p e s else s)

-- `onSelectVersion`, with a value that is a number.
unfoldable pub select_version : Runtime → ℕ → ProfileState → ProfileState
unfolding version_at
select_version rt version s =
    let viewed = record s { viewed_version = some version; version_sheet = false } in
    elim (version_at version s.versions) [
      | none ↦ viewed
      | some d ↦ record (reset_editor rt d.document viewed) {
        selected_document = some d.document;
        edit_issues = none;
        edit_mode = false;
      }
    ]
