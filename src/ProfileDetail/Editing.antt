-- ===== src/ProfileDetail/Editing.antt =====
-- components/ProfilesWidgetProfileDetailCore.tsx: editing a profile, going back to an old version and
-- deleting it.
use april_profile_kilo.Editor.{Parsed, is_source, parse_draft, parsed, refused}
use april_profile_kilo.Runtime.{Runtime}
use april_profile_kilo.Value.{Value, number, object, string}
use april_profile_kilo.Transport.Promise.{Outcome, fulfilled, rejected}
use april_profile_kilo.Base.{
  Bool, List, Option, Text, [], codes, false, if◌then◌else◌, inl, inr, leb, none, some, true, ◌++◌,
  ◌∷◌, ◌⊎◌,
}
use april_profile_kilo.ProfileDetail.{
  DetailProps, ProfileState, VersionLoad, apply_snapshot, begin_versions, is_historical,
  list_updated, note, report_event, reset_editor, show_change_error, told, versions_answered,
}
use april_profile_kilo.Display.{extract_name, is_duplicate_name}
use april_profile_kilo.FamilyDetail.{given}
use april_profile_kilo.Telemetry.{Meta, acted, save_failed, save_submitted, save_succeeded, updated}
use april_profile_kilo.Providers.Profiles.{UpdateInput}
use april_profile_kilo.Errors.{as_provider_error}
use april_profile_kilo.Providers.{Details, ListItem}
use april_profile_kilo.FamilyDetail.Drafts.{issues_of}

abbrev pub reset_from : Runtime → Option Value → ProfileState → ProfileState
reset_from rt none s = s
reset_from rt (some document) s = reset_editor rt document s

-- The buttons "Edit profile" and "Cancel editing".
unfoldable pub start_editing : Runtime → ProfileState → ProfileState
start_editing rt s = record (reset_from rt s.selected_document s) {
  edit_mode = true;
  edit_issues = none;
}

unfoldable pub cancel_editing : Runtime → ProfileState → ProfileState
cancel_editing rt s = record (reset_from rt s.selected_document s) {
  edit_mode = false;
  edit_issues = none;
}

abbrev pub operation_meta : Text → Text → Meta
operation_meta operation phase =
    (codes "operation", string operation) ∷ (codes "phase", string phase) ∷ []

abbrev pub entity_meta : Text → Text → Meta
entity_meta operation id =
    (codes "operation", string operation) ∷ (codes "entity_id", string id) ∷ []

abbrev pub update_name : Text
update_name = codes "update_entity_profile"

abbrev pub history_name : Text
history_name = codes "update_entity_profile_from_history"

pub record UpdateCall : Type 0 where
  pub entity : Text
  pub input : UpdateInput

-- The text of the draft, read where it is edited as text.
unfoldable pub draft_document : Runtime → ProfileState → Parsed ⊎ Value
unfolding parse_draft
draft_document rt s =
    if is_source s.edit_draft_mode
    then inl (parse_draft rt s.edit_draft_text)
    else inr s.edit_draft_value

-- `nameFromDoc && isDuplicateProfileName(...)`
unfoldable pub name_is_taken : Runtime → Text → Option Text → List ListItem → Bool
unfolding is_duplicate_name
name_is_taken rt id none items = false
name_is_taken rt id (some name) items = is_duplicate_name rt name items (some id)

-- `handleUpdate` from the document on.
unfoldable pub submit_update :
    Runtime → DetailProps → Text → Value → ProfileState → ProfileState × Option UpdateCall
unfolding name_is_taken extract_name
submit_update rt p id document s =
    if name_is_taken rt id (extract_name document) s.list_items
    then (
      record s {
        mutation_error = some (codes "Profile name must be unique within the loaded list.");
      },
      none,
    )
    else (
      report_event p save_submitted (entity_meta update_name id)
          (record s { busy_entity = some id; edit_issues = none }),
      some (record {
        entity = id;
        input = record { document = document; expected_version = s.viewed_version };
      }),
    )

unfoldable pub update_with :
    Runtime → DetailProps → Text → ProfileState → Parsed ⊎ Value → ProfileState × Option UpdateCall
update_with rt p id s (inl (refused message)) = (
  report_event p save_failed (operation_meta update_name (codes "validation"))
      (record s { mutation_error = some message }),
  none,
)
update_with rt p id s (inl (parsed fs)) =
    submit_update rt p id (object fs) (record s { edit_draft_value = object fs })
update_with rt p id s (inr document) = submit_update rt p id document s

unfoldable pub update_of :
    Runtime → DetailProps → Option Text → ProfileState → ProfileState × Option UpdateCall
update_of rt p none s = (s, none)
update_of rt p (some id) s =
    let cleared : ProfileState = record s { mutation_error = none } in
    if is_historical s then (s, none) else update_with rt p id cleared (draft_document rt cleared)

-- `handleUpdate` up to its `await`, with the call that it makes.
unfoldable pub begin_update :
    Runtime → DetailProps → ProfileState → ProfileState × Option UpdateCall
unfolding update_of update_with submit_update draft_document is_historical
begin_update rt p s = update_of rt p (given s.entity_id) s

abbrev pub item_of : Runtime → Details → ListItem
item_of rt d = record {
  entity_id = d.entity_id;
  entity_type_id = d.entity_type_id;
  version = d.version;
  updated_at = d.updated_at;
  preview = rt.compact d.document;
}

abbrev pub free : ProfileState → ProfileState
free s = record s { busy_entity = none }

-- What both kinds of update do with the answer, up to the older versions.
unfoldable pub store_update : Runtime → DetailProps → Text → Details → ProfileState → ProfileState
unfolding apply_snapshot
store_update rt p operation d s =
    let listed = note (list_updated (item_of rt d)) s in
    let shown : ProfileState = record (apply_snapshot rt d listed) { versions = [] } in
    report_event p save_succeeded
      (entity_meta operation d.entity_id ++ (codes "version", number d.version) ∷ [])
      (note (told (acted (updated (item_of rt d)))) shown)

-- The version load that follows an update, under the number of the load that is then current.
abbrev pub following_load : Text → Details → ProfileState → VersionLoad
following_load id d s = record { entity = id; head = d; signal = none; id = s.request_id }

abbrev pub failed_meta : Text → Text → Meta
failed_meta operation id =
    (codes "operation", string operation)
    ∷ (codes "phase", string (codes "api"))
    ∷ (codes "entity_id", string id)
    ∷ []

-- `handleUpdate` after its answer; with older versions it goes on to read them.
unfoldable pub update_answered :
    Runtime → DetailProps → Text → Outcome Details → ProfileState → ProfileState
unfolding store_update begin_versions show_change_error as_provider_error
update_answered rt p id (fulfilled d) s =
    let stored = store_update rt p update_name d s in
    let going = begin_versions (following_load id d stored) stored in
    if leb d.version 1 then free going else going
update_answered rt p id (rejected e) s =
    let marked = record s { edit_issues = issues_of (as_provider_error e) } in
    free (report_event p save_failed (failed_meta update_name id) (show_change_error p e marked))

-- The end of an update that has read the older versions.
unfoldable pub update_versions_answered :
    DetailProps → VersionLoad → Outcome (List Details) → ProfileState → ProfileState
unfolding versions_answered
update_versions_answered p l o s = free (versions_answered p l o s)
