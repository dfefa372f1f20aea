-- ===== src/FamilyDetail.antt =====
-- components/EntityTypesWidgetDetailCore.tsx under frontend/packages/profile-ui/src: one entity type
-- with its draft, its revisions and the upgrade of its profiles. A handler is cut at each `await`:
-- a function up to it, and one for the answer, between which anything may happen. What a closure
-- has captured is an argument of the second.
pub mod Drafts
pub mod Upgrades
pub mod Batches
pub mod Changes
pub mod Conflicts
pub mod Late
pub mod Latest
pub mod Picks
pub mod Races
pub mod Screen
pub mod Pieces
pub mod Presses
use april_profile_kilo.Base.{
  Bool, List, Option, Text, [], codes, false, if◌then◌else◌, leb, none, some, suc, text_eq, true, ℕ,
  ◌++◌, ◌==◌, ◌∷◌,
}
use april_profile_kilo.Value.{Value, as_string, chain, end, object, of_option, string}
use april_profile_kilo.Errors.{ErrorReport, Issue, Thrown, abort_error, other, report_type_error}
use april_profile_kilo.Telemetry.{
  Action, EventName, HostContext, Meta, Output, acted, details_failed, details_requested, emit,
  entity_types, failed, host_request_id,
}
use april_profile_kilo.Providers.EntityTypes.{FamilyDetail, Revision}
use april_profile_kilo.Transport.Promise.{Outcome, fulfilled, rejected}
use april_profile_kilo.Editor.{Mode, tree}
use april_profile_kilo.Providers.{ListItem}
use april_profile_kilo.Runtime.{Runtime}

pub data Tab : Type 0 where
  draft_tab revisions_tab upgrade_tab : Tab

abbrev pub tab_eq : Tab → Tab → Bool
tab_eq draft_tab draft_tab = true
tab_eq revisions_tab revisions_tab = true
tab_eq upgrade_tab upgrade_tab = true
tab_eq _ _ = false

pub record FamilyProps : Type 0 where
  pub host : HostContext
  pub page_size : ℕ
  pub observes : Bool

pub record FamilyState : Type 0 where
  pub family_id : Option Text
  pub detail_loading : Bool
  pub detail_error : Option Text
  pub family_detail : Option FamilyDetail
  pub draft_schema : Value
  pub draft_mode : Mode
  pub draft_source_text : Text
  pub draft_conflict : Bool
  pub mutation_message : Option Text
  pub draft_api_issues : Option (List Issue)
  pub revisions : List Revision
  pub revisions_loading : Bool
  pub selected_revision : Option Text
  pub target_revision : Option Text
  pub active_tab : Tab
  pub upgrade_entities : List ListItem
  pub upgrade_next_cursor : Option Text
  pub upgrade_loading : Bool
  pub upgrade_loading_more : Bool
  pub upgrade_error : Option Text
  pub selected_entity_ids : List Text
  pub busy : Option Text
  pub patch_opened : Bool
  pub patch_namespace : Text
  pub patch_code : Text
  pub delete_opened : Bool
  pub request_id : ℕ
  -- the numbers of the loads whose controller has been aborted, what the host has been called
  -- with, and how often the catalogue has been asked to load again
  pub aborted_loads : List ℕ
  pub outputs : List Output
  pub catalog_reloads : ℕ

-- An id that `!familyId` lets through.
abbrev pub given : Option Text → Option Text
given none = none
given (some []) = none
given (some (c ∷ id)) = some (c ∷ id)

abbrev pub tell : FamilyProps → EventName → Meta → FamilyState → FamilyState
tell p event meta s = record s {
  outputs = s.outputs ++ emit p.observes p.host entity_types event meta;
}

abbrev pub act : Action → FamilyState → FamilyState
act a s = record s { outputs = s.outputs ++ acted a ∷ [] }

abbrev pub about_family : Text → Meta
about_family id = (codes "family_id", string id) ∷ []

-- `reportError(error, setter)`, with what the setter shows.
abbrev pub report_of : FamilyProps → Thrown → ErrorReport
report_of p e = report_type_error (of_option (host_request_id p.host)) e

abbrev pub call_host : ErrorReport → FamilyState → FamilyState
call_host report s = record s { outputs = s.outputs ++ failed report ∷ [] }

unfoldable pub show_detail_error : FamilyProps → Thrown → FamilyState → FamilyState
show_detail_error p e s =
    call_host (report_of p e) (record s { detail_error = some (report_of p e).message })

unfoldable pub show_mutation_error : FamilyProps → Thrown → FamilyState → FamilyState
show_mutation_error p e s =
    call_host (report_of p e) (record s { mutation_message = some (report_of p e).message })

unfoldable pub show_upgrade_error : FamilyProps → Thrown → FamilyState → FamilyState
show_upgrade_error p e s =
    call_host (report_of p e) (record s { upgrade_error = some (report_of p e).message })

-- `[...revs].sort((a, b) => a.revisionNo - b.revisionNo)`, which is stable.
unfoldable pub insert_revision : Revision → List Revision → List Revision
insert_revision r [] = r ∷ []
insert_revision r (q ∷ qs) =
    if leb r.revision_no q.revision_no then r ∷ q ∷ qs else q ∷ insert_revision r qs

unfoldable pub sort_revisions : List Revision → List Revision
unfolding insert_revision
sort_revisions [] = []
sort_revisions (r ∷ rs) = insert_revision r (sort_revisions rs)

-- `sorted[sorted.length - 1]`
abbrev pub last_revision : List Revision → Option Revision
last_revision [] = none
last_revision (r ∷ []) = some r
last_revision (r ∷ q ∷ qs) = last_revision (q ∷ qs)

abbrev pub revision_id : Option Revision → Option Text
revision_id none = none
revision_id (some r) = some r.id

-- `applyFamilyDetail`
unfoldable pub apply_detail : Runtime → FamilyDetail → FamilyState → FamilyState
apply_detail rt detail s = record s {
  family_detail = some detail;
  draft_schema = detail.draft_schema;
  draft_source_text = rt.pretty detail.draft_schema;
  draft_mode = tree;
  draft_conflict = false;
  mutation_message = none;
  draft_api_issues = none;
}

-- `detailAbortRef.current?.abort()`: there is a controller once a load has begun.
unfoldable pub abort_detail : FamilyState → FamilyState
abort_detail s =
    if s.request_id == 0 then s else record s { aborted_loads = s.request_id ∷ s.aborted_loads }

pub record FamilyLoad : Type 0 where
  pub id : ℕ
  pub family : Text

-- `loadFamilyDetail` up to its `await`.
unfoldable pub begin_family_load : FamilyProps → Text → FamilyState → FamilyState
unfolding abort_detail
begin_family_load p id s = tell p details_requested (about_family id) (record (abort_detail s) {
  request_id = suc s.request_id;
  detail_error = none;
  detail_loading = true;
  revisions = [];
  revisions_loading = true;
})

-- The load that has just begun.
abbrev pub newest_load : Text → FamilyState → FamilyLoad
newest_load id s = record { id = s.request_id; family = id }

-- `error?.name === "AbortError"`
unfoldable pub is_abort : Thrown → Bool
is_abort abort_error = true
is_abort (other v) = elim (as_string (chain (codes "name") v)) [
  | none ↦ false
  | some name ↦ text_eq name (codes "AbortError")
]
is_abort _ = false

abbrev pub settle_detail : FamilyState → FamilyState
settle_detail s = record s { detail_loading = false; revisions_loading = false }

unfoldable pub store_revisions : List Revision → FamilyState → FamilyState
unfolding sort_revisions
store_revisions revs s =
    let sorted = sort_revisions revs in
    let latest = revision_id (last_revision sorted) in
    record s { revisions = sorted; target_revision = latest; selected_revision = latest }

-- `loadFamilyDetail` after its `await` of both calls.
unfoldable pub family_answered :
    Runtime
    → FamilyProps
    → FamilyLoad
    → Outcome (FamilyDetail × List Revision)
    → FamilyState
    → FamilyState
unfolding apply_detail store_revisions show_detail_error is_abort
family_answered rt p l (fulfilled (detail, revs)) s =
    if l.id == s.request_id
    then settle_detail (store_revisions revs (apply_detail rt detail s))
    else s
family_answered rt p l (rejected e) s =
    let shown = record (show_detail_error p e s) { family_detail = none } in
    let told = tell p details_failed (about_family l.family) shown in
    if l.id == s.request_id then settle_detail (if is_abort e then s else told) else s

-- The load effect where no family is given.
unfoldable pub clear_family : FamilyState → FamilyState
clear_family s = record s {
  family_detail = none;
  draft_schema = object end;
  draft_source_text = codes "{}";
  draft_mode = tree;
  draft_api_issues = none;
  revisions = [];
  selected_revision = none;
  upgrade_entities = [];
  upgrade_next_cursor = none;
  selected_entity_ids = [];
}

abbrev pub load_effect : FamilyProps → Option Text → FamilyState → FamilyState
load_effect p none s = clear_family s
load_effect p (some id) s = begin_family_load p id s

-- The cleanup of the load effect, which it returned only where a family was given.
abbrev pub load_cleanup : Option Text → FamilyState → FamilyState
load_cleanup none s = s
load_cleanup (some id) s = abort_detail s
