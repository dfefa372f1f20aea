-- ===== src/FamiliesList.antt =====
-- components/EntityTypesWidgetCore.tsx under frontend/packages/profile-ui/src: the list of entity
-- types and the creation of one. A load is begun and answered by separate steps.
pub mod Progress
pub mod Reloads
pub mod Screen
use april_profile_kilo.Value.{Value, end, number, object, string}
use april_profile_kilo.Editor.{Mode, Parsed, is_source, parse_draft, parsed, refused, tree}
use april_profile_kilo.Base.{
  Bool, List, Option, Text, [], any, codes, false, if◌then◌else◌, keep, none, not, or_other, some,
  suc, trim, true, ℕ, ◌&&◌, ◌++◌, ◌==◌, ◌∷◌,
}
use april_profile_kilo.Telemetry.{
  EventName, Meta, Output, acted, emit, entity_types, failed, family_created, list_failed,
  list_requested, list_succeeded,
}
use april_profile_kilo.FamilyDetail.{FamilyProps, is_abort, report_of}
use april_profile_kilo.Providers.{Status, draft, published}
use april_profile_kilo.Errors.{Issue, Thrown, as_provider_error}
use april_profile_kilo.Providers.EntityTypes.{CreateFamilyInput, FamilyDetail, FamilySummary}
use april_profile_kilo.Runtime.{Runtime}
use april_profile_kilo.FamilyDetail.Drafts.{issues_of}
use april_profile_kilo.Transport.Promise.{Outcome, fulfilled, rejected}

pub record FamiliesState : Type 0 where
  pub list_loading : Bool
  pub list_error : Option Text
  pub families : List FamilySummary
  pub selected_family : Option Text
  pub create_opened : Bool
  pub create_namespace : Text
  pub create_code : Text
  pub create_draft_schema : Value
  pub create_draft_mode : Mode
  pub create_draft_text : Text
  pub create_issues : Option (List Issue)
  pub create_error : Option Text
  pub create_busy : Bool
  pub request_id : ℕ
  -- the calls of `listFamilies` under way, those among them that a creation waits for, and what the
  -- host has been called with
  pub in_flight : List ℕ
  pub awaiting : List (ℕ × FamilyDetail)
  pub outputs : List Output

-- The state of the first render.
abbrev pub first_families : FamiliesState
first_families = record {
  list_loading = true;
  list_error = none;
  families = [];
  selected_family = none;
  create_opened = false;
  create_namespace = [];
  create_code = [];
  create_draft_schema = object end;
  create_draft_mode = tree;
  create_draft_text = codes "{}";
  create_issues = none;
  create_error = none;
  create_busy = false;
  request_id = 0;
  in_flight = [];
  awaiting = [];
  outputs = [];
}

abbrev pub say_family : FamilyProps → EventName → Meta → FamiliesState → FamiliesState
say_family p event meta s = record s {
  outputs = s.outputs ++ emit p.observes p.host entity_types event meta;
}

abbrev pub family_scope : Meta
family_scope = (codes "scope", string (codes "families")) ∷ []

-- `loadFamilies` up to its `await`. The signal that it aborts reaches the answer alone.
unfoldable pub begin_families : FamilyProps → FamiliesState → FamiliesState
begin_families p s = say_family p list_requested family_scope (record s {
  request_id = suc s.request_id;
  list_error = none;
  list_loading = true;
  in_flight = s.in_flight ++ suc s.request_id ∷ [];
})

abbrev pub stop_list : ℕ → FamiliesState → FamiliesState
stop_list id s = if id == s.request_id then record s { list_loading = false } else s

abbrev pub show_families_error : FamilyProps → Thrown → FamiliesState → FamiliesState
show_families_error p e s =
    let shown : FamiliesState = record s {
      list_error = some (report_of p e).message;
      outputs = s.outputs ++ failed (report_of p e) ∷ [];
    } in
    say_family p list_failed family_scope shown

-- `loadFamilies` after its `await`.
unfoldable pub families_answered :
    FamilyProps → ℕ → ℕ → Outcome (List FamilySummary) → FamiliesState → FamiliesState
unfolding is_abort
families_answered p elapsed id (fulfilled rows) s =
    let stored =
      say_family p list_succeeded (family_scope ++ (codes "duration_ms", number elapsed) ∷ [])
        (record s { families = rows }) in
    stop_list id (if id == s.request_id then stored else s)
families_answered p elapsed id (rejected e) s =
    let shown = show_families_error p e s in
    stop_list id (if id == s.request_id && not (is_abort e) then shown else s)

-- The end of `handleCreateFamily`, once its `loadFamilies` is over.
abbrev pub finish_creation : FamilyDetail → FamiliesState → FamiliesState
finish_creation d s = record s {
  selected_family = some d.id;
  create_busy = false;
  outputs = s.outputs ++ acted (family_created d.id d.namespace d.code) ∷ [];
}

unfoldable pub resume_creations : ℕ → List (ℕ × FamilyDetail) → FamiliesState → FamiliesState
resume_creations id [] s = s
resume_creations id ((n, d) ∷ ws) s =
    let rest = resume_creations id ws in if n == id then rest (finish_creation d s) else rest s

abbrev pub is_other : ℕ → ℕ → Bool
is_other id n = not (n == id)

-- The event loop resumes the load of this number, and the creation that waits for it.
unfoldable pub answer_families :
    FamilyProps → ℕ → ℕ → Outcome (List FamilySummary) → FamiliesState → FamiliesState
unfolding families_answered resume_creations
answer_families p elapsed id o s =
    let left : FamiliesState = record s {
      in_flight = keep (is_other id) s.in_flight;
      awaiting = keep (λ (w : ℕ × FamilyDetail). is_other id w.0) s.awaiting;
    } in
    if any (λ (n : ℕ). n == id) s.in_flight
    then resume_creations id s.awaiting (families_answered p elapsed id o left)
    else s

-- `onAddItem`
unfoldable pub open_creation : FamiliesState → FamiliesState
open_creation s = record s {
  create_error = none;
  create_issues = none;
  create_draft_schema = object end;
  create_draft_text = codes "{}";
  create_draft_mode = tree;
  create_opened = true;
}

abbrev pub family_input : Value → FamiliesState → CreateFamilyInput
family_input schema_value s = record {
  namespace = trim s.create_namespace;
  code = trim s.create_code;
  draft_schema = schema_value;
}

abbrev pub submit_family : Value → FamiliesState → FamiliesState × Option CreateFamilyInput
submit_family schema_value s =
    (record s { create_issues = none; create_busy = true }, some (family_input schema_value s))

unfoldable pub submit_text : FamiliesState → Parsed → FamiliesState × Option CreateFamilyInput
unfolding trim
submit_text s (parsed fs) = submit_family (object fs) s
submit_text s (refused message) = (record s { create_error = some message }, none)

-- `handleCreateFamily` up to its first `await`, with the call that it makes.
unfoldable pub begin_creation : Runtime → FamiliesState → FamiliesState × Option CreateFamilyInput
unfolding submit_text parse_draft trim
begin_creation rt s =
    if is_source s.create_draft_mode
    then submit_text s (parse_draft rt s.create_draft_text)
    else submit_family s.create_draft_schema s

-- After that `await`: the form is reset and the list loaded, or the error is shown.
unfoldable pub creation_answered :
    FamilyProps → Outcome FamilyDetail → FamiliesState → FamiliesState
unfolding begin_families as_provider_error
creation_answered p (fulfilled d) s =
    let loading_list = begin_families p (record s {
      create_opened = false;
      create_namespace = [];
      create_code = [];
      create_draft_schema = object end;
      create_draft_text = codes "{}";
      create_draft_mode = tree;
    }) in
    record loading_list { awaiting = loading_list.awaiting ++ (loading_list.request_id, d) ∷ [] }
creation_answered p (rejected e) s = record s {
  create_issues = or_other (issues_of (as_provider_error e)) s.create_issues;
  create_error = some (report_of p e).message;
  create_busy = false;
  outputs = s.outputs ++ failed (report_of p e) ∷ [];
}

-- `listItems`
abbrev pub status_text : Status → Text
status_text draft = codes "draft"
status_text published = codes "published"

unfoldable pub family_title : FamilySummary → Text
family_title f = f.namespace ++ b'/' ∷ f.code

-- What may happen to the list, with the detail's `onCatalogReload` and the deletion of a family.
pub data FamilyEvent : Type 0 where
  catalog_reloaded family_removed family_added creation_closed : FamilyEvent
  name_typed : Text → Text → FamilyEvent
  family_chosen : Option Text → FamilyEvent
  families_in : ℕ → ℕ → Outcome (List FamilySummary) → FamilyEvent
  creation_submitted : FamilyEvent
  creation_in : Outcome FamilyDetail → FamilyEvent

unfoldable pub family_step : Runtime → FamilyProps → FamilyEvent → FamiliesState → FamiliesState
unfolding begin_families open_creation answer_families begin_creation creation_answered
family_step rt p catalog_reloaded s = begin_families p s
family_step rt p family_removed s = begin_families p (record s { selected_family = none })
family_step rt p creation_closed s = record s { create_opened = false }
family_step rt p (name_typed namespace code) s = record s {
  create_namespace = namespace;
  create_code = code;
}
family_step rt p family_added s = open_creation s
family_step rt p (family_chosen id) s = record s { selected_family = id }
family_step rt p (families_in elapsed id o) s = answer_families p elapsed id o s
family_step rt p creation_submitted s = (begin_creation rt s).0
family_step rt p (creation_in o) s = creation_answered p o s

unfoldable pub family_run : Runtime → FamilyProps → List FamilyEvent → FamiliesState → FamiliesState
unfolding family_step
family_run rt p [] s = s
family_run rt p (e ∷ es) s = family_run rt p es (family_step rt p e s)
