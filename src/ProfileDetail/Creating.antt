-- ===== src/ProfileDetail/Creating.antt =====
-- components/ProfilesWidgetProfileDetailCore.tsx: creating a profile.
use april_profile_kilo.Value.{Fields, Value, end, object, put, string}
use april_profile_kilo.ProfileDetail.Editing.{entity_meta, free, item_of, operation_meta}
use april_profile_kilo.FamilyDetail.Drafts.{issues_of}
use april_profile_kilo.Errors.{Thrown, as_provider_error}
use april_profile_kilo.Transport.Promise.{Outcome, fulfilled, rejected}
use april_profile_kilo.ProfileDetail.{
  DetailProps, ProfileState, created_selected, note, report_event, show_change_error, told,
  list_asked,
}
use april_profile_kilo.Telemetry.{acted, created, save_failed, save_submitted, save_succeeded}
use april_profile_kilo.Editor.{Parsed, form, is_source, parse_draft, parsed, refused}
use april_profile_kilo.Base.{
  Bool, List, Option, Text, [], any, codes, false, if◌then◌else◌, map, none, some, text_eq, trim,
  true, ◌∷◌,
}
use april_profile_kilo.Providers.{Details}
use april_profile_kilo.Display.{is_duplicate_name, non_empty}
use april_profile_kilo.Providers.Profiles.{CreateInput, EntityTypeOption}
use april_profile_kilo.Runtime.{Runtime}
use april_profile_kilo.FamilyDetail.{given}

-- `handleOpenCreateModal` up to the answer of `listEntityTypes`.
unfoldable pub open_create_dialog : ProfileState → ProfileState
open_create_dialog s = record s {
  mutation_error = none;
  create_name = codes "New profile";
  create_draft_value = object end;
  create_draft_text = codes "{}";
  create_draft_mode = form;
  create_issues = none;
}

abbrev pub has_type : Text → List EntityTypeOption → Bool
has_type id rows = any (λ (row : EntityTypeOption). text_eq row.id id) rows

abbrev pub first_type : List EntityTypeOption → Option Text
first_type [] = none
first_type (row ∷ rows) = some row.id

unfoldable pub preferred_type : Option Text → List EntityTypeOption → Option Text
preferred_type none rows = first_type rows
preferred_type (some id) rows = if has_type id rows then some id else first_type rows

-- After that answer; a change of the type sets the form again.
unfoldable pub types_answered :
    DetailProps → Outcome (List EntityTypeOption) → ProfileState → ProfileState
unfolding preferred_type show_change_error
types_answered p (fulfilled rows) s = record s {
  type_options = map (λ (row : EntityTypeOption). (row.id, row.label)) rows;
  create_type = preferred_type (given p.initial_type) rows;
  create_opened = true;
  create_draft_mode = form;
}
types_answered p (rejected e) s = record (show_change_error p e s) {
  create_type = none;
  create_opened = true;
}

abbrev pub create_name_text : Text
create_name_text = codes "create_entity_profile"

abbrev pub refuse_create : DetailProps → Text → ProfileState → ProfileState × Option CreateInput
refuse_create p message s = (
  report_event p save_failed (operation_meta create_name_text (codes "validation"))
      (record s { mutation_error = some message }),
  none,
)

-- `{ ...parsed, name: trimmedName }`
abbrev pub spread : Value → Fields
spread (object fs) = fs
spread v = end

unfoldable pub with_name : Value → Text → Value
unfolding put
with_name document name = object (put (codes "name") (string name) (spread document))

unfoldable pub create_named :
    Runtime
    → DetailProps
    → Option Text
    → Option Text
    → Value
    → ProfileState
    → ProfileState × Option CreateInput
create_named rt p (some type_id) (some name) document s =
    if is_duplicate_name rt name s.list_items none
    then refuse_create p (codes "Profile name must be unique within the loaded list.") s
    else (
      report_event p save_submitted ((codes "operation", string create_name_text) ∷ [])
          (record s { busy_entity = some (codes "create"); create_issues = none }),
      some (record { entity_type_id = type_id; document = with_name document name }),
    )
create_named rt p _ _ document s = refuse_create p (codes "Choose entity type and profile name.") s

-- `handleCreate` from the document on.
unfoldable pub submit_create :
    Runtime → DetailProps → Value → ProfileState → ProfileState × Option CreateInput
unfolding create_named is_duplicate_name with_name trim
submit_create rt p document s =
    create_named rt p (given s.create_type) (non_empty (trim s.create_name)) document s

unfoldable pub create_parsed :
    Runtime → DetailProps → ProfileState → Parsed → ProfileState × Option CreateInput
create_parsed rt p s (refused message) = refuse_create p message s
create_parsed rt p s (parsed fs) =
    submit_create rt p (object fs) (record s { create_draft_value = object fs })

-- `handleCreate` up to its `await`, with the call that it makes.
unfoldable pub begin_create :
    Runtime → DetailProps → ProfileState → ProfileState × Option CreateInput
unfolding create_parsed submit_create parse_draft
begin_create rt p s =
    let cleared : ProfileState = record s { mutation_error = none } in
    if is_source s.create_draft_mode
    then create_parsed rt p cleared (parse_draft rt s.create_draft_text)
    else submit_create rt p s.create_draft_value cleared

unfoldable pub fail_create : DetailProps → Thrown → ProfileState → ProfileState
unfolding show_change_error as_provider_error
fail_create p e s =
    let marked = record s { create_issues = issues_of (as_provider_error e) } in
    free (
      report_event p save_failed (operation_meta create_name_text (codes "api"))
        (show_change_error p e marked))

-- After its answer, up to the list's reload, and after that.
unfoldable pub create_answered :
    Runtime → DetailProps → Outcome Details → ProfileState → ProfileState
unfolding fail_create
create_answered rt p (fulfilled d) s =
    let saved =
      report_event p save_succeeded (entity_meta create_name_text d.entity_id)
        (note (told (acted (created (item_of rt d)))) s) in
    note list_asked (note (created_selected d.entity_id) (record saved { create_opened = false }))
create_answered rt p (rejected e) s = fail_create p e s

unfoldable pub create_finished : DetailProps → Outcome (Unit {0}) → ProfileState → ProfileState
unfolding fail_create
create_finished p (fulfilled _) s = free s
create_finished p (rejected e) s = fail_create p e s
