-- ===== src/FamilyDetail/Upgrades.antt =====
-- components/EntityTypesWidgetDetailCore.tsx: the profiles of a type, and their upgrade to one of its
-- revisions.
use april_profile_kilo.FamilyDetail.{
  FamilyProps, FamilyState, Tab, about_family, act, begin_family_load, clear_family, draft_tab,
  given, load_cleanup, load_effect, show_upgrade_error, tab_eq, tell, upgrade_tab,
}
use april_profile_kilo.Telemetry.{
  Meta, entity_upgrade_failed, entity_upgrade_requested, entity_upgrade_succeeded, upgrade_failed,
  upgrade_submitted, upgrade_succeeded,
}
use april_profile_kilo.Providers.{Details, ListPage, ListQuery, updated_desc}
use april_profile_kilo.Providers.EntityTypes.{Revision}
use april_profile_kilo.Base.{
  Bool, List, Option, Text, [], any, codes, false, find, if◌then◌else◌, keep, none, not, some,
  text_eq, true, ◌++◌, ◌∷◌,
}
use april_profile_kilo.Value.{string}
use april_profile_kilo.Errors.{ProviderError, as_provider_error, type_message}
use april_profile_kilo.Transport.Promise.{Outcome, fulfilled, rejected}
use april_profile_kilo.FamilyDetail.Drafts.{idle, fail_publish}
use april_profile_kilo.Providers.Upgrades.{UpgradeInput}

-- `loadUpgradePage` up to its `await`, where a family is given.
unfoldable pub begin_upgrade_page : Bool → FamilyState → FamilyState
begin_upgrade_page true s = record s { upgrade_loading_more = true }
begin_upgrade_page false s = record s { upgrade_loading = true; upgrade_error = none }

-- What it asks for.
unfoldable pub upgrade_query : FamilyProps → Bool → Option Text → ListQuery
upgrade_query p append cursor = record {
  search = none;
  entity_type_id = none;
  limit = p.page_size;
  cursor = if append then cursor else none;
  sort = some updated_desc;
}

-- After its `await`; nothing says which call it was.
unfoldable pub upgrade_page_answered :
    FamilyProps → Bool → Outcome ListPage → FamilyState → FamilyState
unfolding show_upgrade_error
upgrade_page_answered p append (fulfilled page) s = record s {
  upgrade_entities = if append then s.upgrade_entities ++ page.items else page.items;
  upgrade_next_cursor = page.next_cursor;
  upgrade_loading = false;
  upgrade_loading_more = false;
}
upgrade_page_answered p append (rejected e) s = record (show_upgrade_error p e s) {
  upgrade_loading = false;
  upgrade_loading_more = false;
}

abbrev pub reset_upgrades : FamilyState → FamilyState
reset_upgrades s = record s {
  upgrade_entities = [];
  upgrade_next_cursor = none;
  selected_entity_ids = [];
}

-- The effect of the upgrade tab, in the render that has this tab and this family.
unfoldable pub upgrade_effect : Tab → Option Text → FamilyState → FamilyState
unfolding begin_upgrade_page
upgrade_effect upgrade_tab (some id) s = begin_upgrade_page false (reset_upgrades s)
upgrade_effect _ _ s = s

-- `setActiveTab` by the user.
unfoldable pub choose_tab : Tab → FamilyState → FamilyState
unfolding upgrade_effect
choose_tab tab s =
    if tab_eq tab s.active_tab
    then s
    else upgrade_effect tab (given s.family_id) (record s { active_tab = tab })

-- Another `familyId`: the cleanup, and the effects in their order, the last of which still has the
-- tab of the render.
unfoldable pub change_family : FamilyProps → Option Text → FamilyState → FamilyState
unfolding upgrade_effect clear_family begin_family_load
change_family p next s =
    let left = load_cleanup (given s.family_id) s in
    let loaded = load_effect p (given next) (record left { family_id = next }) in
    upgrade_effect s.active_tab (given next) (record loaded { active_tab = draft_tab })

-- `selectedTargetRevision`
unfoldable pub target_of : FamilyState → Option Revision
target_of s = elim s.target_revision [
  | none ↦ none
  | some id ↦ find (λ (r : Revision). text_eq r.id id) s.revisions
]

abbrev pub start_upgrade : FamilyProps → Text → Text → FamilyState → FamilyState
start_upgrade p family entity s =
    tell p upgrade_submitted ((codes "entity_id", string entity) ∷ about_family family) (
      act (entity_upgrade_requested entity)
        (record s { upgrade_error = none; busy = some (codes "up-" ++ entity) }))

-- `handleSingleUpgrade` up to its `await`, and the body of the call that it makes.
unfoldable pub begin_single : FamilyProps → Text → FamilyState → FamilyState
begin_single p entity s = elim (given s.family_id) [
  | none ↦ s
  | some id ↦ start_upgrade p id entity s
]

unfoldable pub single_body : FamilyState → Option UpgradeInput
unfolding target_of
single_body s = elim (target_of s) [
  | none ↦ none
  | some r ↦ some (record { entity_type_revision_id = some r.id; revision_no = none })
]

abbrev pub about_entity : Text → Meta
about_entity id = (codes "entity_id", string id) ∷ []

abbrev pub upgrade_message : Option ProviderError → Text
upgrade_message none = codes "Upgrade failed."
upgrade_message (some e) = type_message e.code

-- After its `await`.
unfoldable pub single_answered : FamilyProps → Text → Outcome Details → FamilyState → FamilyState
unfolding begin_upgrade_page show_upgrade_error as_provider_error type_message
single_answered p entity (fulfilled d) s = idle (
    begin_upgrade_page false
      (tell p upgrade_succeeded (about_entity entity) (act (entity_upgrade_succeeded entity) s)))
single_answered p entity (rejected e) s =
    let noted = act (entity_upgrade_failed entity (upgrade_message (as_provider_error e))) s in
    idle (tell p upgrade_failed (about_entity entity) (show_upgrade_error p e noted))

-- `toggleEntitySelected`
abbrev pub has_text_in : Text → List Text → Bool
has_text_in id ids = any (text_eq id) ids

unfoldable pub toggled : Text → List Text → List Text
toggled id ids =
    if has_text_in id ids
    then keep (λ (other_id : Text). not (text_eq id other_id)) ids
    else ids ++ id ∷ []

unfoldable pub toggle_entity : Text → FamilyState → FamilyState
unfolding toggled
toggle_entity id s = record s { selected_entity_ids = toggled id s.selected_entity_ids }

-- The end of `handlePublish`: the tab is that of the render that made the handler.
unfoldable pub publish_finished :
    FamilyProps → Text → Tab → Outcome (Unit {0}) → FamilyState → FamilyState
unfolding begin_upgrade_page fail_publish
publish_finished p id tab (fulfilled _) s =
    idle (if tab_eq tab upgrade_tab then begin_upgrade_page false s else s)
publish_finished p id tab (rejected e) s = fail_publish p id e s
