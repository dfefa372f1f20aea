-- ===== src/FamilyDetail/Screen.antt =====
-- components/EntityTypesWidgetDetailCore.tsx: what the component renders. Styling and fixed texts are
-- left out; of the three panels the one on view is rendered.
use april_profile_kilo.Base.{
  Bool, List, Option, Text, [], codes, decimal, false, find, if◌then◌else◌, is_nil, length, map,
  none, not, some, take, text_eq, true, ℕ, ◌++◌, ◌||◌, ◌∷◌,
}
use april_profile_kilo.Editor.{Parsed, is_source, parse_draft, parsed, refused}
use april_profile_kilo.FamilyDetail.{FamilyState, Tab, draft_tab, given, revisions_tab, upgrade_tab}
use april_profile_kilo.Runtime.{Runtime}
use april_profile_kilo.FamilyDetail.Upgrades.{has_text_in}
use april_profile_kilo.Providers.EntityTypes.{FamilyDetail, Revision}
use april_profile_kilo.Value.{Value}
use april_profile_kilo.Providers.{ListItem}

-- A Boolean argument says that the piece is disabled, a last one that it shows as loading.
pub data Piece : Type 0 where
  choose_alert family_loader edit_family_button delete_family_button : Piece
  message_alert error_alert upgrade_alert : Text → Piece
  family_heading : Text → Text → Text → Piece
  conflict_alert draft_editor : Piece
  reload_button publish_button : Bool → Piece
  save_draft_button upgrade_behind_button : Bool → Bool → Piece
  revisions_loader no_revisions_alert upgrade_loader upgrade_help : Piece
  revision_piece : Revision → Bool → Piece
  revision_schema : ℕ → Value → Piece
  target_select : List (Text × Text) → Bool → Piece
  upgrade_selected_button : ℕ → Bool → Bool → Piece
  -- the entity, its version and whether it is selected
  entity_piece : Text → ℕ → Bool → Piece
  upgrade_one_button : Text → Bool → Bool → Piece
  load_more_button : Bool → Piece
  patch_dialog : Text → Text → Bool → Piece
  delete_dialog : Bool → Piece

abbrev pub piece_if : Bool → Piece → List Piece
piece_if true piece = piece ∷ []
piece_if false piece = []

-- `busy === name`
abbrev pub busy_with : Text → FamilyState → Bool
busy_with name s = elim s.busy [ none ↦ false | some b ↦ text_eq b name ]

-- An alert of a message that is neither missing nor empty.
abbrev pub alert_of : (Text → Piece) → Option Text → List Piece
alert_of alert none = []
alert_of alert (some []) = []
alert_of alert (some (c ∷ s)) = alert (c ∷ s) ∷ []

abbrev pub reads : Parsed → Bool
reads (parsed fs) = true
reads (refused message) = false

-- `draftSaveParseOk`
unfoldable pub draft_can_save : Runtime → FamilyState → Bool
unfolding parse_draft
draft_can_save rt s =
    if is_source s.draft_mode then reads (parse_draft rt s.draft_source_text) else true

-- The panel of the draft.
unfoldable pub draft_panel : Runtime → FamilyState → List Piece
unfolding draft_can_save
draft_panel rt s =
    (if s.draft_conflict
      then conflict_alert ∷ reload_button (busy_with (codes "reload") s) ∷ []
      else [])
    ++ draft_editor
      ∷ save_draft_button (not (draft_can_save rt s)) (busy_with (codes "save-draft") s)
      ∷ publish_button (busy_with (codes "publish") s)
      ∷ []

abbrev pub is_chosen : Option Text → Revision → Bool
is_chosen none r = false
is_chosen (some id) r = text_eq r.id id

-- `selectedRevision`
abbrev pub chosen_revision : FamilyState → Option Revision
chosen_revision s = find (is_chosen s.selected_revision) s.revisions

abbrev pub schema_of_chosen : Option Revision → List Piece
schema_of_chosen none = []
schema_of_chosen (some r) = revision_schema r.revision_no r.schema ∷ []

-- The panel of the revisions.
unfoldable pub revisions_panel : FamilyState → List Piece
revisions_panel s =
    if s.revisions_loading
    then revisions_loader ∷ []
    else if is_nil s.revisions
    then no_revisions_alert ∷ []
    else map (λ (r : Revision). revision_piece r (is_chosen s.selected_revision r)) s.revisions
      ++ schema_of_chosen (chosen_revision s)

-- `targetRevisionSelectData`
abbrev pub target_option : Revision → Text × Text
target_option r =
    (r.id, codes "Revision " ++ decimal r.revision_no ++ codes " (" ++ take 8 r.id ++ codes "…)")

abbrev pub upgrade_row : FamilyState → ListItem → List Piece
upgrade_row s row =
    entity_piece row.entity_id row.version (has_text_in row.entity_id s.selected_entity_ids)
    ∷ upgrade_one_button row.entity_id (is_nil s.revisions)
        (busy_with (codes "up-" ++ row.entity_id) s)
    ∷ []

unfoldable pub upgrade_rows : FamilyState → List ListItem → List Piece
upgrade_rows s [] = []
upgrade_rows s (row ∷ rows) = upgrade_row s row ++ upgrade_rows s rows

-- A cursor that is there and not empty.
abbrev pub has_more : Option Text → Bool
has_more none = false
has_more (some []) = false
has_more (some (c ∷ s)) = true

-- The panel of the upgrade.
unfoldable pub upgrade_panel : FamilyState → List Piece
unfolding upgrade_rows
upgrade_panel s =
    upgrade_help
      ∷ target_select (map target_option s.revisions) (is_nil s.revisions)
      ∷ alert_of upgrade_alert s.upgrade_error
    ++ upgrade_selected_button (length s.selected_entity_ids)
        (is_nil s.selected_entity_ids || is_nil s.revisions) (busy_with (codes "batch") s)
      ∷ upgrade_behind_button (is_nil s.revisions) (busy_with (codes "batch-behind") s)
      ∷ (if s.upgrade_loading then upgrade_loader ∷ [] else upgrade_rows s s.upgrade_entities)
    ++ piece_if (has_more s.upgrade_next_cursor) (load_more_button s.upgrade_loading_more)

unfoldable pub panel : Runtime → FamilyState → Tab → List Piece
unfolding draft_panel revisions_panel upgrade_panel
panel rt s draft_tab = draft_panel rt s
panel rt s revisions_tab = revisions_panel s
panel rt s upgrade_tab = upgrade_panel s

unfoldable pub family_part : Runtime → FamilyState → Option FamilyDetail → List Piece
unfolding panel
family_part rt s none = []
family_part rt s (some d) =
    family_heading d.namespace d.code d.id
    ∷ edit_family_button
    ∷ delete_family_button
    ∷ panel rt s s.active_tab

unfoldable pub detail_pieces : Runtime → FamilyState → Option Text → List Piece
unfolding family_part
detail_pieces rt s none = choose_alert ∷ []
detail_pieces rt s (some id) =
    if s.detail_loading
    then family_loader ∷ []
    else if is_nil (alert_of error_alert s.detail_error)
    then family_part rt s s.family_detail
    else alert_of error_alert s.detail_error

-- The whole component.
unfoldable pub family_screen : Runtime → FamilyState → List Piece
unfolding detail_pieces
family_screen rt s =
    alert_of message_alert s.mutation_message
    ++ detail_pieces rt s (given s.family_id)
    ++ piece_if s.patch_opened
        (patch_dialog s.patch_namespace s.patch_code (busy_with (codes "patch") s))
    ++ piece_if s.delete_opened (delete_dialog (busy_with (codes "delete") s))

-- "Edit namespace/code": the dialog opens with the names of the family.
unfoldable pub open_patch : FamilyDetail → FamilyState → FamilyState
open_patch d s = record s {
  patch_namespace = d.namespace;
  patch_code = d.code;
  patch_opened = true;
}

-- The dialogs' cancellation.
unfoldable pub cancel_patch : FamilyState → FamilyState
cancel_patch s = record s { patch_opened = false }

unfoldable pub cancel_delete : FamilyState → FamilyState
cancel_delete s = record s { delete_opened = false }
