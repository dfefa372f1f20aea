-- ===== src/ProfilesList/Layout.antt =====
-- components/ProfilesWidgetCore.tsx: where the detail of a profile is shown, and the labels of the
-- list.
use april_profile_kilo.Base.{
  Bool, List, Option, Text, [], any, arith, codes, false, find, if◌then◌else◌, none, not, some,
  text_eq, trim, true, ℕ, ◌&&◌, ◌++◌, ◌+◌, ◌||◌, ◌∷◌, ◌≡◌,
}
use april_profile_kilo.ProfilesList.Handlers.{add_item, create_frame, flow_overlay_opened, is_grid}
use april_profile_kilo.Display.{list_primary_label, list_secondary_label}
use april_profile_kilo.ProfilesList.{ListState, has_text, open_create}
use april_profile_kilo.Providers.{ListItem}
use april_profile_kilo.Runtime.{Runtime}
use april_profile_kilo.Demo.Refinement.{seen}

-- The booleans that the render derives from the view, the viewport, the selection and the create
-- session.
pub record Places : Type 0 where
  pub vaul_opened : Bool
  pub modal_opened : Bool
  pub shown_inline : Bool
  pub mounted_hidden : Bool

abbrev pub detail_opened : Bool → ListState → Bool
detail_opened narrow s = narrow && not (is_grid s.view) && has_text s.selected

abbrev pub create_overlay : Bool → ListState → Bool
create_overlay narrow s =
    narrow && not (is_grid s.view) && s.grid_create_session && not (has_text s.selected)

abbrev pub stack_overlay : ListState → Bool
stack_overlay s = is_grid s.view && (has_text s.selected || s.grid_create_session)

unfoldable pub places : Bool → ListState → Places
unfolding flow_overlay_opened
places narrow s = record {
  vaul_opened = narrow && (flow_overlay_opened narrow s || detail_opened narrow s);
  modal_opened = not narrow && stack_overlay s;
  shown_inline = not (is_grid s.view) && not narrow;
  mounted_hidden =
      narrow
      && not (is_grid s.view)
      && not (detail_opened narrow s)
      && not (create_overlay narrow s);
}

abbrev pub tally : Bool → ℕ
tally true = 1
tally false = 0

-- How many of the four places mount the detail component.
abbrev pub mounts : Places → ℕ
mounts l =
    tally l.vaul_opened + tally l.modal_opened + tally l.shown_inline + tally l.mounted_hidden

-- The detail component is mounted in exactly one place, but for the grid with nothing selected and
-- no profile being created, where it is mounted in none.
pub detail_mounted_once :
    (narrow : Bool) (s : ListState)
    → mounts (places narrow s)
      ≡ (if is_grid s.view && not (has_text s.selected) && not s.grid_create_session then 0 else 1)
unfolding places
detail_mounted_once true s = ground arith
detail_mounted_once false s = ground arith

-- Adding a profile reaches the create dialog of the detail component: at once in the wide list, and
-- in the next frame otherwise, unless a narrow list has a profile selected.
pub add_item_opens_create :
    (narrow : Bool) (s : ListState)
    → s.pending_open_create ≡ false
    → (is_grid s.view || not narrow || not (has_text s.selected)) ≡ true
    → (create_frame narrow (add_item narrow s)).detail_calls ≡ s.detail_calls ++ open_create ∷ []
unfolding create_frame add_item
add_item_opens_create true s h e = ground arith
add_item_opens_create false s h e = ground arith

module _ (rt : Runtime) where
  -- `gridModalHeaderTitle`, with the row that is selected and the title that the detail has set.
  unfoldable pub modal_header_title : Option ListItem → Option Text → Text
  unfolding trim
  modal_header_title none override = codes "Create profile"
  modal_header_title (some row) none = list_primary_label rt row
  modal_header_title (some row) (some title) = elim (trim title) [
    | [] ↦ list_primary_label rt row
    | c ∷ t ↦ c ∷ t
  ]

  pub record Card : Type 0 where
    pub id : Text
    pub title : Text
    pub description : Text
    pub search_text : Text

  -- `listItems`
  unfoldable pub card_of : ListItem → Card
  unfolding list_primary_label list_secondary_label
  card_of item = record {
    id = item.entity_id;
    title = list_primary_label rt item;
    description = list_secondary_label item;
    search_text =
        item.entity_id
        ++ b' ' ∷ item.preview
        ++ b' ' ∷ item.entity_type_id
        ++ b' ' ∷ list_primary_label rt item;
  }

-- `selectedRow`
unfoldable pub selected_row : ListState → Option ListItem
selected_row s = elim s.selected [
  | none ↦ none
  | some [] ↦ none
  | some (c ∷ id) ↦ find (λ (item : ListItem). text_eq item.entity_id (c ∷ id)) s.items
]

-- The ids of `typeOptions` after "all": each type of the list once, in order of appearance.
unfoldable pub unique_types : List Text → List ListItem → List Text
unique_types seen [] = []
unique_types seen (item ∷ items) =
    if any (text_eq item.entity_type_id) seen
    then unique_types seen items
    else item.entity_type_id ∷ unique_types (item.entity_type_id ∷ seen) items
