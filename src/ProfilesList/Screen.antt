-- ===== src/ProfilesList/Screen.antt =====
-- components/ProfilesWidgetCore.tsx: what the widget renders, the list and the detail with the
-- properties that it gets. Styling and fixed texts are left out.
use mathlib.Core.Path.{◌≡◌, refl}
use native.Mathlib.Omega.{arith}
use april_profile_kilo.Base.{
  Bool, Bool-cases, List, Option, Text, [], false, if◌then◌else◌, inl, inr, none, not, some,
  text_eq, true, ℕ, ◌&&◌, ◌++◌, ◌+◌, ◌||◌, ◌∷◌,
}
use april_profile_kilo.ProfilesList.Handlers.{flow_overlay_opened, is_grid}
use april_profile_kilo.ProfilesList.{ListState, has_text}
use april_profile_kilo.Providers.{ListItem}
use april_profile_kilo.Display.{list_primary_label, list_secondary_label}
use april_profile_kilo.ProfileDetail.Screen.{Place, screen}
use april_profile_kilo.ProfileDetail.{ProfileState}
use april_profile_kilo.ProfilesList.Layout.{modal_header_title, places, selected_row}
use april_profile_kilo.ProfileDetail.Offers.{Test, shown_at}
use april_profile_kilo.FamilyDetail.Drafts.{idle}
use april_profile_kilo.Runtime.{Runtime}
use april_profile_kilo.ProfileDetail.Controls.{Element, Frame}

-- Beside the list, off the screen, in the dialog, and in the sheet of a narrow viewport.
pub data Spot : Type 0 where
  beside_list off_screen in_modal in_sheet : Spot

pub data WidgetPart : Type 0 where
  profiles_loader more_loader : WidgetPart
  profiles_alert overlay_title : Text → WidgetPart
  -- its id, title and description, and whether it is selected
  profile_card : Text → Text → Text → Bool → WidgetPart
  detail_at : Spot → List (Place × Element) → WidgetPart

-- What `renderProfileDetail` passes on and the viewport, with whether the header of the dialog or the
-- sheet is there.
unfoldable pub profile_frame : Bool → Bool → ListState → Frame
unfolding places selected_row
profile_frame narrow ready s =
    let l = places narrow s in
    record {
      narrow = narrow;
      host_chrome =
          (l.modal_opened || l.vaul_opened) && (has_text s.selected || s.grid_create_session);
      header_mounted = (l.modal_opened || l.vaul_opened) && ready;
      embed_create = s.grid_create_session && not (has_text s.selected);
      editing_enabled = true;
      delete_allowed = true;
      list_item = selected_row s;
    }

abbrev is_chosen_card : Option Text → Text → Bool
is_chosen_card none id = false
is_chosen_card (some chosen) id = text_eq chosen id

module _ (rt : Runtime) where
  -- `renderCard`
  unfoldable pub profile_cards : Option Text → List ListItem → List WidgetPart
  unfolding list_primary_label list_secondary_label
  profile_cards selected [] = []
  profile_cards selected (item ∷ items) =
      profile_card item.entity_id (list_primary_label rt item) (list_secondary_label item)
        (is_chosen_card selected item.entity_id)
      ∷ profile_cards selected items

  abbrev pub list_alert_of : Option Text → List WidgetPart
  list_alert_of none = []
  list_alert_of (some []) = []
  list_alert_of (some (c ∷ t)) = profiles_alert (c ∷ t) ∷ []

  abbrev pub spot_if : Bool → Spot → List WidgetPart → List (Place × Element) → List WidgetPart
  spot_if true spot before shown = before ++ detail_at spot shown ∷ []
  spot_if false spot before shown = []

  -- The places that mount the detail.
  unfoldable pub detail_spots : Bool → ListState → Text → List (Place × Element) → List WidgetPart
  unfolding places
  detail_spots narrow s title shown =
      let l = places narrow s in
      spot_if l.shown_inline beside_list [] shown
      ++ spot_if l.mounted_hidden off_screen [] shown
      ++ spot_if l.modal_opened in_modal (overlay_title title ∷ []) shown
      ++ spot_if l.vaul_opened in_sheet (overlay_title title ∷ []) shown

  unfoldable pub widget_parts :
      Bool → Bool → Option Text → ListState → ProfileState → List WidgetPart
  unfolding profile_cards detail_spots profile_frame screen modal_header_title selected_row
  widget_parts narrow ready override s d =
      if s.loading
      then profiles_loader ∷ []
      else list_alert_of s.error_message
        ++ profile_cards s.selected s.items
        ++ (if s.loading_more then more_loader ∷ [] else [])
        ++ detail_spots narrow s (modal_header_title rt (selected_row s) override)
            (screen rt (profile_frame narrow ready s) d)

-- How often the widget shows what the test asks for, wherever it mounts the detail.
abbrev pub shown_in : Test → List WidgetPart → ℕ
shown_in q [] = 0
shown_in q (detail_at spot shown ∷ parts) = shown_at q shown + shown_in q parts
shown_in q (part ∷ parts) = shown_in q parts

shown_in-append :
    (q : Test) (xs ys : List WidgetPart) → shown_in q (xs ++ ys) ≡ shown_in q xs + shown_in q ys
shown_in-append q [] ys = omega arith
shown_in-append q (profiles_loader ∷ xs) ys = shown_in-append q xs ys
shown_in-append q (more_loader ∷ xs) ys = shown_in-append q xs ys
shown_in-append q (profiles_alert t ∷ xs) ys = shown_in-append q xs ys
shown_in-append q (overlay_title t ∷ xs) ys = shown_in-append q xs ys
shown_in-append q (profile_card a b c d ∷ xs) ys = shown_in-append q xs ys
shown_in-append q (detail_at spot shown ∷ xs) ys = omega (arith, shown_in-append q xs ys)

module _ (rt : Runtime) (q : Test) where
  cards_show_none :
      (selected : Option Text) (items : List ListItem)
      → shown_in q (profile_cards rt selected items) ≡ 0
  unfolding profile_cards
  cards_show_none selected [] = refl
  cards_show_none selected (item ∷ items) = cards_show_none selected items

  alert_shows_none : (t : Option Text) → shown_in q (list_alert_of rt t) ≡ 0
  alert_shows_none none = refl
  alert_shows_none (some []) = refl
  alert_shows_none (some (c ∷ t)) = refl

  spot_shows :
      (b : Bool) (spot : Spot) (shown : List (Place × Element))
      → shown_in q (spot_if rt b spot [] shown) ≡ (if b then shown_at q shown else 0)
  spot_shows true spot shown = omega arith
  spot_shows false spot shown = refl

  titled_spot_shows :
      (b : Bool) (spot : Spot) (title : Text) (shown : List (Place × Element))
      → shown_in q (spot_if rt b spot (overlay_title title ∷ []) shown)
        ≡ (if b then shown_at q shown else 0)
  titled_spot_shows true spot title shown = omega arith
  titled_spot_shows false spot title shown = refl

  -- The detail is mounted once, or not at all in a grid with nothing to show.
  spots_show :
      (narrow : Bool) (s : ListState) (title : Text) (shown : List (Place × Element))
      → shown_in q (detail_spots rt narrow s title shown) ≡ (
          if is_grid s.view && not (has_text s.selected) && not s.grid_create_session
          then 0
          else shown_at q shown)
  unfolding detail_spots places flow_overlay_opened
  spots_show true s title shown =
      simp (shown_in-append, spot_shows, titled_spot_shows) (ground arith)
  spots_show false s title shown =
      simp (shown_in-append, spot_shows, titled_spot_shows) (ground arith)

  pub widget_shows :
      (narrow ready : Bool) (override : Option Text) (s : ListState) (d : ProfileState)
      → shown_in q (widget_parts rt narrow ready override s d) ≡ (
          if s.loading || (is_grid s.view && not (has_text s.selected) && not s.grid_create_session)
          then 0
          else shown_at q (screen rt (profile_frame narrow ready s) d))
  unfolding widget_parts
  widget_shows narrow ready override s d = elim (Bool-cases s.loading) [
    | inl busy ↦ rw (widget_parts, busy) refl
    | inr idle ↦
        rw (widget_parts, idle)
          (simp shown_in-append (
            ground (
              arith,
              alert_shows_none s.error_message,
              cards_show_none s.selected s.items,
              spots_show narrow s (modal_header_title rt (selected_row s) override)
                  (screen rt (profile_frame narrow ready s) d),
            )))
  ]
