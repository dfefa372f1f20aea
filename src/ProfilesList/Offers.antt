-- ===== src/ProfilesList/Offers.antt =====
-- components/ProfilesWidgetCore.tsx with the detail that it mounts: what the two offer together.
use mathlib.Core.Path.{◌≡◌}
use native.Mathlib.Omega.{arith}
use april_profile_kilo.ProfilesList.{ListState, has_text}
use april_profile_kilo.Base.{
  Bool, Bool-cases, Option, Text, false, if◌then◌else◌, inl, inr, is_some, not, true, ◌&&◌, ◌||◌,
}
use april_profile_kilo.ProfileDetail.Offers.{is_create_editor, is_delete, shown_at}
use april_profile_kilo.ProfilesList.Handlers.{flow_overlay_opened, is_grid}
use april_profile_kilo.ProfilesList.Screen.{profile_frame, shown_in, widget_parts, widget_shows}
use april_profile_kilo.ProfileDetail.{ProfileState}
use april_profile_kilo.ProfileDetail.Screen.{creates_inline, screen}
use april_profile_kilo.ProfileDetail.OnScreen.{create_editor_once, delete_offered_once}
use april_profile_kilo.ProfilesList.Layout.{places, selected_row, tally}
use april_profile_kilo.Runtime.{Runtime}

module _ (rt : Runtime) (narrow ready : Bool) (override : Option Text) (s : ListState)
    (d : ProfileState) where
  selected_frame :
      is_some (selected_row s) ≡ has_text s.selected
      → has_text s.selected ≡ true
      → shown_at is_delete (screen rt (profile_frame narrow ready s) d) ≡ (
          if narrow && d.create_opened
          then 0
          else if narrow
          then tally (not d.details_loading && not d.version_sheet)
          else tally (ready || not (is_grid s.view)))
  unfolding profile_frame places creates_inline flow_overlay_opened
  selected_frame listed chosen =
      ground (arith, delete_offered_once rt (profile_frame narrow ready s) d)

  unselected_frame :
      is_some (selected_row s) ≡ has_text s.selected
      → has_text s.selected ≡ false
      → shown_at is_delete (screen rt (profile_frame narrow ready s) d) ≡ 0
  unfolding profile_frame places
  unselected_frame listed missing =
      ground (arith, delete_offered_once rt (profile_frame narrow ready s) d)

  -- Where a profile that is selected is in the list, the widget, list and detail together, shows the
  -- button that deletes it exactly once, and none where no profile is selected, while the list loads
  -- or, on a narrow viewport, while a profile is created. On a narrow viewport the profile must have
  -- loaded and the list of its versions be closed; in a wide grid the dialog's header must be there.
  pub delete_shown_once :
      is_some (selected_row s) ≡ has_text s.selected
      → shown_in is_delete (widget_parts rt narrow ready override s d) ≡ (
          if s.loading || not (has_text s.selected) || (narrow && d.create_opened)
          then 0
          else if narrow
          then tally (not d.details_loading && not d.version_sheet)
          else tally (ready || not (is_grid s.view)))
  delete_shown_once listed = elim (Bool-cases (has_text s.selected)) [
    | inl chosen ↦
        ground
          (arith, widget_shows rt is_delete narrow ready override s d, selected_frame listed chosen)
    | inr missing ↦ ground (
      arith,
      widget_shows rt is_delete narrow ready override s d,
      unselected_frame listed missing,
    )
  ]

  -- While a profile is created, the widget shows the editor of the new profile exactly once, wherever
  -- it mounts the detail; otherwise, while the list loads, and in a grid with nothing to show, never.
  pub creator_shown_once : shown_in is_create_editor (widget_parts rt narrow ready override s d) ≡ (
      if s.loading || (is_grid s.view && not (has_text s.selected) && not s.grid_create_session)
      then 0
      else tally d.create_opened)
  creator_shown_once = ground (
    arith,
    widget_shows rt is_create_editor narrow ready override s d,
    create_editor_once rt (profile_frame narrow ready s) d,
  )
