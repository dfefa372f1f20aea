-- ===== src/ProfileDetail/OnScreen.antt =====
-- components/ProfilesWidgetProfileDetailCore.tsx: what the screen offers, in every state.
use mathlib.Core.Path.{◌≡◌, refl}
use native.Mathlib.Omega.{arith}
use april_profile_kilo.ProfileDetail.Offers.{
  how_many, how_many-append, how_many-shown_if, is_delete, shown_at, shown_at-append,
  shown_at-placed, is_create_editor, is_edit,
}
use april_profile_kilo.Base.{
  Bool-cases, if◌then◌else◌, inl, inr, is_some, not, true, ◌&&◌, ◌||◌, false,
}
use april_profile_kilo.Demo.{all_of}
use april_profile_kilo.ProfileDetail.Counts.{
  SkipsTexts, detail_counted, header_counted, main_counted, overlays_counted, screen_counted,
}
use april_profile_kilo.ProfileDetail.Screen.{
  create_actions, create_part, creates_inline, detail_part, document_part, screen,
}
use april_profile_kilo.ProfileDetail.{ProfileState, is_historical}
use april_profile_kilo.ProfileDetail.Controls.{Frame, detail_toolbar, shell_controls}
use april_profile_kilo.Runtime.{Runtime}
use april_profile_kilo.ProfilesList.Layout.{tally}

module _ (rt : Runtime) (f : Frame) (s : ProfileState) where
  -- The controls of a wide viewport and of a narrow one, counted.
  toolbar_deletes :
      how_many is_delete (all_of (detail_toolbar rt f s))
      ≡ (if f.narrow then 0 else tally f.delete_allowed)
  unfolding detail_toolbar
  toolbar_deletes = elim (Bool-cases f.narrow) [
    | inl small ↦ rw small refl
    | inr wide ↦ rw wide (simp (how_many-append, how_many-shown_if) (ground arith))
  ]

  shell_deletes :
      how_many is_delete (shell_controls rt f s)
      ≡ (if f.narrow && is_some f.list_item then tally f.delete_allowed else 0)
  unfolding shell_controls
  shell_deletes = simp (how_many-append, how_many-shown_if) (ground arith)

  document_deletes : shown_at is_delete (document_part rt f s) ≡ (
      if f.narrow && is_some f.list_item && not s.version_sheet then tally f.delete_allowed else 0)
  unfolding document_part
  document_deletes =
      simp (shown_at-append, shown_at-placed, how_many-shown_if) (ground (arith, shell_deletes))

  create_deletes : shown_at is_delete (create_part rt f s) ≡ 0
  unfolding create_part create_actions
  create_deletes = simp (shown_at-append, shown_at-placed, how_many-shown_if) (ground arith)

  delete_SkipsTexts : SkipsTexts is_delete
  delete_SkipsTexts = (λ v l b. refl, λ t. refl, λ t. refl, λ t. refl)

  detail_deletes :
      is_some f.list_item ≡ true
      → shown_at is_delete (detail_part rt f s) ≡ (
          if not f.delete_allowed
          then 0
          else if f.narrow
          then tally (not s.details_loading && not s.version_sheet)
          else tally (not f.host_chrome || f.header_mounted))
  detail_deletes h = ground (
    arith,
    detail_counted is_delete delete_SkipsTexts rt f s,
    header_counted is_delete delete_SkipsTexts rt f s,
    toolbar_deletes,
    document_deletes,
  )

  -- The button that deletes the profile is on the screen once where deletion is allowed and a profile
  -- is selected and none is being created in its place: on a narrow viewport if the profile has loaded
  -- and the list of versions is closed, on a wide one if the header is the component's own or the
  -- host's is there. Otherwise it is not on the screen.
  pub delete_offered_once : shown_at is_delete (screen rt f s) ≡ (
      if creates_inline f s || not (is_some f.list_item) || not f.delete_allowed
      then 0
      else if f.narrow
      then tally (not s.details_loading && not s.version_sheet)
      else tally (not f.host_chrome || f.header_mounted))
  delete_offered_once = elim (Bool-cases (is_some f.list_item)) [
    | inl there ↦ ground (
      arith,
      screen_counted is_delete delete_SkipsTexts rt f s,
      overlays_counted is_delete delete_SkipsTexts rt f s,
      main_counted is_delete rt f s,
      create_deletes,
      detail_deletes there,
    )
    | inr missing ↦ ground (
      arith,
      screen_counted is_delete delete_SkipsTexts rt f s,
      overlays_counted is_delete delete_SkipsTexts rt f s,
      main_counted is_delete rt f s,
      create_deletes,
    )
  ]

  edit_SkipsTexts : SkipsTexts is_edit
  edit_SkipsTexts = (λ v l b. refl, λ t. refl, λ t. refl, λ t. refl)

  create_edits : shown_at is_edit (create_part rt f s) ≡ 0
  unfolding create_part create_actions
  create_edits = simp (shown_at-append, shown_at-placed, how_many-shown_if) (ground arith)

  document_edits :
      ((f.editing_enabled || s.edit_mode) && not (is_historical s)) ≡ false
      → shown_at is_edit (document_part rt f s) ≡ 0
  unfolding document_part shell_controls
  document_edits h =
      simp (shown_at-append, shown_at-placed, how_many-append, how_many-shown_if) (ground arith)

  toolbar_edits :
      ((f.editing_enabled || s.edit_mode) && not (is_historical s)) ≡ false
      → how_many is_edit (all_of (detail_toolbar rt f s)) ≡ 0
  unfolding detail_toolbar
  toolbar_edits h = elim (Bool-cases f.narrow) [
    | inl small ↦ rw small refl
    | inr wide ↦ rw wide (simp (how_many-append, how_many-shown_if) (ground arith))
  ]

  -- With an older version on view, or with editing disabled and no draft open, nothing on the screen
  -- edits the document: there is no draft, no toolbar of one, and no control that starts, saves or
  -- cancels an edit. (The button that brings an older version back is no edit of a draft.)
  pub no_edit_when_read_only :
      ((f.editing_enabled || s.edit_mode) && not (is_historical s)) ≡ false
      → shown_at is_edit (screen rt f s) ≡ 0
  no_edit_when_read_only h = ground (
    arith,
    screen_counted is_edit edit_SkipsTexts rt f s,
    overlays_counted is_edit edit_SkipsTexts rt f s,
    main_counted is_edit rt f s,
    create_edits,
    detail_counted is_edit edit_SkipsTexts rt f s,
    header_counted is_edit edit_SkipsTexts rt f s,
    toolbar_edits h,
    document_edits h,
  )

  creator_SkipsTexts : SkipsTexts is_create_editor
  creator_SkipsTexts = (λ v l b. refl, λ t. refl, λ t. refl, λ t. refl)

  create_creators : shown_at is_create_editor (create_part rt f s) ≡ 1
  unfolding create_part create_actions
  create_creators = simp (shown_at-append, shown_at-placed, how_many-shown_if) (ground arith)

  document_creators : shown_at is_create_editor (document_part rt f s) ≡ 0
  unfolding document_part shell_controls
  document_creators =
      simp (shown_at-append, shown_at-placed, how_many-append, how_many-shown_if) (ground arith)

  toolbar_creators : how_many is_create_editor (all_of (detail_toolbar rt f s)) ≡ 0
  unfolding detail_toolbar
  toolbar_creators = elim (Bool-cases f.narrow) [
    | inl small ↦ rw small refl
    | inr wide ↦ rw wide (simp (how_many-append, how_many-shown_if) (ground arith))
  ]

  -- The editor of a new profile is on the screen exactly once while a profile is being created, in the
  -- column or in the dialog, and not at all otherwise.
  pub create_editor_once : shown_at is_create_editor (screen rt f s) ≡ tally s.create_opened
  create_editor_once = ground (
    arith,
    screen_counted is_create_editor creator_SkipsTexts rt f s,
    overlays_counted is_create_editor creator_SkipsTexts rt f s,
    main_counted is_create_editor rt f s,
    create_creators,
    detail_counted is_create_editor creator_SkipsTexts rt f s,
    header_counted is_create_editor creator_SkipsTexts rt f s,
    toolbar_creators,
    document_creators,
  )
