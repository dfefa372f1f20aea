-- ===== src/ProfileDetail/Drafts.antt =====
-- components/ProfilesWidgetProfileDetailCore.tsx: the editor of the draft on the screen, and the toolbar
-- that drives it.
use mathlib.Core.Path.{◌≡◌, refl}
use native.Mathlib.Omega.{arith}
use april_profile_kilo.ProfileDetail.Controls.{
  Frame, detail_toolbar, edit_document, edit_toolbar, shell_controls,
}
use april_profile_kilo.ProfileDetail.Screen.{
  create_actions, create_part, creates_inline, detail_part, document_part, screen,
}
use april_profile_kilo.Base.{
  Bool-cases, false, if◌then◌else◌, inl, inr, is_some, not, true, ◌&&◌, ◌||◌,
}
use april_profile_kilo.ProfileDetail.Counts.{
  SkipsTexts, detail_counted, header_counted, main_counted, overlays_counted, screen_counted,
}
use april_profile_kilo.ProfileDetail.Offers.{
  Test, how_many, how_many-append, how_many-shown_if, shown_at, shown_at-append, shown_at-placed,
}
use april_profile_kilo.ProfilesList.Layout.{tally}
use april_profile_kilo.Runtime.{Runtime}
use april_profile_kilo.ProfileDetail.{ProfileState, is_historical}
use april_profile_kilo.Demo.{all_of}

abbrev pub is_draft_toolbar : Test
is_draft_toolbar edit_toolbar = true
is_draft_toolbar e = false

abbrev pub is_draft_editor : Test
is_draft_editor edit_document = true
is_draft_editor e = false

module _ (rt : Runtime) (f : Frame) (s : ProfileState) where
  toolbar_drafts : how_many is_draft_toolbar (all_of (detail_toolbar rt f s)) ≡ (
      if f.narrow then 0 else tally (not s.details_loading && s.edit_mode && not (is_historical s)))
  unfolding detail_toolbar
  toolbar_drafts = elim (Bool-cases f.narrow) [
    | inl small ↦ rw small refl
    | inr wide ↦ rw wide (simp (how_many-append, how_many-shown_if) (ground arith))
  ]

  toolbar_editors : how_many is_draft_editor (all_of (detail_toolbar rt f s)) ≡ 0
  unfolding detail_toolbar
  toolbar_editors = elim (Bool-cases f.narrow) [
    | inl small ↦ rw small refl
    | inr wide ↦ rw wide (simp (how_many-append, how_many-shown_if) (ground arith))
  ]

  shell_drafts : how_many is_draft_toolbar (shell_controls rt f s) ≡ (
      if f.narrow && is_some f.list_item
      then tally (not s.details_loading && s.edit_mode && not (is_historical s))
      else 0)
  unfolding shell_controls
  shell_drafts = simp (how_many-append, how_many-shown_if) (ground arith)

  shell_editors : how_many is_draft_editor (shell_controls rt f s) ≡ 0
  unfolding shell_controls
  shell_editors = simp (how_many-append, how_many-shown_if) (ground arith)

  document_drafts : shown_at is_draft_toolbar (document_part rt f s) ≡ (
      if f.narrow && is_some f.list_item && not s.version_sheet
      then tally (not s.details_loading && s.edit_mode && not (is_historical s))
      else 0)
  unfolding document_part
  document_drafts =
      simp (shown_at-append, shown_at-placed, how_many-shown_if) (ground (arith, shell_drafts))

  document_editors :
      shown_at is_draft_editor (document_part rt f s)
      ≡ tally (f.editing_enabled && s.edit_mode && not (is_historical s))
  unfolding document_part
  document_editors =
      simp (shown_at-append, shown_at-placed, how_many-shown_if) (ground (arith, shell_editors))

  create_drafts :
      (shown_at is_draft_toolbar (create_part rt f s) ≡ 0)
      × (shown_at is_draft_editor (create_part rt f s) ≡ 0)
  unfolding create_part create_actions
  create_drafts = (
    simp (shown_at-append, shown_at-placed, how_many-shown_if) (ground arith),
    simp (shown_at-append, shown_at-placed, how_many-shown_if) (ground arith),
  )

  toolbar_SkipsTexts : SkipsTexts is_draft_toolbar
  toolbar_SkipsTexts = (λ v l b. refl, λ t. refl, λ t. refl, λ t. refl)

  editor_SkipsTexts : SkipsTexts is_draft_editor
  editor_SkipsTexts = (λ v l b. refl, λ t. refl, λ t. refl, λ t. refl)

  detail_drafts :
      is_some f.list_item ≡ true
      → shown_at is_draft_toolbar (detail_part rt f s) ≡ (
          if s.details_loading || not s.edit_mode || is_historical s
          then 0
          else if f.narrow
          then tally (not s.version_sheet)
          else tally (not f.host_chrome || f.header_mounted))
  detail_drafts h = ground (
    arith,
    detail_counted is_draft_toolbar toolbar_SkipsTexts rt f s,
    header_counted is_draft_toolbar toolbar_SkipsTexts rt f s,
    toolbar_drafts,
    document_drafts,
  )

  detail_editors : shown_at is_draft_editor (detail_part rt f s) ≡ (
      if s.details_loading || not s.edit_mode || is_historical s
      then 0
      else tally f.editing_enabled)
  detail_editors = ground (
    arith,
    detail_counted is_draft_editor editor_SkipsTexts rt f s,
    header_counted is_draft_editor editor_SkipsTexts rt f s,
    toolbar_editors,
    document_editors,
  )

  pub draft_editor_shown : shown_at is_draft_editor (screen rt f s) ≡ (
      if creates_inline f s
        || not (is_some f.list_item)
        || s.details_loading
        || not s.edit_mode
        || is_historical s
      then 0
      else tally f.editing_enabled)
  draft_editor_shown = ground (
    arith,
    screen_counted is_draft_editor editor_SkipsTexts rt f s,
    overlays_counted is_draft_editor editor_SkipsTexts rt f s,
    main_counted is_draft_editor rt f s,
    create_drafts.1,
    detail_editors,
  )

  pub draft_toolbar_shown : shown_at is_draft_toolbar (screen rt f s) ≡ (
      if creates_inline f s
        || not (is_some f.list_item)
        || s.details_loading
        || not s.edit_mode
        || is_historical s
      then 0
      else if f.narrow
      then tally (not s.version_sheet)
      else tally (not f.host_chrome || f.header_mounted))
  draft_toolbar_shown = elim (Bool-cases (is_some f.list_item)) [
    | inl there ↦ ground (
      arith,
      screen_counted is_draft_toolbar toolbar_SkipsTexts rt f s,
      overlays_counted is_draft_toolbar toolbar_SkipsTexts rt f s,
      main_counted is_draft_toolbar rt f s,
      create_drafts.0,
      detail_drafts there,
    )
    | inr missing ↦ ground (
      arith,
      screen_counted is_draft_toolbar toolbar_SkipsTexts rt f s,
      overlays_counted is_draft_toolbar toolbar_SkipsTexts rt f s,
      main_counted is_draft_toolbar rt f s,
      create_drafts.0,
    )
  ]
