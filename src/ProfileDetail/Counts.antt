-- ===== src/ProfileDetail/Counts.antt =====
-- components/ProfilesWidgetProfileDetailCore.tsx: where a control is on the screen, and how often.
use mathlib.Core.Path.{◌≡◌, refl}
use native.Mathlib.Omega.{arith}
use april_profile_kilo.ProfileDetail.Screen.{
  alert_if, card_header, column, create_actions, create_icons, detail_part, document_part,
  main_part, overlays, placed, screen, sort_desc, version_element, version_rows, host_header, Place,
  create_part, creates_inline,
}
use april_profile_kilo.ProfileDetail.Controls.{
  Frame, card_title, create_editor, detail_toolbar, details_alert, details_loader, history_alert,
  is_compact, lacks_versions, mutation_alert, no_versions, version_row, version_select, Element,
  shown_if, nothing_alert,
}
use april_profile_kilo.ProfileDetail.Offers.{
  Test, how_many, how_many-append, how_many-shown_if, shown_at, shown_at-append, shown_at-placed,
}
use april_profile_kilo.Base.{
  Bool, List, Option, Text, [], false, if◌then◌else◌, is_nil, map, none, not, some, ℕ, ◌&&◌, ◌++◌,
  ◌+◌, ◌∷◌, true, Bool-cases, inl, inr, is_some,
}
use april_profile_kilo.ProfileDetail.{ProfileState, is_historical}
use april_profile_kilo.Runtime.{Runtime}
use april_profile_kilo.ProfilesList.Layout.{tally}
use april_profile_kilo.Demo.{all_of}
use april_profile_kilo.ProfileDetail.Schemas.{card_name}
use april_profile_kilo.FamilyDetail.Drafts.{idle}

-- A test that no row of the version sheet, alert or title passes.
abbrev pub SkipsTexts : Test → Type 0
SkipsTexts p =
    ((v l : Text) (b : Bool) → p (version_row v l b) ≡ false)
    × ((t : Text) → p (details_alert t) ≡ false)
    × ((t : Text) → p (mutation_alert t) ≡ false)
    × ((t : Text) → p (card_title t) ≡ false)

module _ (p : Test) (skips : SkipsTexts p) where
  rows_skipped : (s : ProfileState) (vs : List ℕ) → how_many p (map (version_element s) vs) ≡ 0
  rows_skipped s [] = refl
  rows_skipped s (v ∷ vs) = rw (skips.0, rows_skipped s vs) refl

  version_rows_skipped : (s : ProfileState) → how_many p (version_rows s) ≡ 0
  unfolding version_rows
  version_rows_skipped s = rows_skipped s (sort_desc s.versions)

  details_alert_skipped : (o : Option Text) → how_many p (alert_if details_alert o) ≡ 0
  details_alert_skipped none = refl
  details_alert_skipped (some []) = refl
  details_alert_skipped (some (c ∷ t)) = rw (skips.1) refl

  mutation_alert_skipped : (o : Option Text) → how_many p (alert_if mutation_alert o) ≡ 0
  mutation_alert_skipped none = refl
  mutation_alert_skipped (some []) = refl
  mutation_alert_skipped (some (c ∷ t)) = rw (skips.2) refl

  header_cases :
      (host_chrome narrow : Bool) (name : Text) (picker : Element) (bar : List Element)
      → (if not host_chrome
          then how_many p (card_title name ∷ (if narrow then picker ∷ [] else bar))
          else 0)
        ≡ (if host_chrome then 0 else if narrow then tally (p picker) else how_many p bar)
  header_cases true narrow name picker bar = refl
  header_cases false true name picker bar = rw (skips.3) (omega arith)
  header_cases false false name picker bar = rw (skips.3) (omega arith)

  parts_counted :
      (barred historical loading : Bool) (bar header alerts : List Element)
      (rest : List (Place × Element))
      → how_many p alerts ≡ 0
      → shown_at p (
          placed host_header (shown_if barred bar)
          ++ placed column (header ++ shown_if historical (history_alert ∷ []) ++ alerts)
          ++ (if loading then placed column (details_loader ∷ []) else rest))
        ≡ (if barred then how_many p bar else 0)
          + how_many p header
          + (if historical then tally (p history_alert) else 0)
          + (if loading then tally (p details_loader) else shown_at p rest)
  parts_counted barred historical true bar header alerts rest h =
      simp (shown_at-append, shown_at-placed, how_many-append, how_many-shown_if)
        (ground (arith, h))
  parts_counted barred historical false bar header alerts rest h =
      simp (shown_at-append, shown_at-placed, how_many-append, how_many-shown_if)
        (ground (arith, h))

  module _ (rt : Runtime) (f : Frame) (s : ProfileState) where
    pub screen_counted :
        shown_at p (screen rt f s) ≡ shown_at p (main_part rt f s) + shown_at p (overlays rt f s)
    unfolding screen
    screen_counted = ground (
      arith,
      shown_at-append p (placed column (alert_if mutation_alert s.mutation_error))
          (main_part rt f s ++ overlays rt f s),
      shown_at-append p (main_part rt f s) (overlays rt f s),
      shown_at-placed p column (alert_if mutation_alert s.mutation_error),
      mutation_alert_skipped s.mutation_error,
    )

    pub overlays_counted :
        shown_at p (overlays rt f s)
        ≡ (if s.create_opened && not f.embed_create && not f.narrow
            then how_many p (create_icons rt s) + tally (p create_editor)
            else 0)
          + (if is_compact f && s.version_sheet && is_nil s.versions
              then tally (p no_versions)
              else 0)
    unfolding overlays create_actions
    overlays_counted =
        simp (shown_at-append, shown_at-placed, how_many-shown_if, how_many-append)
          (ground (arith, version_rows_skipped s))

    pub header_counted : how_many p (card_header rt f s) ≡ (
        if f.host_chrome
        then 0
        else if f.narrow
        then tally (p (version_select (lacks_versions s) s.versions_loading))
        else how_many p (all_of (detail_toolbar rt f s)))
    unfolding card_header
    header_counted = rw (how_many-shown_if) (
        header_cases f.host_chrome f.narrow (card_name rt f.list_item s)
          (version_select (lacks_versions s) s.versions_loading) (all_of (detail_toolbar rt f s)))

    pub detail_counted :
        shown_at p (detail_part rt f s)
        ≡ (if f.host_chrome && f.header_mounted
            then how_many p (all_of (detail_toolbar rt f s))
            else 0)
          + how_many p (card_header rt f s)
          + (if is_historical s then tally (p history_alert) else 0)
          + (if s.details_loading
              then tally (p details_loader)
              else shown_at p (document_part rt f s))
    unfolding detail_part
    detail_counted =
        parts_counted (f.host_chrome && f.header_mounted) (is_historical s) s.details_loading
          (all_of (detail_toolbar rt f s)) (card_header rt f s)
          (alert_if details_alert s.details_error) (document_part rt f s)
          (details_alert_skipped s.details_error)

module _ (p : Test) (rt : Runtime) (f : Frame) (s : ProfileState) where
  -- The column has one of three parts.
  pub main_counted : shown_at p (main_part rt f s) ≡ (
      if creates_inline f s
      then shown_at p (create_part rt f s)
      else if is_some f.list_item
      then shown_at p (detail_part rt f s)
      else tally (p nothing_alert))
  unfolding main_part
  main_counted = elim (Bool-cases (creates_inline f s)) [
    | inl creating ↦ rw (creating, main_part) refl
    | inr idle ↦ elim (Bool-cases (is_some f.list_item)) [
      | inl there ↦ rw (idle, there) refl
      | inr missing ↦ rw (idle, missing) (omega arith)
    ]
  ]
