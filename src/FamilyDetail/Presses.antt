-- ===== src/FamilyDetail/Presses.antt =====
-- components/EntityTypesWidgetDetailCore.tsx: the enabled buttons and what a press of them does.
use mathlib.Core.Path.{◌≡◌, refl}
use native.Mathlib.Omega.{arith}
use april_profile_kilo.FamilyDetail.{
  FamilyProps, FamilyState, Tab, draft_tab, given, revisions_tab, tab_eq, upgrade_tab,
}
use april_profile_kilo.FamilyDetail.Batches.{
  Batch, begin_batch, behind_latest, has_work, selected_only, batch_busy,
}
use april_profile_kilo.FamilyDetail.Pieces.{
  IsAboutButtons, IsAboutPanels, PieceTest, any-family_screen, any-revisions_panel,
  any-upgrade_panel, has_error,
}
use april_profile_kilo.FamilyDetail.Screen.{
  draft_panel, family_screen, panel, save_draft_button, upgrade_behind_button, upgrade_rows,
  upgrade_selected_button, busy_with,
}
use april_profile_kilo.Base.{
  Bool-cases, List, Option-cases, [], any, false, inl, inr, is_nil, is_some, not, ◌&&◌, ◌∙◌, ◌∷◌,
}
use april_profile_kilo.Runtime.{Runtime}
use april_profile_kilo.Providers.EntityTypes.{FamilyDetail}
use april_profile_kilo.Providers.{ListItem}

-- A button that shows as loading takes no press.
abbrev pub is_enabled_save : PieceTest
is_enabled_save (save_draft_button disabled busy) = not disabled && not busy
is_enabled_save piece = false

-- The button of a batch upgrade, enabled.
abbrev pub is_enabled_batch : Batch → PieceTest
is_enabled_batch selected_only (upgrade_selected_button count disabled busy) =
    not disabled && not busy
is_enabled_batch behind_latest (upgrade_behind_button disabled busy) = not disabled && not busy
is_enabled_batch b piece = false

module _ (rt : Runtime) (s : FamilyState) where
  batch_IsAboutPanels : (b : Batch) → IsAboutPanels (is_enabled_batch b)
  batch_IsAboutPanels selected_only =
      (refl, refl, refl, refl, λ t. refl, λ t. refl, λ a b c. refl, λ a b c. refl, λ c. refl)
  batch_IsAboutPanels behind_latest =
      (refl, refl, refl, refl, λ t. refl, λ t. refl, λ a b c. refl, λ a b c. refl, λ c. refl)

  rows_no_save : (rows : List ListItem) → any is_enabled_save (upgrade_rows s rows) ≡ false
  unfolding upgrade_rows
  rows_no_save [] = refl
  rows_no_save (row ∷ rows) = rows_no_save rows

module _ (rt : Runtime) (s : FamilyState) where
  batch_IsAboutButtons : (b : Batch) → IsAboutButtons (is_enabled_batch b)
  batch_IsAboutButtons selected_only = (
    refl,
    refl,
    refl,
    refl,
    λ b. refl,
    λ t. refl,
    λ r b. refl,
    λ n v. refl,
    λ os b. refl,
    λ e n b. refl,
    λ e b c. refl,
  )
  batch_IsAboutButtons behind_latest = (
    refl,
    refl,
    refl,
    refl,
    λ b. refl,
    λ t. refl,
    λ r b. refl,
    λ n v. refl,
    λ os b. refl,
    λ e n b. refl,
    λ e b c. refl,
  )

  draft_no_batch : (b : Batch) → any (is_enabled_batch b) (draft_panel rt s) ≡ false
  unfolding draft_panel
  draft_no_batch selected_only = elim (Bool-cases s.draft_conflict) [
    | inl clash ↦ rw (draft_panel, clash) refl
    | inr calm ↦ rw (draft_panel, calm) refl
  ]
  draft_no_batch behind_latest = elim (Bool-cases s.draft_conflict) [
    | inl clash ↦ rw (draft_panel, clash) refl
    | inr calm ↦ rw (draft_panel, calm) refl
  ]

  panel_batch :
      (b : Batch) (tab : Tab)
      → any (is_enabled_batch b) (panel rt s tab) ≡ (
          tab_eq tab upgrade_tab
          && has_work b s
          && not (is_nil s.revisions)
          && not (busy_with (batch_busy b) s))
  unfolding panel
  panel_batch b draft_tab = draft_no_batch b
  panel_batch b revisions_tab = any-revisions_panel (is_enabled_batch b) (batch_IsAboutButtons b) s
  panel_batch selected_only upgrade_tab =
      any-upgrade_panel (is_enabled_batch selected_only) (batch_IsAboutButtons selected_only) s
      ∙ (ground arith)
  panel_batch behind_latest upgrade_tab =
      any-upgrade_panel (is_enabled_batch behind_latest) (batch_IsAboutButtons behind_latest) s

  batched_if :
      (p : FamilyProps) (b : Batch)
      → is_some (begin_batch p b s).1 ≡ (is_some (given s.family_id) && has_work b s)
  unfolding begin_batch
  batched_if p b = elim (Option-cases (given s.family_id)) [
    | inl missing ↦ rw (begin_batch, missing) refl
    | inr (id, there) ↦ elim (Bool-cases (has_work b s)) [
      | inl work ↦ rw (begin_batch, there, work) refl
      | inr done ↦ rw (begin_batch, there, done) refl
    ]
  ]

  -- The screen has the enabled button of a batch upgrade, of the selected profiles or of those behind,
  -- exactly if the tab of the upgrade is on view, the family is loaded with no error, it has a
  -- revision, that upgrade is not under way, and a press of the button sends a request.
  pub batch_enabled_iff :
      (p : FamilyProps) (b : Batch)
      → any (is_enabled_batch b) (family_screen rt s) ≡ (
          tab_eq s.active_tab upgrade_tab
          && not s.detail_loading
          && not (has_error s)
          && is_some s.family_detail
          && not (is_nil s.revisions)
          && not (busy_with (batch_busy b) s)
          && is_some (begin_batch p b s).1)
  batch_enabled_iff p b = ground (
    arith,
    any-family_screen (is_enabled_batch b) (batch_IsAboutPanels rt s b) rt s,
    panel_batch b s.active_tab,
    batched_if p b,
  )
