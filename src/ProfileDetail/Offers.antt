-- ===== src/ProfileDetail/Offers.antt =====
-- components/ProfilesWidgetProfileDetailCore.tsx: counting the controls on the screen.
use mathlib.Core.Path.{◌≡◌, refl}
use native.Mathlib.Omega.{arith}
use april_profile_kilo.ProfileDetail.{ProfileState}
use april_profile_kilo.ProfileDetail.Controls.{
  Element, Frame, detail_toolbar, shell_controls, shown_if, version_select, versions_button,
  lacks_versions, cancel_edit_button, create_editor, delete_button, edit_button, edit_document,
  save_changes_button, save_history_button, edit_toolbar,
}
use april_profile_kilo.Base.{Bool, List, [], false, if◌then◌else◌, is_some, true, ℕ, ◌++◌, ◌+◌, ◌∷◌}
use april_profile_kilo.Demo.{all_of}
use april_profile_kilo.ProfileDetail.Screen.{Place, placed}
use april_profile_kilo.Runtime.{Runtime}
use april_profile_kilo.ProfilesList.Layout.{tally}

-- A test on what is rendered.
abbrev pub Test : Type 0
Test = Element → Bool

abbrev pub how_many : Test → List Element → ℕ
how_many p [] = 0
how_many p (e ∷ es) = tally (p e) + how_many p es

abbrev pub shown_at : Test → List (Place × Element) → ℕ
shown_at p [] = 0
shown_at p ((place, e) ∷ es) = tally (p e) + shown_at p es

pub how_many-append :
    (p : Test) (xs ys : List Element) → how_many p (xs ++ ys) ≡ how_many p xs + how_many p ys
how_many-append p [] ys = omega arith
how_many-append p (e ∷ xs) ys = omega (arith, how_many-append p xs ys)

pub shown_at-append :
    (p : Test) (xs ys : List (Place × Element))
    → shown_at p (xs ++ ys) ≡ shown_at p xs + shown_at p ys
shown_at-append p [] ys = omega arith
shown_at-append p ((place, e) ∷ xs) ys = omega (arith, shown_at-append p xs ys)

pub shown_at-placed :
    (p : Test) (place : Place) (es : List Element) → shown_at p (placed place es) ≡ how_many p es
shown_at-placed p place [] = refl
shown_at-placed p place (e ∷ es) = omega (arith, shown_at-placed p place es)

pub how_many-shown_if :
    (p : Test) (b : Bool) (es : List Element)
    → how_many p (shown_if b es) ≡ (if b then how_many p es else 0)
how_many-shown_if p true es = refl
how_many-shown_if p false es = refl

pub ruleset counting = (how_many-append, shown_at-append, shown_at-placed, how_many-shown_if)

module _ (rt : Runtime) (p : Test) (f : Frame) (s : ProfileState)
    (picks_versions : (b c : Bool) → p (version_select b c) ≡ false)
    (lists_versions : (b c : Bool) → p (versions_button b c) ≡ false) where
  -- Counting anything but the version picker, the toolbar of a wide viewport and the bar of a narrow
  -- one offer equally many of it for a selected profile, in every state.
  pub layouts_offer_the_same :
      is_some f.list_item ≡ true
      → how_many p (all_of (detail_toolbar rt (record f { narrow = false }) s))
        ≡ how_many p (shell_controls rt (record f { narrow = true }) s)
  unfolding detail_toolbar shell_controls
  layouts_offer_the_same h =
      rw (h, picks_versions (lacks_versions s) s.versions_loading)
        (simp (how_many-append, how_many-shown_if)
          (ground (arith, lists_versions (lacks_versions s) s.versions_loading)))

abbrev pub is_delete : Test
is_delete (delete_button busy) = true
is_delete e = false

abbrev pub is_create_editor : Test
is_create_editor create_editor = true
is_create_editor e = false

-- What changes the document of the profile: the draft, its toolbar, and what saves, starts or cancels
-- it.
abbrev pub is_edit : Test
is_edit edit_toolbar = true
is_edit (save_changes_button disabled busy) = true
is_edit edit_button = true
is_edit cancel_edit_button = true
is_edit edit_document = true
is_edit e = false

abbrev pub is_save : Test
is_save (save_changes_button disabled busy) = true
is_save (save_history_button busy) = true
is_save e = false
