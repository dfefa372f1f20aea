-- ===== src/FamilyDetail/Picks.antt =====
-- components/EntityTypesWidgetDetailCore.tsx: the profiles that are ticked for a batch upgrade.
use mathlib.Core.Path.{◌≡◌, refl, sym}
use native.Mathlib.Omega.{arith}
use april_profile_kilo.Base.{
  List, Text, [], false, if◌then◌else◌, keep, not, text_eq, text_eq_iff, ◌++◌, ◌||◌, ◌∷◌,
  Bool-cases, inl, inr, text_eq_refl, true,
}
use april_profile_kilo.FamilyDetail.Upgrades.{has_text_in, toggle_entity, toggled}
use april_profile_kilo.FamilyDetail.{FamilyState}

has_text_in-append :
    (j : Text) (xs ys : List Text)
    → has_text_in j (xs ++ ys) ≡ (has_text_in j xs || has_text_in j ys)
has_text_in-append j [] ys = refl
has_text_in-append j (x ∷ xs) ys = ground (arith, has_text_in-append j xs ys)

has_text_in-keep :
    (id j : Text) (xs : List Text)
    → has_text_in j (keep (λ (k : Text). not (text_eq id k)) xs)
      ≡ (if text_eq id j then false else has_text_in j xs)
has_text_in-keep id j [] = ground arith
has_text_in-keep id j (x ∷ xs) =
    ground (arith, text_eq_iff id x, text_eq_iff id j, text_eq_iff j x, has_text_in-keep id j xs)

dropped :
    (id j : Text) (ids : List Text)
    → has_text_in id ids ≡ true
    → (if text_eq id j then false else has_text_in j ids)
      ≡ (if text_eq id j then not (has_text_in j ids) else has_text_in j ids)
dropped id j ids h = elim (Bool-cases (text_eq id j)) [
  | inl same ↦ let e = (text_eq_iff id j).0 same in rw (same, sym e, h) refl
  | inr apart ↦ rw apart refl
]

added :
    (id j : Text) (ids : List Text)
    → has_text_in id ids ≡ false
    → (has_text_in j ids || has_text_in j (id ∷ []))
      ≡ (if text_eq id j then not (has_text_in j ids) else has_text_in j ids)
added id j ids h = elim (Bool-cases (text_eq id j)) [
  | inl same ↦ let e = (text_eq_iff id j).0 same in rw (same, sym e, h, text_eq_refl id) refl
  | inr apart ↦ ground (arith, text_eq_iff id j, text_eq_iff j id)
]

-- Ticking a profile turns its own tick over and leaves all others as they are.
pub toggle_entity_lem :
    (id j : Text) (s : FamilyState)
    → has_text_in j (toggle_entity id s).selected_entity_ids ≡ (
        if text_eq id j
        then not (has_text_in j s.selected_entity_ids)
        else has_text_in j s.selected_entity_ids)
unfolding toggle_entity toggled
toggle_entity_lem id j s =
    let ids = s.selected_entity_ids in
    elim (Bool-cases (has_text_in id ids)) [
      | inl there ↦ rw (there, has_text_in-keep id j ids) (dropped id j ids there)
      | inr missing ↦ rw (missing, has_text_in-append j ids (id ∷ [])) (added id j ids missing)
    ]
