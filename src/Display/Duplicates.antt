-- ===== src/Display/Duplicates.antt =====
-- When a profile name counts as taken.
use mathlib.Core.List.{Memᴰ}
use april_profile_kilo.Display.{
  duplicate_among, is_excluded, normalized, preview_name, is_duplicate_name,
}
use april_profile_kilo.Base.{
  List, Option, Text, [], false, some, true, ◌∷◌, ◌≡◌, Bool-cases, Option-cases, arith, inl, inr,
  is_nil, refl, text_eq, text_eq_iff, ◌↔◌, ◌≢◌,
}
use april_profile_kilo.Runtime.{Runtime}
use april_profile_kilo.Providers.{ListItem}
use april_profile_kilo.Errors.{filled}

is_nil→nil : (t : Text) → is_nil t ≡ true → t ≡ []
is_nil→nil [] h = refl
is_nil→nil (c ∷ t) h = cc

module _ (rt : Runtime) where
  -- A listed profile other than the excluded one, with a name that is the same once both are
  -- trimmed and put in lower case.
  pub record Clash (wanted : Text) (exclude : Option Text) (items : List ListItem) : Type 0 where
    pub item : ListItem
    pub listed : Memᴰ item items
    pub included : is_excluded exclude item ≡ false
    pub existing : Text
    pub named : preview_name rt item.preview ≡ some existing
    pub same : normalized rt existing ≡ wanted

  Clash-cons :
      {wanted : Text} {exclude : Option Text} {it : ListItem} {items : List ListItem}
      → Clash wanted exclude items
      → Clash wanted exclude (it ∷ items)
  Clash-cons c = record {
    item = c.item;
    listed = Memᴰ.tail c.listed;
    included = c.included;
    existing = c.existing;
    named = c.named;
    same = c.same;
  }

  duplicate_sound :
      (wanted : Text) (exclude : Option Text) (items : List ListItem)
      → duplicate_among rt wanted exclude items ≡ true
      → Clash wanted exclude items
  unfolding duplicate_among
  duplicate_sound wanted exclude [] h = cc
  duplicate_sound wanted exclude (it ∷ items) h = elim (Bool-cases (is_excluded exclude it)) [
    | inl out ↦ Clash-cons (duplicate_sound wanted exclude items (ground arith))
    | inr kept ↦ elim (Option-cases (preview_name rt it.preview)) [
      | inl nameless ↦ Clash-cons (duplicate_sound wanted exclude items (ground arith))
      | inr (existing, named) ↦ elim (Bool-cases (text_eq (normalized rt existing) wanted)) [
        | inl same ↦ record {
          item = it;
          listed = Memᴰ.head refl;
          included = kept;
          existing = existing;
          named = named;
          same = (text_eq_iff _ _).0 same;
        }
        | inr differ ↦ Clash-cons (duplicate_sound wanted exclude items (ground arith))
      ]
    ]
  ]

  duplicate_complete :
      (wanted : Text) (exclude : Option Text) (item : ListItem) (existing : Text)
      (items : List ListItem)
      → Memᴰ item items
      → is_excluded exclude item ≡ false
      → preview_name rt item.preview ≡ some existing
      → normalized rt existing ≡ wanted
      → duplicate_among rt wanted exclude items ≡ true
  unfolding duplicate_among
  duplicate_complete wanted exclude item existing [] m i n s = elim m [ ]
  duplicate_complete wanted exclude item existing (it ∷ items) (Memᴰ.head e) i n s =
      ground (arith, text_eq_iff (normalized rt existing) wanted)
  duplicate_complete wanted exclude item existing (it ∷ items) (Memᴰ.tail m) i n s =
      ground (arith, duplicate_complete wanted exclude item existing items m i n s)

  -- A name counts as taken exactly when it is not blank and some listed profile other than the
  -- excluded one has a name that differs from it at most in case and in space at the ends.
  pub is_duplicate_name_iff :
      (raw : Text) (items : List ListItem) (exclude : Option Text)
      → (is_duplicate_name rt raw items exclude ≡ true)
        ↔ ((normalized rt raw ≢ []) × Clash (normalized rt raw) exclude items)
  unfolding is_duplicate_name
  is_duplicate_name_iff raw items exclude = elim (Bool-cases (is_nil (normalized rt raw))) [
    | inl blank ↦ ((λ h. ground arith), λ (filled, c). ground (arith, filled (is_nil→nil _ blank)))
    | inr filled ↦ (
      (λ h. (ground arith, duplicate_sound _ exclude items (ground arith))),
      λ (_, c). ground (
        arith,
        duplicate_complete _ exclude c.item c.existing items c.listed c.included c.named c.same,
      ),
    )
  ]
