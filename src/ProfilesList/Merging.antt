-- ===== src/ProfilesList/Merging.antt =====
-- components/ProfilesWidgetCore.tsx: the updater of `setItems`.
use april_profile_kilo.Base.{
  All, Bool, Bool-cases, List, Text, [], arith, false, inl, inr, keep, not, refl, text_eq_refl,
  true, ◌++◌, ◌||◌, ◌∷◌, ◌≡◌, text_eq_iff,
}
use april_profile_kilo.Providers.{ListItem}
use april_profile_kilo.ProfilesList.{has_id, merged_items}

-- No two of the profiles have one id.
abbrev pub IsDistinct : List ListItem → Type 0
IsDistinct [] = Unit
IsDistinct (item ∷ items) = (has_id item.entity_id items ≡ false) × IsDistinct items

abbrev is_new : List ListItem → ListItem → Bool
is_new prev item = not (has_id item.entity_id prev)

has_id-append :
    (id : Text) (xs ys : List ListItem) → has_id id (xs ++ ys) ≡ (has_id id xs || has_id id ys)
has_id-append id [] ys = refl
has_id-append id (x ∷ xs) ys = ground (arith, has_id-append id xs ys)

has_id-keep-false :
    (q : ListItem → Bool) (id : Text) (xs : List ListItem)
    → has_id id xs ≡ false
    → has_id id (keep q xs) ≡ false
has_id-keep-false q id [] h = refl
has_id-keep-false q id (x ∷ xs) h = ground (arith, has_id-keep-false q id xs)

keep-IsDistinct :
    (q : ListItem → Bool) (xs : List ListItem) → IsDistinct xs → IsDistinct (keep q xs)
keep-IsDistinct q [] h = tt
keep-IsDistinct q (x ∷ xs) (h, hs) = elim (Bool-cases (q x)) [
  | inl kept ↦ rw (kept, keep) (has_id-keep-false q x.entity_id xs h, keep-IsDistinct q xs hs)
  | inr dropped ↦ rw (dropped, keep) (keep-IsDistinct q xs hs)
]

-- What is listed already is not added.
old_is_dropped :
    (prev : List ListItem) (id : Text) (page : List ListItem)
    → has_id id prev ≡ true
    → has_id id (keep (is_new prev) page) ≡ false
old_is_dropped prev id [] h = refl
old_is_dropped prev id (x ∷ xs) h =
    ground (arith, text_eq_iff x.entity_id id, old_is_dropped prev id xs)

append-IsDistinct :
    (xs ys : List ListItem)
    → IsDistinct xs
    → IsDistinct ys
    → All (λ (x : ListItem). has_id x.entity_id ys ≡ false) xs
    → IsDistinct (xs ++ ys)
append-IsDistinct [] ys hx hy h = hy
append-IsDistinct (x ∷ xs) ys (hx, hxs) hy (h, hs) =
    (ground (arith, has_id-append x.entity_id xs ys), append-IsDistinct xs ys hxs hy hs)

olds_are_dropped :
    (prev page xs : List ListItem)
    → ((id : Text) → has_id id xs ≡ true → has_id id prev ≡ true)
    → All (λ (x : ListItem). has_id x.entity_id (keep (is_new prev) page) ≡ false) xs
olds_are_dropped prev page [] h = tt
olds_are_dropped prev page (x ∷ xs) h = (
  old_is_dropped prev x.entity_id page (h x.entity_id (ground (arith, text_eq_refl x.entity_id))),
  olds_are_dropped prev page xs (λ id e. h id (ground arith)),
)

-- Where the listed profiles have different ids, and those of the page have, so have those that are
-- listed after the page is stored, whether it is appended or replaces the list.
pub merged_items-IsDistinct :
    (append : Bool) (prev page : List ListItem)
    → IsDistinct prev
    → IsDistinct page
    → IsDistinct (merged_items append prev page)
unfolding merged_items
merged_items-IsDistinct false prev page hp hq = hq
merged_items-IsDistinct true prev page hp hq =
    append-IsDistinct prev _ hp (keep-IsDistinct (is_new prev) page hq)
      (olds_are_dropped prev page prev (λ id e. e))
