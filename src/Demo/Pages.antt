-- ===== src/Demo/Pages.antt =====
-- frontend/src/mocks/handlers.ts: the pages of the list of profiles.
use mathlib.Core.Path.{◌≡◌, refl}
use mathlib.Core.Logic.{inl, inr}
use native.Mathlib.Omega.{arith}
use april_profile_kilo.Base.{
  Bool-cases, List, Option, Text, [], codes, drop, length, none, or_else, some, suc, take, text_eq,
  zero, ℕ, ◌+◌, ◌-◌, ◌<◌, ◌∷◌, ◌≤◌, if◌then◌else◌, ltb,
}
use april_profile_kilo.Providers.{start}
use april_profile_kilo.Demo.Profiles.{PageQuery, filtered, get_page, page_start}
use april_profile_kilo.Runtime.{Runtime}
use april_profile_kilo.Demo.{Store}

length-take-le : {A : Type 0} (n : ℕ) (xs : List A) → length (take n xs) ≤ n
length-take-le zero xs = omega arith
length-take-le (suc n) [] = omega arith
length-take-le (suc n) (x ∷ xs) = ground (arith, length-take-le n xs)

length-drop : {A : Type 0} (n : ℕ) (xs : List A) → length (drop n xs) ≡ length xs - n
length-drop zero xs = omega arith
length-drop (suc n) [] = omega arith
length-drop (suc n) (x ∷ xs) = ground (arith, length-drop n xs)

length-take : {A : Type 0} (n : ℕ) (xs : List A) → n ≤ length xs → length (take n xs) ≡ n
length-take zero xs h = omega arith
length-take (suc n) [] h = absurd (omega arith)
length-take (suc n) (x ∷ xs) h = ground (arith, length-take n xs)

page_start-le : (c : Option Text) → page_start c ≤ 2
page_start-le none = omega arith
page_start-le (some c) = elim (Bool-cases (text_eq c (codes "cursor-2"))) [
  | inl same ↦ rw same (omega arith)
  | inr apart ↦ rw apart (omega arith)
]

promised :
    (start limit count : ℕ) (next : Text)
    → start ≤ 2
    → 2 + limit < count
    → (if ltb (start + limit) count then some next else none) ≡ some next
promised start limit count next early h = ground arith

module _ (rt : Runtime) (q : PageQuery) (s : Store) where
  -- For more hits than the limit and two, every page, whatever its cursor, is full and is a window of
  -- the hits that starts at the third at the latest, and yet promises a next page: a client that
  -- follows the cursors never ends, and never sees the hits after the limit and two.
  pub pages_never_end :
      2 + or_else q.limit 20 < length (filtered rt q s)
      → (start : ℕ) × (start ≤ 2)
        × ((get_page rt q s).items ≡ take (or_else q.limit 20) (drop start (filtered rt q s)))
        × (length (get_page rt q s).items ≡ or_else q.limit 20)
        × ((get_page rt q s).next_cursor ≡ some (codes "cursor-2"))
  unfolding get_page
  pages_never_end h =
      let start = page_start q.cursor in
      let early = page_start-le q.cursor in
      (
        start,
        early,
        refl,
        length-take _ _ (omega (arith, length-drop start (filtered rt q s))),
        promised start (or_else q.limit 20) (length (filtered rt q s)) (codes "cursor-2") early h,
      )
