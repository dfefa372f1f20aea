-- ===== src/FamilyDetail/Latest.antt =====
-- components/EntityTypesWidgetDetailCore.tsx: the revision that a load selects.
use mathlib.Core.Path.{◌≡◌}
use native.Mathlib.Omega.{arith}
use april_profile_kilo.Base.{All, Bool-cases, List, [], inl, inr, leb, some, ℕ, ◌∷◌, ◌≤◌}
use april_profile_kilo.FamilyDetail.{insert_revision, last_revision, sort_revisions}
use april_profile_kilo.Providers.EntityTypes.{Revision}

abbrev IsAscending : List Revision → Type 0
IsAscending [] = Unit
IsAscending (r ∷ rs) = All (λ (q : Revision). r.revision_no ≤ q.revision_no) rs × IsAscending rs

abbrev IsAbove : ℕ → Revision → Type 0
IsAbove n q = n ≤ q.revision_no

abbrev pub IsBelow : ℕ → Revision → Type 0
IsBelow n q = q.revision_no ≤ n

insert-IsAbove :
    (n : ℕ) (r : Revision) (qs : List Revision)
    → n ≤ r.revision_no
    → All (IsAbove n) qs
    → All (IsAbove n) (insert_revision r qs)
unfolding insert_revision
insert-IsAbove n r [] h hs = (h, tt)
insert-IsAbove n r (q ∷ qs) h (hq, hs) = ground (arith, insert-IsAbove n r qs h hs)

raise : (m n : ℕ) (qs : List Revision) → m ≤ n → All (IsAbove n) qs → All (IsAbove m) qs
raise m n [] h hs = tt
raise m n (q ∷ qs) h (hq, hs) = (omega arith, raise m n qs h hs)

insert-IsAscending :
    (r : Revision) (qs : List Revision) → IsAscending qs → IsAscending (insert_revision r qs)
unfolding insert_revision
insert-IsAscending r [] h = (tt, tt)
insert-IsAscending r (q ∷ qs) (ha, hs) = elim (Bool-cases (leb r.revision_no q.revision_no)) [
  | inl low ↦
      rw low ((ground arith, raise r.revision_no q.revision_no qs (ground arith) ha), (ha, hs))
  | inr high ↦
      rw high (insert-IsAbove q.revision_no r qs (ground arith) ha, insert-IsAscending r qs hs)
]

sort-IsAscending : (rs : List Revision) → IsAscending (sort_revisions rs)
unfolding sort_revisions
sort-IsAscending [] = tt
sort-IsAscending (r ∷ rs) = insert-IsAscending r (sort_revisions rs) (sort-IsAscending rs)

last_is_greatest :
    (rs : List Revision) (r : Revision)
    → IsAscending rs
    → last_revision rs ≡ some r
    → All (IsBelow r.revision_no) rs
last_is_greatest [] r h e = tt
last_is_greatest (q ∷ []) r h e = ground arith
last_is_greatest (q ∷ q' ∷ qs) r (ha, hs) e =
    let below = last_is_greatest (q' ∷ qs) r hs e in (ground arith, below)

inserted-IsBelow :
    (n : ℕ) (r : Revision) (qs : List Revision)
    → All (IsBelow n) (insert_revision r qs)
    → (r.revision_no ≤ n) × All (IsBelow n) qs
unfolding insert_revision
inserted-IsBelow n r [] h = h
inserted-IsBelow n r (q ∷ qs) h = ground (arith, inserted-IsBelow n r qs)

sorted-IsBelow :
    (n : ℕ) (rs : List Revision) → All (IsBelow n) (sort_revisions rs) → All (IsBelow n) rs
unfolding sort_revisions
sorted-IsBelow n [] h = tt
sorted-IsBelow n (r ∷ rs) h =
    let below = inserted-IsBelow n r (sort_revisions rs) h in (below.0, sorted-IsBelow n rs below.1)

-- The revision that is selected when the revisions of a family have been stored is one with the
-- greatest number, in whatever order the server lists them.
pub latest_is_greatest :
    (rs : List Revision) (r : Revision)
    → last_revision (sort_revisions rs) ≡ some r
    → All (IsBelow r.revision_no) rs
latest_is_greatest rs r e =
    sorted-IsBelow r.revision_no rs (last_is_greatest (sort_revisions rs) r (sort-IsAscending rs) e)
