-- ===== src/ProfileDetail/Runs/Kept.antt =====
-- components/ProfilesWidgetProfileDetailCore.tsx: whose versions the answers to a load bring.
use mathlib.Core.Path.{◌≡◌, ap}
use april_profile_kilo.Transport.Promise.{Outcome, fulfilled, rejected}
use april_profile_kilo.Base.{
  All, Bool-cases, List, Option, Text, [], if◌then◌else◌, inl, inr, leb, map, some, sym, ℕ, ◌==◌,
  ◌∙◌, ◌∷◌,
}
use april_profile_kilo.ProfileDetail.{
  ProfileState, VersionLoad, all_answers, older_versions, put_version, put_versions,
  version_answers,
}
use april_profile_kilo.Providers.{Details}
use april_profile_kilo.ProfileDetail.Runs.{IfFulfilled, IsOf}
use april_profile_kilo.FamilyDetail.{given}

pub with_first :
    (P : Details → Type 0) (d : Details) (o : Outcome (List Details))
    → P d
    → IfFulfilled (All P) o
    → IfFulfilled (All P) (elim o [ fulfilled ds ↦ fulfilled (d ∷ ds) | rejected e ↦ rejected e ])
with_first P d (fulfilled ds) h hs = (h, hs)
with_first P d (rejected e) h hs = tt

-- The answers of `Promise.all` have what each of them has.
pub all_answers-IfFulfilled :
    (P : Details → Type 0) (os : List (Outcome Details))
    → All (IfFulfilled P) os
    → IfFulfilled (All P) (all_answers os)
unfolding all_answers
all_answers-IfFulfilled P [] h = tt
all_answers-IfFulfilled P (rejected e ∷ os) h = tt
all_answers-IfFulfilled P (fulfilled d ∷ os) (hd, hs) =
    with_first P d (all_answers os) hd (all_answers-IfFulfilled P os hs)

pub truthful_answers :
    (P : Details → Type 0) (ask : ℕ → Outcome Details)
    → ((n : ℕ) → IfFulfilled P (ask n))
    → (ns : List ℕ) → All (IfFulfilled P) (map ask ns)
truthful_answers P ask h [] = tt
truthful_answers P ask h (n ∷ ns) = (h n, truthful_answers P ask h ns)

pub older_answers :
    (P : Details → Type 0) (ask : ℕ → Outcome Details) (l : VersionLoad)
    → ((n : ℕ) → IfFulfilled P (ask n))
    → IfFulfilled (All P) (version_answers ask l)
unfolding version_answers
older_answers P ask l h =
    let ns = older_versions l.head.version in
    all_answers-IfFulfilled P (map ask ns) (truthful_answers P ask h ns)

pub put_version-IsOf :
    (selected : Option Text) (k : ℕ) (d : Details) (m : List (ℕ × Details))
    → given selected ≡ some d.entity_id
    → All (IsOf selected) m
    → All (IsOf selected) (put_version k d m)
unfolding put_version
put_version-IsOf selected k d [] h hs = (h, tt)
put_version-IsOf selected k d ((j, e) ∷ m) h (he, hs) = elim (Bool-cases (j == k)) [
  | inl here ↦ rw here (h, hs)
  | inr elsewhere ↦ rw elsewhere (he, put_version-IsOf selected k d m h hs)
]

pub put_versions-IsOf :
    (selected : Option Text) (id : Text) (ds : List Details) (m : List (ℕ × Details))
    → given selected ≡ some id
    → All (λ (d : Details). d.entity_id ≡ id) ds
    → All (IsOf selected) m
    → All (IsOf selected) (put_versions ds m)
unfolding put_versions
put_versions-IsOf selected id [] m h hs hm = hm
put_versions-IsOf selected id (d ∷ ds) m h (hd, hs) hm =
    put_versions-IsOf selected id ds (put_version d.version d m) h hs
      (put_version-IsOf selected d.version d m (h ∙ ap some (sym hd)) hm)

-- The versions after the answer of a load that is not outdated.
abbrev pub first_versions : Outcome Details → List (ℕ × Details) → List (ℕ × Details)
first_versions (fulfilled d) m = if leb d.version 1 then (d.version, d) ∷ [] else m
first_versions (rejected e) m = m

abbrev pub all_versions : Details → Outcome (List Details) → List (ℕ × Details) → List (ℕ × Details)
all_versions d (fulfilled ds) m = put_versions ds ((d.version, d) ∷ [])
all_versions d (rejected e) m = m

pub first_versions-IsOf :
    (o : Outcome Details) (s : ProfileState) (id : Text)
    → given s.entity_id ≡ some id
    → IfFulfilled (λ (d : Details). d.entity_id ≡ id) o
    → All (IsOf s.entity_id) s.versions
    → All (IsOf s.entity_id) (first_versions o s.versions)
first_versions-IsOf (fulfilled d) s id h e hs = elim (Bool-cases (leb d.version 1)) [
  | inl only ↦ rw only (h ∙ ap some (sym e), tt)
  | inr more ↦ rw more hs
]
first_versions-IsOf (rejected e) s id h t hs = hs

pub all_versions-IsOf :
    (d : Details) (o : Outcome (List Details)) (s : ProfileState) (id : Text)
    → given s.entity_id ≡ some id
    → d.entity_id ≡ id
    → IfFulfilled (All (λ (e : Details). e.entity_id ≡ id)) o
    → All (IsOf s.entity_id) s.versions
    → All (IsOf s.entity_id) (all_versions d o s.versions)
all_versions-IsOf d (fulfilled ds) s id h e hd hs =
    put_versions-IsOf s.entity_id id ds ((d.version, d) ∷ []) h hd (h ∙ ap some (sym e), tt)
all_versions-IsOf d (rejected e) s id h hd t hs = hs
