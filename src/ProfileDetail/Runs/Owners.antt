-- ===== src/ProfileDetail/Runs/Owners.antt =====
-- components/ProfilesWidgetProfileDetailCore.tsx: which profile a load is of, as the
-- selection changes and other loads are answered.
use mathlib.Core.Path.{◌≡◌, refl, ap}
use native.Mathlib.Omega.{arith}
use april_profile_kilo.Base.{
  All, Bool-cases, List, Option, Text, [], any, false, if◌then◌else◌, inl, inr, none, some, suc,
  sym, true, zero, ℕ, ◌==◌, ◌∙◌, ◌∷◌, ◌≤◌,
}
use april_profile_kilo.ProfileDetail.Runs.Kept.{
  all_versions, all_versions-IsOf, first_versions, first_versions-IsOf,
}
use april_profile_kilo.ProfileDetail.Runs.{
  IfFulfilled, IsOf, LoadRun, Pending, begun_loads, profile_load, take_out, versions_load,
}
use april_profile_kilo.Providers.{Details}
use april_profile_kilo.ProfileDetail.Loads.{
  DetailLoad, begin_details, change_entity, details_answered, details_cleanup, details_effect,
  details_versions_answered, is_live,
}
use april_profile_kilo.ProfileDetail.{
  DetailProps, ProfileState, apply_snapshot, begin_versions, has_fired, show_load_error,
  versions_answered,
}
use april_profile_kilo.Runtime.{Runtime}
use april_profile_kilo.Transport.Promise.{Outcome, fulfilled, rejected}
use april_profile_kilo.FamilyDetail.{given}

-- A load that is not outdated is one of the profile that is selected.
abbrev pub Owns : ProfileState → DetailLoad → Type 0
Owns s l =
    (l.id ≤ s.request_id)
    × (l.id ≡ s.request_id → has_fired (some l.id) s ≡ false → given s.entity_id ≡ some l.entity)

abbrev pub OwnsPending : ProfileState → Pending → Type 0
OwnsPending s (profile_load l) = Owns s l
OwnsPending s (versions_load l d) = Owns s l × (d.entity_id ≡ l.entity)

abbrev pub IsSound : LoadRun → Type 0
IsSound r = All (OwnsPending r.detail) r.pending × All (IsOf r.detail.entity_id) r.detail.versions

abbrev pub SameSelection : ProfileState → ProfileState → Type 0
SameSelection s t =
    (t.entity_id ≡ s.entity_id) × (t.request_id ≡ s.request_id) × (t.fired ≡ s.fired)

abbrev pub AllTaken : (Pending → Type 0) → Option (Pending × List Pending) → Type 0
AllTaken P none = Unit
AllTaken P (some (x, rest)) = P x × All P rest

pub taken_later :
    (P : Pending → Type 0) (y : Pending) (o : Option (Pending × List Pending))
    → P y
    → AllTaken P o
    → AllTaken P (elim o [ none ↦ none | some (z, zs) ↦ some (z, y ∷ zs) ])
taken_later P y none hy h = tt
taken_later P y (some (z, zs)) hy (hz, hs) = (hz, (hy, hs))

pub take_out-AllTaken :
    (P : Pending → Type 0) (i : ℕ) (xs : List Pending) → All P xs → AllTaken P (take_out i xs)
take_out-AllTaken P zero [] hs = tt
take_out-AllTaken P (suc i) [] hs = tt
take_out-AllTaken P zero (y ∷ ys) hs = hs
take_out-AllTaken P (suc i) (y ∷ ys) (hy, hs) =
    taken_later P y (take_out i ys) hy (take_out-AllTaken P i ys hs)

pub All-each :
    (P Q : Pending → Type 0)
    → ((x : Pending) → P x → Q x)
    → (xs : List Pending) → All P xs
    → All Q xs
All-each P Q each [] hs = tt
All-each P Q each (x ∷ xs) (h, hs) = (each x h, All-each P Q each xs hs)

pub Owns-same : (s t : ProfileState) (l : DetailLoad) → SameSelection s t → Owns s l → Owns t l
Owns-same s t l (e, r, f) (below, mine) = (
  ground arith,
  λ now live.
      ap given e
      ∙ mine (now ∙ r) (sym (ap (λ (xs : List ℕ). any (λ (n : ℕ). n == l.id) xs) f) ∙ live),
)

pub OwnsPending-same :
    (s t : ProfileState) → SameSelection s t → (x : Pending) → OwnsPending s x → OwnsPending t x
OwnsPending-same s t same (profile_load l) h = Owns-same s t l same h
OwnsPending-same s t same (versions_load l d) (h, e) = (Owns-same s t l same h, e)

pub Owns-live :
    (s : ProfileState) (l : DetailLoad)
    → is_live l s ≡ true
    → Owns s l
    → given s.entity_id ≡ some l.entity
Owns-live s l live (below, mine) = mine (ground arith) (ground arith)

module _ (rt : Runtime) (p : DetailProps) where
  pub answered-same :
      (elapsed : ℕ) (l : DetailLoad) (o : Outcome Details) (s : ProfileState)
      → SameSelection s (details_answered rt p elapsed l o s)
  unfolding details_answered apply_snapshot begin_versions show_load_error
  answered-same elapsed l (fulfilled d) s = ground arith
  answered-same elapsed l (rejected e) s = ground arith

  pub answered_versions :
      (elapsed : ℕ) (l : DetailLoad) (o : Outcome Details) (s : ProfileState)
      → (details_answered rt p elapsed l o s).versions
        ≡ (if is_live l s then first_versions o s.versions else s.versions)
  unfolding details_answered apply_snapshot begin_versions show_load_error
  answered_versions elapsed l (fulfilled d) s = ground arith
  answered_versions elapsed l (rejected e) s = ground arith

  pub answered-IsOf :
      (elapsed : ℕ) (l : DetailLoad) (o : Outcome Details) (s : ProfileState)
      → Owns s l
      → IfFulfilled (λ (d : Details). d.entity_id ≡ l.entity) o
      → All (IsOf s.entity_id) s.versions
      → All (IsOf s.entity_id) (details_answered rt p elapsed l o s).versions
  answered-IsOf elapsed l o s h e hs = elim (Bool-cases (is_live l s)) [
    | inl live ↦
        rw (answered_versions elapsed l o s, live)
          (first_versions-IsOf o s l.entity (Owns-live s l live h) e hs)
    | inr late ↦ rw (answered_versions elapsed l o s, late) hs
  ]

  pub versions_answered-same :
      (l : DetailLoad) (d : Details) (o : Outcome (List Details)) (s : ProfileState)
      → SameSelection s (details_versions_answered p l d o s)
  unfolding details_versions_answered versions_answered show_load_error
  versions_answered-same l d (fulfilled ds) s = ground arith
  versions_answered-same l d (rejected e) s = ground arith

  pub versions_answered_versions :
      (l : DetailLoad) (d : Details) (o : Outcome (List Details)) (s : ProfileState)
      → (details_versions_answered p l d o s).versions
        ≡ (if is_live l s then all_versions d o s.versions else s.versions)
  unfolding details_versions_answered versions_answered show_load_error
  versions_answered_versions l d (fulfilled ds) s = ground arith
  versions_answered_versions l d (rejected e) s = ground arith

  pub versions_answered-IsOf :
      (l : DetailLoad) (d : Details) (o : Outcome (List Details)) (s : ProfileState)
      → Owns s l
      → d.entity_id ≡ l.entity
      → IfFulfilled (All (λ (e : Details). e.entity_id ≡ l.entity)) o
      → All (IsOf s.entity_id) s.versions
      → All (IsOf s.entity_id) (details_versions_answered p l d o s).versions
  versions_answered-IsOf l d o s h e hd hs = elim (Bool-cases (is_live l s)) [
    | inl live ↦
        rw (versions_answered_versions l d o s, live)
          (all_versions-IsOf d o s l.entity (Owns-live s l live h) e hd hs)
    | inr late ↦ rw (versions_answered_versions l d o s, late) hs
  ]

module _ (p : DetailProps) where
  -- `change_entity` from one selection to another.
  abbrev pub moved : Option Text → Option Text → Option Text → ProfileState → ProfileState
  moved old cur next s =
      let left = details_cleanup old s in
      record (details_effect p cur (record left { entity_id = next })) { version_sheet = false }

  pub moved_clears :
      (old cur next : Option Text) (s : ProfileState) → (moved old cur next s).versions ≡ []
  unfolding begin_details
  moved_clears none none next s = refl
  moved_clears none (some id) next s = refl
  moved_clears (some old) none next s = refl
  moved_clears (some old) (some id) next s = refl

  pub closed_late :
      (old : Option Text) (next : Option Text) (s : ProfileState) (l : DetailLoad)
      → given s.entity_id ≡ old
      → Owns s l
      → l.id ≡ s.request_id
      → has_fired (some l.id) (moved old none next s) ≡ false
      → ⊥
  closed_late none next s l h (below, mine) now live =
      let e : given s.entity_id ≡ some l.entity = mine now live in ground arith
  closed_late (some id) next s l h (below, mine) now live = ground arith

  pub moved-Owns :
      (old cur next : Option Text) (s : ProfileState) (l : DetailLoad)
      → given s.entity_id ≡ old
      → Owns s l
      → Owns (moved old cur next s) l
  unfolding begin_details
  moved-Owns none none next s l h own_load =
      (own_load.0, λ now live. absurd (closed_late none next s l h own_load now live))
  moved-Owns (some id) none next s l h own_load =
      (own_load.0, λ now live. absurd (closed_late (some id) next s l h own_load now live))
  moved-Owns none (some id) next s l h (below, mine) = (ground arith, λ now live. ground arith)
  moved-Owns (some old) (some id) next s l h (below, mine) =
      (ground arith, λ now live. ground arith)

  pub moved-OwnsPending :
      (next : Option Text) (s : ProfileState) (x : Pending)
      → OwnsPending s x
      → OwnsPending (change_entity p next s) x
  unfolding change_entity
  moved-OwnsPending next s (profile_load l) h =
      moved-Owns (given s.entity_id) (given next) next s l refl h
  moved-OwnsPending next s (versions_load l d) (h, e) =
      (moved-Owns (given s.entity_id) (given next) next s l refl h, e)

  pub change_entity_clears :
      (next : Option Text) (s : ProfileState) → (change_entity p next s).versions ≡ []
  unfolding change_entity
  change_entity_clears next s = moved_clears (given s.entity_id) (given next) next s

  pub begun_loads_owned :
      (next : Option Text) (s : ProfileState)
      → All (OwnsPending (change_entity p next s)) (begun_loads (given next) s)
  unfolding change_entity begin_details
  begun_loads_owned none s = tt
  begun_loads_owned (some []) s = tt
  begun_loads_owned (some (c ∷ id)) s = ((ground arith, λ now live. refl), tt)
