-- ===== src/ProfileDetail/Runs.antt =====
-- components/ProfilesWidgetProfileDetailCore.tsx: the loads of a profile in any order of events.
pub mod Kept
pub mod Owners
pub mod Selection
use mathlib.Core.Path.{◌≡◌, refl, ap}
use native.Mathlib.Omega.{arith}
use april_profile_kilo.Base.{
  All, List, Option, Text, [], any, false, if◌then◌else◌, leb, none, not, some, suc, sym, zero, ℕ,
  ◌&&◌, ◌++◌, ◌==◌, ◌∙◌, ◌∷◌, ◌≤◌, Bool-cases, inl, inr, map, true, ==_refl, is_some, ◌||◌,
  All-append, Option-cases,
}
use april_profile_kilo.Providers.{Details}
use april_profile_kilo.Transport.Promise.{Outcome, fulfilled, rejected}
use april_profile_kilo.ProfileDetail.Loads.{
  DetailLoad, change_entity, details_answered, details_versions_answered, is_live, load_of,
  begin_details, details_cleanup, details_effect,
}
use april_profile_kilo.ProfileDetail.{
  DetailProps, ProfileState, has_fired, select_version, version_answers, all_answers, put_version,
  put_versions, apply_snapshot, begin_versions, show_load_error, versions_answered, VersionLoad,
  older_versions, version_at,
}
use april_profile_kilo.Runtime.{Runtime}
use april_profile_kilo.FamilyDetail.{given}

-- A load that has not ended: it waits for the profile, or for the older versions of the profile.
pub data Pending : Type 0 where
  profile_load : DetailLoad → Pending
  versions_load : DetailLoad → Details → Pending

pub record LoadRun : Type 0 where
  pub detail : ProfileState
  pub pending : List Pending

-- Another selection; another version on view; an answer: to which of the loads that have not ended,
-- at what moment, with what newest version, after how many milliseconds.
pub data LoadEvent : Type 0 where
  entity_changed : Option Text → LoadEvent
  version_chosen : ℕ → LoadEvent
  answer_given : ℕ → ℕ → ℕ → ℕ → LoadEvent

-- The element at an index, and the others.
abbrev pub take_out {ℓ} : {A : Type ℓ} → ℕ → List A → Option (A × List A)
take_out n [] = none
take_out zero (x ∷ xs) = some (x, xs)
take_out (suc n) (x ∷ xs) =
    let rest = take_out n xs in elim rest [ none ↦ none | some (y, ys) ↦ some (y, x ∷ ys) ]

abbrev pub begun_loads : Option Text → ProfileState → List Pending
begun_loads none s = []
begun_loads (some id) s = profile_load (record { id = suc s.request_id; entity = id }) ∷ []

-- `served` is what the provider answers at a moment for a profile and a version.
module _ (rt : Runtime) (p : DetailProps) (served : ℕ → Text → ℕ → Outcome Details) where
  -- The load goes on to read the older versions.
  unfoldable pub goes_on : DetailLoad → Outcome Details → ProfileState → List Pending
  goes_on l (fulfilled d) s =
      if is_live l s && not (leb d.version 1) then versions_load l d ∷ [] else []
  goes_on l (rejected e) s = []

  unfoldable pub take_answer : ℕ → ℕ → ℕ → Pending → List Pending → ProfileState → LoadRun
  unfolding goes_on details_answered details_versions_answered version_answers
  take_answer t head elapsed (profile_load l) rest s = record {
    detail = details_answered rt p elapsed l (served t l.entity head) s;
    pending = goes_on l (served t l.entity head) s ++ rest;
  }
  take_answer t head elapsed (versions_load l d) rest s = record {
    detail = details_versions_answered p l d (version_answers (served t l.entity) (load_of l d)) s;
    pending = rest;
  }

  unfoldable pub answer_taken : ℕ → ℕ → ℕ → Option (Pending × List Pending) → LoadRun → LoadRun
  unfolding take_answer
  answer_taken t head elapsed none r = r
  answer_taken t head elapsed (some (x, rest)) r = take_answer t head elapsed x rest r.detail

  unfoldable pub load_step : LoadEvent → LoadRun → LoadRun
  unfolding answer_taken change_entity select_version
  load_step (entity_changed next) r = record {
    detail = change_entity p next r.detail;
    pending = begun_loads (given next) r.detail ++ r.pending;
  }
  load_step (version_chosen n) r = record r { detail = select_version rt n r.detail }
  load_step (answer_given i t head elapsed) r = answer_taken t head elapsed (take_out i r.pending) r

  unfoldable pub load_run : List LoadEvent → LoadRun → LoadRun
  unfolding load_step
  load_run [] r = r
  load_run (e ∷ es) r = load_run es (load_step e r)

-- A version, under its number, is one of the profile that is selected.
abbrev pub IsOf : Option Text → ℕ × Details → Type 0
IsOf selected entry = given selected ≡ some entry.1.entity_id

abbrev pub IfFulfilled : {A : Type 0} → (A → Type 0) → Outcome A → Type 0
IfFulfilled P (fulfilled a) = P a
IfFulfilled P (rejected e) = Unit

-- What the provider answers is of the profile that it was asked for.
abbrev pub IsTruthful : (ℕ → Text → ℕ → Outcome Details) → Type 0
IsTruthful served =
    (t : ℕ) (id : Text) (n : ℕ) → IfFulfilled (λ (d : Details). d.entity_id ≡ id) (served t id n)
