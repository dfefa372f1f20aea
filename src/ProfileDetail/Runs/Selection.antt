-- ===== src/ProfileDetail/Runs/Selection.antt =====
-- components/ProfilesWidgetProfileDetailCore.tsx: the versions that the widget keeps
-- through any order of events.
use mathlib.Core.Path.{◌≡◌, refl}
use april_profile_kilo.Base.{
  All, All-append, Bool-cases, List, Option, Option-cases, Text, [], inl, inr, leb, none, not, some,
  ℕ, ◌&&◌, ◌∷◌,
}
use april_profile_kilo.ProfileDetail.Loads.{
  DetailLoad, change_entity, details_answered, details_versions_answered, is_live, load_of,
}
use april_profile_kilo.ProfileDetail.Runs.{
  IfFulfilled, IsOf, IsTruthful, LoadEvent, LoadRun, Pending, answer_given, answer_taken,
  begun_loads, entity_changed, goes_on, load_run, load_step, profile_load, take_answer, take_out,
  version_chosen, versions_load,
}
use april_profile_kilo.Transport.Promise.{Outcome, fulfilled, rejected}
use april_profile_kilo.ProfileDetail.Runs.Owners.{
  All-each, AllTaken, IsSound, Owns, Owns-same, OwnsPending, OwnsPending-same, SameSelection,
  answered-IsOf, answered-same, begun_loads_owned, change_entity_clears, moved-OwnsPending,
  take_out-AllTaken, versions_answered-IsOf, versions_answered-same,
}
use april_profile_kilo.ProfileDetail.{
  DetailProps, ProfileState, select_version, version_answers, version_at,
}
use april_profile_kilo.Runtime.{Runtime}
use april_profile_kilo.Providers.{Details}
use april_profile_kilo.FamilyDetail.{given}
use april_profile_kilo.ProfileDetail.Runs.Kept.{older_answers}

module _ (rt : Runtime) (p : DetailProps) (served : ℕ → Text → ℕ → Outcome Details) where
  select_version-same :
      (n : ℕ) (s : ProfileState)
      → SameSelection s (select_version rt n s) × ((select_version rt n s).versions ≡ s.versions)
  unfolding select_version
  select_version-same n s = elim (Option-cases (version_at n s.versions)) [
    | inl missing ↦ rw (select_version, missing) ((refl, refl, refl), refl)
    | inr (d, there) ↦ rw (select_version, there) ((refl, refl, refl), refl)
  ]

  goes_on-OwnsPending :
      (l : DetailLoad) (o : Outcome Details) (s t : ProfileState)
      → Owns t l
      → IfFulfilled (λ (d : Details). d.entity_id ≡ l.entity) o
      → All (OwnsPending t) (goes_on rt p served l o s)
  unfolding goes_on
  goes_on-OwnsPending l (fulfilled d) s t h e =
      elim (Bool-cases (is_live l s && not (leb d.version 1))) [
        | inl more ↦ rw more ((h, e), tt)
        | inr ended ↦ rw ended tt
      ]
  goes_on-OwnsPending l (rejected e) s t h u = tt

  answer-IsSound :
      IsTruthful served
      → (t head elapsed : ℕ) (x : Pending) (rest : List Pending) (s : ProfileState)
      → OwnsPending s x
      → All (OwnsPending s) rest
      → All (IsOf s.entity_id) s.versions
      → IsSound (take_answer rt p served t head elapsed x rest s)
  unfolding take_answer
  answer-IsSound truthful t head elapsed (profile_load l) rest s h hs hv =
      let o = served t l.entity head in
      let after = details_answered rt p elapsed l o s in
      let same = answered-same rt p elapsed l o s in
      (
        All-append (OwnsPending after) (goes_on rt p served l o s) rest
            (goes_on-OwnsPending l o s after (Owns-same s after l same h)
              (truthful t l.entity head))
            (All-each (OwnsPending s) (OwnsPending after) (OwnsPending-same s after same) rest hs),
        rw same.0 (answered-IsOf rt p elapsed l o s h (truthful t l.entity head) hv),
      )
  answer-IsSound truthful t head elapsed (versions_load l d) rest s (h, e) hs hv =
      let o = version_answers (served t l.entity) (load_of l d) in
      let after = details_versions_answered p l d o s in
      let same = versions_answered-same rt p l d o s in
      (
        All-each (OwnsPending s) (OwnsPending after) (OwnsPending-same s after same) rest hs,
        rw same.0 (
            versions_answered-IsOf rt p l d o s h e
              (older_answers (λ (v : Details). v.entity_id ≡ l.entity) (served t l.entity)
                (load_of l d) (truthful t l.entity))
              hv),
      )

  taken-IsSound :
      IsTruthful served
      → (t head elapsed : ℕ) (o : Option (Pending × List Pending)) (r : LoadRun)
      → AllTaken (OwnsPending r.detail) o
      → IsSound r
      → IsSound (answer_taken rt p served t head elapsed o r)
  unfolding answer_taken
  taken-IsSound truthful t head elapsed none r h sound = sound
  taken-IsSound truthful t head elapsed (some (x, rest)) r (hx, hs) (hp, hv) =
      answer-IsSound truthful t head elapsed x rest r.detail hx hs hv

  load_step-IsSound :
      IsTruthful served
      → (e : LoadEvent) (r : LoadRun) → IsSound r
      → IsSound (load_step rt p served e r)
  unfolding load_step
  load_step-IsSound truthful (entity_changed next) r (hp, hv) =
      let after = change_entity p next r.detail in
      (
        All-append (OwnsPending after) (begun_loads (given next) r.detail) r.pending
            (begun_loads_owned p next r.detail)
            (All-each (OwnsPending r.detail) (OwnsPending after) (moved-OwnsPending p next r.detail)
              r.pending hp),
        rw (change_entity_clears p next r.detail) tt,
      )
  load_step-IsSound truthful (version_chosen n) r (hp, hv) =
      let after = select_version rt n r.detail in
      let (same, kept) = select_version-same n r.detail in
      (
        All-each (OwnsPending r.detail) (OwnsPending after) (OwnsPending-same r.detail after same)
            r.pending hp,
        rw (kept, same.0) hv,
      )
  load_step-IsSound truthful (answer_given i t head elapsed) r (hp, hv) =
      taken-IsSound truthful t head elapsed (take_out i r.pending) r
        (take_out-AllTaken (OwnsPending r.detail) i r.pending hp) (hp, hv)

  load_run-IsSound :
      IsTruthful served
      → (es : List LoadEvent) (r : LoadRun) → IsSound r
      → IsSound (load_run rt p served es r)
  unfolding load_run
  load_run-IsSound truthful [] r sound = sound
  load_run-IsSound truthful (e ∷ es) r sound =
      load_run-IsSound truthful es (load_step rt p served e r)
        (load_step-IsSound truthful e r sound)

  -- Let the selection change, versions be chosen, and loads be answered or fail, in any order, from a
  -- state without versions and loads. If what the provider answers is of the profile that it was asked
  -- for, then every version that the widget keeps, and offers to choose, is one of the profile that is
  -- selected at that moment.
  pub versions_follow_selection :
      IsTruthful served
      → (s : ProfileState) → s.versions ≡ []
      → (es : List LoadEvent)
      → let after = (load_run rt p served es (record { detail = s; pending = [] })).detail in
        All (IsOf after.entity_id) after.versions
  versions_follow_selection truthful s none_kept es =
      (load_run-IsSound truthful es (record { detail = s; pending = [] }) (tt, rw none_kept tt)).1
