-- ===== src/FamiliesList/Reloads.antt =====
-- components/EntityTypesWidgetCore.tsx: what a load of the list does to the detail beside it.
use mathlib.Core.Path.{◌≡◌, refl}
use april_profile_kilo.Base.{
  ==_refl, Bool-cases, List, [], any, false, inl, inr, keep, suc, true, ℕ, ◌==◌, ◌∙◌, ◌∷◌,
}
use april_profile_kilo.FamiliesList.{
  FamiliesState, answer_families, begin_families, catalog_reloaded, families_answered, families_in,
  family_step, finish_creation, is_other, resume_creations,
}
use april_profile_kilo.Providers.EntityTypes.{FamilyDetail, FamilySummary}
use april_profile_kilo.FamilyDetail.{FamilyProps}
use april_profile_kilo.FamiliesList.Screen.{detail_shown, families_screen, is_detail}
use april_profile_kilo.Transport.Promise.{Outcome}
use april_profile_kilo.FamiliesList.Progress.{families_answered-keeps, under_way_last}
use april_profile_kilo.Runtime.{Runtime}

resume_creations-loading :
    (id : ℕ) (ws : List (ℕ × FamilyDetail)) (s : FamiliesState)
    → (resume_creations id ws s).list_loading ≡ s.list_loading
unfolding resume_creations
resume_creations-loading id [] s = refl
resume_creations-loading id ((n, d) ∷ ws) s = elim (Bool-cases (n == id)) [
  | inl same ↦ rw same (resume_creations-loading id ws (finish_creation d s))
  | inr apart ↦ rw apart (resume_creations-loading id ws s)
]

last_answer_ends :
    (p : FamilyProps) (elapsed id : ℕ) (o : Outcome (List FamilySummary)) (s : FamiliesState)
    → any (λ (n : ℕ). n == id) s.in_flight ≡ true
    → (id == s.request_id) ≡ true
    → (answer_families p elapsed id o s).list_loading ≡ false
unfolding answer_families
last_answer_ends p elapsed id o s there last =
    let left : FamiliesState = record s {
      in_flight = keep (is_other id) s.in_flight;
      awaiting = keep (λ (w : ℕ × FamilyDetail). is_other id w.0) s.awaiting;
    } in
    let (f, r, l) = families_answered-keeps p elapsed id o left in
    rw (answer_families, there)
      (resume_creations-loading id s.awaiting (families_answered p elapsed id o left)
        ∙ l
        ∙ rw last refl)

-- A reload that the detail asks for takes the detail off the screen, whatever was on it, and it comes
-- back, newly mounted, with the answer of that load, be it a list or an error.
pub detail_remounted :
    (rt : Runtime) (p : FamilyProps) (s : FamiliesState) (elapsed : ℕ)
    (o : Outcome (List FamilySummary))
    → (any is_detail (families_screen rt (family_step rt p catalog_reloaded s)) ≡ false)
      × (any is_detail (
            families_screen rt (
              family_step rt p
                (families_in elapsed (suc s.request_id) o)
                (family_step rt p catalog_reloaded s)))
          ≡ true)
unfolding family_step begin_families
detail_remounted rt p s elapsed o =
    let loading = begin_families p s in
    let ended =
      last_answer_ends p elapsed (suc s.request_id) o loading
        (under_way_last (suc s.request_id) s.in_flight) (==_refl (suc s.request_id)) in
    (
      detail_shown rt loading,
      detail_shown rt (answer_families p elapsed (suc s.request_id) o loading) ∙ rw ended refl,
    )
