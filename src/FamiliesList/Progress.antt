-- ===== src/FamiliesList/Progress.antt =====
-- components/EntityTypesWidgetCore.tsx: the loads of the list come to an end.
use mathlib.Core.Path.{◌≡◌, refl, sym}
use native.Mathlib.Omega.{arith}
use april_profile_kilo.Transport.Promise.{Outcome, fulfilled, rejected}
use april_profile_kilo.Providers.EntityTypes.{FamilyDetail, FamilySummary}
use april_profile_kilo.FamiliesList.{
  FamiliesState, begin_families, families_answered, finish_creation, is_other, resume_creations,
  FamilyEvent, answer_families, begin_creation, catalog_reloaded, creation_answered,
  creation_closed, creation_in, creation_submitted, families_in, family_added, family_chosen,
  family_removed, family_run, family_step, first_families, name_typed, open_creation, submit_text,
}
use april_profile_kilo.Base.{
  Bool, Bool-cases, List, [], any, false, if◌then◌else◌, inl, inr, keep, suc, true, ℕ, ◌++◌, ◌==◌,
  ◌∷◌, none, ◌∙◌, ==_refl, some,
}
use april_profile_kilo.FamilyDetail.{FamilyProps}
use april_profile_kilo.Editor.{Parsed, is_source, parse_draft, parsed, refused}
use april_profile_kilo.Runtime.{Runtime}

abbrev is_under_way : ℕ → List ℕ → Bool
is_under_way id ns = any (λ (n : ℕ). n == id) ns

-- While the list loads, the last load begun is under way.
abbrev IsAwaited : FamiliesState → Type 0
IsAwaited s = s.list_loading ≡ true → is_under_way s.request_id s.in_flight ≡ true

pub under_way_last : (id : ℕ) (ns : List ℕ) → is_under_way id (ns ++ id ∷ []) ≡ true
under_way_last id [] = ground arith
under_way_last id (n ∷ ns) = ground (arith, under_way_last id ns)

under_way_keep :
    (id done : ℕ) (ns : List ℕ)
    → (id == done) ≡ false
    → is_under_way id ns ≡ true
    → is_under_way id (keep (is_other done) ns) ≡ true
under_way_keep id done [] h e = cc
under_way_keep id done (n ∷ ns) h e = ground (arith, under_way_keep id done ns)

begin_families-IsAwaited : (p : FamilyProps) (s : FamiliesState) → IsAwaited (begin_families p s)
unfolding begin_families
begin_families-IsAwaited p s loading = under_way_last (suc s.request_id) s.in_flight

resume_creations-IsAwaited :
    (id : ℕ) (ws : List (ℕ × FamilyDetail)) (s : FamiliesState)
    → IsAwaited s
    → IsAwaited (resume_creations id ws s)
unfolding resume_creations
resume_creations-IsAwaited id [] s h = h
resume_creations-IsAwaited id ((n, d) ∷ ws) s h = elim (Bool-cases (n == id)) [
  | inl same ↦ rw same (resume_creations-IsAwaited id ws (finish_creation d s) h)
  | inr apart ↦ rw apart (resume_creations-IsAwaited id ws s h)
]

-- What an answer leaves of the fields that matter here.
pub families_answered-keeps :
    (p : FamilyProps) (elapsed id : ℕ) (o : Outcome (List FamilySummary)) (s : FamiliesState)
    → ((families_answered p elapsed id o s).in_flight ≡ s.in_flight)
      × ((families_answered p elapsed id o s).request_id ≡ s.request_id)
      × ((families_answered p elapsed id o s).list_loading
          ≡ (if id == s.request_id then false else s.list_loading))
unfolding families_answered
families_answered-keeps p elapsed id (fulfilled rows) s = ground arith
families_answered-keeps p elapsed id (rejected e) s = ground arith

families_answered-IsAwaited :
    (p : FamilyProps) (elapsed id : ℕ) (o : Outcome (List FamilySummary)) (s left : FamiliesState)
    → left.in_flight ≡ keep (is_other id) s.in_flight
    → left.request_id ≡ s.request_id
    → left.list_loading ≡ s.list_loading
    → IsAwaited s
    → IsAwaited (families_answered p elapsed id o left)
families_answered-IsAwaited p elapsed id o s left flight req load h loading =
    let (f, r, l) = families_answered-keeps p elapsed id o left in
    elim (Bool-cases (id == left.request_id)) [
      | inl same ↦ let over : true ≡ false = sym loading ∙ l ∙ rw same refl in cc
      | inr apart ↦
          let on : s.list_loading ≡ true = sym load ∙ sym (l ∙ rw apart refl) ∙ loading in
          rw (r, f, flight, req) (under_way_keep s.request_id id s.in_flight (ground arith) (h on))
    ]

answer_families-IsAwaited :
    (p : FamilyProps) (elapsed id : ℕ) (o : Outcome (List FamilySummary)) (s : FamiliesState)
    → IsAwaited s
    → IsAwaited (answer_families p elapsed id o s)
unfolding answer_families
answer_families-IsAwaited p elapsed id o s h =
    let left : FamiliesState = record s {
      in_flight = keep (is_other id) s.in_flight;
      awaiting = keep (λ (w : ℕ × FamilyDetail). is_other id w.0) s.awaiting;
    } in
    elim (Bool-cases (is_under_way id s.in_flight)) [
      | inl there ↦ rw there (
          resume_creations-IsAwaited id s.awaiting (families_answered p elapsed id o left)
            (families_answered-IsAwaited p elapsed id o s left refl refl refl h))
      | inr gone ↦ rw gone h
    ]

creation_answered-IsAwaited :
    (p : FamilyProps) (o : Outcome FamilyDetail) (s : FamiliesState)
    → IsAwaited s
    → IsAwaited (creation_answered p o s)
unfolding creation_answered begin_families
creation_answered-IsAwaited p (fulfilled d) s h loading =
    under_way_last (suc s.request_id) s.in_flight
creation_answered-IsAwaited p (rejected e) s h loading = h loading

submit_text-IsAwaited :
    (s : FamiliesState) (d : Parsed) → IsAwaited s → IsAwaited (submit_text s d).0
unfolding submit_text
submit_text-IsAwaited s (parsed fs) h = h
submit_text-IsAwaited s (refused message) h = h

begin_creation-IsAwaited :
    (rt : Runtime) (s : FamiliesState) → IsAwaited s → IsAwaited (begin_creation rt s).0
unfolding begin_creation
begin_creation-IsAwaited rt s h = elim (Bool-cases (is_source s.create_draft_mode)) [
  | inl text ↦ rw text (submit_text-IsAwaited s (parse_draft rt s.create_draft_text) h)
  | inr value ↦ rw value h
]

module _ (rt : Runtime) (p : FamilyProps) where
  family_step-IsAwaited :
      (e : FamilyEvent) (s : FamiliesState) → IsAwaited s → IsAwaited (family_step rt p e s)
  unfolding family_step open_creation
  family_step-IsAwaited catalog_reloaded s h = begin_families-IsAwaited p s
  family_step-IsAwaited family_removed s h =
      begin_families-IsAwaited p (record s { selected_family = none })
  family_step-IsAwaited family_added s h = h
  family_step-IsAwaited creation_closed s h = h
  family_step-IsAwaited (name_typed namespace code) s h = h
  family_step-IsAwaited (family_chosen id) s h = h
  family_step-IsAwaited (families_in elapsed id o) s h =
      answer_families-IsAwaited p elapsed id o s h
  family_step-IsAwaited creation_submitted s h = begin_creation-IsAwaited rt s h
  family_step-IsAwaited (creation_in o) s h = creation_answered-IsAwaited p o s h

  family_run-IsAwaited :
      (es : List FamilyEvent) (s : FamiliesState) → IsAwaited s → IsAwaited (family_run rt p es s)
  unfolding family_run
  family_run-IsAwaited [] s h = h
  family_run-IsAwaited (e ∷ es) s h =
      family_run-IsAwaited es (family_step rt p e s) (family_step-IsAwaited e s h)

  idle_list : (s : FamiliesState) → IsAwaited s → s.in_flight ≡ [] → s.list_loading ≡ false
  idle_list s h none_left = elim (Bool-cases s.list_loading) [
    | inl on ↦ let still = h on in ground arith
    | inr off ↦ off
  ]

  -- From the first load on, whatever the user, the detail and the server do and in whatever order the
  -- loads are answered: once every load begun has been answered, the list is shown and not the
  -- spinner in its place.
  pub families_end_loading :
      (es : List FamilyEvent)
      → (family_run rt p es (begin_families p first_families)).in_flight ≡ []
      → (family_run rt p es (begin_families p first_families)).list_loading ≡ false
  families_end_loading es all_in =
      idle_list (family_run rt p es (begin_families p first_families))
        (family_run-IsAwaited es (begin_families p first_families)
          (begin_families-IsAwaited p first_families))
        all_in

resumed :
    (id : ℕ) (d : FamilyDetail) (s : FamiliesState)
    → ((resume_creations id ((id, d) ∷ []) s).selected_family ≡ some d.id)
      × ((resume_creations id ((id, d) ∷ []) s).create_busy ≡ false)
unfolding resume_creations
resumed id d s = rw (==_refl id) (refl, refl)

awaiting-creation_answered :
    (p : FamilyProps) (d : FamilyDetail) (s : FamiliesState)
    → s.awaiting ≡ []
    → (creation_answered p (fulfilled d) s).awaiting ≡ (suc s.request_id, d) ∷ []
unfolding creation_answered begin_families
awaiting-creation_answered p d s h = rw h refl

created_under_way :
    (p : FamilyProps) (d : FamilyDetail) (s : FamiliesState)
    → is_under_way (suc s.request_id) (creation_answered p (fulfilled d) s).in_flight ≡ true
unfolding creation_answered begin_families
created_under_way p d s = under_way_last (suc s.request_id) s.in_flight

-- A family that has been created, while no other creation waits, is selected as soon as the load of
-- the list that follows has been answered, even by an error, and the form is free again.
pub created_family_selected :
    (p : FamilyProps) (d : FamilyDetail) (s : FamiliesState) (elapsed : ℕ)
    (o : Outcome (List FamilySummary))
    → s.awaiting ≡ []
    → ((answer_families p elapsed
          (suc s.request_id)
          o
          (creation_answered p (fulfilled d) s)).selected_family
        ≡ some d.id)
      × ((answer_families p elapsed
            (suc s.request_id)
            o
            (creation_answered p (fulfilled d) s)).create_busy
          ≡ false)
unfolding answer_families
created_family_selected p d s elapsed o none_waits =
    rw (created_under_way p d s, awaiting-creation_answered p d s none_waits)
      (resumed (suc s.request_id) d _)
