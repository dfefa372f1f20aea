-- ===== src/FamilyDetail/Conflicts.antt =====
-- components/EntityTypesWidgetDetailCore.tsx: what a save sends, and what a conflict leaves.
use mathlib.Core.Path.{◌≡◌, refl, ap}
use april_profile_kilo.Transport.Promise.{rejected}
use april_profile_kilo.FamilyDetail.Drafts.{
  begin_save, save_answered, submit_save, save_detail, save_family, fail_save,
}
use april_profile_kilo.FamilyDetail.{FamilyProps, FamilyState, given}
use april_profile_kilo.Errors.{ProviderError, as_provider_error, conflict, provider_error}
use april_profile_kilo.Base.{Text, false, none, some, true, ℕ, ◌∷◌, Option, ◌∙◌}
use april_profile_kilo.Providers.EntityTypes.{FamilyDetail}
use april_profile_kilo.Editor.{is_source}
use april_profile_kilo.Runtime.{Runtime}

module _ (rt : Runtime) (p : FamilyProps) where
  -- A save that fails by a conflict is marked as one and changes neither the draft that is being
  -- edited, in any of its views, nor the version that it goes back to, and the form is free again.
  pub conflict_keeps_draft :
      (id : Text) (e : ProviderError) (s : FamilyState)
      → as_provider_error (provider_error e) ≡ some e
      → e.code ≡ conflict
      → ((save_answered rt p id (rejected (provider_error e)) s).draft_conflict ≡ true)
        × ((save_answered rt p id (rejected (provider_error e)) s).draft_schema ≡ s.draft_schema)
        × ((save_answered rt p id (rejected (provider_error e)) s).draft_source_text
            ≡ s.draft_source_text)
        × ((save_answered rt p id (rejected (provider_error e)) s).draft_mode ≡ s.draft_mode)
        × ((save_answered rt p id (rejected (provider_error e)) s).family_detail ≡ s.family_detail)
        × ((save_answered rt p id (rejected (provider_error e)) s).busy ≡ none)
  unfolding save_answered fail_save
  conflict_keeps_draft id e s known clash = rw (known, clash) (refl, refl, refl, refl, refl, refl)

  submitted :
      (s : FamilyState) (c : ℕ) (id : Text) (detail : FamilyDetail)
      → is_source s.draft_mode ≡ false
      → save_detail rt p (c ∷ id) (some detail) s ≡ submit_save p (c ∷ id) detail s.draft_schema s
  unfolding save_detail
  submitted s c id detail m = rw m refl

  -- What a save sends: the draft as the tree has it, under the version of the detail that was loaded
  -- last, where the draft is not edited as text.
  pub begin_save_tree :
      (s : FamilyState) (c : ℕ) (id : Text) (detail : FamilyDetail)
      → s.family_id ≡ some (c ∷ id)
      → s.family_detail ≡ some detail
      → is_source s.draft_mode ≡ false
      → begin_save rt p s ≡ submit_save p (c ∷ id) detail s.draft_schema s
  unfolding begin_save save_family
  begin_save_tree s c id detail f d m =
      ap (λ (o : Option Text). save_family rt p (given o) s) f
      ∙ ap (λ (o : Option FamilyDetail). save_detail rt p (c ∷ id) o s) d
      ∙ submitted s c id detail m
