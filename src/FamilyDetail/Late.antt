-- ===== src/FamilyDetail/Late.antt =====
-- components/EntityTypesWidgetDetailCore.tsx: answers that come late.
use mathlib.Core.Path.{◌≡◌, refl, ap, sym}
use native.Mathlib.Omega.{arith}
use april_profile_kilo.FamilyDetail.{
  FamilyLoad, FamilyProps, FamilyState, family_answered, newest_load, abort_detail, is_abort,
  report_of, about_family, given, show_detail_error,
}
use april_profile_kilo.Base.{
  List, Text, codes, none, some, ◌≢◌, false, ◌∙◌, [], any, suc, true, ℕ, ◌++◌, ◌==◌, ◌∷◌,
}
use april_profile_kilo.Providers.EntityTypes.{FamilyDetail, Revision}
use april_profile_kilo.Transport.Promise.{Outcome, fulfilled, rejected}
use april_profile_kilo.Errors.{
  abort_error, map_api_error, provider_error, Thrown, report_type_error, type_message,
}
use april_profile_kilo.Runtime.{Runtime}
use april_profile_kilo.FamilyDetail.Upgrades.{change_family}
use april_profile_kilo.Telemetry.{details_failed, emit, entity_types, failed}
use april_profile_kilo.FamilyDetail.Screen.{choose_alert, detail_pieces}
use april_profile_kilo.Errors.Reports.{reported}

abort_message :
    (p : FamilyProps)
    → (report_of p (provider_error (map_api_error abort_error))).message
      ≡ codes "Operation failed. Please try again."
unfolding report_type_error map_api_error type_message
abort_message p = refl

module _ (rt : Runtime) (p : FamilyProps) where
  -- An answer to a load of a family that is not the last one begun changes nothing.
  pub late_family_answer :
      (l : FamilyLoad) (o : Outcome (FamilyDetail × List Revision)) (s : FamilyState)
      → l.id ≢ s.request_id
      → family_answered rt p l o s ≡ s
  unfolding family_answered
  late_family_answer l (fulfilled (d, rs)) s h = ground arith
  late_family_answer l (rejected e) s h = ground arith

  failure_told :
      (l : FamilyLoad) (e : Thrown) (s : FamilyState)
      → l.id ≡ s.request_id
      → is_abort e ≡ false
      → ((family_answered rt p l (rejected e) s).outputs
          ≡ s.outputs
            ++ failed (report_of p e) ∷ []
            ++ emit p.observes p.host entity_types details_failed (about_family l.family))
        × ((family_answered rt p l (rejected e) s).detail_error ≡ some (report_of p e).message)
        × ((family_answered rt p l (rejected e) s).family_id ≡ s.family_id)
  unfolding family_answered show_detail_error
  failure_told l e s h a =
      let last : (l.id == s.request_id) ≡ true = ground arith in
      rw (family_answered, last, a) (refl, refl, refl)

  request_id-change_family : (s : FamilyState) → (change_family p none s).request_id ≡ s.request_id
  unfolding change_family abort_detail
  request_id-change_family s = ground arith

  family_id-change_family : (s : FamilyState) → (change_family p none s).family_id ≡ none
  unfolding change_family
  family_id-change_family s = ground arith

  aborted-change_family :
      (s : FamilyState) (c n : ℕ) (id : Text)
      → s.family_id ≡ some (c ∷ id)
      → s.request_id ≡ suc n
      → any (λ (k : ℕ). k == suc n) (change_family p none s).aborted_loads ≡ true
  unfolding change_family abort_detail
  aborted-change_family s c n id f r = rw (change_family, f, abort_detail, r) (ground arith)

  asks_to_select :
      (s : FamilyState)
      → s.family_id ≡ none
      → detail_pieces rt s (given s.family_id) ≡ choose_alert ∷ []
  unfolding detail_pieces
  asks_to_select s h = rw h refl

  -- A family is deselected while it loads. Its call is aborted, and when the call then ends with the
  -- abort as the provider maps it, the host is told of an error all the same, with the message of a
  -- failed operation, and the error is kept; the screen has no place for it, for it asks to select a
  -- family.
  pub deselection_reports_error :
      (s : FamilyState) (c n : ℕ) (id : Text)
      → s.family_id ≡ some (c ∷ id)
      → s.request_id ≡ suc n
      → let left = change_family p none s in
        let after =
          family_answered rt p
            (newest_load (c ∷ id) s)
            (rejected (provider_error (map_api_error abort_error)))
            left in
        (any (λ (k : ℕ). k == suc n) left.aborted_loads ≡ true)
        × (after.outputs
            ≡ left.outputs
              ++ failed (report_of p (provider_error (map_api_error abort_error))) ∷ []
              ++ emit p.observes p.host entity_types details_failed (about_family (c ∷ id)))
        × (after.detail_error ≡ some (codes "Operation failed. Please try again."))
        × (detail_pieces rt after (given after.family_id) ≡ choose_alert ∷ [])
  unfolding is_abort map_api_error
  deselection_reports_error s c n id f r =
      let left = change_family p none s in
      let e = provider_error (map_api_error abort_error) in
      let (reported, kept, same) =
        failure_told (newest_load (c ∷ id) s) e left (sym (request_id-change_family s)) refl in
      let gone : (family_answered rt p (newest_load (c ∷ id) s) (rejected e) left).family_id
          ≡ none =
        same ∙ family_id-change_family s in
      (
        aborted-change_family s c n id f r,
        reported,
        kept ∙ ap some (abort_message p),
        asks_to_select (family_answered rt p (newest_load (c ∷ id) s) (rejected e) left) gone,
      )
