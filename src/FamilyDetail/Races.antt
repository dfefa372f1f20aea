-- ===== src/FamilyDetail/Races.antt =====
-- Two editors of one entity type: components/EntityTypesWidgetDetailCore.tsx over
-- providers/openapiEntityTypesProvider.ts, against the server of frontend/src/mocks/handlers.ts.
use mathlib.Core.Path.{◌≡◌, refl, ap}
use native.Mathlib.Omega.{arith}
use april_profile_kilo.Errors.{
  ProviderError, Thrown, api_error, as_provider_error, conflict, map_api_error, provider_error,
  status_to_code, ApiError,
}
use april_profile_kilo.Base.{
  Text, [], codes, some, text_eq, ℕ, Option, false, is_some, true, ◌∙◌, ◌∷◌,
}
use april_profile_kilo.Transport.Request.{ApiResult, receive}
use april_profile_kilo.Transport.Promise.{rejected}
use april_profile_kilo.Providers.{conclude, EntityTypeRow}
use april_profile_kilo.Value.{Value, chain, end, field, object, prop, string}
use april_profile_kilo.Providers.EntityTypes.{SaveDraftInput, save_draft, FamilyDetail}
use april_profile_kilo.Transport.Request.Laws.{failure_rejects, is_success}
use april_profile_kilo.FamilyDetail.Drafts.{SaveCall, begin_save, save_answered}
use april_profile_kilo.Demo.Families.{put_draft}
use april_profile_kilo.Demo.{Store, json, problem}
use april_profile_kilo.Errors.Reports.{HasTextMessage, recognised_iff}
use april_profile_kilo.FamilyDetail.Conflicts.{begin_save_tree, conflict_keeps_draft}
use april_profile_kilo.FamilyDetail.{FamilyProps, FamilyState}
use april_profile_kilo.Demo.Drafts.{second_save_refused}
use april_profile_kilo.Runtime.{Runtime}
use april_profile_kilo.Editor.{is_source}

-- The response that a refusal of the server is, with its message as a JSON body.
abbrev pub problem_result : ℕ → Text → ApiResult
problem_result status message = record {
  ok = is_success status;
  status = status;
  status_text = [];
  body = object (field (codes "message") (string message) end);
}

-- The mapped error of a refused save.
pub SaveError : (Value → Text) → Text → SaveDraftInput → ℕ → Text → ProviderError → Type 0
SaveError pretty id sent status message e =
    (t : Thrown) × (receive pretty (save_draft id sent).request (problem_result status message)
      ≡ rejected t)
    × (conclude (save_draft id sent) (rejected t) ≡ rejected (provider_error e))

known_self :
    (x : ProviderError)
    → is_some (as_provider_error (provider_error x)) ≡ true
    → as_provider_error (provider_error x) ≡ some x
unfolding as_provider_error
known_self x h = ground arith

text_message :
    (e : ApiError) (message : Text)
    → e.body ≡ object (field (codes "message") (string message) end)
    → HasTextMessage e
unfolding chain prop text_eq
text_message e message body = rw body refl

code_of_status :
    (e : ApiError) (n : ℕ) → e.status ≡ n → (map_api_error (api_error e)).code ≡ status_to_code n
unfolding map_api_error
code_of_status e n h = ap status_to_code h

conflict_status : status_to_code 409 ≡ conflict
unfolding status_to_code
conflict_status = refl

-- A refusal with status 409 reaches the widget as a conflict that it recognises.
refusal_is_conflict :
    (pretty : Value → Text) (id : Text) (sent : SaveDraftInput) (message : Text)
    → (e : ProviderError) × SaveError pretty id sent 409 message e
      × (e.code ≡ conflict)
      × (as_provider_error (provider_error e) ≡ some e)
unfolding SaveError conclude
refusal_is_conflict pretty id sent message =
    let (e, rejects, status, body) =
      failure_rejects pretty (save_draft id sent).request (problem_result 409 message) refl refl in
    let mapped = map_api_error (api_error e) in
    (
      mapped,
      (api_error e, rejects, refl),
      code_of_status e 409 status ∙ conflict_status,
      known_self mapped ((recognised_iff e).1 (text_message e message body)),
    )

module _ (rt : Runtime) (p : FamilyProps) where
  -- Two editors have loaded the draft of one family at the same version, and one has saved. The save
  -- of the other, from the tree, is sent under the version that it loaded, and the server refuses
  -- it and keeps what the first has saved. The refusal reaches the other editor as an error that
  -- marks a conflict and leaves its own draft there.
  pub lost_update_refused :
      (s : FamilyState) (c : ℕ) (id : Text) (detail : FamilyDetail) (ours : SaveDraftInput)
      (store : Store) (row : EntityTypeRow)
      → s.family_id ≡ some (c ∷ id)
      → s.family_detail ≡ some detail
      → is_source s.draft_mode ≡ false
      → (put_draft (c ∷ id) ours store).0 ≡ json 200 row
      → detail.draft_schema_version ≡ ours.if_draft_schema_version
      → (sent : SaveDraftInput) × (e : ProviderError) × ((begin_save rt p s).1
          ≡ some (record { family = c ∷ id; input = sent }))
        × (put_draft (c ∷ id) sent (put_draft (c ∷ id) ours store).1
            ≡ (problem 409 (codes "draft version conflict"), (put_draft (c ∷ id) ours store).1))
        × SaveError rt.pretty (c ∷ id) sent 409 (codes "draft version conflict") e
        × ((save_answered rt p
              (c ∷ id)
              (rejected (provider_error e))
              (begin_save rt p s).0).draft_conflict
            ≡ true)
        × ((save_answered rt p
              (c ∷ id)
              (rejected (provider_error e))
              (begin_save rt p s).0).draft_schema
            ≡ s.draft_schema)
  lost_update_refused s c id detail ours store row f d m saved same =
      let sent : SaveDraftInput = record {
        draft_schema = s.draft_schema;
        if_draft_schema_version = detail.draft_schema_version;
      } in
      let begun = begin_save_tree rt p s c id detail f d m in
      let (e, wire, clash, known) =
        refusal_is_conflict rt.pretty (c ∷ id) sent (codes "draft version conflict") in
      let kept = conflict_keeps_draft rt p (c ∷ id) e (begin_save rt p s).0 known clash in
      (
        sent,
        e,
        ap (λ (x : FamilyState × Option SaveCall). x.1) begun,
        second_save_refused (c ∷ id) ours sent store row saved same,
        wire,
        kept.0,
        kept.1 ∙ ap (λ (x : FamilyState × Option SaveCall). x.0.draft_schema) begun,
      )
