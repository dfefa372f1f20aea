-- ===== src/Providers/Agreement.antt =====
-- What holds across the operations of the two OpenAPI providers.
use april_profile_kilo.Base.{
  List, Option, Text, [], ap, false, refl, some, ℕ, ◌∷◌, ◌≡◌, ◌≢◌, arith, if◌then◌else◌, leb, ◌==◌,
  ◌||◌, ◌∙◌,
}
use april_profile_kilo.Providers.EntityTypes.{
  CreateFamilyInput, PatchFamilyInput, SaveDraftInput, create_family, delete_family, get_family,
  list_families, list_profiles_for_type, list_revisions, patch_family, publish_draft, save_draft,
}
use april_profile_kilo.Value.{Value}
use april_profile_kilo.Providers.{ListQuery, Operation, ProfileListResponse, conclude}
use april_profile_kilo.Transport.Promise.{Outcome, fulfilled, rejected}
use april_profile_kilo.Errors.{
  Thrown, api_error, map_api_error, provider_error, status_to_code, ErrorCode, ProviderError,
  conflict, forbidden, not_found, rate_limited, unauthorized, unknown, validation,
}
use april_profile_kilo.Transport.Request.{ApiRequest, ApiResult, Config, get_url, receive}
use april_profile_kilo.Providers.Profiles.{
  CreateInput, UpdateInput, create_profile, get_by_version, get_profile, get_published_schema,
  list_entity_types, list_profiles, remove_profile, update_profile,
}
use april_profile_kilo.Transport.Request.Laws.{failure_rejects, is_success}
use april_profile_kilo.Providers.Upgrades.{
  BatchUpgradeInput, UpgradeInput, batch_upgrade, upgrade_binding,
}

-- Listing the profiles of a type asks the address, and makes the result or error of any response,
-- that listing profiles with that type as a filter does.
pub list_for_type_agrees :
    (config : Config) (id : Text) (q : ListQuery) (o : Outcome ProfileListResponse)
    → (get_url config (list_profiles_for_type id q).request
        ≡ get_url config (list_profiles (record q { entity_type_id = some id })).request)
      × (conclude (list_profiles_for_type id q) o
          ≡ conclude (list_profiles (record q { entity_type_id = some id })) o)
unfolding get_url list_profiles_for_type list_profiles conclude
list_for_type_agrees config id q (fulfilled v) = (refl, refl)
list_for_type_agrees config id q (rejected e) = (refl, refl)

-- The arguments that the operations take.
pub record Arguments : Type 0 where
  pub query : ListQuery
  pub id : Text
  pub version : ℕ
  pub create : CreateInput
  pub update : UpdateInput
  pub family : CreateFamilyInput
  pub patch : PatchFamilyInput
  pub draft_input : SaveDraftInput
  pub upgrade : Option UpgradeInput
  pub batch : BatchUpgradeInput

-- The requests of all operations of both providers.
abbrev pub all_requests : Arguments → List ApiRequest
all_requests a =
    (list_profiles a.query).request
    ∷ (get_profile a.id).request
    ∷ (get_by_version a.id a.version).request
    ∷ list_entity_types.request
    ∷ (get_published_schema a.id).request
    ∷ (create_profile a.create).request
    ∷ (update_profile a.id a.update).request
    ∷ (remove_profile a.id).request
    ∷ list_families.request
    ∷ (get_family a.id).request
    ∷ (create_family a.family).request
    ∷ (patch_family a.id a.patch).request
    ∷ (delete_family a.id).request
    ∷ (save_draft a.id a.draft_input).request
    ∷ (publish_draft a.id).request
    ∷ (list_revisions a.id).request
    ∷ (list_profiles_for_type a.id a.query).request
    ∷ (upgrade_binding a.id a.upgrade).request
    ∷ (batch_upgrade a.batch).request
    ∷ []

-- What the statuses of the API mean, as its documentation names them; any other is not told apart.
abbrev pub documented_codes : List (ℕ × ErrorCode)
documented_codes =
    (400, validation)
    ∷ (401, unauthorized)
    ∷ (403, forbidden)
    ∷ (404, not_found)
    ∷ (409, conflict)
    ∷ (422, validation)
    ∷ (429, rate_limited)
    ∷ []

abbrev pub code_listed : ℕ → List (ℕ × ErrorCode) → ErrorCode
code_listed status [] = unknown
code_listed status ((n, code) ∷ rows) = if n == status then code else code_listed status rows

codes_agree : (status : ℕ) → status_to_code status ≡ code_listed status documented_codes
unfolding status_to_code
codes_agree status = ground arith

module _ (pretty : Value → Text) (r : ApiResult) (same : r.ok ≡ is_success r.status) where
  -- Whatever the operation, a response with a status outside 200 to 299, and an `ok` flag that
  -- agrees, makes it throw a provider error: with the status of the response, the code that stands for
  -- it in the list of documented statuses (unknown if it is not in it), and the advice to try again
  -- exactly for a status of 429 or from 500 on.
  pub failure_is_classified :
      {T R : Type 0} (op : Operation T R)
      → is_success r.status ≡ false
      → (t : Thrown) × (e : ProviderError) × (receive pretty op.request r ≡ rejected t)
        × (conclude op (rejected t) ≡ rejected (provider_error e))
        × (e.code ≡ code_listed r.status documented_codes)
        × (e.status ≡ some r.status)
        × (e.retryable ≡ some (leb 500 r.status || r.status == 429))
  unfolding conclude map_api_error
  failure_is_classified op h =
      let (e, rejects, status, body) = failure_rejects pretty op.request r same h in
      (
        api_error e,
        map_api_error (api_error e),
        rejects,
        refl,
        ap status_to_code status ∙ codes_agree r.status,
        ap some status,
        ap (λ (n : ℕ). some (leb 500 n || n == 429)) status,
      )

-- The expected version of a profile update does not reach the request, so updates that expect
-- different versions are one request; draft saves that expect different versions have different
-- bodies.
pub versions_on_the_wire :
    (id : Text) (i : UpdateInput) (v : Option ℕ) (d : SaveDraftInput) (n : ℕ)
    → n ≢ d.if_draft_schema_version
    → ((update_profile id (record i { expected_version = v })).request
        ≡ (update_profile id i).request)
      × ((save_draft id (record d { if_draft_schema_version = n })).request.body
          ≢ (save_draft id d).request.body)
unfolding update_profile save_draft
versions_on_the_wire id i v d n h = (refl, λ e. h (cc))
