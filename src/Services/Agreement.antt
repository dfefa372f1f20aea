-- ===== src/Services/Agreement.antt =====
-- The requests that the two OpenAPI providers write by hand, against those of the generated client.
use mathlib.Core.Path.{◌≡◌}
use native.Mathlib.Omega.{arith}
use april_profile_kilo.Services.Profiles.{
  batch_upgrade_entity_type_revision, create_entity_profile, delete_entity_profile,
  get_entity_current_profile, get_entity_profile_by_version, list_entity_profiles,
  update_entity_profile, upgrade_entity_type_revision,
}
use april_profile_kilo.Transport.Request.{ApiRequest, ApiResult, Config, catch_error_codes, get_url}
use april_profile_kilo.Providers.EntityTypes.{
  create_family, delete_family, get_family, list_families, list_profiles_for_type, list_revisions,
  patch_family, publish_draft, save_draft,
}
use april_profile_kilo.Providers.Profiles.{
  create_profile, get_by_version, get_profile, get_published_schema, list_profiles, remove_profile,
  update_profile, list_entity_types,
}
use april_profile_kilo.Providers.Upgrades.{
  batch_upgrade, upgrade_binding, upgrade_body, UpgradeInput,
}
use april_profile_kilo.Base.{
  List, Text, [], is_some, some, ◌∷◌, All, sym, ◌∙◌, ap, Option, Option-cases, inl, inr, none, refl,
}
use april_profile_kilo.Services.EntityTypes.{
  create_entity_type_draft, delete_entity_type_family, get_entity_type, list_entity_type_revisions,
  patch_entity_type_family, publish_entity_type_draft, put_entity_type_draft, list_all_entity_types,
}
use april_profile_kilo.Value.{Value}
use april_profile_kilo.Providers.Agreement.{Arguments}
use april_profile_kilo.Transport.Request.Laws.{IsErrorTable, is_success, fails_iff_not_ok}
use april_profile_kilo.Services.Bodies.{
  batch_upgrade_request, create_entity_request, create_entity_type_draft_request,
  patch_entity_type_family_request, put_entity_type_draft_request, update_entity_request,
  upgrade_entity_type_revision_request,
}
use april_profile_kilo.Demo.{named}

-- The body of a call that upgrades one profile.
abbrev upgrade_call : Option UpgradeInput → Option Value
upgrade_call none = none
upgrade_call (some i) = upgrade_entity_type_revision_request i.entity_type_revision_id i.revision_no

-- Each request of the providers, with the call of the generated client that stands for it and the body
-- that the client's types declare.
abbrev pub counterparts : Arguments → List (ApiRequest × ApiRequest)
counterparts a =
    let q = a.query in
    (
      (list_profiles q).request,
      list_entity_profiles q.search q.entity_type_id (some q.limit) q.cursor q.sort,
    )
    ∷ ((get_profile a.id).request, get_entity_current_profile a.id)
    ∷ ((get_by_version a.id a.version).request, get_entity_profile_by_version a.id a.version)
    ∷ (list_entity_types.request, list_all_entity_types)
    ∷ ((get_published_schema a.id).request, get_entity_type a.id)
    ∷ (
      (create_profile a.create).request,
      create_entity_profile (create_entity_request a.create.entity_type_id a.create.document),
    )
    ∷ (
      (update_profile a.id a.update).request,
      update_entity_profile a.id (update_entity_request a.update.document),
    )
    ∷ ((remove_profile a.id).request, delete_entity_profile a.id)
    ∷ (list_families.request, list_all_entity_types)
    ∷ ((get_family a.id).request, get_entity_type a.id)
    ∷ (
      (create_family a.family).request,
      create_entity_type_draft
          (create_entity_type_draft_request a.family.namespace a.family.code a.family.draft_schema),
    )
    ∷ (
      (patch_family a.id a.patch).request,
      patch_entity_type_family a.id
          (patch_entity_type_family_request a.patch.namespace a.patch.code),
    )
    ∷ ((delete_family a.id).request, delete_entity_type_family a.id)
    ∷ (
      (save_draft a.id a.draft_input).request,
      put_entity_type_draft a.id (
          put_entity_type_draft_request a.draft_input.draft_schema
            a.draft_input.if_draft_schema_version),
    )
    ∷ ((publish_draft a.id).request, publish_entity_type_draft a.id)
    ∷ ((list_revisions a.id).request, list_entity_type_revisions a.id)
    ∷ (
      (list_profiles_for_type a.id q).request,
      list_entity_profiles q.search (some a.id) (some q.limit) q.cursor q.sort,
    )
    ∷ (
      (upgrade_binding a.id a.upgrade).request,
      upgrade_entity_type_revision a.id (upgrade_call a.upgrade),
    )
    ∷ (
      (batch_upgrade a.batch).request,
      batch_upgrade_entity_type_revision (
          batch_upgrade_request a.batch.entity_type_id a.batch.target_revision_id
            a.batch.target_revision_no a.batch.entity_ids a.batch.only_behind_latest a.batch.limit
            a.batch.idempotency_key),
    )
    ∷ []

-- The two requests send the same, and take every response for the same: a body to deliver or a
-- failure.
abbrev pub IsSameCall : Config → (Value → Text) → ApiResult → ApiRequest × ApiRequest → Type 0
IsSameCall config pretty r (p, s) =
    (p.method ≡ s.method)
    × (get_url config p ≡ get_url config s)
    × (p.body ≡ s.body)
    × (p.media_type ≡ s.media_type)
    × (is_some (catch_error_codes pretty p r) ≡ is_some (catch_error_codes pretty s r))

-- Both requests of a pair name only failures in their tables.
abbrev HasErrorTables : ApiRequest × ApiRequest → Type 0
HasErrorTables (p, s) = IsErrorTable p.errors × IsErrorTable s.errors

counterparts-HasErrorTables : (a : Arguments) → All HasErrorTables (counterparts a)
unfolding list_profiles get_profile get_by_version list_entity_types get_published_schema
    create_profile update_profile remove_profile list_families get_family create_family patch_family
    delete_family save_draft publish_draft list_revisions list_profiles_for_type upgrade_binding
    batch_upgrade list_entity_profiles get_entity_current_profile get_entity_profile_by_version
    list_all_entity_types get_entity_type create_entity_profile update_entity_profile
    delete_entity_profile create_entity_type_draft patch_entity_type_family
    delete_entity_type_family put_entity_type_draft publish_entity_type_draft
    list_entity_type_revisions upgrade_entity_type_revision batch_upgrade_entity_type_revision
counterparts-HasErrorTables a = ground arith

-- The two requests of a pair differ in their error tables only.
abbrev IsSameSent : ApiRequest × ApiRequest → Type 0
IsSameSent (p, s) = p ≡ record s { errors = p.errors }

upgrade_bodies_agree : (i : Option UpgradeInput) → upgrade_body i ≡ upgrade_call i
unfolding upgrade_body upgrade_entity_type_revision_request
upgrade_bodies_agree none = refl
upgrade_bodies_agree (some i) = elim (Option-cases i.entity_type_revision_id) [
  | inl no_id ↦ elim (Option-cases i.revision_no) [
    | inl no_number ↦ rw (no_id, no_number) refl
    | inr (n, numbered) ↦ rw (no_id, numbered) refl
  ]
  | inr (id, named) ↦ elim (Option-cases i.revision_no) [
    | inl no_number ↦ rw (named, no_number) refl
    | inr (n, numbered) ↦ rw (named, numbered) refl
  ]
]

counterparts-IsSameSent : (a : Arguments) → All IsSameSent (counterparts a)
unfolding list_profiles get_profile get_by_version list_entity_types get_published_schema
    create_profile update_profile remove_profile list_families get_family create_family patch_family
    delete_family save_draft publish_draft list_revisions list_profiles_for_type upgrade_binding
    batch_upgrade list_entity_profiles get_entity_current_profile get_entity_profile_by_version
    list_all_entity_types get_entity_type create_entity_profile update_entity_profile
    delete_entity_profile create_entity_type_draft patch_entity_type_family
    delete_entity_type_family put_entity_type_draft publish_entity_type_draft
    list_entity_type_revisions upgrade_entity_type_revision batch_upgrade_entity_type_revision
    create_entity_request update_entity_request create_entity_type_draft_request
    patch_entity_type_family_request put_entity_type_draft_request batch_upgrade_request
counterparts-IsSameSent a = ground (arith, upgrade_bodies_agree a.upgrade)

module _ (config : Config) (pretty : Value → Text) (r : ApiResult)
    (same : r.ok ≡ is_success r.status) where
  same_call :
      (p s : ApiRequest)
      → HasErrorTables (p, s)
      → IsSameSent (p, s)
      → IsSameCall config pretty r (p, s)
  unfolding get_url
  same_call p s (tp, ts) e = (
    ap (λ (o : ApiRequest). o.method) e,
    ap (get_url config) e,
    ap (λ (o : ApiRequest). o.body) e,
    ap (λ (o : ApiRequest). o.media_type) e,
    fails_iff_not_ok pretty p r same tp ∙ sym (fails_iff_not_ok pretty s r same ts),
  )

  same_calls :
      (ps : List (ApiRequest × ApiRequest))
      → All HasErrorTables ps
      → All IsSameSent ps
      → All (IsSameCall config pretty r) ps
  same_calls [] ts ss = tt
  same_calls ((p, s) ∷ ps) (t, tables) (e, sents) = (same_call p s t e, same_calls ps tables sents)

  -- Every request of the two providers has the method, the address, the body and the media type
  -- that the generated client gives to the call it stands for, with the body that the client's types
  -- declare, whatever the configuration and the arguments; and a response whose `ok` flag agrees with its status is a failure for both or for
  -- neither, though their error tables differ.
  pub providers_call_the_api : (a : Arguments) → All (IsSameCall config pretty r) (counterparts a)
  providers_call_the_api a =
      same_calls (counterparts a) (counterparts-HasErrorTables a) (counterparts-IsSameSent a)
