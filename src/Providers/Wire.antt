-- ===== src/Providers/Wire.antt =====
-- What the requests of the two OpenAPI providers carry, and what their responses become.
use mathlib.Core.Path.{◌≡◌, refl}
use native.Mathlib.Omega.{arith}
use april_profile_kilo.Providers.Profiles.{
  create_profile, get_by_version, get_profile, get_published_schema, list_entity_types,
  list_profiles, remove_profile, update_profile,
}
use april_profile_kilo.Transport.Request.{ApiRequest, Config, receive}
use april_profile_kilo.Transport.Headers.Laws.{
  HasJsonBody, HasPlainHeaders, authorization, authorization_sent, bearer_of, body_sent,
  content_header, content_type_sent, json_if, text_of_body,
}
use april_profile_kilo.Base.{
  All, Bool-cases, List, Option, Text, [], get, inl, inr, is_some, none, or_other, some, ℕ, ◌||◌,
  ◌∷◌, true, ◌∙◌, ==_refl, codes, starts_with, ◌++◌, ◌≢◌, ◌⊎◌, sym, ◌==◌,
}
use april_profile_kilo.Providers.EntityTypes.{
  create_family, delete_family, get_family, list_families, list_profiles_for_type, list_revisions,
  patch_family, publish_draft, save_draft,
}
use april_profile_kilo.Providers.Agreement.{Arguments, all_requests}
use april_profile_kilo.Providers.Upgrades.{UpgradeInput, batch_upgrade, upgrade_binding}
use april_profile_kilo.Providers.{ProviderConfig, ProviderContext, build_config}
use april_profile_kilo.Transport.Bodies.{
  get_request_body, json_or_undefined, Response, get_response_body, get_response_header, to_result,
  body_of_type, is_json_type,
}
use april_profile_kilo.Transport.Headers.{get_headers}
use april_profile_kilo.Value.{Value, string, undefined}
use april_profile_kilo.Transport.Request.Laws.{IsErrorTable, is_success, success_delivers}
use april_profile_kilo.Transport.Promise.{fulfilled}

all_requests-HasPlainHeaders : (a : Arguments) → All HasPlainHeaders (all_requests a)
unfolding list_profiles get_profile get_by_version list_entity_types get_published_schema
    create_profile update_profile remove_profile list_families get_family create_family patch_family
    delete_family save_draft publish_draft list_revisions list_profiles_for_type upgrade_binding
    batch_upgrade
all_requests-HasPlainHeaders a = ground arith

upgrade_binding-HasJsonBody :
    (id : Text) (i : Option UpgradeInput) → HasJsonBody (upgrade_binding id i).request
unfolding upgrade_binding
upgrade_binding-HasJsonBody id none = tt
upgrade_binding-HasJsonBody id (some i) =
    elim (Bool-cases (is_some i.entity_type_revision_id || is_some i.revision_no)) [
      | inl e ↦ rw e refl
      | inr e ↦ rw e tt
    ]

all_requests-HasJsonBody : (a : Arguments) → All HasJsonBody (all_requests a)
unfolding list_profiles get_profile get_by_version list_entity_types get_published_schema
    create_profile update_profile remove_profile list_families get_family create_family patch_family
    delete_family save_draft publish_draft list_revisions list_profiles_for_type batch_upgrade
all_requests-HasJsonBody a = ground (arith, upgrade_binding-HasJsonBody a.id a.upgrade)

-- Two predicates on all elements give a third.
All-both :
    (P Q R : ApiRequest → Type 0)
    → ((o : ApiRequest) → P o → Q o → R o)
    → (os : List ApiRequest) → All P os
    → All Q os
    → All R os
All-both P Q R both [] ps qs = tt
All-both P Q R both (o ∷ os) (p, ps) (q, qs) = (both o p q, All-both P Q R both os ps qs)

-- The request bears the token, declares its body as JSON and sends the JSON text of it.
abbrev pub IsSentRight :
    (Text → List ℕ) → (Value → Text) → Config → Option Text → ApiRequest → Type 0
IsSentRight utf8 compact c token o =
    (get authorization (get_headers utf8 c o) ≡ bearer_of token)
    × (get content_header (get_headers utf8 c o) ≡ json_if o.body)
    × (get_request_body compact o ≡ text_of_body compact o.body)

sent_right :
    (utf8 : Text → List ℕ) (compact : Value → Text) (config : ProviderConfig)
    (ctx : ProviderContext) (o : ApiRequest)
    → HasPlainHeaders o
    → HasJsonBody o
    → IsSentRight utf8 compact
        (build_config config ctx)
        (or_other ctx.access_token config.access_token)
        o
unfolding build_config
sent_right utf8 compact config ctx o p j =
    let c = build_config config ctx in
    (
      authorization_sent utf8 c o (refl, refl) p,
      content_type_sent utf8 c o (refl, refl) p j,
      body_sent compact o j,
    )

-- Every request of the two providers, whatever its arguments, has the bearer token of the context,
-- or of the configuration if the context has none, and no authorization if that token is missing or
-- empty; it has the content type of JSON exactly if it has a body, and sends the JSON text of that
-- body.
pub all_requests-IsSentRight :
    (utf8 : Text → List ℕ) (compact : Value → Text) (config : ProviderConfig)
    (ctx : ProviderContext) (a : Arguments)
    → All
        (IsSentRight utf8 compact
          (build_config config ctx)
          (or_other ctx.access_token config.access_token))
        (all_requests a)
all_requests-IsSentRight utf8 compact config ctx a =
    let c = build_config config ctx in
    All-both HasPlainHeaders HasJsonBody
      (IsSentRight utf8 compact c (or_other ctx.access_token config.access_token))
      (λ o p j. sent_right utf8 compact config ctx o p j) (all_requests a)
      (all_requests-HasPlainHeaders a) (all_requests-HasJsonBody a)

abbrev pub HasErrorTable : ApiRequest → Type 0
HasErrorTable o = IsErrorTable o.errors

all_requests-HasErrorTable : (a : Arguments) → All HasErrorTable (all_requests a)
unfolding list_profiles get_profile get_by_version list_entity_types get_published_schema
    create_profile update_profile remove_profile list_families get_family create_family patch_family
    delete_family save_draft publish_draft list_revisions list_profiles_for_type upgrade_binding
    batch_upgrade
all_requests-HasErrorTable a = ground arith

abbrev HasNoResponseHeader : ApiRequest → Type 0
HasNoResponseHeader o = o.response_header ≡ none

all_requests-HasNoResponseHeader : (a : Arguments) → All HasNoResponseHeader (all_requests a)
unfolding list_profiles get_profile get_by_version list_entity_types get_published_schema
    create_profile update_profile remove_profile list_families get_family create_family patch_family
    delete_family save_draft publish_draft list_revisions list_profiles_for_type upgrade_binding
    batch_upgrade
all_requests-HasNoResponseHeader a = ground arith

-- The text begins with the prefix.
abbrev pub Begins : Text → Text → Type 0
Begins prefix t = (rest : Text) × (t ≡ prefix ++ rest)

-- The media type, in lower case, is one of JSON.
abbrev pub NamesJson : Text → Type 0
NamesJson t = Begins (codes "application/json") t ⊎ Begins (codes "application/problem+json") t

-- What the body of a response is by its status and its content type: nothing for 204 or no type, the
-- JSON value or, where the JSON does not parse, nothing for a type of JSON, and the text for any other.
pub data IsDecoded (to_lower : Text → Text) (r : Response) : Value → Type 0 where
  no_content : r.status ≡ 204 → IsDecoded to_lower r undefined
  no_type : get content_header r.headers ≡ none → IsDecoded to_lower r undefined
  empty_type : get content_header r.headers ≡ some [] → IsDecoded to_lower r undefined
  json_value :
      (c : ℕ) (t : Text) (v : Value)
      → r.status ≢ 204
      → get content_header r.headers ≡ some (c ∷ t)
      → NamesJson (to_lower (c ∷ t))
      → r.json ≡ some v
      → IsDecoded to_lower r v
  json_refused :
      (c : ℕ) (t : Text)
      → r.status ≢ 204
      → get content_header r.headers ≡ some (c ∷ t)
      → NamesJson (to_lower (c ∷ t))
      → r.json ≡ none
      → IsDecoded to_lower r undefined
  other_text :
      (c : ℕ) (t : Text)
      → r.status ≢ 204
      → get content_header r.headers ≡ some (c ∷ t)
      → ¬ NamesJson (to_lower (c ∷ t))
      → IsDecoded to_lower r (string r.text)

starts_with-Begins : (p t : Text) → starts_with p t ≡ true → Begins p t
unfolding starts_with
starts_with-Begins [] t h = (t, refl)
starts_with-Begins (c ∷ p) [] h = ground arith
starts_with-Begins (c ∷ p) (d ∷ t) h =
    let (rest, e) = starts_with-Begins p t (ground arith) in
    let same : c ≡ d = ground arith in (rest, cc)

starts_with-append : (p rest : Text) → starts_with p (p ++ rest) ≡ true
unfolding starts_with
starts_with-append [] rest = refl
starts_with-append (c ∷ p) rest = rw (==_refl c, starts_with-append p rest) refl

module _ (to_lower : Text → Text) (r : Response) where
  is_json_type-NamesJson : (t : Text) → is_json_type to_lower t ≡ true → NamesJson (to_lower t)
  unfolding is_json_type
  is_json_type-NamesJson t h =
      elim (Bool-cases (starts_with (codes "application/json") (to_lower t))) [
        | inl plain ↦ inl (starts_with-Begins (codes "application/json") (to_lower t) plain)
        | inr not_plain ↦ inr (
            starts_with-Begins (codes "application/problem+json") (to_lower t)
              (sym (rw not_plain refl) ∙ h))
      ]

  NamesJson-is_json_type : (t : Text) → NamesJson (to_lower t) → is_json_type to_lower t ≡ true
  unfolding is_json_type
  NamesJson-is_json_type t (inl (rest, e)) =
      rw (e, starts_with-append (codes "application/json") rest) refl
  NamesJson-is_json_type t (inr (rest, e)) =
      rw (e, starts_with-append (codes "application/problem+json") rest) (ground arith)

  json-IsDecoded :
      (c : ℕ) (t : Text)
      → r.status ≢ 204
      → get content_header r.headers ≡ some (c ∷ t)
      → NamesJson (to_lower (c ∷ t))
      → (j : Option Value) → r.json ≡ j
      → IsDecoded to_lower r (json_or_undefined to_lower j)
  json-IsDecoded c t has_body e names none h = json_refused c t has_body e names h
  json-IsDecoded c t has_body e names (some v) h = json_value c t v has_body e names h

  body_of_type-IsDecoded :
      (c : ℕ) (t : Text)
      → r.status ≢ 204
      → get content_header r.headers ≡ some (c ∷ t)
      → IsDecoded to_lower r (body_of_type to_lower r (some (c ∷ t)))
  unfolding body_of_type
  body_of_type-IsDecoded c t has_body e = elim (Bool-cases (is_json_type to_lower (c ∷ t))) [
    | inl is_json ↦
        rw is_json
          (json-IsDecoded c t has_body e (is_json_type-NamesJson (c ∷ t) is_json) r.json refl)
    | inr not_json ↦ rw not_json (
        other_text c t has_body e
          (λ names. let is_json = NamesJson-is_json_type (c ∷ t) names in ground arith))
  ]

  header-IsDecoded :
      (h : Option Text)
      → r.status ≢ 204
      → get content_header r.headers ≡ h
      → IsDecoded to_lower r (body_of_type to_lower r h)
  unfolding body_of_type
  header-IsDecoded none has_body e = no_type e
  header-IsDecoded (some []) has_body e = empty_type e
  header-IsDecoded (some (c ∷ t)) has_body e = body_of_type-IsDecoded c t has_body e

  get_response_body-IsDecoded : IsDecoded to_lower r (get_response_body to_lower r)
  unfolding get_response_body
  get_response_body-IsDecoded = elim (Bool-cases (r.status == 204)) [
    | inl no_body ↦ rw no_body (no_content (ground arith))
    | inr has_body ↦
        rw has_body (header-IsDecoded (get content_header r.headers) (ground arith) refl)
  ]

module _ (pretty : Value → Text) (to_lower : Text → Text) (r : Response)
    (same : r.ok ≡ is_success r.status) where
  -- The promise of the request settles with the decoded body of the response.
  abbrev pub IsDelivered : ApiRequest → Type 0
  IsDelivered o =
      (v : Value) × (receive pretty o (to_result to_lower o r) ≡ fulfilled v)
      × IsDecoded to_lower r v

  delivered :
      is_success r.status ≡ true
      → (o : ApiRequest) → HasErrorTable o
      → HasNoResponseHeader o
      → IsDelivered o
  unfolding to_result get_response_header
  delivered h o t e = (
    get_response_body to_lower r,
    success_delivers pretty o (to_result to_lower o r) same t h ∙ rw e refl,
    get_response_body-IsDecoded to_lower r,
  )

  -- For every operation of the two providers, whatever its arguments, a response with a status from
  -- 200 to 299, and an `ok` flag that agrees, settles the request with what the response says by its
  -- status and content type: nothing for 204 or a missing or empty type; for a type that begins, in
  -- lower case, with one of the two of JSON, the JSON value, or nothing where it does not parse; and
  -- the text for any other type.
  pub every_success_delivers :
      is_success r.status ≡ true → (a : Arguments) → All IsDelivered (all_requests a)
  every_success_delivers h a =
      All-both HasErrorTable HasNoResponseHeader IsDelivered (delivered h) (all_requests a)
        (all_requests-HasErrorTable a) (all_requests-HasNoResponseHeader a)
