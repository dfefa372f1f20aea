-- ===== src/Tests/Calls.antt =====
-- Errors, promises, requests and calls on concrete inputs.
use mathlib.Core.Path.{◌≡◌, refl}
use april_profile_kilo.Providers.Profiles.{UpdateInput, get_profile, update_profile}
use april_profile_kilo.Errors.Reports.{HasTextMessage, recognised_iff}
use april_profile_kilo.Providers.Agreement.{Arguments, failure_is_classified, versions_on_the_wire}
use april_profile_kilo.Transport.Promise.Laws.{closed_is_final, first_event_decides, open_with}
use april_profile_kilo.Base.{
  All, Text, [], arith, codes, false, is_some, none, some, suc, true, ℕ, ◌↔◌, ◌∷◌, ◌≢◌, ◌≤◌,
  text_eq,
}
use april_profile_kilo.Transport.Promise.{
  Handler, cancellation, fulfilled, pending, react_all, register, rejected, resolve, run_handlers,
}
use april_profile_kilo.Errors.{
  ApiError, Thrown, abort_error, api_error, as_provider_error, cancel_error, map_api_error,
  provider_error, schema_issues_of, type_error, usable_issues, ProviderError, unknown,
}
use april_profile_kilo.Providers.EntityTypes.{SaveDraftInput, save_draft}
use april_profile_kilo.Transport.Call.{
  Guarded, abort, advance, advance_all, begin, deliver, headers, response, turn,
}
use april_profile_kilo.Providers.{ListQuery, conclude, plain_request}
use april_profile_kilo.Errors.Mapping.{IsUsable, schema_issues-IsUsable}
use april_profile_kilo.Value.{
  Fields, Value, array, chain, cons, end, field, nil, null, object, prop, string, undefined,
}
use april_profile_kilo.Transport.Call.Aborts.{aborted_before_start_sends}
use april_profile_kilo.Transport.Call.Fetches.{at_most_one_fetch}
use april_profile_kilo.Transport.Request.{ApiRequest, ApiResult, Config, expand, get_url, receive}

abbrev conflict_response : ApiError
conflict_response = record {
  status = 409;
  message = codes "Conflict";
  body = object (
      field (codes "message") (string (codes "draft version conflict")) (
        field (codes "issues")
          (array (cons (object (field (codes "message") (string (codes "stale")) end)) nil)) end));
}

abbrev bare_conflict : ApiError
bare_conflict = record { status = 409; message = codes "Conflict"; body = null }

schema_issues-IsUsable_example :
    All IsUsable (record { path = codes "/"; message = codes "stale" } ∷ [])
unfolding map_api_error schema_issues_of usable_issues chain prop text_eq
schema_issues-IsUsable_example =
    schema_issues-IsUsable (api_error conflict_response)
      (record { path = codes "/"; message = codes "stale" } ∷ []) refl

recognised_iff_example :
    (is_some (as_provider_error (provider_error (map_api_error (api_error bare_conflict)))) ≡ true)
    ↔ HasTextMessage bare_conflict
recognised_iff_example = recognised_iff bare_conflict

abbrev count_up : Handler ℕ
count_up n = (suc n, false)

abbrev count_and_throw : Handler ℕ
count_and_throw n = (suc n, true)

closed_is_final_example :
    react_all (cancellation ∷ resolve 7 ∷ []) (
      record (pending {W = ℕ} {T = ℕ}) { is_rejected = true; outcome = some (rejected type_error) },
      0,
    )
    ≡ (
      record (pending {W = ℕ} {T = ℕ}) { is_rejected = true; outcome = some (rejected type_error) },
      0,
    )
closed_is_final_example =
    closed_is_final (cancellation ∷ resolve 7 ∷ [])
      (record (pending {W = ℕ} {T = ℕ}) {
        is_rejected = true;
        outcome = some (rejected type_error);
      })
      0 refl

first_event_decides_example :
    ((react_all
        (register count_up ∷ cancellation ∷ resolve 7 ∷ [])
        (open_with {W = ℕ} {T = ℕ} [], 0)).0.outcome
      ≡ some (rejected cancel_error))
    × ((react_all
          (register count_up ∷ cancellation ∷ resolve 7 ∷ [])
          (open_with {W = ℕ} {T = ℕ} [], 0)).1
        ≡ 1)
unfolding run_handlers
first_event_decides_example =
    first_event_decides (register count_up ∷ cancellation ∷ resolve 7 ∷ []) [] 0

abbrev entity_path : Fields
entity_path = field (codes "entityID") (string (codes "e-1")) end

abbrev pub no_text : Value → Text
no_text v = []

abbrev pub ok_result : ApiResult
ok_result = record { ok = true; status = 204; status_text = codes "No Content"; body = undefined }

abbrev teapot : ApiResult
teapot = record { ok = false; status = 418; status_text = codes "I'm a teapot"; body = null }

abbrev pub demo_config : Config
demo_config = record {
  base = codes "https://api.example";
  version = codes "0.2.0";
  with_credentials = false;
  credentials = codes "include";
  token = none;
  username = none;
  password = none;
  headers = end;
}

abbrev pub plain_get : ApiRequest
plain_get = plain_request (codes "GET") (codes "/v1/entity-types") []

at_most_one_fetch_example :
    (advance_all
      (turn ∷ headers ∷ headers ∷ abort ∷ response (fulfilled null) ∷ deliver ∷ [])
      (begin demo_config plain_get (some false))).call.net.fetches
    ≤ 1
at_most_one_fetch_example =
    at_most_one_fetch demo_config plain_get (some false)
      (turn ∷ headers ∷ headers ∷ abort ∷ response (fulfilled null) ∷ deliver ∷ [])

aborted_before_start_sends_example :
    ((begin demo_config plain_get (some true)).result ≡ some (rejected abort_error))
    × ((advance headers (begin demo_config plain_get (some true))).call.net.fetches ≡ 1)
    × ((advance_all
          (turn ∷ headers ∷ [])
          (begin demo_config plain_get (some true))).call.promise.is_cancelled
        ≡ false)
unfolding get_url expand
aborted_before_start_sends_example =
    aborted_before_start_sends demo_config plain_get (codes "https://api.example/v1/entity-types")
      (turn ∷ headers ∷ []) refl

abbrev under_way : Guarded
under_way = advance_all (turn ∷ headers ∷ []) (begin demo_config plain_get (some false))

abbrev ann_query : ListQuery
ann_query = record {
  search = some (codes "ann");
  entity_type_id = none;
  limit = 20;
  cursor = none;
  sort = none;
}

abbrev pub ann_update : UpdateInput
ann_update = record { document = object end; expected_version = some 1 }

abbrev ann_draft : SaveDraftInput
ann_draft = record { draft_schema = object end; if_draft_schema_version = 1 }

abbrev pub ann_arguments : Arguments
ann_arguments = record {
  query = ann_query;
  id = codes "e-1";
  version = 2;
  create = record { entity_type_id = codes "t-1"; document = object end };
  update = ann_update;
  family = record { namespace = codes "crm"; code = codes "contact"; draft_schema = undefined };
  patch = record { namespace = codes "crm"; code = codes "lead" };
  draft_input = ann_draft;
  upgrade = none;
  batch = record {
    entity_type_id = codes "t-1";
    target_revision_id = none;
    target_revision_no = some 2;
    entity_ids = some (codes "e-1" ∷ []);
    only_behind_latest = none;
    limit = none;
    idempotency_key = none;
  };
}

failure_is_classified_example :
    (t : Thrown) × (e : ProviderError) × (receive no_text (get_profile (codes "e-1")).request teapot
      ≡ rejected t)
    × (conclude (get_profile (codes "e-1")) (rejected t) ≡ rejected (provider_error e))
    × (e.code ≡ unknown)
    × (e.status ≡ some 418)
    × (e.retryable ≡ some false)
failure_is_classified_example =
    failure_is_classified no_text teapot refl (get_profile (codes "e-1")) refl

versions_on_the_wire_example :
    ((update_profile (codes "e-1") (record ann_update { expected_version = none })).request
      ≡ (update_profile (codes "e-1") ann_update).request)
    × ((save_draft (codes "e-1") (record ann_draft { if_draft_schema_version = 2 })).request.body
        ≢ (save_draft (codes "e-1") ann_draft).request.body)
versions_on_the_wire_example =
    versions_on_the_wire (codes "e-1") ann_update none ann_draft 2 (ground arith)
