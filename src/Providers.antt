-- ===== src/Providers.antt =====
-- The data providers, under frontend/packages/profile-ui/src: their types (types.ts,
-- providers/profilesDataProvider.ts, providers/entityTypesDataProvider.ts) and what all operations
-- of the two OpenAPI providers share. A response has the type that its request names, as the
-- source casts it; documents and schemas are values that nothing has checked.
pub mod Profiles
pub mod EntityTypes
pub mod Upgrades
pub mod Agreement
pub mod Wire
use april_profile_kilo.Base.{Bool, List, Option, Text, codes, false, map, none, or_other, ℕ, some}
use april_profile_kilo.Transport.Request.{ApiRequest, Config}
use april_profile_kilo.Transport.Promise.{Outcome, fulfilled, rejected}
use april_profile_kilo.Value.{Fields, Value, end, field}
use april_profile_kilo.Errors.{map_api_error, provider_error}
use april_profile_kilo.Transport.Call.{Guarded, begin, response, headers}

pub data Sort : Type 0 where
  updated_desc updated_asc : Sort

abbrev pub sort_text : Sort → Text
sort_text updated_desc = codes "updated_desc"
sort_text updated_asc = codes "updated_asc"

pub record ListQuery : Type 0 where
  pub search : Option Text
  pub entity_type_id : Option Text
  pub limit : ℕ
  pub cursor : Option Text
  pub sort : Option Sort

pub record ListItem : Type 0 where
  pub entity_id : Text
  pub entity_type_id : Text
  pub version : ℕ
  pub updated_at : Text
  pub preview : Text

pub record ListPage : Type 0 where
  pub items : List ListItem
  pub next_cursor : Option Text
  pub total_count : ℕ

pub record Details : Type 0 where
  pub entity_id : Text
  pub entity_type_id : Text
  pub version : ℕ
  pub updated_at : Text
  pub document : Value

-- `auth.accessToken` of the context, and the abort flag of its signal, if it has one; no other
-- field of a context reaches a request.
pub record ProviderContext : Type 0 where
  pub access_token : Option Text
  pub signal : Option Bool

pub record ProviderConfig : Type 0 where
  pub api_base_url : Text
  pub access_token : Option Text

-- generated/models/ProfileListItem.ts
pub record ProfileRow : Type 0 where
  pub entity_id : Text
  pub entity_type_id : Text
  pub version : ℕ
  pub created_at : Text
  pub preview : Text

-- generated/models/ProfileListResponse.ts; a cursor that is null or missing is `none`.
pub record ProfileListResponse : Type 0 where
  pub items : List ProfileRow
  pub next_cursor : Option Text
  pub total_count : ℕ

-- generated/models/ProfileSnapshot.ts
pub record Snapshot : Type 0 where
  pub entity_id : Text
  pub entity_type_id : Text
  pub version : ℕ
  pub document : Value
  pub created_at : Text

-- generated/models/EntityType.ts
pub data Status : Type 0 where
  draft published : Status

pub record EntityTypeRow : Type 0 where
  pub id : Text
  pub namespace : Text
  pub code : Text
  pub status : Status
  pub draft_schema : Value
  pub draft_schema_version : ℕ
  pub published_schema : Value
  pub published_schema_version : Option ℕ
  pub published_at : Option Text
  pub created_at : Text

-- generated/models/EntityTypeRevision.ts
pub record RevisionRow : Type 0 where
  pub id : Text
  pub family_id : Text
  pub revision_no : ℕ
  pub schema : Value
  pub published_at : Text

-- `buildConfig`, the same in both providers.
unfoldable pub build_config : ProviderConfig → ProviderContext → Config
build_config config ctx = record {
  base = config.api_base_url;
  version = codes "0.2.0";
  with_credentials = false;
  credentials = codes "include";
  token = or_other ctx.access_token config.access_token;
  username = none;
  password = none;
  headers = end;
}

-- An operation: the request that it opens, and what it makes of the response.
pub record Operation (T R : Type 0) : Type 0 where
  pub request : ApiRequest
  pub convert : T → R

-- The `try` and `catch` around the awaited response.
unfoldable pub conclude : {T R : Type 0} → Operation T R → Outcome T → Outcome R
conclude op (fulfilled v) = fulfilled (op.convert v)
conclude op (rejected e) = rejected (provider_error (map_api_error e))

-- `buildConfig`, the request and `withSignal`, up to the first wait.
unfoldable pub start : {T R : Type 0} → ProviderConfig → ProviderContext → Operation T R → Guarded
start config ctx op = begin (build_config config ctx) op.request ctx.signal

unfoldable pub to_list_item : ProfileRow → ListItem
to_list_item item = record {
  entity_id = item.entity_id;
  entity_type_id = item.entity_type_id;
  version = item.version;
  updated_at = item.created_at;
  preview = item.preview;
}

unfoldable pub to_page : ProfileListResponse → ListPage
unfolding to_list_item
to_page page = record {
  items = map to_list_item page.items;
  next_cursor = page.next_cursor;
  total_count = page.total_count;
}

unfoldable pub to_details : Snapshot → Details
to_details snapshot = record {
  entity_id = snapshot.entity_id;
  entity_type_id = snapshot.entity_type_id;
  version = snapshot.version;
  updated_at = snapshot.created_at;
  document = snapshot.document;
}

-- A request with no path, query or body, and the fields that an operation adds.
abbrev pub plain_request : Text → Text → List (ℕ × Text) → ApiRequest
plain_request method url errors = record {
  method = method;
  url = url;
  path = end;
  query = none;
  headers = end;
  form_data = none;
  body = none;
  media_type = none;
  response_header = none;
  errors = errors;
}

abbrev pub json_media : Option Text
json_media = some (codes "application/json")

abbrev pub one_field : Text → Value → Fields
one_field name v = field name v end
