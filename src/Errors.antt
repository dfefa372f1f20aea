-- ===== src/Errors.antt =====
-- providers/apiErrorMapping.ts, `isProfilesProviderError` of providers/profilesDataProvider.ts, and
-- the `reportError` and `mapSecureMessage` of the widgets (components/*Core.tsx), all under
-- frontend/packages/profile-ui/src.
pub mod Mapping
pub mod Reports
use april_profile_kilo.Base.{
  ℕ, ◌≡◌, Bool, true, false, ◌||◌, Option, none, some, List, [], ◌∷◌, Text, codes, leb, ◌==◌,
  is_some, if◌then◌else◌,
}
use april_profile_kilo.Value.{
  Value, undefined, string, array, elements, Items, nil, cons, chain, nullish, defined_or,
  as_string,
}

pub data ErrorCode : Type 0 where
  unauthorized forbidden conflict not_found validation rate_limited network unknown : ErrorCode

pub record Issue : Type 0 where
  pub path : Text
  pub message : Text

-- The message and the request id are what the server's body holds, which nothing checks.
pub record ProviderError : Type 0 where
  pub code : ErrorCode
  pub message : Value
  pub request_id : Value
  pub status : Option ℕ
  pub retryable : Option Bool
  pub schema_issues : Option (List Issue)

pub record ApiError : Type 0 where
  pub status : ℕ
  pub message : Text
  pub body : Value

-- What a `catch` receives: the classes that the source tells apart, by `instanceof` or `name`.
pub data Thrown : Type 0 where
  api_error : ApiError → Thrown
  type_error : Thrown
  abort_error : Thrown
  cancel_error : Thrown
  provider_error : ProviderError → Thrown
  other : Value → Thrown

unfoldable pub status_to_code : ℕ → ErrorCode
status_to_code status =
    if status == 401
    then unauthorized
    else if status == 403
    then forbidden
    else if status == 404
    then not_found
    else if status == 409
    then conflict
    else if status == 422 || status == 400
    then validation
    else if status == 429
    then rate_limited
    else unknown

-- `typeof v === "string" && v.length > 0`
abbrev pub filled : Value → Option Text
filled (string (c ∷ s)) = some (c ∷ s)
filled v = none

abbrev pub path_or_root : Value → Text
path_or_root (string (c ∷ s)) = c ∷ s
path_or_root v = codes "/"

-- The `filter` and the `map` of the rows, in one pass.
unfoldable pub usable_issues : List Value → List Issue
usable_issues [] = []
usable_issues (row ∷ rows) = elim (filled (chain (codes "message") row)) [
  | none ↦ usable_issues rows
  | some text ↦
      record { path = path_or_root (chain (codes "path") row); message = text } ∷ usable_issues rows
]

unfoldable pub schema_issues_of : Value → Option (List Issue)
unfolding usable_issues
schema_issues_of (array (cons row rows)) = some (usable_issues (row ∷ elements rows))
schema_issues_of v = none

unfoldable pub map_api_error : Thrown → ProviderError
map_api_error (api_error e) = record {
  code = status_to_code e.status;
  message = nullish (chain (codes "message") e.body) (string e.message);
  request_id = defined_or (chain (codes "request_id") e.body);
  status = some e.status;
  retryable = some (leb 500 e.status || e.status == 429);
  schema_issues = schema_issues_of (chain (codes "issues") e.body);
}
map_api_error type_error = record {
  code = network;
  message = string (codes "Network error");
  request_id = undefined;
  status = none;
  retryable = some true;
  schema_issues = none;
}
map_api_error _ = record {
  code = unknown;
  message = string (codes "Unknown API error");
  request_id = undefined;
  status = none;
  retryable = none;
  schema_issues = none;
}

-- A provider error by its shape; the code is always text.
unfoldable pub as_provider_error : Thrown → Option ProviderError
as_provider_error (provider_error e) = if is_some (as_string e.message) then some e else none
as_provider_error _ = none

-- `mapSecureMessage` of the two profile widgets.
unfoldable pub profile_message : ErrorCode → Text
profile_message unauthorized = codes "Authentication required. Please sign in again."
profile_message forbidden = codes "Access denied for this operation."
profile_message conflict = codes "The request conflicts with current profile state."
profile_message validation = codes "Invalid request. Please check your input and try again."
profile_message rate_limited = codes "Too many requests. Please wait and try again."
profile_message network = codes "Network error. Please check your connection and retry."
profile_message _ = codes "Profile operation failed. Please try again."

-- `mapSecureMessage` of the two entity type widgets.
unfoldable pub type_message : ErrorCode → Text
type_message unauthorized = codes "Authentication required. Please sign in again."
type_message forbidden = codes "Access denied for this operation."
type_message conflict = codes "The request conflicts with current server state."
type_message validation = codes "Invalid request. Please check your input and try again."
type_message not_found = codes "The requested resource was not found."
type_message rate_limited = codes "Too many requests. Please wait and try again."
type_message network = codes "Network error. Please check your connection and retry."
type_message unknown = codes "Operation failed. Please try again."

-- What `onError` receives; `message` is also what the setter shows.
pub record ErrorReport : Type 0 where
  pub message : Text
  pub request_id : Value
  pub code : ErrorCode

report_known : (ErrorCode → Text) → Text → Value → Option ProviderError → ErrorReport
report_known secure fallback host_id (some e) = record {
  message = secure e.code;
  request_id = nullish e.request_id host_id;
  code = e.code;
}
report_known secure fallback host_id none = record {
  message = fallback;
  request_id = host_id;
  code = unknown;
}

-- `reportError` of the profile widgets.
unfoldable pub report_profile_error : Value → Thrown → ErrorReport
unfolding report_known as_provider_error
report_profile_error host_id e =
    report_known profile_message (codes "Profile operation failed. Please try again.") host_id
      (as_provider_error e)

-- `reportError` of the entity type widgets.
unfoldable pub report_type_error : Value → Thrown → ErrorReport
unfolding report_known as_provider_error
report_type_error host_id e =
    report_known type_message (codes "Operation failed. Please try again.") host_id
      (as_provider_error e)
