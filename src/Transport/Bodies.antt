-- ===== src/Transport/Bodies.antt =====
-- generated/core/request.ts: the body and the form of a request, and what is read of a response.
use april_profile_kilo.Base.{
  Bool, Dict, List, Option, Text, [], codes, false, get, if◌then◌else◌, includes, none, some,
  starts_with, ℕ, ◌++◌, ◌==◌, ◌||◌, ◌∷◌,
}
use april_profile_kilo.Value.{
  Fields, Items, Value, array, cons, end, field, nil, null, string, undefined,
}
use april_profile_kilo.Transport.Request.{ApiRequest, ApiResult}

-- A missing media type names no JSON.
abbrev pub names_json : Option Text → Bool
names_json none = false
names_json (some media) = includes media (codes "/json")

module _ (compact : Value → Text) where
  abbrev form_text : Value → Text
  form_text (string s) = s
  form_text v = compact v

  form_items : Text → Items → List (Text × Text)
  form_items key nil = []
  form_items key (cons v vs) = (key, form_text v) ∷ form_items key vs

  form_entry : Text → Value → List (Text × Text)
  unfolding form_items
  form_entry key undefined = []
  form_entry key null = []
  form_entry key (array vs) = form_items key vs
  form_entry key v = (key, form_text v) ∷ []

  form_entries : Fields → List (Text × Text)
  unfolding form_entry
  form_entries end = []
  form_entries (field k v fs) = form_entry k v ++ form_entries fs

  -- `getFormData`: what is appended to the `FormData`, in order.
  unfoldable pub get_form_data : ApiRequest → Option (List (Text × Text))
  unfolding form_entries
  get_form_data options = elim options.form_data [ none ↦ none | some fs ↦ some (form_entries fs) ]

  abbrev pub plain_body : Value → Text
  plain_body (string s) = s
  plain_body v = compact v

  unfoldable pub body_text : Bool → Option Value → Option Text
  body_text is_json none = none
  body_text is_json (some undefined) = none
  body_text is_json (some v) = some (if is_json then compact v else plain_body v)

  -- `getRequestBody`: the text that is sent.
  unfoldable pub get_request_body : ApiRequest → Option Text
  unfolding body_text includes
  get_request_body options = body_text (names_json options.media_type) options.body

-- A response, with what its `json()` gives (`none` where it throws) and its `text()`.
pub record Response : Type 0 where
  pub ok : Bool
  pub status : ℕ
  pub status_text : Text
  pub headers : Dict Text
  pub json : Option Value
  pub text : Text

-- `headers.get(name)`; the names of the dictionary are those that the program asks for.
unfoldable pub get_response_header : Response → Option Text → Option Text
get_response_header r none = none
get_response_header r (some []) = none
get_response_header r (some (c ∷ s)) = get (c ∷ s) r.headers

module _ (to_lower : Text → Text) where
  unfoldable pub is_json_type : Text → Bool
  unfolding starts_with
  is_json_type content =
      starts_with (codes "application/json") (to_lower content)
      || starts_with (codes "application/problem+json") (to_lower content)

  -- A body of JSON that does not parse is reported to the console and left out.
  abbrev pub json_or_undefined : Option Value → Value
  json_or_undefined none = undefined
  json_or_undefined (some v) = v

  unfoldable pub body_of_type : Response → Option Text → Value
  unfolding is_json_type
  body_of_type r none = undefined
  body_of_type r (some []) = undefined
  body_of_type r (some (c ∷ s)) =
      if is_json_type (c ∷ s) then json_or_undefined r.json else string r.text

  -- `getResponseBody`
  unfoldable pub get_response_body : Response → Value
  unfolding body_of_type
  get_response_body r =
      if r.status == 204 then undefined else body_of_type r (get (codes "Content-Type") r.headers)

  -- The header that the request asks for stands in for the body.
  abbrev header_or_body : Option Text → Value → Value
  header_or_body none body = body
  header_or_body (some h) body = string h

  -- The `ApiResult` of `request`.
  unfoldable pub to_result : ApiRequest → Response → ApiResult
  unfolding get_response_header get_response_body
  to_result options r = record {
    ok = r.ok;
    status = r.status;
    status_text = r.status_text;
    body = header_or_body (get_response_header r options.response_header) (get_response_body r);
  }
