-- ===== src/Transport/Request.antt =====
-- generated/core/request.ts: the parts of a request and the errors that a response stands for.
pub mod Laws
use april_profile_kilo.Value.{
  Fields, Items, Value, array, boolean, cons, end, field, nil, null, number, object, string,
  undefined,
}
use april_profile_kilo.Base.{
  Bool, List, Option, Text, [], codes, decimal, false, if◌then◌else◌, join, none, or_other, some,
  text_eq, true, ℕ, ◌++◌, ◌==◌, ◌||◌, ◌∷◌,
}
use april_profile_kilo.Transport.Promise.{Outcome, fulfilled, rejected}
use april_profile_kilo.Transport.Encode.{encode_uri, encode_uri_component, prefixed}
use april_profile_kilo.Errors.{ApiError, api_error}

-- generated/core/ApiRequestOptions.ts, less `cookies`, which nothing reads.
pub record ApiRequest : Type 0 where
  pub method : Text
  pub url : Text
  pub path : Fields
  pub query : Option Fields
  pub headers : Fields
  pub form_data : Option Fields
  pub body : Option Value
  pub media_type : Option Text
  pub response_header : Option Text
  pub errors : List (ℕ × Text)

-- generated/core/OpenAPI.ts, with the values that its resolvers return; `ENCODE_PATH` is never set.
pub record Config : Type 0 where
  pub base : Text
  pub version : Text
  pub with_credentials : Bool
  pub credentials : Text
  pub token : Option Text
  pub username : Option Text
  pub password : Option Text
  pub headers : Fields

-- `String(value)` of the values that a path or a query holds.
abbrev pub show_bool : Bool → Text
show_bool true = codes "true"
show_bool false = codes "false"

-- The elements of an array are joined by commas, and a missing one is empty.
unfoldable mutual
  pub to_text : Value → Text
  to_text undefined = codes "undefined"
  to_text null = codes "null"
  to_text (boolean b) = show_bool b
  to_text (number n) = decimal n
  to_text (string s) = s
  to_text (array vs) = elements_text vs
  to_text (object fs) = codes "[object Object]"

  pub elements_text : Items → Text
  elements_text nil = []
  elements_text (cons v vs) = element_text v ++ rest_text vs

  pub element_text : Value → Text
  element_text undefined = []
  element_text null = []
  element_text (boolean b) = show_bool b
  element_text (number n) = decimal n
  element_text (string s) = s
  element_text (array vs) = elements_text vs
  element_text (object fs) = codes "[object Object]"

  pub rest_text : Items → Text
  rest_text nil = []
  rest_text (cons v vs) = b',' ∷ element_text v ++ rest_text vs

-- `process` of `getQueryString`: the pairs that one value adds, in order.
unfoldable mutual
  pub flatten : Text → Value → List (Text × Text)
  flatten key undefined = []
  flatten key null = []
  flatten key (boolean b) = (key, show_bool b) ∷ []
  flatten key (number n) = (key, decimal n) ∷ []
  flatten key (string s) = (key, s) ∷ []
  flatten key (array vs) = flatten_items key vs
  flatten key (object fs) = flatten_fields key fs

  pub flatten_items : Text → Items → List (Text × Text)
  flatten_items key nil = []
  flatten_items key (cons v vs) = flatten key v ++ flatten_items key vs

  pub flatten_fields : Text → Fields → List (Text × Text)
  flatten_fields key end = []
  flatten_fields key (field k v fs) =
      flatten (key ++ b'[' ∷ k ++ b']' ∷ []) v ++ flatten_fields key fs

unfoldable pub query_pairs : Fields → List (Text × Text)
query_pairs end = []
query_pairs (field k v fs) = flatten k v ++ query_pairs fs

-- `append`: one `key=value`, or the error of the encoder.
abbrev pub query_item : Text → Text → Option Text
query_item key value = elim (encode_uri_component key) [
  | none ↦ none
  | some k ↦ elim (encode_uri_component value) [ none ↦ none | some v ↦ some (k ++ b'=' ∷ v) ]
]

abbrev pub consed : Option Text → Option (List Text) → Option (List Text)
consed (some t) (some ts) = some (t ∷ ts)
consed _ _ = none

unfoldable pub query_items : List (Text × Text) → Option (List Text)
query_items [] = some []
query_items ((key, value) ∷ pairs) = consed (query_item key value) (query_items pairs)

abbrev pub question : List Text → Text
question [] = []
question (t ∷ ts) = b'?' ∷ join (codes "&") (t ∷ ts)

unfoldable pub get_query_string : Fields → Option Text
unfolding flatten query_pairs query_items encode_uri_component join
get_query_string params = elim (query_items (query_pairs params)) [
  | none ↦ none
  | some items ↦ some (question items)
]

abbrev pub is_line_end : ℕ → Bool
is_line_end c = c == 10 || c == 13 || c == 0x2028 || c == 0x2029

-- `options.path?.hasOwnProperty(group)` and the value there.
unfoldable pub own : Text → Fields → Option Value
own k end = none
own k (field j v fs) = if text_eq j k then some v else own k fs

-- The replacement of one `{group}`.
abbrev pub substitute : Fields → Text → Option Text
substitute path group = elim (own group path) [
  | none ↦ some (b'{' ∷ group ++ b'}' ∷ [])
  | some v ↦ encode_uri (to_text v)
]

abbrev pub joined : Option Text → Option Text → Option Text
joined (some t) (some u) = some (t ++ u)
joined _ _ = none

-- The scan of `/{(.*?)}/g`: outside a brace, or inside with the text read since it. A group ends at
-- the first `}` and holds no line end.
unfoldable pub expand : Fields → Option Text → Text → Option Text
expand path none [] = some []
expand path (some group) [] = some (b'{' ∷ group)
expand path none (c ∷ s) =
    let inside = expand path (some []) s in
    let outside = prefixed (c ∷ []) (expand path none s) in if c == b'{' then inside else outside
expand path (some group) (c ∷ s) =
    let closed = joined (substitute path group) (expand path none s) in
    let broken = prefixed (b'{' ∷ group ++ c ∷ []) (expand path none s) in
    let longer = expand path (some (group ++ c ∷ [])) s in
    if c == b'}' then closed else if is_line_end c then broken else longer

-- `getUrl`: no template of the providers holds `{api-version}`.
unfoldable pub get_url : Config → ApiRequest → Option Text
unfolding expand own encode_uri get_query_string
get_url config options =
    let path = prefixed config.base (expand options.path none options.url) in
    elim options.query [ none ↦ path | some query ↦ joined path (get_query_string query) ]

-- generated/core/ApiResult.ts
pub record ApiResult : Type 0 where
  pub ok : Bool
  pub status : ℕ
  pub status_text : Text
  pub body : Value

abbrev pub default_errors : List (ℕ × Text)
default_errors =
    (400, codes "Bad Request")
    ∷ (401, codes "Unauthorized")
    ∷ (403, codes "Forbidden")
    ∷ (404, codes "Not Found")
    ∷ (500, codes "Internal Server Error")
    ∷ (502, codes "Bad Gateway")
    ∷ (503, codes "Service Unavailable")
    ∷ []

unfoldable pub error_text : ℕ → List (ℕ × Text) → Option Text
error_text status [] = none
error_text status ((s, text) ∷ table) = if s == status then some text else error_text status table

-- The table of the request before the defaults, as the spread has it; an empty text is no error.
unfoldable pub named_error : ApiRequest → ℕ → Option Text
unfolding error_text
named_error options status =
    elim (or_other (error_text status options.errors) (error_text status default_errors)) [
      | none ↦ none
      | some [] ↦ none
      | some (c ∷ s) ↦ some (c ∷ s)
    ]

abbrev pub generic_error : (Value → Text) → ApiResult → Text
generic_error pretty r =
    codes "Generic Error: status: "
    ++ decimal r.status
    ++ codes "; status text: "
    ++ r.status_text
    ++ codes "; body: "
    ++ pretty r.body

-- `catchErrorCodes`: the error that it throws, if any. `pretty` is `JSON.stringify(_, null, 2)`.
unfoldable pub catch_error_codes : (Value → Text) → ApiRequest → ApiResult → Option ApiError
unfolding named_error
catch_error_codes pretty options r = elim (named_error options r.status) [
  | some text ↦ some (record { status = r.status; message = text; body = r.body })
  | none ↦
      if r.ok
      then none
      else some (record { status = r.status; message = generic_error pretty r; body = r.body })
]

-- generated/core/request.ts, the end of `request`: what the promise settles with.
unfoldable pub receive : (Value → Text) → ApiRequest → ApiResult → Outcome Value
unfolding catch_error_codes
receive pretty options r = elim (catch_error_codes pretty options r) [
  | none ↦ fulfilled r.body
  | some e ↦ rejected (api_error e)
]
