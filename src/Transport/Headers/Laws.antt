-- ===== src/Transport/Headers/Laws.antt =====
-- Which headers a request of request.ts gets.
use mathlib.Core.Path.{◌≡◌, refl}
use april_profile_kilo.Transport.Headers.{
  authorize, is_string_with_value, defined_texts, describe_body, get_headers, is_defined, overlay,
}
use april_profile_kilo.Value.{
  end, Value, array, boolean, null, number, object, put, string, undefined,
}
use april_profile_kilo.Base.{
  List, Option, Text, [], codes, get, none, set, some, text_eq, ℕ, ◌++◌, ◌∷◌, Dict, get-set, ◌∙◌,
  includes,
}
use april_profile_kilo.Transport.Request.{ApiRequest, Config, to_text}
use april_profile_kilo.Transport.Bodies.{get_request_body, body_text, names_json}

abbrev pub authorization : Text
authorization = codes "Authorization"

abbrev pub content_header : Text
content_header = codes "Content-Type"

-- The header of a token: none for a missing or an empty one.
abbrev pub bearer_of : Option Text → Option Text
bearer_of none = none
bearer_of (some []) = none
bearer_of (some (c ∷ s)) = some (codes "Bearer " ++ (c ∷ s))

abbrev pub HasNoCredentials : Config → Type 0
HasNoCredentials c = (c.username ≡ none) × (c.headers ≡ end)

-- A request that adds no headers.
abbrev pub HasPlainHeaders : ApiRequest → Type 0
HasPlainHeaders o = o.headers ≡ end

authorize_plain :
    (utf8 : Text → List ℕ) (c : Config) (token : Option Text)
    → c.token ≡ token
    → c.username ≡ none
    → get authorization (authorize utf8 c ((codes "Accept", codes "application/json") ∷ []))
      ≡ bearer_of token
unfolding authorize get set is_string_with_value text_eq
authorize_plain utf8 c none t u = rw (t, u) refl
authorize_plain utf8 c (some []) t u = rw (t, u) refl
authorize_plain utf8 c (some (d ∷ s)) t u = rw (t, u) refl

describe_body_keeps :
    (o : ApiRequest) (b : Option Value) (texts : Dict Text)
    → get authorization (describe_body o b texts) ≡ get authorization texts
unfolding describe_body text_eq
describe_body_keeps o none texts = refl
describe_body_keeps o (some undefined) texts = refl
describe_body_keeps o (some null) texts = get-set content_header authorization _ texts
describe_body_keeps o (some (boolean b)) texts = get-set content_header authorization _ texts
describe_body_keeps o (some v) texts = get-set content_header authorization _ texts

-- The type that describes a body of an object.
abbrev pub json_if : Option Value → Option Text
json_if none = none
json_if (some v) = some (codes "application/json")

-- A request whose body, if it has one, is an object declared as JSON.
abbrev pub IsJsonBody : Option Text → Option Value → Type 0
IsJsonBody media none = Unit
IsJsonBody media (some (object fs)) = media ≡ some (codes "application/json")
IsJsonBody media (some v) = ⊥

abbrev pub HasJsonBody : ApiRequest → Type 0
HasJsonBody o = IsJsonBody o.media_type o.body

describe_body_json :
    (o : ApiRequest) (b : Option Value) (texts : Dict Text)
    → IsJsonBody o.media_type b
    → get content_header texts ≡ none
    → get content_header (describe_body o b texts) ≡ json_if b
unfolding describe_body text_eq
describe_body_json o none texts h e = e
describe_body_json o (some (object fs)) texts h e =
    rw h (get-set content_header content_header (codes "application/json") texts)
describe_body_json o (some undefined) texts h e = absurd h
describe_body_json o (some null) texts h e = absurd h
describe_body_json o (some (boolean b)) texts h e = absurd h
describe_body_json o (some (number n)) texts h e = absurd h
describe_body_json o (some (string s)) texts h e = absurd h
describe_body_json o (some (array vs)) texts h e = absurd h

authorize_silent :
    (utf8 : Text → List ℕ) (c : Config) (token : Option Text)
    → c.token ≡ token
    → c.username ≡ none
    → get content_header (authorize utf8 c ((codes "Accept", codes "application/json") ∷ [])) ≡ none
unfolding authorize get set is_string_with_value text_eq
authorize_silent utf8 c none t u = rw (t, u) refl
authorize_silent utf8 c (some []) t u = rw (t, u) refl
authorize_silent utf8 c (some (d ∷ s)) t u = rw (t, u) refl

module _ (utf8 : Text → List ℕ) (c : Config) (o : ApiRequest) where
  pub authorization_sent :
      HasNoCredentials c
      → HasPlainHeaders o
      → get authorization (get_headers utf8 c o) ≡ bearer_of c.token
  unfolding get_headers overlay put text_eq defined_texts to_text is_defined
  authorization_sent h p =
      rw (h.1, p) (describe_body_keeps o o.body _ ∙ authorize_plain utf8 c c.token refl h.0)

  pub content_type_sent :
      HasNoCredentials c
      → HasPlainHeaders o
      → HasJsonBody o
      → get content_header (get_headers utf8 c o) ≡ json_if o.body
  unfolding get_headers overlay put text_eq defined_texts to_text is_defined
  content_type_sent h p j =
      rw (h.1, p) (describe_body_json o o.body _ j (authorize_silent utf8 c c.token refl h.0))

-- The text of a body, if there is one.
abbrev pub text_of_body : (Value → Text) → Option Value → Option Text
text_of_body compact none = none
text_of_body compact (some v) = some (compact v)

body_text_json :
    (compact : Value → Text) (media : Option Text) (b : Option Value)
    → IsJsonBody media b
    → body_text compact (names_json media) b ≡ text_of_body compact b
unfolding body_text includes
body_text_json compact media none h = refl
body_text_json compact media (some (object fs)) h = rw h refl
body_text_json compact media (some undefined) h = absurd h
body_text_json compact media (some null) h = absurd h
body_text_json compact media (some (boolean b)) h = absurd h
body_text_json compact media (some (number n)) h = absurd h
body_text_json compact media (some (string s)) h = absurd h
body_text_json compact media (some (array vs)) h = absurd h

pub body_sent :
    (compact : Value → Text) (o : ApiRequest)
    → HasJsonBody o
    → get_request_body compact o ≡ text_of_body compact o.body
unfolding get_request_body
body_sent compact o j = body_text_json compact o.media_type o.body j
