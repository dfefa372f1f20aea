-- ===== src/Transport/Headers.antt =====
-- generated/core/request.ts: the headers of a request.
pub mod Laws
use mathlib.Core.Path.{◌≡◌, refl}
use native.Mathlib.Omega.{arith}
use april_profile_kilo.Base.{
  Bool, Dict, List, Option, Text, [], any, codes, false, if◌then◌else◌, ltb, none, not, set, some,
  true, ℕ, ◌%◌, ◌&&◌, ◌*◌, ◌++◌, ◌+◌, ◌-◌, ◌/◌, ◌==◌, ◌∷◌,
}
use april_profile_kilo.Value.{Fields, Value, end, field, null, put, string, undefined}
use april_profile_kilo.Transport.Request.{ApiRequest, Config, to_text}
use april_profile_kilo.Transport.Call.{headers}

-- The tests of request.ts on values. `Blob` and `FormData` are no values here: no request of the
-- program holds one, so `isBlob` and `isFormData` are false throughout.
unfoldable pub is_defined : Value → Bool
is_defined undefined = false
is_defined null = false
is_defined v = true

unfoldable pub is_string_with_value : Option Text → Bool
is_string_with_value none = false
is_string_with_value (some []) = false
is_string_with_value (some (c ∷ s)) = true

-- The digits of `btoa`.
abbrev pub base64_digit : ℕ → ℕ
base64_digit d =
    if ltb d 26
    then 65 + d
    else if ltb d 52
    then 71 + d
    else if ltb d 62
    then d - 4
    else if d == 62
    then b'+'
    else b'/'

unfoldable pub base64_bytes : List ℕ → Text
base64_bytes [] = []
base64_bytes (a ∷ []) = base64_digit (a / 4) ∷ base64_digit (a % 4 * 16) ∷ b'=' ∷ b'=' ∷ []
base64_bytes (a ∷ b ∷ []) =
    base64_digit (a / 4)
    ∷ base64_digit (a % 4 * 16 + b / 16)
    ∷ base64_digit (b % 16 * 4)
    ∷ b'='
    ∷ []
base64_bytes (a ∷ b ∷ c ∷ s) =
    base64_digit (a / 4)
    ∷ base64_digit (a % 4 * 16 + b / 16)
    ∷ base64_digit (b % 16 * 4 + c / 64)
    ∷ base64_digit (c % 64)
    ∷ base64_bytes s

abbrev pub is_byte : ℕ → Bool
is_byte c = ltb c 256

-- `btoa` throws on a code unit above 255; then `Buffer.from(str)` takes the bytes of UTF-8, which the
-- engine supplies.
unfoldable pub base64 : (Text → List ℕ) → Text → Text
unfolding base64_bytes
base64 utf8 s = if any (λ (c : ℕ). not (is_byte c)) s then base64_bytes (utf8 s) else base64_bytes s

-- `{ ...fs, ...gs }`
unfoldable pub overlay : Fields → Fields → Fields
unfolding put
overlay fs end = fs
overlay fs (field k v gs) = overlay (put k v fs) gs

-- The filter by `isDefined` and the `reduce` that makes each value text.
unfoldable pub defined_texts : Fields → Dict Text
unfolding is_defined to_text
defined_texts end = []
defined_texts (field k v fs) =
    let rest = defined_texts fs in if is_defined v then (k, to_text v) ∷ rest else rest

abbrev pub accept_json : Fields
accept_json = field (codes "Accept") (string (codes "application/json")) end

abbrev pub text_or_empty : Option Text → Text
text_or_empty none = []
text_or_empty (some s) = s

-- The `Authorization` header: the bearer token, and over it the name with the password.
unfoldable pub authorize : (Text → List ℕ) → Config → Dict Text → Dict Text
unfolding is_string_with_value base64 set
authorize utf8 config texts =
    let bearer =
      if is_string_with_value config.token
      then set (codes "Authorization") (codes "Bearer " ++ text_or_empty config.token) texts
      else texts in
    let credentials =
      base64 utf8 (text_or_empty config.username ++ b':' ∷ text_or_empty config.password) in
    if is_string_with_value config.username && is_string_with_value config.password
    then set (codes "Authorization") (codes "Basic " ++ credentials) bearer
    else bearer

-- The content type of a body that names none.
abbrev pub default_type : Value → Text
default_type (string s) = codes "text/plain"
default_type v = codes "application/json"

abbrev pub content_type : Option Text → Value → Text
content_type none body = default_type body
content_type (some []) body = default_type body
content_type (some (c ∷ s)) body = c ∷ s

unfoldable pub describe_body : ApiRequest → Option Value → Dict Text → Dict Text
unfolding set
describe_body options none texts = texts
describe_body options (some undefined) texts = texts
describe_body options (some body) texts =
    set (codes "Content-Type") (content_type options.media_type body) texts

-- `getHeaders`, once the four resolvers have answered; the names are written as here, and
-- `new Headers` compares them without case.
unfoldable pub get_headers : (Text → List ℕ) → Config → ApiRequest → Dict Text
unfolding overlay defined_texts authorize describe_body
get_headers utf8 config options =
    let merged = overlay (overlay accept_json config.headers) options.headers in
    describe_body options options.body (authorize utf8 config (defined_texts merged))

base64_test :
    (base64 (λ s. s) (codes "user:pa") ≡ codes "dXNlcjpwYQ==")
    × (base64 (λ s. s) (codes "Many h") ≡ codes "TWFueSBo")
    × (base64 (λ s. s) (codes "Hello") ≡ codes "SGVsbG8=")
unfolding base64
base64_test = (refl, refl, refl)
