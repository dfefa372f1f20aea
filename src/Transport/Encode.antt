-- ===== src/Transport/Encode.antt =====
-- `encodeURIComponent` and `encodeURI` of the language, over UTF-16 code units: `none` is the
-- `URIError` that a lone surrogate raises.
use april_profile_kilo.Base.{
  Bool, Option, Text, [], codes, if◌then◌else◌, leb, ltb, none, refl, some, ℕ, ◌%◌, ◌&&◌, ◌*◌, ◌++◌,
  ◌+◌, ◌-◌, ◌/◌, ◌==◌, ◌||◌, ◌∷◌, ◌≡◌,
}

abbrev pub hex_digit : ℕ → ℕ
hex_digit d = if ltb d 10 then 48 + d else 55 + d

-- `%XX`
abbrev pub escaped : ℕ → Text
escaped byte = b'%' ∷ hex_digit (byte / 16) ∷ hex_digit (byte % 16) ∷ []

-- The UTF-8 bytes of a code point, escaped.
unfoldable pub escape_point : ℕ → Text
escape_point p =
    if ltb p 0x80
    then escaped p
    else if ltb p 0x800
    then escaped (0xc0 + p / 0x40) ++ escaped (0x80 + p % 0x40)
    else if ltb p 0x10000
    then escaped (0xe0 + p / 0x1000)
      ++ escaped (0x80 + p / 0x40 % 0x40)
      ++ escaped (0x80 + p % 0x40)
    else escaped (0xf0 + p / 0x40000)
      ++ escaped (0x80 + p / 0x1000 % 0x40)
      ++ escaped (0x80 + p / 0x40 % 0x40)
      ++ escaped (0x80 + p % 0x40)

abbrev pub is_high : ℕ → Bool
is_high c = leb 0xd800 c && leb c 0xdbff

abbrev pub is_low : ℕ → Bool
is_low c = leb 0xdc00 c && leb c 0xdfff

unfoldable pub is_unreserved : ℕ → Bool
is_unreserved c =
    (leb b'a' c && leb c b'z')
    || (leb b'A' c && leb c b'Z')
    || (leb b'0' c && leb c b'9')
    || c == b'-'
    || c == b'_'
    || c == b'.'
    || c == b'!'
    || c == b'~'
    || c == b'*'
    || c == 39
    || c == b'('
    || c == b')'

unfoldable pub is_reserved : ℕ → Bool
is_reserved c =
    c == b';'
    || c == b'/'
    || c == b'?'
    || c == b':'
    || c == b'@'
    || c == b'&'
    || c == b'='
    || c == b'+'
    || c == b'$'
    || c == b','
    || c == b'#'

abbrev pub prefixed : Text → Option Text → Option Text
prefixed t none = none
prefixed t (some u) = some (t ++ u)

unfoldable pub encode : (ℕ → Bool) → Text → Option Text
unfolding escape_point
encode plain [] = some []
encode plain (c ∷ []) =
    if plain c then some (c ∷ []) else if is_high c || is_low c then none else some (escape_point c)
encode plain (c ∷ d ∷ s) =
    let after_one = encode plain (d ∷ s) in
    let after_two = encode plain s in
    let as_one = prefixed (escape_point c) after_one in
    let as_two =
      prefixed (escape_point ((c - 0xd800) * 0x400 + (d - 0xdc00) + 0x10000)) after_two in
    let plain_one = prefixed (c ∷ []) after_one in
    if plain c
    then plain_one
    else if is_low c
    then none
    else if is_high c
    then (if is_low d then as_two else none)
    else as_one

unfoldable pub encode_uri_component : Text → Option Text
unfolding encode is_unreserved
encode_uri_component t = encode is_unreserved t

unfoldable pub encode_uri : Text → Option Text
unfolding encode is_unreserved is_reserved
encode_uri t = encode (λ c. is_unreserved c || is_reserved c) t

encode_test : encode_uri_component (codes "a b/ё[") ≡ some (codes "a%20b%2F%D1%91%5B")
unfolding encode_uri_component
encode_test = refl
