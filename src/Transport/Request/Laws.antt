-- ===== src/Transport/Request/Laws.antt =====
-- The request line of a template, and what a response settles the request with.
use mathlib.Core.List.{append_assoc, append-nil}
use april_profile_kilo.Transport.Request.{
  expand, is_line_end, joined, substitute, ApiRequest, ApiResult, catch_error_codes, default_errors,
  error_text, generic_error, named_error, receive,
}
use april_profile_kilo.Base.{
  All, Option, Text, [], ap, false, none, refl, some, sym, ◌++◌, ◌∷◌, ◌≡◌, ◌≢◌, arith, ℕ, ◌==◌, ◌∙◌,
  Bool, List, Option-cases, inl, inr, leb, true, ◌&&◌, ◌<◌, ◌≤◌, Bool-cases, is_some, not,
}
use april_profile_kilo.Value.{Fields, Value}
use april_profile_kilo.Transport.Encode.{prefixed}
use april_profile_kilo.Errors.{ApiError, api_error}
use april_profile_kilo.Transport.Promise.{fulfilled, rejected}

abbrev pub IsPlain : Text → Type 0
IsPlain t = All (λ c. c ≢ b'{') t

-- A name that the template's pattern can match: no closing brace and no line end.
abbrev pub IsName : Text → Type 0
IsName t = All (λ c. (c ≢ b'}') × (is_line_end c ≡ false)) t

prefixed-prefixed : (s t : Text) (o : Option Text) → prefixed s (prefixed t o) ≡ prefixed (s ++ t) o
prefixed-prefixed s t none = refl
prefixed-prefixed s t (some u) = ap some (sym (append_assoc s t u))

prefixed_nil : (o : Option Text) → prefixed [] o ≡ o
prefixed_nil none = refl
prefixed_nil (some u) = refl

not_brace : (c : ℕ) → c ≢ b'{' → (c == b'{') ≡ false
not_brace c h = ground arith

not_closing : (c : ℕ) → c ≢ b'}' → (c == b'}') ≡ false
not_closing c h = ground arith

module _ (path : Fields) where
  expand_plain :
      (pre s : Text) → IsPlain pre → expand path none (pre ++ s) ≡ prefixed pre (expand path none s)
  unfolding expand
  expand_plain [] s h = sym (prefixed_nil _)
  expand_plain (c ∷ pre) s (h, hs) =
      rw (not_brace c h, expand_plain pre s hs) (prefixed-prefixed (c ∷ []) pre _)

  expand_group :
      (acc name s : Text)
      → IsName name
      → expand path (some acc) (name ++ b'}' ∷ s)
        ≡ joined (substitute path (acc ++ name)) (expand path none s)
  unfolding expand
  expand_group acc [] s h = rw append-nil refl
  expand_group acc (c ∷ name) s ((hc, hl), hs) =
      rw (not_closing c hc, hl, expand_group (acc ++ c ∷ []) name s hs, append_assoc) refl

  -- One placeholder of a template, between a part before it that holds no opening brace and any
  -- rest, is replaced by the encoded value of the path parameter of that name; a name with no
  -- parameter stays as it was written.
  pub expand_placeholder :
      (pre name s : Text)
      → IsPlain pre
      → IsName name
      → expand path none (pre ++ (b'{' ∷ (name ++ b'}' ∷ s)))
        ≡ prefixed pre (joined (substitute path name) (expand path none s))
  unfolding expand
  expand_placeholder pre name s hp hn =
      expand_plain pre (b'{' ∷ (name ++ b'}' ∷ s)) hp
      ∙ ap (prefixed pre) (expand_group [] name s hn)

-- An error table that names no status below 400 and no empty text: those of all providers.
abbrev pub IsErrorTable : List (ℕ × Text) → Type 0
IsErrorTable table = All (λ e. (400 ≤ e.0) × (e.1 ≢ [])) table

abbrev pub is_success : ℕ → Bool
is_success status = leb 200 status && leb status 299

error_text-below :
    (status : ℕ) (table : List (ℕ × Text))
    → IsErrorTable table
    → status < 400
    → error_text status table ≡ none
unfolding error_text
error_text-below status [] h lt = refl
error_text-below status ((s, text) ∷ table) ((hs, ht), h) lt =
    ground (arith, error_text-below status table h lt)

default_errors-IsErrorTable : IsErrorTable default_errors
default_errors-IsErrorTable = ground arith

named_error-below :
    (o : ApiRequest) (status : ℕ)
    → IsErrorTable o.errors
    → status < 400
    → named_error o status ≡ none
unfolding named_error
named_error-below o status h lt = ground (
  arith,
  error_text-below status o.errors h lt,
  error_text-below status default_errors default_errors-IsErrorTable lt,
)

module _ (pretty : Value → Text) (o : ApiRequest) (r : ApiResult)
    (same : r.ok ≡ is_success r.status) where
  -- A response whose `ok` flag says whether its status lies in 200 to 299 settles the request with
  -- its body if the status does, where the table of the request names only statuses from 400 on.
  pub success_delivers :
      IsErrorTable o.errors → is_success r.status ≡ true → receive pretty o r ≡ fulfilled r.body
  unfolding receive catch_error_codes
  success_delivers table h = ground (arith, named_error-below o r.status table)

  -- A response whose `ok` flag says whether its status lies in 200 to 299 rejects the request if the
  -- status does not, with an API error of that status and that body, named by a table or not.
  pub failure_rejects :
      is_success r.status ≡ false
      → (e : ApiError) × (receive pretty o r ≡ rejected (api_error e))
        × (e.status ≡ r.status)
        × (e.body ≡ r.body)
  unfolding receive catch_error_codes
  failure_rejects h = elim (Option-cases (named_error o r.status)) [
    | inl e ↦ (
      record { status = r.status; message = generic_error pretty r; body = r.body },
      ground arith,
      refl,
      refl,
    )
    | inr (text, e) ↦
        (record { status = r.status; message = text; body = r.body }, ground arith, refl, refl)
  ]

  -- Whether such a response is an error depends on its flag only.
  pub fails_iff_not_ok : IsErrorTable o.errors → is_some (catch_error_codes pretty o r) ≡ not r.ok
  unfolding catch_error_codes
  fails_iff_not_ok table = elim (Bool-cases (is_success r.status)) [
    | inl h ↦ ground (arith, named_error-below o r.status table)
    | inr h ↦ elim (Option-cases (named_error o r.status)) [
      | inl e ↦ ground arith
      | inr (text, e) ↦ ground arith
    ]
  ]
