-- ===== src/Errors/Mapping.antt =====
-- What the mapping of API failures guarantees to the widgets
-- (providers/apiErrorMapping.ts under frontend/packages/profile-ui/src).
use mathlib.Core.Path.{subst}
use april_profile_kilo.Base.{
  All, List, Option-cases, Text, [], arith, codes, false, inl, inr, some, ◌∷◌, ◌≡◌, ◌≢◌, ◌⊎◌,
}
use april_profile_kilo.Errors.{
  ApiError, ErrorCode, Issue, Thrown, api_error, conflict, filled, forbidden, map_api_error,
  not_found, path_or_root, schema_issues_of, status_to_code, type_error, unauthorized,
  usable_issues, validation,
}
use april_profile_kilo.Value.{Value, array, chain, cons, elements, nil, string}

-- A client error that no retry can mend.
abbrev pub IsClientError : ErrorCode → Type 0
IsClientError c =
    (c ≡ unauthorized) ⊎ (c ≡ forbidden) ⊎ (c ≡ not_found) ⊎ (c ≡ conflict) ⊎ (c ≡ validation)

status_not_retryable :
    (e : ApiError)
    → IsClientError (status_to_code e.status)
    → (map_api_error (api_error e)).retryable ≡ some false
unfolding map_api_error status_to_code
status_not_retryable e h = ground arith

-- Whatever was thrown, an error with the code unauthorized, forbidden, not_found, conflict or
-- validation is marked as not retryable.
pub client_error_not_retryable :
    (t : Thrown) → IsClientError (map_api_error t).code → (map_api_error t).retryable ≡ some false
unfolding map_api_error
client_error_not_retryable (api_error e) h = status_not_retryable e h
client_error_not_retryable type_error h = ground arith
client_error_not_retryable _ h = ground arith

abbrev pub IsUsable : Issue → Type 0
IsUsable i = (i.path ≢ []) × (i.message ≢ [])

filled-ne-nil : (v : Value) (s : Text) → filled v ≡ some s → s ≢ []
filled-ne-nil (string (c ∷ s)) t e = ground arith
filled-ne-nil (string []) t e = ground arith
filled-ne-nil v s e = ground arith

path_or_root-ne-nil : (v : Value) → path_or_root v ≢ []
path_or_root-ne-nil (string (c ∷ s)) = ground arith
path_or_root-ne-nil (string []) = ground arith
path_or_root-ne-nil v = ground arith

usable_issues-IsUsable : (rows : List Value) → All IsUsable (usable_issues rows)
unfolding usable_issues
usable_issues-IsUsable [] = tt
usable_issues-IsUsable (row ∷ rows) = elim (Option-cases (filled (chain (codes "message") row))) [
  | inl e ↦ rw (e, usable_issues) (usable_issues-IsUsable rows)
  | inr (s, e) ↦
      rw (e, usable_issues)
        ((path_or_root-ne-nil _, filled-ne-nil _ s e), usable_issues-IsUsable rows)
]

schema_issues_of-IsUsable :
    (v : Value) (is : List Issue) → schema_issues_of v ≡ some is → All IsUsable is
unfolding schema_issues_of
schema_issues_of-IsUsable (array (cons row rows)) is e =
    subst (All IsUsable) (cc) (usable_issues-IsUsable (row ∷ elements rows))
schema_issues_of-IsUsable (array nil) is e = cc
schema_issues_of-IsUsable v is e = cc

-- The schema issues of a mapped error, where there are any, all have a path and a message that are
-- not empty, whatever the body of the response holds.
pub schema_issues-IsUsable :
    (t : Thrown) (is : List Issue) → (map_api_error t).schema_issues ≡ some is → All IsUsable is
unfolding map_api_error
schema_issues-IsUsable (api_error e) is h = schema_issues_of-IsUsable _ is h
schema_issues-IsUsable type_error is h = cc
schema_issues-IsUsable _ is h = cc
