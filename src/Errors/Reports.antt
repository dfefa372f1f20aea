-- ===== src/Errors/Reports.antt =====
-- What a user and the host see of a failure: `reportError` over the mapped errors
-- (components/ProfilesWidgetCore.tsx, components/EntityTypesWidgetCore.tsx and others).
use april_profile_kilo.Errors.{
  ApiError, ErrorReport, api_error, as_provider_error, map_api_error, profile_message,
  provider_error, report_profile_error, status_to_code,
}
use april_profile_kilo.Base.{Bool, Text, codes, false, is_some, refl, true, ◌↔◌, ◌≡◌, arith}
use april_profile_kilo.Value.{
  Value, array, as_string, boolean, chain, null, nullish, number, object, string, undefined,
}

abbrev pub is_text_or_missing : Value → Bool
is_text_or_missing undefined = true
is_text_or_missing null = true
is_text_or_missing (string s) = true
is_text_or_missing _ = false

-- The body's message is missing, null or text, as the contract of the API has it.
abbrev pub HasTextMessage : ApiError → Type 0
HasTextMessage e = is_text_or_missing (chain (codes "message") e.body) ≡ true

as_string-nullish :
    (v : Value) (s : Text) → is_some (as_string (nullish v (string s))) ≡ is_text_or_missing v
as_string-nullish undefined s = refl
as_string-nullish null s = refl
as_string-nullish (boolean b) s = refl
as_string-nullish (number n) s = refl
as_string-nullish (string t) s = refl
as_string-nullish (array vs) s = refl
as_string-nullish (object fs) s = refl

-- The mapping of an API failure is recognised as a provider error exactly when the message of its
-- body is missing, null or text.
pub recognised_iff :
    (e : ApiError)
    → (is_some (as_provider_error (provider_error (map_api_error (api_error e)))) ≡ true)
      ↔ HasTextMessage e
unfolding as_provider_error map_api_error
recognised_iff e = ground (arith, as_string-nullish (chain (codes "message") e.body) e.message)

-- What a profile widget reports of an API failure.
abbrev pub reported : Value → ApiError → ErrorReport
reported host_id e = report_profile_error host_id (provider_error (map_api_error (api_error e)))

report_of_text :
    (host_id : Value) (e : ApiError)
    → HasTextMessage e
    → ((reported host_id e).message ≡ profile_message (status_to_code e.status))
      × ((reported host_id e).code ≡ status_to_code e.status)
unfolding report_profile_error map_api_error
report_of_text host_id e h =
    ground (arith, as_string-nullish (chain (codes "message") e.body) e.message)

-- What a profile widget shows for an API failure, and the code that it reports, are fixed by the
-- status: two failures of one status, each with a message in its body that is missing, null or
-- text, are shown and coded alike, whatever else the two responses hold.
pub reported_by_status :
    (host_id : Value) (a b : ApiError)
    → a.status ≡ b.status
    → HasTextMessage a
    → HasTextMessage b
    → ((reported host_id a).message ≡ (reported host_id b).message)
      × ((reported host_id a).code ≡ (reported host_id b).code)
reported_by_status host_id a b h ha hb =
    let (ma, ca) = report_of_text host_id a ha in
    let (mb, cb) = report_of_text host_id b hb in (cc, cc)
