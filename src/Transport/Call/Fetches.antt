-- ===== src/Transport/Call/Fetches.antt =====
-- How often a call reaches the network.
use april_profile_kilo.Transport.Call.{
  Call, Phase, abort_fetch, cancel_call, fetch_settled, headers_ready, preparing, CallEvent,
  Guarded, abort, advance, advance_all, begin, deliver, finished, headers, in_flight, response,
  turn, open_request,
}
use april_profile_kilo.Value.{Value}
use april_profile_kilo.Base.{[], arith, ℕ, ◌∷◌, ◌≡◌, ◌≢◌, ◌≤◌, ◌⊎◌, Bool, List, Option}
use april_profile_kilo.Transport.Promise.{Outcome}
use april_profile_kilo.Transport.Request.{ApiRequest, Config}

abbrev budget : Phase → ℕ
budget preparing = 0
budget _ = 1

budget-le-one : (p : Phase) → budget p ≤ 1
budget-le-one preparing = omega arith
budget-le-one in_flight = omega arith
budget-le-one finished = omega arith

-- A call has fetched at most once, not while it prepares, and the only cancel handler is the one
-- that aborts the fetch.
pub record IsFrugal (c : Call) : Type 0 where
  pub spent : c.net.fetches ≤ budget c.phase
  pub handlers :
      (c.promise.cancel_handlers ≡ [])
      ⊎ ((c.phase ≢ preparing) × (c.promise.cancel_handlers ≡ abort_fetch ∷ []))

headers_ready-IsFrugal : (c : Call) → IsFrugal c → IsFrugal (headers_ready c)
unfolding headers_ready
headers_ready-IsFrugal c h = ground arith

fetch_settled-IsFrugal : (o : Outcome Value) (c : Call) → IsFrugal c → IsFrugal (fetch_settled o c)
unfolding fetch_settled
fetch_settled-IsFrugal o c h = ground arith

cancel_call-IsFrugal : (c : Call) → IsFrugal c → IsFrugal (cancel_call c)
unfolding cancel_call
cancel_call-IsFrugal c h = ground arith

advance-IsFrugal : (e : CallEvent) (g : Guarded) → IsFrugal g.call → IsFrugal (advance e g).call
unfolding advance
advance-IsFrugal turn g h = ground arith
advance-IsFrugal abort g h = ground (arith, cancel_call-IsFrugal g.call h)
advance-IsFrugal headers g h = headers_ready-IsFrugal g.call h
advance-IsFrugal deliver g h = ground arith
advance-IsFrugal (response o) g h = fetch_settled-IsFrugal o g.call h

advance_all-IsFrugal :
    (es : List CallEvent) (g : Guarded) → IsFrugal g.call → IsFrugal (advance_all es g).call
unfolding advance_all
advance_all-IsFrugal [] g h = h
advance_all-IsFrugal (e ∷ es) g h = advance_all-IsFrugal es (advance e g) (advance-IsFrugal e g h)

begin-IsFrugal :
    (config : Config) (o : ApiRequest) (signal : Option Bool)
    → IsFrugal (begin config o signal).call
unfolding begin open_request
begin-IsFrugal config o signal = ground arith

-- One operation of a provider calls `fetch` at most once, whatever the event loop and the abort
-- signal do.
pub at_most_one_fetch :
    (config : Config) (o : ApiRequest) (signal : Option Bool) (es : List CallEvent)
    → (advance_all es (begin config o signal)).call.net.fetches ≤ 1
at_most_one_fetch config o signal es =
    let h = advance_all-IsFrugal es (begin config o signal) (begin-IsFrugal config o signal) in
    ground (arith, h.spent, budget-le-one (advance_all es (begin config o signal)).call.phase)
