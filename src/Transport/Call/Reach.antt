-- ===== src/Transport/Call/Reach.antt =====
-- An abort while the response is awaited reaches the network.
use mathlib.Core.Path.{◌≡◌, refl, ap, sym}
use native.Mathlib.Omega.{arith}
use april_profile_kilo.Transport.Promise.{Outcome, Promise, fulfilled, pending, rejected, is_closed}
use april_profile_kilo.Transport.Request.{ApiRequest, Config, get_url}
use april_profile_kilo.Transport.Call.{
  Call, CallEvent, Guarded, Net, Phase, abort, abort_fetch, advance, advance_all, begin, deliver,
  fetch_settled, finished, headers, headers_ready, in_flight, listening, open_request, preparing,
  response, turn,
}
use april_profile_kilo.Base.{List, Option-cases, [], false, inl, inr, some, true, ◌∙◌, ◌∷◌}
use april_profile_kilo.Errors.{cancel_error}
use april_profile_kilo.Transport.Promise.Laws.{open_with}
use april_profile_kilo.Value.{Value}
use april_profile_kilo.Transport.Call.Aborts.{abort_cancels}

-- The promise of a call that nothing has aborted, by the phase.
abbrev IsSteady : Phase → Promise Net Value → Type 0
IsSteady preparing q = q ≡ pending
IsSteady in_flight q = q ≡ open_with (abort_fetch ∷ [])
IsSteady finished q = Unit

abbrev IsUntouched : Guarded → Type 0
IsUntouched g = g.aborted ≡ false → IsSteady g.call.phase g.call.promise

abbrev call_in : ApiRequest → Net → Promise Net Value → Phase → Call
call_in o n q ph = record { options = o; phase = ph; promise = q; net = n }

headers_ready-IsSteady :
    (o : ApiRequest) (n : Net) (q : Promise Net Value) (ph : Phase)
    → IsSteady ph q
    → IsSteady (headers_ready (call_in o n q ph)).phase (headers_ready (call_in o n q ph)).promise
unfolding headers_ready
headers_ready-IsSteady o n q preparing h = rw h refl
headers_ready-IsSteady o n q in_flight h = h
headers_ready-IsSteady o n q finished h = tt

fetch_settled-IsSteady :
    (r : Outcome Value) (o : ApiRequest) (n : Net) (q : Promise Net Value) (ph : Phase)
    → IsSteady ph q
    → IsSteady
        (fetch_settled r (call_in o n q ph)).phase
        (fetch_settled r (call_in o n q ph)).promise
unfolding fetch_settled
fetch_settled-IsSteady r o n q preparing h = h
fetch_settled-IsSteady (fulfilled v) o n q in_flight h = tt
fetch_settled-IsSteady (rejected e) o n q in_flight h = tt
fetch_settled-IsSteady r o n q finished h = tt

turn_keeps :
    (g : Guarded) → ((advance turn g).call ≡ g.call) × ((advance turn g).aborted ≡ g.aborted)
unfolding advance
turn_keeps g = ground arith

deliver_keeps :
    (g : Guarded) → ((advance deliver g).call ≡ g.call) × ((advance deliver g).aborted ≡ g.aborted)
unfolding advance
deliver_keeps g = ground arith

abort_marks : (g : Guarded) → (advance abort g).aborted ≡ true
unfolding advance
abort_marks g = ground arith

advance-IsUntouched : (e : CallEvent) (g : Guarded) → IsUntouched g → IsUntouched (advance e g)
unfolding advance
advance-IsUntouched turn g h = rw ((turn_keeps g).0, (turn_keeps g).1) h
advance-IsUntouched abort g h = λ a. let clash : true ≡ false = sym (abort_marks g) ∙ a in cc
advance-IsUntouched headers g h =
    λ a. headers_ready-IsSteady g.call.options g.call.net g.call.promise g.call.phase (h a)
advance-IsUntouched deliver g h = rw ((deliver_keeps g).0, (deliver_keeps g).1) h
advance-IsUntouched (response o) g h =
    λ a. fetch_settled-IsSteady o g.call.options g.call.net g.call.promise g.call.phase (h a)

advance_all-IsUntouched :
    (es : List CallEvent) (g : Guarded) → IsUntouched g → IsUntouched (advance_all es g)
unfolding advance_all
advance_all-IsUntouched [] g h = h
advance_all-IsUntouched (e ∷ es) g h =
    advance_all-IsUntouched es (advance e g) (advance-IsUntouched e g h)

begin-IsUntouched : (config : Config) (o : ApiRequest) → IsUntouched (begin config o (some false))
unfolding begin open_request
begin-IsUntouched config o = elim (Option-cases (get_url config o)) [
  | inl bad ↦ rw (open_request, bad) (λ a. tt)
  | inr (url, good) ↦ rw (open_request, good) (λ a. refl)
]

awaited :
    (ph : Phase) (q : Promise Net Value)
    → ph ≡ in_flight
    → IsSteady ph q
    → q ≡ open_with (abort_fetch ∷ [])
awaited preparing q e h = ground arith
awaited in_flight q e h = h
awaited finished q e h = ground arith

-- Whatever has happened to an operation that was begun with a signal: if it awaits its response and
-- the signal has not fired, then firing it aborts the fetch, rejects the promise with the cancel
-- error, and makes the operation throw that error.
pub abort_reaches_fetch :
    (config : Config) (o : ApiRequest) (es : List CallEvent) (g : Guarded)
    → g ≡ advance_all es (begin config o (some false))
    → g.stage ≡ listening
    → g.aborted ≡ false
    → g.call.phase ≡ in_flight
    → ((advance abort g).call.net.aborted ≡ true)
      × ((advance abort g).call.promise.outcome ≡ some (rejected cancel_error))
      × ((advance deliver (advance abort g)).result ≡ some (rejected cancel_error))
abort_reaches_fetch config o es g from listens quiet_signal sent =
    let untouched : IsUntouched g =
      rw from
        (advance_all-IsUntouched es (begin config o (some false)) (begin-IsUntouched config o)) in
    let q = awaited g.call.phase g.call.promise sent (untouched quiet_signal) in
    let (outcome, reached, thrown) =
      abort_cancels g listens quiet_signal (ap (λ (x : Promise Net Value). is_closed x) q)
        (ap (λ (x : Promise Net Value). x.outcome) q)
        (ap (λ (x : Promise Net Value). x.cancel_handlers) q) in
    (reached, outcome, thrown)
