-- ===== src/Transport/Call/Aborts.antt =====
-- What an abort does: it cancels a call that listens, and does not reach one that had not got so
-- far.
use april_profile_kilo.Base.{List, Text, [], arith, false, none, refl, some, true, ◌∙◌, ◌∷◌, ◌≡◌}
use april_profile_kilo.Transport.Promise.{is_closed, rejected, pending}
use april_profile_kilo.Transport.Call.{
  Call, CallEvent, Guarded, abort, advance, advance_all, begin, cancel_call, deliver, headers,
  headers_ready, listening, over, preparing, response, turn, entered, finished, open_request, quiet,
  abort_fetch,
}
use april_profile_kilo.Transport.Request.{ApiRequest, Config, get_url}
use april_profile_kilo.Errors.{abort_error, cancel_error}

-- The result of an operation, once there, stays.
advance_over :
    (e : CallEvent) (g : Guarded)
    → g.stage ≡ over
    → ((advance e g).stage ≡ over) × ((advance e g).result ≡ g.result)
unfolding advance
advance_over turn g h = ground arith
advance_over abort g h = ground arith
advance_over headers g h = ground arith
advance_over deliver g h = ground arith
advance_over (response o) g h = ground arith

-- What an operation has returned or thrown does not change afterwards.
pub result_is_final :
    (es : List CallEvent) (g : Guarded) → g.stage ≡ over → (advance_all es g).result ≡ g.result
unfolding advance_all
result_is_final [] g h = refl
result_is_final (e ∷ es) g h =
    let (still, same) = advance_over e g h in result_is_final es (advance e g) still ∙ same

-- A call that no listener watches is not cancelled.
record IsUnwatched (g : Guarded) : Type 0 where
  done : g.stage ≡ over
  free : g.call.promise.is_cancelled ≡ false

advance-IsUnwatched : (e : CallEvent) (g : Guarded) → IsUnwatched g → IsUnwatched (advance e g)
unfolding advance
advance-IsUnwatched turn g h = ground arith
advance-IsUnwatched abort g h = ground arith
advance-IsUnwatched headers g h = ground arith
advance-IsUnwatched deliver g h = ground arith
advance-IsUnwatched (response o) g h = ground arith

advance_all-IsUnwatched :
    (es : List CallEvent) (g : Guarded) → IsUnwatched g → IsUnwatched (advance_all es g)
unfolding advance_all
advance_all-IsUnwatched [] g h = h
advance_all-IsUnwatched (e ∷ es) g h =
    advance_all-IsUnwatched es (advance e g) (advance-IsUnwatched e g h)

-- A call whose address can be encoded, as it is opened.
abbrev fresh_call : ApiRequest → Call
fresh_call o = record { options = o; phase = preparing; promise = pending; net = quiet }

opened :
    (config : Config) (o : ApiRequest) (url : Text)
    → get_url config o ≡ some url
    → open_request config o ≡ fresh_call o
unfolding open_request
opened config o url h = ground arith

sent : (o : ApiRequest) → (headers_ready (fresh_call o)).net.fetches ≡ 1
unfolding headers_ready
sent o = refl

-- An operation that is begun with a signal already aborted throws the abort error, and yet its
-- request, if its address can be encoded, is sent as soon as the headers are there, and nothing that
-- happens later cancels it.
pub aborted_before_start_sends :
    (config : Config) (o : ApiRequest) (url : Text) (es : List CallEvent)
    → get_url config o ≡ some url
    → ((begin config o (some true)).result ≡ some (rejected abort_error))
      × ((advance headers (begin config o (some true))).call.net.fetches ≡ 1)
      × ((advance_all es (begin config o (some true))).call.promise.is_cancelled ≡ false)
unfolding begin advance
aborted_before_start_sends config o url es h = rw (opened config o url h) (
  refl,
  sent o,
  (advance_all-IsUnwatched es (entered (fresh_call o) (some true))
      (record { done = refl; free = refl })).free,
)

-- The same holds of a signal that fires in the turn that `withSignal` leaves to it: the operation
-- throws, and the request is sent and not cancelled.
pub aborted_in_turn_sends :
    (config : Config) (o : ApiRequest) (url : Text) (es : List CallEvent)
    → get_url config o ≡ some url
    → let g : Guarded = advance turn (advance abort (begin config o (some false))) in
      (g.result ≡ some (rejected abort_error))
      × ((advance headers g).call.net.fetches ≡ 1)
      × ((advance_all es g).call.promise.is_cancelled ≡ false)
unfolding begin advance
aborted_in_turn_sends config o url es h = rw (opened config o url h) (
  refl,
  sent o,
  (advance_all-IsUnwatched es (entered (fresh_call o) (some true))
      (record { done = refl; free = refl })).free,
)

-- An abort that meets the listener while the response is awaited reaches the network: the fetch is
-- aborted, the promise rejects with the cancel error, and that is what the operation then throws.
pub abort_cancels :
    (g : Guarded)
    → g.stage ≡ listening
    → g.aborted ≡ false
    → is_closed g.call.promise ≡ false
    → g.call.promise.outcome ≡ none
    → g.call.promise.cancel_handlers ≡ abort_fetch ∷ []
    → ((advance abort g).call.promise.outcome ≡ some (rejected cancel_error))
      × ((advance abort g).call.net.aborted ≡ true)
      × ((advance deliver (advance abort g)).result ≡ some (rejected cancel_error))
unfolding advance cancel_call
abort_cancels g s a c h f = ground arith

-- No request leaves a call that is cancelled while it prepares.
pub cancelled_never_fetches :
    (c : Call)
    → c.phase ≡ preparing
    → c.promise.is_cancelled ≡ true
    → headers_ready c ≡ record c { phase = finished }
unfolding headers_ready
cancelled_never_fetches c p h = ground arith
