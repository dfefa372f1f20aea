-- ===== src/Transport/Call.antt =====
-- generated/core/request.ts, `request` and `sendRequest`, and `withSignal` of the providers
-- (providers/openapiProfilesProvider.ts and providers/openapiEntityTypesProvider.ts, word for word
-- the same): one call as a machine that the event loop drives.
pub mod Fetches
pub mod Aborts
pub mod Reach
use april_profile_kilo.Transport.Promise.{
  Event, Handler, Outcome, Promise, cancel, fulfilled, on_cancel, on_reject, on_resolve, pending,
  rejected, run_handlers,
}
use april_profile_kilo.Base.{
  Bool, List, Option, [], false, if◌then◌else◌, none, some, suc, true, ℕ, ◌∷◌,
}
use april_profile_kilo.Value.{Value, undefined}
use april_profile_kilo.Transport.Request.{ApiRequest, Config, get_url}
use april_profile_kilo.Errors.{abort_error, other}

-- What a cancel handler reaches: the `AbortController` of `sendRequest`, with the calls of `fetch`.
pub record Net : Type 0 where
  pub fetches : ℕ
  pub aborted : Bool

-- The executor waits for the headers, then for the response, and then it has returned.
pub data Phase : Type 0 where
  preparing in_flight finished : Phase

pub record Call : Type 0 where
  pub options : ApiRequest
  pub phase : Phase
  pub promise : Promise Net Value
  pub net : Net

abbrev pub quiet : Net
quiet = record { fetches = 0; aborted = false }

-- The synchronous part of the executor; an encoder's error is caught and rejects.
unfoldable pub open_request : Config → ApiRequest → Call
unfolding on_reject
open_request config options = elim (get_url config options) [
  | some url ↦ record { options = options; phase = preparing; promise = pending; net = quiet }
  | none ↦ record {
    options = options;
    phase = finished;
    promise = on_reject (other undefined) pending;
    net = quiet;
  }
]

-- `() => controller.abort()`
abbrev pub abort_fetch : Handler Net
abort_fetch w = (record w { aborted = true }, false)

-- The headers are there: `sendRequest`, unless the promise was cancelled.
after_headers : Call → Phase → Call
after_headers c preparing =
    if c.promise.is_cancelled then record c { phase = finished } else record c {
      phase = in_flight;
      promise = on_cancel abort_fetch c.promise;
      net = record c.net { fetches = suc c.net.fetches };
    }
after_headers c _ = c

unfoldable pub headers_ready : Call → Call
unfolding after_headers on_cancel
headers_ready c = after_headers c c.phase

settle_with : Call → Outcome Value → Call
settle_with c (fulfilled v) = record c { phase = finished; promise = on_resolve v c.promise }
settle_with c (rejected e) = record c { phase = finished; promise = on_reject e c.promise }

after_response : Call → Outcome Value → Phase → Call
after_response c o in_flight = settle_with c o
after_response c o _ = c

-- `fetch` has settled: with a response, which `receive` reads, or with an error.
unfoldable pub fetch_settled : Outcome Value → Call → Call
unfolding after_response settle_with on_resolve on_reject
fetch_settled o c = after_response c o c.phase

abbrev pub with_cancel : Call → Promise Net Value × Net → Call
with_cancel c (p, w) = record c { promise = p; net = w }

unfoldable pub cancel_call : Call → Call
unfolding cancel run_handlers
cancel_call c = with_cancel c (cancel c.promise c.net)

-- Where `withSignal` stands: it returned the promise itself, it waits for a turn of the event loop,
-- it waits for the promise with its listener in place, or it is over.
pub data Stage : Type 0 where
  direct yielding listening over : Stage

pub record Guarded : Type 0 where
  pub call : Call
  pub aborted : Bool
  pub stage : Stage
  pub result : Option (Outcome Value)

abbrev pub entered : Call → Option Bool → Guarded
entered c none = record { call = c; aborted = false; stage = direct; result = none }
entered c (some true) = record {
  call = c;
  aborted = true;
  stage = over;
  result = some (rejected abort_error);
}
entered c (some false) = record { call = c; aborted = false; stage = yielding; result = none }

-- An operation of a provider up to its first wait: the request is opened before `withSignal` looks
-- at the signal. The argument is the signal's `aborted` flag, if there is a signal.
unfoldable pub begin : Config → ApiRequest → Option Bool → Guarded
begin config options signal = entered (open_request config options) signal

-- The turn after `await Promise.resolve()`.
after_turn : Guarded → Stage → Guarded
after_turn g yielding =
    if g.aborted
    then record g { stage = over; result = some (rejected abort_error) }
    else record g { stage = listening }
after_turn g _ = g

-- The signal fires once; a listener cancels the request.
after_abort : Guarded → Stage → Guarded
after_abort g listening = record g { aborted = true; call = cancel_call g.call }
after_abort g _ = record g { aborted = true }

-- The awaited promise has settled: the listener is removed and the result passed on.
after_settled : Guarded → Stage → Option (Outcome Value) → Guarded
after_settled g direct (some o) = record g { stage = over; result = some o }
after_settled g listening (some o) = record g { stage = over; result = some o }
after_settled g _ _ = g

pub data CallEvent : Type 0 where
  turn abort headers deliver : CallEvent
  response : Outcome Value → CallEvent

unfoldable pub advance : CallEvent → Guarded → Guarded
unfolding after_turn after_abort after_settled headers_ready fetch_settled cancel_call
advance turn g = after_turn g g.stage
advance abort g = if g.aborted then g else after_abort g g.stage
advance headers g = record g { call = headers_ready g.call }
advance (response o) g = record g { call = fetch_settled o g.call }
advance deliver g = after_settled g g.stage g.call.promise.outcome

unfoldable pub advance_all : List CallEvent → Guarded → Guarded
advance_all [] g = g
advance_all (e ∷ es) g = advance_all es (advance e g)
