-- ===== src/Transport/Promise.antt =====
-- generated/core/CancelablePromise.ts: the flags, the cancel handlers and the settlement of the
-- inner promise. A handler acts on a world `W` of what it can reach, and returns whether it threw.
pub mod Laws
use april_profile_kilo.Base.{
  Bool, List, Option, [], false, first, if◌then◌else◌, none, some, true, ◌++◌, ◌||◌, ◌∷◌,
}
use april_profile_kilo.Errors.{Thrown, cancel_error}

pub data Outcome (T : Type 0) : Type 0 where
  fulfilled : T → Outcome T
  rejected : Thrown → Outcome T

abbrev pub Handler : Type 0 → Type 0
Handler W = W → W × Bool

pub record Promise (W T : Type 0) : Type 0 where
  pub is_resolved : Bool
  pub is_rejected : Bool
  pub is_cancelled : Bool
  pub cancel_handlers : List (Handler W)
  pub outcome : Option (Outcome T)

-- The inner promise keeps its first settlement.
abbrev pub settle : {T : Type 0} → Option (Outcome T) → Outcome T → Option (Outcome T)
settle none o = some o
settle (some kept) o = some kept

module _ {W T : Type 0} where
  -- The constructor's state, before the executor runs.
  abbrev pub pending : Promise W T
  pending = record {
    is_resolved = false;
    is_rejected = false;
    is_cancelled = false;
    cancel_handlers = [];
    outcome = none;
  }

  -- The guard of every operation.
  abbrev pub is_closed : Promise W T → Bool
  is_closed p = p.is_resolved || p.is_rejected || p.is_cancelled

  unfoldable pub on_resolve : T → Promise W T → Promise W T
  on_resolve value p =
      if is_closed p
      then p
      else record p { is_resolved = true; outcome = settle p.outcome (fulfilled value) }

  unfoldable pub on_reject : Thrown → Promise W T → Promise W T
  on_reject reason p =
      if is_closed p
      then p
      else record p { is_rejected = true; outcome = settle p.outcome (rejected reason) }

  unfoldable pub on_cancel : Handler W → Promise W T → Promise W T
  on_cancel handler p =
      if is_closed p then p else record p { cancel_handlers = p.cancel_handlers ++ handler ∷ [] }

-- The loop over the handlers, which the first one that throws leaves.
unfoldable pub run_handlers : {W : Type 0} → List (Handler W) → W → W × Bool
run_handlers [] w = (w, false)
run_handlers (handler ∷ handlers) w =
    let (w', threw) = handler w in
    let rest = run_handlers handlers w' in if threw then (w', true) else rest

module _ {W T : Type 0} where
  abbrev pub finish_cancel : Promise W T → W × Bool → Promise W T × W
  finish_cancel p (w, true) = (record p { is_cancelled = true }, w)
  finish_cancel p (w, false) = (
    record p {
      is_cancelled = true;
      cancel_handlers = [];
      outcome = settle p.outcome (rejected cancel_error);
    },
    w,
  )

  unfoldable pub cancel : Promise W T → W → Promise W T × W
  cancel p w = if is_closed p then (p, w) else finish_cancel p (run_handlers p.cancel_handlers w)

-- What can happen to a promise, in the order in which it happens.
pub data Event (W T : Type 0) : Type 0 where
  resolve : T → Event W T
  reject : Thrown → Event W T
  register : Handler W → Event W T
  cancellation : Event W T

module _ {W T : Type 0} where
  unfoldable pub react : Event W T → Promise W T × W → Promise W T × W
  unfolding on_resolve on_reject on_cancel cancel
  react (resolve v) (p, w) = (on_resolve v p, w)
  react (reject e) (p, w) = (on_reject e p, w)
  react (register h) (p, w) = (on_cancel h p, w)
  react cancellation (p, w) = cancel p w

  unfoldable pub react_all : List (Event W T) → Promise W T × W → Promise W T × W
  react_all [] s = s
  react_all (e ∷ es) s = react_all es (react e s)
