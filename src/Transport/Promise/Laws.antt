-- ===== src/Transport/Promise/Laws.antt =====
-- A promise settles once, its flags agree with its settlement, and a cancellation reaches the
-- handlers.
use april_profile_kilo.Base.{
  List, [], arith, false, none, refl, some, true, ◌∷◌, ◌≡◌, Bool, Option, if◌then◌else◌, ◌++◌, ◌∙◌,
}
use april_profile_kilo.Transport.Promise.{
  Event, Promise, cancellation, fulfilled, is_closed, react, react_all, register, reject, rejected,
  resolve, Handler, Outcome, cancel, on_reject, on_resolve, pending, run_handlers, finish_cancel,
}
use april_profile_kilo.Errors.{cancel_error}

module _ {W T : Type 0} where
  closed_react :
      (e : Event W T) (p : Promise W T) (w : W) → is_closed p ≡ true → react e (p, w) ≡ (p, w)
  unfolding react
  closed_react (resolve v) p w h = ground arith
  closed_react (reject r) p w h = ground arith
  closed_react (register f) p w h = ground arith
  closed_react cancellation p w h = ground arith

  -- Once a promise is resolved, rejected or cancelled, nothing changes it or runs a handler.
  pub closed_is_final :
      (es : List (Event W T)) (p : Promise W T) (w : W)
      → is_closed p ≡ true
      → react_all es (p, w) ≡ (p, w)
  unfolding react_all
  closed_is_final [] p w h = refl
  closed_is_final (e ∷ es) p w h = rw (closed_react e p w h) (closed_is_final es p w h)

  -- A promise that nothing has settled yet.
  abbrev pub open_with : List (Handler W) → Promise W T
  open_with handlers = record pending { cancel_handlers = handlers }

  -- Who wins: the first event that is no registration. A cancellation settles only if none of the
  -- handlers registered before it throws.
  abbrev pub verdict : List (Handler W) → W → List (Event W T) → Option (Outcome T)
  verdict handlers w [] = none
  verdict handlers w (resolve v ∷ es) = some (fulfilled v)
  verdict handlers w (reject e ∷ es) = some (rejected e)
  verdict handlers w (register f ∷ es) = verdict (handlers ++ f ∷ []) w es
  verdict handlers w (cancellation ∷ es) =
      if (run_handlers handlers w).1 then none else some (rejected cancel_error)

  -- What becomes of the world: only a cancellation that comes before any settlement runs handlers.
  abbrev pub effect : List (Handler W) → W → List (Event W T) → W
  effect handlers w [] = w
  effect handlers w (resolve v ∷ es) = w
  effect handlers w (reject e ∷ es) = w
  effect handlers w (register f ∷ es) = effect (handlers ++ f ∷ []) w es
  effect handlers w (cancellation ∷ es) = (run_handlers handlers w).0

  finish_cancel_closed : (p : Promise W T) (r : W × Bool) → is_closed (finish_cancel p r).0 ≡ true
  finish_cancel_closed p (w, true) = ground arith
  finish_cancel_closed p (w, false) = ground arith

  finish_cancel_outcome :
      (handlers : List (Handler W)) (r : W × Bool)
      → (finish_cancel (open_with handlers) r).0.outcome
        ≡ (if r.1 then none else some (rejected cancel_error))
  finish_cancel_outcome handlers (w, true) = refl
  finish_cancel_outcome handlers (w, false) = refl

  finish_cancel_world : (p : Promise W T) (r : W × Bool) → (finish_cancel p r).1 ≡ r.0
  finish_cancel_world p (w, true) = refl
  finish_cancel_world p (w, false) = refl

  after_cancel :
      (handlers : List (Handler W)) (w : W) (es : List (Event W T))
      → react_all es (cancel (open_with handlers) w) ≡ cancel (open_with handlers) w
  unfolding cancel
  after_cancel handlers w es =
      closed_is_final es _ _ (finish_cancel_closed (open_with handlers) (run_handlers handlers w))

  -- From a fresh promise, whatever happens in whatever order, the settlement is decided by the
  -- first event that is not a registration, and handlers run only if that event is a cancellation.
  pub first_event_decides :
      (es : List (Event W T)) (handlers : List (Handler W)) (w : W)
      → ((react_all es (open_with handlers, w)).0.outcome ≡ verdict handlers w es)
        × ((react_all es (open_with handlers, w)).1 ≡ effect handlers w es)
  unfolding react_all react
  first_event_decides [] handlers w = (refl, refl)
  first_event_decides (resolve v ∷ es) handlers w =
      rw (closed_is_final es (on_resolve v (open_with handlers)) w refl) (refl, refl)
  first_event_decides (reject e ∷ es) handlers w =
      rw (closed_is_final es (on_reject e (open_with handlers)) w refl) (refl, refl)
  first_event_decides (register f ∷ es) handlers w = first_event_decides es (handlers ++ f ∷ []) w
  first_event_decides (cancellation ∷ es) handlers w = rw (after_cancel handlers w es) (
    finish_cancel_outcome handlers (run_handlers handlers w),
    finish_cancel_world (open_with handlers) (run_handlers handlers w),
  )

  -- A promise whose cancellation met a handler that threw never settles: whatever comes after, its
  -- outcome stays missing.
  pub throwing_handler_hangs :
      (handlers : List (Handler W)) (w : W) (es : List (Event W T))
      → (run_handlers handlers w).1 ≡ true
      → (react_all (cancellation ∷ es) (open_with handlers, w)).0.outcome ≡ none
  throwing_handler_hangs handlers w es h =
      (first_event_decides (cancellation ∷ es) handlers w).0 ∙ rw h
