-- ===== src/ProfilesList/Spinners.antt =====
-- components/ProfilesWidgetCore.tsx: the loads of the list over whole runs.
use april_profile_kilo.ProfilesList.Handlers.{
  ListEvent, answered, detail_acted, detail_created, detail_deleted, end_reached, filter_set,
  frame_drawn, handle_select, item_added, list_revalidated, modal_closed, profile_selected,
  query_set, run_load_effect, step, unmounted, view_changed, add_item, child_acted, create_frame,
  entity_deleted, flow_overlay_opened, handle_modal_close, handle_view_change, is_grid, mounted,
  note_action, reach_end, run, set_filter, set_query,
}
use april_profile_kilo.Base.{
  arith, false, none, refl, some, ◌≡◌, All, Bool, List, Option, Text, [], codes, if◌then◌else◌, not,
  or_else, text_eq, true, ◌&&◌, ◌||◌, ◌∷◌, Bool-cases, any, ap, inl, inr,
}
use april_profile_kilo.ProfilesList.Loading.{
  IsOrderly, abort_same, answer-IsOrderly, any_abort, begin_load-IsOrderly, IsNumbered,
  in_flight-begin_load, request_id-begin_load, is_current,
}
use april_profile_kilo.ProfilesList.{
  ListState, Props, abort_current, View, grid, has_text, list, seen_now,
}
use april_profile_kilo.Telemetry.{Action, created}

either-IsOrderly :
    (b : Bool) (s t : ListState) → IsOrderly s → IsOrderly t → IsOrderly (if b then s else t)
either-IsOrderly true s t hs ht = hs
either-IsOrderly false s t hs ht = ht

idle_is_calm :
    (s : ListState) → IsOrderly s → s.in_flight ≡ [] → (s.loading || s.loading_more) ≡ false
idle_is_calm s h idle = elim (Bool-cases (s.loading || s.loading_more)) [
  | inl busy ↦ cc (h.awaited busy, ap (any (is_current s.request_id)) idle)
  | inr calm ↦ calm
]

module _ (p : Props) where
  abort_current-IsOrderly : (s : ListState) → IsOrderly s → IsOrderly (abort_current s)
  unfolding abort_current
  abort_current-IsOrderly s h = record {
    numbered = abort_same s.request_id s.in_flight h.numbered;
    awaited = λ e. any_abort s.request_id s.in_flight (h.awaited e);
  }

  run_load_effect-IsOrderly : (s : ListState) → IsOrderly s → IsOrderly (run_load_effect p s)
  unfolding run_load_effect
  run_load_effect-IsOrderly s h =
      begin_load-IsOrderly p _ none false (abort_current s) (abort_current-IsOrderly s h)

  quiet_step :
      (s t : ListState)
      → IsOrderly s
      → t.in_flight ≡ s.in_flight
      → t.request_id ≡ s.request_id
      → t.loading ≡ s.loading
      → t.loading_more ≡ s.loading_more
      → IsOrderly t
  quiet_step s t h f i l m = record {
    numbered = rw (f, i) h.numbered;
    awaited = λ e. rw (f, i) (h.awaited (ground arith));
  }

  -- Setting fields that the loads do not read.
  set_query-IsOrderly : (q : Text) (s : ListState) → IsOrderly s → IsOrderly (set_query p q s)
  unfolding set_query
  set_query-IsOrderly q s h =
      either-IsOrderly (text_eq q s.query) s _ h
        (run_load_effect-IsOrderly (record s { query = q }) (quiet_step s _ h refl refl refl refl))

  set_filter-IsOrderly :
      (c : Option Text) (s : ListState) → IsOrderly s → IsOrderly (set_filter p c s)
  unfolding set_filter
  set_filter-IsOrderly c s h =
      either-IsOrderly (text_eq (or_else c (codes "all")) s.filter_type_id) s _ h (
        run_load_effect-IsOrderly (record s { filter_type_id = or_else c (codes "all") })
          (quiet_step s _ h refl refl refl refl))

  reach_end-IsOrderly : (s : ListState) → IsOrderly s → IsOrderly (reach_end p s)
  unfolding reach_end
  reach_end-IsOrderly s h =
      either-IsOrderly (not (has_text s.next_cursor) || s.loading_more) s _ h
        (begin_load-IsOrderly p (seen_now s) s.next_cursor true s h)

  handle_select-IsOrderly :
      (id : Option Text) (s : ListState) → IsOrderly s → IsOrderly (handle_select id s)
  unfolding handle_select
  handle_select-IsOrderly none s h = h
  handle_select-IsOrderly (some id) s h = quiet_step s _ h refl refl refl refl

  view_change-IsOrderly :
      (v : View) (s : ListState) → IsOrderly s → IsOrderly (handle_view_change v s)
  unfolding handle_view_change
  view_change-IsOrderly grid s h = quiet_step s _ h refl refl refl refl
  view_change-IsOrderly list s h = quiet_step s _ h refl refl refl refl

  add_item-IsOrderly : (narrow : Bool) (s : ListState) → IsOrderly s → IsOrderly (add_item narrow s)
  unfolding add_item
  add_item-IsOrderly narrow s h =
      either-IsOrderly (is_grid s.view || narrow) _ _ (quiet_step s _ h refl refl refl refl)
        (quiet_step s _ h refl refl refl refl)

  create_frame-IsOrderly :
      (narrow : Bool) (s : ListState) → IsOrderly s → IsOrderly (create_frame narrow s)
  unfolding create_frame
  create_frame-IsOrderly narrow s h =
      either-IsOrderly (s.pending_open_create && flow_overlay_opened narrow s) _ s
        (quiet_step s _ h refl refl refl refl) h

  note_action-IsOrderly : (a : Action) (s : ListState) → IsOrderly s → IsOrderly (note_action a s)
  note_action-IsOrderly (created item) s h = quiet_step s _ h refl refl refl refl
  note_action-IsOrderly _ s h = quiet_step s _ h refl refl refl refl

  step-IsOrderly : (e : ListEvent) (s : ListState) → IsOrderly s → IsOrderly (step p e s)
  unfolding step handle_modal_close child_acted entity_deleted
  step-IsOrderly (query_set q) s h = set_query-IsOrderly q s h
  step-IsOrderly (filter_set c) s h = set_filter-IsOrderly c s h
  step-IsOrderly end_reached s h = reach_end-IsOrderly s h
  step-IsOrderly unmounted s h = abort_current-IsOrderly s h
  step-IsOrderly modal_closed s h = quiet_step s _ h refl refl refl refl
  step-IsOrderly (answered elapsed id o) s h = answer-IsOrderly p elapsed id o s h
  step-IsOrderly (profile_selected id) s h = handle_select-IsOrderly id s h
  step-IsOrderly (view_changed v) s h = view_change-IsOrderly v s h
  step-IsOrderly (item_added narrow) s h = add_item-IsOrderly narrow s h
  step-IsOrderly (frame_drawn narrow) s h = create_frame-IsOrderly narrow s h
  step-IsOrderly (detail_acted seen a) s h =
      begin_load-IsOrderly p seen none false _ (note_action-IsOrderly a s h)
  step-IsOrderly (list_revalidated seen) s h = begin_load-IsOrderly p seen none false s h
  step-IsOrderly (detail_deleted seen) s h =
      begin_load-IsOrderly p seen none false (record s { preferred = none; selected = none })
        (quiet_step s _ h refl refl refl refl)
  step-IsOrderly (detail_created id) s h = quiet_step s _ h refl refl refl refl

  run-IsOrderly : (es : List ListEvent) (s : ListState) → IsOrderly s → IsOrderly (run p es s)
  unfolding run
  run-IsOrderly [] s h = h
  run-IsOrderly (e ∷ es) s h = run-IsOrderly es (step p e s) (step-IsOrderly e s h)

  mounted-IsOrderly : (search type_id : Text) → IsOrderly (mounted p search type_id)
  mounted-IsOrderly search type_id = record {
    numbered = rw (in_flight-begin_load, request_id-begin_load) (ground arith);
    awaited = λ _. rw (in_flight-begin_load, request_id-begin_load) (ground arith);
  }

  -- From the first render on, in any order of answers, failures, aborts and acts of the user, every
  -- load under way but the last one begun has had its signal fired.
  pub only_last_load_lives :
      (search type_id : Text) (es : List ListEvent)
      → All
          (IsNumbered (run p es (mounted p search type_id)).request_id)
          (run p es (mounted p search type_id)).in_flight
  only_last_load_lives search type_id es =
      (run-IsOrderly es (mounted p search type_id) (mounted-IsOrderly search type_id)).numbered

  -- From the first render on, in any order of answers, failures, aborts and acts of the user: once
  -- every load begun has been answered, whichever way, no spinner is left.
  pub spinner_ends :
      (search type_id : Text) (es : List ListEvent)
      → (run p es (mounted p search type_id)).in_flight ≡ []
      → ((run p es (mounted p search type_id)).loading
          || (run p es (mounted p search type_id)).loading_more)
        ≡ false
  spinner_ends search type_id es idle =
      idle_is_calm _ (run-IsOrderly es _ (mounted-IsOrderly search type_id)) idle
