-- ===== src/ProfilesList/Handlers.antt =====
-- components/ProfilesWidgetCore.tsx: the effects and the handlers of the list, as steps of one
-- machine.
use april_profile_kilo.ProfilesList.{
  DetailCall, ListState, Props, Seen, View, abort_current, answer, begin_load, close_create, grid,
  has_text, list, open_create, seen_now,
}
use april_profile_kilo.Base.{
  Bool, List, Option, Text, [], codes, false, if◌then◌else◌, none, not, or_else, some, text_eq,
  true, ℕ, ◌&&◌, ◌++◌, ◌||◌, ◌∷◌,
}
use april_profile_kilo.Telemetry.{Action, acted, created, opened}
use april_profile_kilo.Providers.{ListPage}
use april_profile_kilo.Transport.Promise.{Outcome}

-- The state of the first render, and what the host passes for the search and the type filter.
abbrev pub initial_state : Text → Text → ListState
initial_state search type_id = record {
  loading = true;
  loading_more = false;
  error_message = none;
  items = [];
  query = search;
  filter_type_id = type_id;
  next_cursor = none;
  total_count = 0;
  selected = none;
  preferred = none;
  request_id = 0;
  view = list;
  grid_create_session = false;
  pending_open_create = false;
  in_flight = [];
  outputs = [];
  detail_calls = [];
}

-- `loadList({ append: false })`
abbrev pub reload : Props → Seen → ListState → ListState
reload p seen s = begin_load p seen none false s

-- The load effect: its cleanup aborts the load before it.
unfoldable pub run_load_effect : Props → ListState → ListState
run_load_effect p s = reload p (seen_now s) (abort_current s)

-- The effect after the first render has no cleanup before it.
abbrev pub mounted : Props → Text → Text → ListState
mounted p search type_id = let s = initial_state search type_id in reload p (seen_now s) s

-- `setQuery`: the effect runs where the value is another.
unfoldable pub set_query : Props → Text → ListState → ListState
unfolding run_load_effect
set_query p q s = if text_eq q s.query then s else run_load_effect p (record s { query = q })

-- `onFilterChange`
unfoldable pub set_filter : Props → Option Text → ListState → ListState
unfolding run_load_effect
set_filter p choice s =
    let type_id = or_else choice (codes "all") in
    if text_eq type_id s.filter_type_id
    then s
    else run_load_effect p (record s { filter_type_id = type_id })

-- `onReachListEnd`
unfoldable pub reach_end : Props → ListState → ListState
reach_end p s =
    let more = begin_load p (seen_now s) s.next_cursor true s in
    if not (has_text s.next_cursor) || s.loading_more then s else more

-- `handleSelectProfileFromList`
unfoldable pub handle_select : Option Text → ListState → ListState
handle_select none s = s
handle_select (some id) s = record s { selected = some id; outputs = s.outputs ++ opened id ∷ [] }

abbrev pub call_detail : DetailCall → ListState → ListState
call_detail c s = record s { detail_calls = s.detail_calls ++ c ∷ [] }

-- `handleCardListViewChange`
unfoldable pub handle_view_change : View → ListState → ListState
handle_view_change grid s = record (call_detail close_create s) {
  view = grid;
  selected = none;
  grid_create_session = false;
  pending_open_create = false;
}
handle_view_change list s = record s {
  view = list;
  grid_create_session = false;
  pending_open_create = false;
}

-- `handleGridProfileModalClose`
unfoldable pub handle_modal_close : ListState → ListState
handle_modal_close s = record (call_detail close_create s) {
  grid_create_session = false;
  pending_open_create = false;
  selected = none;
}

abbrev pub is_grid : View → Bool
is_grid grid = true
is_grid list = false

-- `onAddItem`, with whether the viewport is narrow.
unfoldable pub add_item : Bool → ListState → ListState
add_item narrow s =
    if is_grid s.view || narrow
    then record s { grid_create_session = true; pending_open_create = true }
    else call_detail open_create s

-- `gridFlowOverlayOpened`
unfoldable pub flow_overlay_opened : Bool → ListState → Bool
flow_overlay_opened narrow s =
    (is_grid s.view && (has_text s.selected || s.grid_create_session))
    || (narrow && not (is_grid s.view) && s.grid_create_session && not (has_text s.selected))

-- The frame that the effect on `pendingGridOpenCreate` has asked for.
unfoldable pub create_frame : Bool → ListState → ListState
unfolding flow_overlay_opened
create_frame narrow s =
    if s.pending_open_create && flow_overlay_opened narrow s
    then record (call_detail open_create s) { pending_open_create = false }
    else s

-- `onAction` of the detail component, before the load.
abbrev pub note_action : Action → ListState → ListState
note_action (created item) s = record s {
  outputs = s.outputs ++ acted (created item) ∷ [];
  preferred = some item.entity_id;
  grid_create_session = false;
}
note_action a s = record s { outputs = s.outputs ++ acted a ∷ [] }

-- The callbacks that the detail component gets; `seen` is what the render saw that made them.
unfoldable pub child_acted : Props → Seen → Action → ListState → ListState
child_acted p seen a s = reload p seen (note_action a s)

unfoldable pub entity_deleted : Props → Seen → ListState → ListState
entity_deleted p seen s = reload p seen (record s { preferred = none; selected = none })

pub data ListEvent : Type 0 where
  query_set : Text → ListEvent
  filter_set : Option Text → ListEvent
  end_reached unmounted modal_closed : ListEvent
  answered : ℕ → ℕ → Outcome ListPage → ListEvent
  profile_selected : Option Text → ListEvent
  view_changed : View → ListEvent
  item_added frame_drawn : Bool → ListEvent
  detail_acted : Seen → Action → ListEvent
  list_revalidated detail_deleted : Seen → ListEvent
  detail_created : Text → ListEvent

unfoldable pub step : Props → ListEvent → ListState → ListState
step p (query_set q) s = set_query p q s
step p (filter_set choice) s = set_filter p choice s
step p end_reached s = reach_end p s
step p unmounted s = abort_current s
step p modal_closed s = handle_modal_close s
step p (answered elapsed id o) s = answer p elapsed id o s
step p (profile_selected id) s = handle_select id s
step p (view_changed v) s = handle_view_change v s
step p (item_added narrow) s = add_item narrow s
step p (frame_drawn narrow) s = create_frame narrow s
step p (detail_acted seen a) s = child_acted p seen a s
step p (list_revalidated seen) s = reload p seen s
step p (detail_deleted seen) s = entity_deleted p seen s
step p (detail_created id) s = record s { preferred = some id }

unfoldable pub run : Props → List ListEvent → ListState → ListState
run p [] s = s
run p (e ∷ es) s = run p es (step p e s)
