-- ===== src/ProfilesList.antt =====
-- components/ProfilesWidgetCore.tsx under frontend/packages/profile-ui/src: the list of profiles,
-- its loads and its selection. A load is begun and answered by separate steps, between which
-- anything may happen; refs and states are fields of one record.
pub mod Handlers
pub mod Layout
pub mod Loading
pub mod Merging
pub mod Offers
pub mod Screen
pub mod Selection
pub mod Spinners
use april_profile_kilo.Base.{
  Bool, List, Option, Text, [], any, codes, false, find, if◌then◌else◌, is_nil, keep, length, map,
  none, not, some, suc, text_eq, trim, true, ℕ, ◌++◌, ◌==◌, ◌∷◌,
}
use april_profile_kilo.Providers.{ListItem, ListPage, ListQuery, Sort}
use april_profile_kilo.Errors.{
  ErrorCode, ProviderError, Thrown, as_provider_error, conflict, forbidden, network, not_found,
  rate_limited, report_profile_error, unauthorized, unknown, validation,
}
use april_profile_kilo.Transport.Promise.{Outcome, fulfilled, rejected}
use april_profile_kilo.Telemetry.{
  EventName, HostContext, Meta, Output, emit, failed, host_request_id, list_failed, list_requested,
  list_succeeded, profiles_list, view_loaded,
}
use april_profile_kilo.Value.{boolean, number, of_option, string}
use april_profile_kilo.Display.{non_empty}

pub data View : Type 0 where
  list grid : View

pub record Props : Type 0 where
  pub host : HostContext
  pub page_size : ℕ
  pub initial_sort : Sort
  pub auto_select_first : Bool
  pub observes : Bool

-- A call of `provider.list` under way: the number that it took, whether it appends, what it asks
-- for, and whether its signal has fired.
pub record Load : Type 0 where
  pub id : ℕ
  pub append : Bool
  pub asks : ListQuery
  pub aborted : Bool

-- The imperative handle of the detail component.
pub data DetailCall : Type 0 where
  open_create close_create : DetailCall

pub record ListState : Type 0 where
  pub loading : Bool
  pub loading_more : Bool
  pub error_message : Option Text
  pub items : List ListItem
  pub query : Text
  pub filter_type_id : Text
  pub next_cursor : Option Text
  pub total_count : ℕ
  pub selected : Option Text
  pub preferred : Option Text
  pub request_id : ℕ
  pub view : View
  pub grid_create_session : Bool
  pub pending_open_create : Bool
  -- the calls under way, what the host has been called with, and the calls of `detailRef`
  pub in_flight : List Load
  pub outputs : List Output
  pub detail_calls : List DetailCall

-- `query` and `filterTypeId` as the render saw them whose `loadList` is called.
pub record Seen : Type 0 where
  pub query : Text
  pub filter_type_id : Text

abbrev pub seen_now : ListState → Seen
seen_now s = record { query = s.query; filter_type_id = s.filter_type_id }

-- The arguments of `provider.list`.
unfoldable pub list_query : Props → Seen → Option Text → ListQuery
unfolding trim
list_query p seen cursor = record {
  search = non_empty (trim seen.query);
  entity_type_id =
      if text_eq seen.filter_type_id (codes "all") then none else some seen.filter_type_id;
  limit = p.page_size;
  cursor = cursor;
  sort = some p.initial_sort;
}

-- `listAbortControllerRef.current?.abort()`: the controller is that of the last load begun.
abbrev pub abort_load : ℕ → Load → Load
abort_load id l = if l.id == id then record l { aborted = true } else l

unfoldable pub abort_current : ListState → ListState
abort_current s = record s { in_flight = map (abort_load s.request_id) s.in_flight }

abbrev pub say : Props → EventName → Meta → ListState → ListState
say p event meta s = record s {
  outputs = s.outputs ++ emit p.observes p.host profiles_list event meta;
}

abbrev pub has_text : Option Text → Bool
has_text none = false
has_text (some []) = false
has_text (some (c ∷ s)) = true

-- The flags that `loadList` sets before it calls the provider.
unfoldable pub show_loading : Bool → ListState → ListState
show_loading true s = record s { loading_more = true }
show_loading false s =
    if is_nil s.items
    then record s { error_message = none; loading = true }
    else record s { error_message = none; loading_more = true }

-- `loadList` up to its `await`.
unfoldable pub begin_load : Props → Seen → Option Text → Bool → ListState → ListState
unfolding abort_current show_loading list_query
begin_load p seen cursor append s =
    let aborted = abort_current s in
    let shown = show_loading append (record aborted { request_id = suc s.request_id }) in
    let load : Load = record {
      id = suc s.request_id;
      append = append;
      asks = list_query p seen cursor;
      aborted = false;
    } in
    say p list_requested
      ((codes "operation", string (codes "list_profiles"))
        ∷ (codes "phase", string (codes "api"))
        ∷ (codes "has_cursor", boolean (has_text cursor))
        ∷ [])
      (record shown { in_flight = shown.in_flight ++ load ∷ [] })

abbrev pub has_id : Text → List ListItem → Bool
has_id id items = any (λ (item : ListItem). text_eq item.entity_id id) items

-- The updater of `setItems`.
unfoldable pub merged_items : Bool → List ListItem → List ListItem → List ListItem
merged_items false prev page = page
merged_items true prev page =
    prev ++ keep (λ (item : ListItem). not (has_id item.entity_id prev)) page

abbrev pub first_id : List ListItem → Option Text
first_id [] = none
first_id (item ∷ items) = some item.entity_id

-- `id && nextItems.some(...)`
abbrev pub still_listed : Option Text → List ListItem → Bool
still_listed none items = false
still_listed (some []) items = false
still_listed (some (c ∷ id)) items = has_id (c ∷ id) items

-- The updater of `setSelectedEntityId`; the preferred selection is forgotten once it is used.
unfoldable pub next_selection : Props → List ListItem → ListState → ListState
next_selection p items s =
    if still_listed s.preferred items
    then record s { selected = s.preferred; preferred = none }
    else if still_listed s.selected items
    then s
    else record s { selected = if p.auto_select_first then first_id items else none }

abbrev pub stop_loading : ListState → ListState
stop_loading s = record s { loading = false; loading_more = false }

abbrev pub drop_load : ℕ → ListState → ListState
drop_load id s = record s { in_flight = keep (λ (l : Load). not (l.id == id)) s.in_flight }

-- The three setters and the updater that store a page.
unfoldable pub store_page : Props → Load → ListPage → ListState → ListState
unfolding merged_items next_selection
store_page p l page s =
    let items = merged_items l.append s.items page.items in
    next_selection p items
      (record s { items = items; next_cursor = page.next_cursor; total_count = page.total_count })

-- The telemetry of a page; `elapsed` is what the clock says.
abbrev pub announce_page : Props → ℕ → Load → ListPage → ListState → ListState
announce_page p elapsed l page s =
    let told =
      say p list_succeeded
        ((codes "operation", string (codes "list_profiles"))
          ∷ (codes "row_count", number (length page.items))
          ∷ (codes "has_next_cursor", boolean (has_text page.next_cursor))
          ∷ (codes "latency_ms", number elapsed)
          ∷ [])
        s in
    let viewed =
      say p view_loaded
        ((codes "row_count", number (length page.items))
          ∷ (codes "total_count", number page.total_count)
          ∷ [])
        told in
    if l.append then told else viewed

-- `loadList` after its `await`, where the provider returned a page.
unfoldable pub load_succeeded : Props → ℕ → Load → ListPage → ListState → ListState
load_succeeded p elapsed l page s =
    if l.id == s.request_id
    then stop_loading (announce_page p elapsed l page (store_page p l page s))
    else s

-- The code of a failure in telemetry: `isProfilesProviderError(error) ? error.code : "unknown"`.
abbrev pub code_of : Option ProviderError → ErrorCode
code_of none = unknown
code_of (some e) = e.code

abbrev pub code_text : ErrorCode → Text
code_text unauthorized = codes "unauthorized"
code_text forbidden = codes "forbidden"
code_text conflict = codes "conflict"
code_text not_found = codes "not_found"
code_text validation = codes "validation"
code_text rate_limited = codes "rate_limited"
code_text network = codes "network"
code_text unknown = codes "unknown"

-- `reportError(error, setListErrorMessage)`
unfoldable pub show_error : Props → Thrown → ListState → ListState
show_error p e s =
    let report = report_profile_error (of_option (host_request_id p.host)) e in
    record s { error_message = some report.message; outputs = s.outputs ++ failed report ∷ [] }

-- `loadList` after its `await`, where the provider threw.
unfoldable pub load_failed : Props → ℕ → Load → Thrown → ListState → ListState
unfolding show_error
load_failed p elapsed l e s =
    let told =
      say p list_failed
        ((codes "operation", string (codes "list_profiles"))
          ∷ (codes "phase", string (codes "api"))
          ∷ (codes "latency_ms", number elapsed)
          ∷ (codes "error_code", string (code_text (code_of (as_provider_error e))))
          ∷ [])
        s in
    let shown = show_error p e told in
    if l.id == s.request_id then stop_loading (if l.aborted then s else shown) else s

unfoldable pub load_answered : Props → ℕ → Load → Outcome ListPage → ListState → ListState
unfolding load_succeeded load_failed
load_answered p elapsed l (fulfilled page) s = load_succeeded p elapsed l page s
load_answered p elapsed l (rejected e) s = load_failed p elapsed l e s

abbrev pub answer_found : Props → ℕ → Outcome ListPage → ListState → Option Load → ListState
answer_found p elapsed o s none = s
answer_found p elapsed o s (some l) = load_answered p elapsed l o (drop_load l.id s)

-- The event loop resumes the load of this number.
unfoldable pub answer : Props → ℕ → ℕ → Outcome ListPage → ListState → ListState
unfolding load_answered
answer p elapsed id o s = answer_found p elapsed o s (find (λ (l : Load). l.id == id) s.in_flight)
