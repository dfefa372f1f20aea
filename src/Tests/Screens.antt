-- ===== src/Tests/Screens.antt =====
-- The editor, the display and the list of profiles on concrete inputs.
use mathlib.Core.Path.{◌≡◌, refl}
use april_profile_kilo.Editor.{Draft, Panels, handle_mode_change, source, tree}
use april_profile_kilo.ProfilesList.{
  ListState, Load, Props, abort_current, answer, begin_load, load_answered, load_failed,
  load_succeeded, merged_items, next_selection, show_loading, store_page,
}
use april_profile_kilo.Base.{
  All, List, Option, Text, [], codes, false, none, some, text_eq, true, ◌||◌, ◌↔◌, ◌∷◌, ◌≢◌,
}
use april_profile_kilo.ProfilesList.Merging.{IsDistinct, merged_items-IsDistinct}
use april_profile_kilo.Value.{Fields, Value, end, field, object, string}
use april_profile_kilo.ProfilesList.Handlers.{
  ListEvent, answered, initial_state, mounted, query_set, run, run_load_effect, set_query, step,
}
use april_profile_kilo.ProfilesList.Loading.{IsNumbered}
use april_profile_kilo.Display.Duplicates.{Clash, is_duplicate_name_iff}
use april_profile_kilo.Transport.Promise.{fulfilled, rejected}
use april_profile_kilo.Runtime.{Runtime}
use april_profile_kilo.Display.{is_duplicate_name, normalized}
use april_profile_kilo.Providers.{ListItem, ListPage, updated_desc}
use april_profile_kilo.ProfilesList.Spinners.{only_last_load_lives, spinner_ends}
use april_profile_kilo.Editor.Switching.{text_round_trip}
use april_profile_kilo.Errors.{abort_error}

-- An engine whose JSON text is the name that an object holds.
abbrev name_only : Text → Option Value
name_only text = some (object (field (codes "name") (string text) end))

abbrev text_of : Value → Text
text_of (object (field k (string s) fs)) = s
text_of v = []

abbrev toy_engine : Runtime
toy_engine = record { parse = name_only; compact = text_of; pretty = text_of; to_lower = λ t. t }

abbrev no_parse : Runtime
no_parse = record toy_engine { parse = λ t. none }

abbrev pub ann : ListItem
ann = record {
  entity_id = codes "e-1";
  entity_type_id = codes "t-1";
  version = 1;
  updated_at = codes "2026-04-24T10:00:00Z";
  preview = codes "Ann";
}

abbrev pub bob : ListItem
bob = record ann { entity_id = codes "e-2"; preview = codes "Bob" }

is_duplicate_name_iff_example :
    (is_duplicate_name toy_engine (codes " Ann ") (ann ∷ bob ∷ []) none ≡ true) ↔ (
      (normalized toy_engine (codes " Ann ") ≢ [])
      × Clash toy_engine (normalized toy_engine (codes " Ann ")) none (ann ∷ bob ∷ []))
is_duplicate_name_iff_example =
    is_duplicate_name_iff toy_engine (codes " Ann ") (ann ∷ bob ∷ []) none

abbrev all_panels : Panels
all_panels = record { with_form = true; with_schema = true }

abbrev text_draft : Draft
text_draft = record {
  mode = source;
  value = object end;
  source_text = codes "{";
  switch_error = none;
}

abbrev ann_fields : Fields
ann_fields = field (codes "name") (string (codes "Ann")) end

abbrev tree_draft : Draft
tree_draft = record {
  mode = tree;
  value = object ann_fields;
  source_text = [];
  switch_error = none;
}

text_round_trip_example :
    ((handle_mode_change toy_engine all_panels tree
        (handle_mode_change toy_engine all_panels source tree_draft)).value
      ≡ object ann_fields)
    × ((handle_mode_change toy_engine all_panels tree
          (handle_mode_change toy_engine all_panels source tree_draft)).mode
        ≡ tree)
text_round_trip_example = text_round_trip toy_engine all_panels tree_draft ann_fields refl refl refl

abbrev pub demo_props : Props
demo_props = record {
  host = record { tenant_id = codes "demo"; telemetry = none };
  page_size = 20;
  initial_sort = updated_desc;
  auto_select_first = true;
  observes = true;
}

abbrev pub two_page : ListPage
two_page = record { items = ann ∷ bob ∷ []; next_cursor = none; total_count = 2 }

abbrev old_load : Load
old_load = record {
  id = 1;
  append = false;
  asks = record { search = none; entity_type_id = none; limit = 20; cursor = none; sort = none };
  aborted = true;
}

abbrev pub second_load : ListState
second_load = record (initial_state [] (codes "all")) { request_id = 2 }

abbrev typed_and_answered : List ListEvent
typed_and_answered =
    query_set (codes "ann")
    ∷ answered 5 2 (fulfilled two_page)
    ∷ answered 9 1 (rejected abort_error)
    ∷ []

only_last_load_lives_example :
    All
      (IsNumbered
        (run demo_props typed_and_answered (mounted demo_props [] (codes "all"))).request_id)
      (run demo_props typed_and_answered (mounted demo_props [] (codes "all"))).in_flight
only_last_load_lives_example = only_last_load_lives demo_props [] (codes "all") typed_and_answered

spinner_ends_example :
    ((run demo_props typed_and_answered (mounted demo_props [] (codes "all"))).loading
      || (run demo_props typed_and_answered (mounted demo_props [] (codes "all"))).loading_more)
    ≡ false
unfolding run step set_query text_eq run_load_effect begin_load abort_current show_loading answer
    load_answered load_succeeded load_failed store_page next_selection
spinner_ends_example = spinner_ends demo_props [] (codes "all") typed_and_answered refl

abbrev fresh_load : Load
fresh_load = record old_load { id = 2; aborted = false }

abbrev preferring : ListState
preferring = record second_load { preferred = some (codes "e-2"); selected = some (codes "e-1") }

abbrev keeping : ListState
keeping = record second_load { selected = some (codes "e-2") }

merged_items-IsDistinct_example : IsDistinct (merged_items true (ann ∷ []) (ann ∷ bob ∷ []))
unfolding text_eq
merged_items-IsDistinct_example =
    merged_items-IsDistinct true (ann ∷ []) (ann ∷ bob ∷ []) (refl, tt) (refl, (refl, tt))
