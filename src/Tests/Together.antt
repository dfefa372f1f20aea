-- ===== src/Tests/Together.antt =====
-- The list, the detail and the server together, on concrete inputs.
use mathlib.Core.Path.{◌≡◌, refl}
use april_profile_kilo.Providers.{Snapshot, to_details}
use april_profile_kilo.System.Creation.{created_comes_selected, last_load, page_served, told_list}
use april_profile_kilo.Base.{List, [], codes, false, some, text_eq, trim, ◌++◌, ◌∷◌, ◌≢◌}
use april_profile_kilo.Tests.Details.{detail_props, showing, titled}
use april_profile_kilo.ProfilesList.{Load, Seen, has_id, load_succeeded}
use april_profile_kilo.Value.{chain, prop, string}
use april_profile_kilo.System.Removal.{deleted_is_gone, told_removed}
use april_profile_kilo.Tests.Screens.{demo_props, second_load}
use april_profile_kilo.Demo.Profiles.{delete_entity, post_entity}
use april_profile_kilo.ProfileDetail.{ProfileState}
use april_profile_kilo.Tests.Server.{name_engine, small_store}
use april_profile_kilo.Providers.Profiles.{CreateInput}
use april_profile_kilo.Demo.{build_snapshot}

abbrev all_seen : Seen
all_seen = record { query = codes " "; filter_type_id = codes "all" }

-- A detail that has told nobody anything yet.
abbrev quiet_detail : ProfileState
quiet_detail = record showing { notices = [] }

abbrev new_input : CreateInput
new_input = record { entity_type_id = codes "t-1"; document = titled (codes "Bob") }

abbrev new_snapshot : Snapshot
new_snapshot = build_snapshot (codes "e-9") 1 (string (codes "Bob")) (codes "t-1")

created_comes_selected_example :
    ((earlier : List Load) × ((told_list name_engine demo_props detail_props all_seen
          (to_details new_snapshot)
          quiet_detail
          second_load).in_flight
        ≡ earlier
          ++ last_load demo_props all_seen (
              told_list name_engine demo_props detail_props all_seen
                (to_details new_snapshot)
                quiet_detail
                second_load)
            ∷ []))
    × ((load_succeeded demo_props 5
          (last_load demo_props all_seen (
            told_list name_engine demo_props detail_props all_seen
              (to_details new_snapshot)
              quiet_detail
              second_load))
          (page_served name_engine demo_props all_seen
            (post_entity name_engine (codes "e-9") (codes "now") new_input small_store).1)
          (told_list name_engine demo_props detail_props all_seen
            (to_details new_snapshot)
            quiet_detail
            second_load)).selected
        ≡ some (codes "e-9"))
unfolding post_entity chain prop text_eq trim
created_comes_selected_example =
    created_comes_selected name_engine demo_props detail_props all_seen 19 refl refl refl refl
      second_load quiet_detail small_store b'e' (codes "-9") (codes "now") new_input new_snapshot 5
      refl refl

deleted_is_gone_example :
    ((earlier : List Load) × ((told_removed demo_props detail_props all_seen
          (codes "e-1")
          quiet_detail
          second_load).in_flight
        ≡ earlier
          ++ last_load demo_props all_seen
              (told_removed demo_props detail_props all_seen (codes "e-1") quiet_detail second_load)
            ∷ []))
    × (has_id
          (codes "e-1")
          (load_succeeded demo_props 5
            (last_load demo_props all_seen (
              told_removed demo_props detail_props all_seen (codes "e-1") quiet_detail second_load))
            (page_served name_engine demo_props all_seen
              (delete_entity (codes "e-1") small_store).1)
            (told_removed demo_props detail_props all_seen
              (codes "e-1")
              quiet_detail
              second_load)).items
        ≡ false)
    × ((load_succeeded demo_props 5
          (last_load demo_props all_seen
            (told_removed demo_props detail_props all_seen (codes "e-1") quiet_detail second_load))
          (page_served name_engine demo_props all_seen (delete_entity (codes "e-1") small_store).1)
          (told_removed demo_props detail_props all_seen
            (codes "e-1")
            quiet_detail
            second_load)).selected
        ≢ some (codes "e-1"))
deleted_is_gone_example =
    deleted_is_gone name_engine demo_props detail_props all_seen second_load quiet_detail
      small_store (codes "e-1") 5 refl
