-- ===== src/ProfileDetail/Restoring.antt =====
-- components/ProfilesWidgetProfileDetailCore.tsx: going back to an old version and deleting a
-- profile.
use april_profile_kilo.Providers.{Details}
use april_profile_kilo.ProfileDetail.{
  DetailProps, ProfileState, begin_versions, entity_deleted_notice, is_historical, list_asked, note,
  report_event, show_change_error, told,
}
use april_profile_kilo.Errors.{Thrown}
use april_profile_kilo.Value.{Value, null, number}
use april_profile_kilo.Runtime.{Runtime}
use april_profile_kilo.ProfileDetail.Editing.{
  UpdateCall, entity_meta, failed_meta, following_load, free, history_name, store_update,
}
use april_profile_kilo.Base.{Option, Text, [], codes, if◌then◌else◌, leb, none, some, ◌++◌, ◌∷◌}
use april_profile_kilo.Telemetry.{acted, deleted, save_failed, save_submitted, save_succeeded}
use april_profile_kilo.Transport.Promise.{Outcome, fulfilled, rejected}
use april_profile_kilo.FamilyDetail.{given}

unfoldable pub history_of :
    DetailProps → Option Text → Option Value → ProfileState → ProfileState × Option UpdateCall
history_of p (some id) (some document) s =
    let busy : ProfileState = record s { mutation_error = none; busy_entity = some id } in
    let from_meta =
      entity_meta history_name id
      ++ (codes "from_version", elim s.viewed_version [ none ↦ null | some v ↦ number v ]) ∷ [] in
    if is_historical s
    then (
      report_event p save_submitted from_meta busy,
      some
          (record { entity = id; input = record { document = document; expected_version = none } }),
    )
    else (s, none)
history_of p _ _ s = (s, none)

-- `handleSaveHistoricalAsNew` up to its `await`, and after its answer.
unfoldable pub begin_history_save : DetailProps → ProfileState → ProfileState × Option UpdateCall
unfolding history_of is_historical
begin_history_save p s = history_of p (given s.entity_id) s.selected_document s

unfoldable pub history_answered :
    Runtime → DetailProps → Text → Outcome Details → ProfileState → ProfileState
unfolding store_update begin_versions show_change_error
history_answered rt p id (fulfilled d) s =
    let stored = store_update rt p history_name d s in
    let going = begin_versions (following_load id d stored) stored in
    if leb d.version 1 then free going else going
history_answered rt p id (rejected e) s =
    free (report_event p save_failed (failed_meta history_name id) (show_change_error p e s))

abbrev pub delete_name : Text
delete_name = codes "delete_entity_profile"

-- `handleDelete` up to its `await`, after its answer up to the list's reload, and after that.
unfoldable pub begin_removal : DetailProps → Text → ProfileState → ProfileState
begin_removal p id s =
    report_event p save_submitted (entity_meta delete_name id)
      (record s { mutation_error = none; busy_entity = some id })

unfoldable pub fail_removal : DetailProps → Text → Thrown → ProfileState → ProfileState
unfolding show_change_error
fail_removal p id e s =
    free (report_event p save_failed (failed_meta delete_name id) (show_change_error p e s))

unfoldable pub removal_answered :
    DetailProps → Text → Outcome (Unit {0}) → ProfileState → ProfileState
unfolding fail_removal
removal_answered p id (fulfilled _) s = note list_asked (
    note (entity_deleted_notice id) (
      report_event p save_succeeded (entity_meta delete_name id)
        (note (told (acted (deleted id))) s)))
removal_answered p id (rejected e) s = fail_removal p id e s

unfoldable pub removal_finished :
    DetailProps → Text → Outcome (Unit {0}) → ProfileState → ProfileState
unfolding fail_removal
removal_finished p id (fulfilled _) s = free s
removal_finished p id (rejected e) s = fail_removal p id e s
