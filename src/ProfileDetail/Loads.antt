-- ===== src/ProfileDetail/Loads.antt =====
-- components/ProfilesWidgetProfileDetailCore.tsx: the load of a profile.
use april_profile_kilo.ProfileDetail.{
  DetailProps, ProfileState, VersionLoad, apply_snapshot, begin_versions, has_fired, report_event,
  show_load_error, versions_answered,
}
use april_profile_kilo.Base.{
  Bool, List, Option, Text, [], codes, false, if◌then◌else◌, leb, none, not, some, suc, true, ℕ,
  ◌&&◌, ◌++◌, ◌==◌, ◌∷◌,
}
use april_profile_kilo.Errors.{Thrown, as_provider_error}
use april_profile_kilo.Transport.Promise.{Outcome, fulfilled, rejected}
use april_profile_kilo.Telemetry.{Meta, details_failed, details_requested}
use april_profile_kilo.ProfilesList.{code_of, code_text}
use april_profile_kilo.FamilyDetail.{given}
use april_profile_kilo.Runtime.{Runtime}
use april_profile_kilo.Providers.{Details}
use april_profile_kilo.Value.{number, string}

pub record DetailLoad : Type 0 where
  pub id : ℕ
  pub entity : Text

abbrev pub clear_profile : ProfileState → ProfileState
clear_profile s = record s {
  selected_document = none;
  head_version = none;
  viewed_version = none;
  versions = [];
  details_error = none;
  edit_mode = false;
  versions_loading = false;
}

abbrev pub fire_current : ProfileState → ProfileState
fire_current s = record s { fired = s.request_id ∷ s.fired }

abbrev pub about_get : Text → Meta
about_get id =
    (codes "operation", string (codes "get_profile"))
    ∷ (codes "phase", string (codes "api"))
    ∷ (codes "entity_id", string id)
    ∷ []

-- The load effect up to the answer of `provider.get`.
unfoldable pub begin_details : DetailProps → Text → ProfileState → ProfileState
begin_details p id s = report_event p details_requested (about_get id) (record (fire_current s) {
  request_id = suc s.request_id;
  details_loading = true;
  details_error = none;
  versions = [];
})

abbrev pub details_effect : DetailProps → Option Text → ProfileState → ProfileState
details_effect p none s = clear_profile s
details_effect p (some id) s = begin_details p id s

-- The cleanup fires the signal of the load that its effect began.
abbrev pub details_cleanup : Option Text → ProfileState → ProfileState
details_cleanup none s = s
details_cleanup (some id) s = fire_current s

-- Another `entityId`, with the effect that closes the version sheet.
unfoldable pub change_entity : DetailProps → Option Text → ProfileState → ProfileState
unfolding begin_details
change_entity p next s =
    let left = details_cleanup (given s.entity_id) s in
    record (details_effect p (given next) (record left { entity_id = next })) {
      version_sheet = false;
    }

-- The `finally` of the load.
abbrev pub details_done : DetailLoad → ProfileState → ProfileState
details_done l s = if l.id == s.request_id then record s { details_loading = false } else s

abbrev pub load_of : DetailLoad → Details → VersionLoad
load_of l d = record { entity = l.entity; head = d; signal = some l.id; id = l.id }

abbrev pub error_meta : Text → ℕ → Thrown → Meta
error_meta id elapsed e =
    about_get id
    ++ (codes "latency_ms", number elapsed)
      ∷ (codes "error_code", string (code_text (code_of (as_provider_error e))))
      ∷ []

abbrev pub is_live : DetailLoad → ProfileState → Bool
is_live l s = l.id == s.request_id && not (has_fired (some l.id) s)

-- The answer of `provider.get`; with older versions the load goes on to read them.
unfoldable pub details_answered :
    Runtime → DetailProps → ℕ → DetailLoad → Outcome Details → ProfileState → ProfileState
unfolding apply_snapshot begin_versions show_load_error as_provider_error
details_answered rt p elapsed l (fulfilled d) s =
    let shown = begin_versions (load_of l d) (apply_snapshot rt d s) in
    if is_live l s
    then (if leb d.version 1 then details_done l shown else shown)
    else details_done l s
details_answered rt p elapsed l (rejected e) s =
    let failed_load = report_event p details_failed (error_meta l.entity elapsed e) s in
    details_done l (if is_live l s then show_load_error p e failed_load else s)

-- The end of a load that has read the older versions.
unfoldable pub details_versions_answered :
    DetailProps → DetailLoad → Details → Outcome (List Details) → ProfileState → ProfileState
unfolding versions_answered
details_versions_answered p l d o s = details_done l (versions_answered p (load_of l d) o s)
