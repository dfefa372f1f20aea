-- ===== src/Tests/Details.antt =====
-- The profile detail widget on concrete inputs.
use mathlib.Core.Path.{◌≡◌, refl}
use april_profile_kilo.Value.{Value, end, field, object, string, chain, prop, put}
use april_profile_kilo.ProfileDetail.{
  DetailProps, ProfileState, VersionLoad, select_version, version_at, versions_answered,
  version_answers,
}
use april_profile_kilo.Providers.Profiles.{CreateInput}
use april_profile_kilo.Base.{
  Text, [], arith, codes, false, none, some, trim, true, ◌∷◌, text_eq, ℕ, All, List,
}
use april_profile_kilo.ProfileDetail.Names.{
  IsChecked, MaySend, begin_create-IsChecked, update_is_checked,
}
use april_profile_kilo.ProfileDetail.Versions.{old_version_comes_back, versions_complete}
use april_profile_kilo.Editor.{tree}
use april_profile_kilo.ProfileDetail.Loads.{DetailLoad}
use april_profile_kilo.ProfileDetail.Creating.{begin_create, with_name}
use april_profile_kilo.Transport.Promise.{fulfilled, Outcome}
use april_profile_kilo.ProfileDetail.Editing.{
  UpdateCall, begin_update, name_is_taken, submit_update,
}
use april_profile_kilo.Runtime.{Runtime}
use april_profile_kilo.Providers.{Details}
use april_profile_kilo.Display.{
  duplicate_among, extract_name, is_duplicate_name, normalized, trimmed_text,
}
use april_profile_kilo.ProfileDetail.Restoring.{begin_history_save}
use april_profile_kilo.ProfileDetail.Runs.{
  IsOf, LoadEvent, LoadRun, answer_given, entity_changed, load_run,
}
use april_profile_kilo.ProfileDetail.Runs.Selection.{versions_follow_selection}

abbrev pub still_engine : Runtime
still_engine = record { parse = λ t. none; compact = λ v. []; pretty = λ v. []; to_lower = λ t. t }

abbrev pub detail_props : DetailProps
detail_props = record {
  host = record { tenant_id = codes "demo"; telemetry = none };
  observes = false;
  initial_type = none;
}

abbrev pub titled : Text → Value
titled name = object (field (codes "name") (string name) end)

abbrev pub version_one : Details
version_one = record {
  entity_id = codes "e-1";
  entity_type_id = codes "t-1";
  version = 1;
  updated_at = codes "2026-04-24T10:00:00Z";
  document = titled (codes "Ann");
}

abbrev pub version_two : Details
version_two = record version_one { version = 2; document = titled (codes "Anna") }

-- A profile at its second version, with both versions read.
abbrev pub showing : ProfileState
showing = record {
  entity_id = some (codes "e-1");
  list_items = [];
  details_loading = false;
  versions_loading = false;
  details_error = none;
  mutation_error = none;
  selected_document = some version_two.document;
  head_version = some 2;
  viewed_version = some 2;
  versions = (2, version_two) ∷ (1, version_one) ∷ [];
  edit_mode = true;
  edit_draft_mode = tree;
  edit_draft_value = titled (codes "Anne");
  edit_draft_text = [];
  edit_issues = none;
  create_type = some (codes "t-1");
  create_name = codes " Bob ";
  create_draft_mode = tree;
  create_draft_value = object end;
  create_draft_text = [];
  create_issues = none;
  create_opened = true;
  type_options = [];
  version_sheet = false;
  busy_entity = none;
  request_id = 4;
  fired = 3 ∷ [];
  notices = [];
}

abbrev old_detail_load : DetailLoad
old_detail_load = record { id = 3; entity = codes "e-0" }

abbrev elsewhere : ProfileState
elsewhere = record showing { entity_id = some (codes "e-2") }

abbrev anne_update : UpdateCall
anne_update = record {
  entity = codes "e-1";
  input = record { document = titled (codes "Anne"); expected_version = some 2 };
}

update_is_checked_example :
    MaySend still_engine detail_props showing anne_update
    × (some (codes "e-1") ≡ some (codes "e-1"))
unfolding begin_update submit_update name_is_taken extract_name trimmed_text chain prop text_eq trim
    is_duplicate_name duplicate_among normalized
update_is_checked_example = update_is_checked still_engine detail_props showing anne_update refl

abbrev bob_input : CreateInput
bob_input = record { entity_type_id = codes "t-1"; document = titled (codes "Bob") }

begin_create-IsChecked_example :
    IsChecked still_engine detail_props (some (codes "t-1")) (some (codes "Bob")) [] bob_input
unfolding begin_create trim is_duplicate_name duplicate_among normalized with_name put
begin_create-IsChecked_example =
    begin_create-IsChecked still_engine detail_props showing bob_input refl

abbrev second_versions : VersionLoad
second_versions = record { entity = codes "e-1"; head = version_two; signal = some 4; id = 4 }

-- What the server keeps as version `n`.
abbrev numbered_version : ℕ → Details
numbered_version n = record version_one { version = n }

versions_complete_example :
    version_at 1
      (versions_answered detail_props second_versions
        (version_answers (λ n. fulfilled (numbered_version n)) second_versions)
        showing).versions
    ≡ some (numbered_version 1)
versions_complete_example =
    versions_complete detail_props second_versions numbered_version showing 1 refl refl (λ n. refl)
      (ground arith) (ground arith)

old_version_comes_back_example :
    ((select_version still_engine 1 showing).selected_document ≡ some (titled (codes "Ann")))
    × ((begin_update still_engine detail_props (select_version still_engine 1 showing)).1 ≡ none)
    × ((begin_history_save detail_props (select_version still_engine 1 showing)).1
        ≡ some (record {
          entity = codes "e-1";
          input = record { document = titled (codes "Ann"); expected_version = none };
        }))
unfolding version_at
old_version_comes_back_example =
    old_version_comes_back still_engine detail_props showing 1 2 version_one b'e' (codes "-1") refl
      refl refl (ground arith)

-- A provider that has any version of any profile.
abbrev any_profile : ℕ → Text → ℕ → Outcome Details
any_profile t id n = fulfilled (record version_one { entity_id = id; version = n })

-- The second profile is selected, and left for the third while its older version is read; the answers
-- come after that.
abbrev left_late : List LoadEvent
left_late =
    entity_changed (some (codes "e-2"))
    ∷ answer_given 0 0 2 5
    ∷ entity_changed (some (codes "e-3"))
    ∷ answer_given 1 1 2 5
    ∷ answer_given 0 2 1 5
    ∷ []

abbrev nothing_kept : LoadRun
nothing_kept = record { detail = record showing { versions = [] }; pending = [] }

abbrev after_leaving : LoadRun
after_leaving = load_run still_engine detail_props any_profile left_late nothing_kept

third_kept :
    after_leaving.detail.versions
    ≡ (1, record version_one { entity_id = codes "e-3"; version = 1 }) ∷ []
unfolding load_run
third_kept = refl

versions_follow_selection_example :
    All (IsOf after_leaving.detail.entity_id) after_leaving.detail.versions
versions_follow_selection_example =
    versions_follow_selection still_engine detail_props any_profile (λ t id n. refl)
      (record showing { versions = [] }) refl left_late
