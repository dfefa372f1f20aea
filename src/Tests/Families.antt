-- ===== src/Tests/Families.antt =====
-- The entity type widget on concrete inputs.
use mathlib.Core.Path.{◌≡◌, refl}
use april_profile_kilo.FamilyDetail.Races.{SaveError, lost_update_refused}
use april_profile_kilo.Value.{end, field, null, object, string, undefined}
use april_profile_kilo.Providers.{EntityTypeRow, draft}
use april_profile_kilo.Base.{
  [], codes, false, get, none, some, text_eq, true, ◌∷◌, List, any, ℕ, ◌++◌, ◌==◌,
}
use april_profile_kilo.Errors.{
  ProviderError, abort_error, conflict, map_api_error, provider_error, type_error,
}
use april_profile_kilo.FamilyDetail.{
  FamilyProps, FamilyState, draft_tab, family_answered, newest_load, about_family, given, report_of,
}
use april_profile_kilo.Editor.{tree}
use april_profile_kilo.Demo.Families.{put_draft, put_row}
use april_profile_kilo.Providers.EntityTypes.{FamilyDetail, Revision, SaveDraftInput}
use april_profile_kilo.Runtime.{Runtime}
use april_profile_kilo.FamilyDetail.Drafts.{begin_save, save_answered}
use april_profile_kilo.Demo.{Store, problem}
use april_profile_kilo.FamilyDetail.Upgrades.{change_family}
use april_profile_kilo.Transport.Promise.{fulfilled, rejected}
use april_profile_kilo.FamilyDetail.Late.{deselection_reports_error}
use april_profile_kilo.FamiliesList.Progress.{families_end_loading}
use april_profile_kilo.FamiliesList.{
  FamilyEvent, answer_families, begin_families, catalog_reloaded, families_answered, families_in,
  family_run, family_step, first_families,
}
use april_profile_kilo.Telemetry.{details_failed, emit, entity_types, failed}
use april_profile_kilo.FamilyDetail.Screen.{choose_alert, detail_pieces}

abbrev pub blank_engine : Runtime
blank_engine = record { parse = λ t. none; compact = λ v. []; pretty = λ v. []; to_lower = λ t. t }

abbrev pub host_props : FamilyProps
host_props = record {
  host = record { tenant_id = codes "demo"; telemetry = none };
  page_size = 20;
  observes = false;
}

abbrev lead : EntityTypeRow
lead = record {
  id = codes "t-1";
  namespace = codes "crm";
  code = codes "lead";
  status = draft;
  draft_schema = object end;
  draft_schema_version = 3;
  published_schema = null;
  published_schema_version = none;
  published_at = none;
  created_at = codes "2026-04-24T10:00:00Z";
}

abbrev lead_store : Store
lead_store = record {
  families = (codes "t-1", lead) ∷ [];
  revisions = [];
  list_items = [];
  past_snapshots = [];
}

abbrev pub lead_detail : FamilyDetail
lead_detail = record {
  summary = record {
    id = codes "t-1";
    namespace = codes "crm";
    code = codes "lead";
    status = draft;
    draft_schema_version = 3;
    published_schema_version = none;
  };
  draft_schema = object end;
  published_schema = null;
  created_at = codes "2026-04-24T10:00:00Z";
  published_at = none;
}

-- An editor that has loaded the family and changed its draft.
abbrev pub editing : FamilyState
editing = record {
  family_id = some (codes "t-1");
  detail_loading = false;
  detail_error = none;
  family_detail = some lead_detail;
  draft_schema = object (field (codes "type") (string (codes "object")) end);
  draft_mode = tree;
  draft_source_text = codes "{}";
  draft_conflict = false;
  mutation_message = none;
  draft_api_issues = none;
  revisions = [];
  revisions_loading = false;
  selected_revision = none;
  target_revision = none;
  active_tab = draft_tab;
  upgrade_entities = [];
  upgrade_next_cursor = none;
  upgrade_loading = false;
  upgrade_loading_more = false;
  upgrade_error = none;
  selected_entity_ids = codes "e-1" ∷ [];
  busy = none;
  patch_opened = false;
  patch_namespace = [];
  patch_code = [];
  delete_opened = false;
  request_id = 2;
  aborted_loads = [];
  outputs = [];
  catalog_reloads = 0;
}

abbrev our_save : SaveDraftInput
our_save = record { draft_schema = object end; if_draft_schema_version = 3 }

lost_update_refused_example :
    (sent : SaveDraftInput) × (e : ProviderError) × ((begin_save blank_engine host_props editing).1
      ≡ some (record { family = codes "t-1"; input = sent }))
    × (put_draft (codes "t-1") sent (put_draft (codes "t-1") our_save lead_store).1 ≡ (
      problem 409 (codes "draft version conflict"),
      (put_draft (codes "t-1") our_save lead_store).1,
    ))
    × SaveError (λ v. []) (codes "t-1") sent 409 (codes "draft version conflict") e
    × ((save_answered blank_engine host_props
          (codes "t-1")
          (rejected (provider_error e))
          (begin_save blank_engine host_props editing).0).draft_conflict
        ≡ true)
    × ((save_answered blank_engine host_props
          (codes "t-1")
          (rejected (provider_error e))
          (begin_save blank_engine host_props editing).0).draft_schema
        ≡ object (field (codes "type") (string (codes "object")) end))
unfolding put_draft put_row get text_eq
lost_update_refused_example =
    lost_update_refused blank_engine host_props editing b't' (codes "-1") lead_detail our_save
      lead_store (record lead { draft_schema_version = 4 }) refl refl refl refl refl

abbrev clash : ProviderError
clash = record {
  code = conflict;
  message = string (codes "draft version conflict");
  request_id = undefined;
  status = some 409;
  retryable = some false;
  schema_issues = none;
}

-- The family is deselected while it loads, and its call ends with the abort.
abbrev deselected : FamilyState
deselected = change_family host_props none editing

abbrev after_abort : FamilyState
after_abort =
    family_answered blank_engine host_props (newest_load (codes "t-1") editing)
      (rejected (provider_error (map_api_error abort_error))) deselected

deselection_reports_error_example :
    (any (λ (k : ℕ). k == 2) deselected.aborted_loads ≡ true)
    × (after_abort.outputs
        ≡ deselected.outputs
          ++ failed (report_of host_props (provider_error (map_api_error abort_error))) ∷ []
          ++ emit host_props.observes host_props.host entity_types details_failed
              (about_family (codes "t-1")))
    × (after_abort.detail_error ≡ some (codes "Operation failed. Please try again."))
    × (detail_pieces blank_engine after_abort (given after_abort.family_id) ≡ choose_alert ∷ [])
deselection_reports_error_example =
    deselection_reports_error blank_engine host_props editing b't' 1 (codes "-1") refl refl

abbrev first_revision : Revision
first_revision = record {
  id = codes "r-1";
  family_id = codes "t-1";
  revision_no = 1;
  schema = object end;
  published_at = codes "2026-04-24T10:00:00Z";
}

abbrev third_revision : Revision
third_revision = record first_revision { id = codes "r-3"; revision_no = 3 }

-- Two loads of the list overlap, and the older one is answered last.
abbrev overlapping : List FamilyEvent
overlapping =
    catalog_reloaded ∷ families_in 5 2 (fulfilled []) ∷ families_in 9 1 (rejected type_error) ∷ []

families_end_loading_example :
    (family_run blank_engine host_props overlapping
      (begin_families host_props first_families)).list_loading
    ≡ false
unfolding family_run family_step begin_families answer_families families_answered
families_end_loading_example = families_end_loading blank_engine host_props overlapping refl
