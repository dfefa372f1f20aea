-- ===== src/FamilyDetail/Drafts.antt =====
-- components/EntityTypesWidgetDetailCore.tsx: saving, publishing and reloading the draft.
use april_profile_kilo.Value.{Value, object}
use april_profile_kilo.Telemetry.{
  draft_save_failed, draft_save_submitted, draft_save_succeeded, draft_saved, publish_failed,
  publish_submitted, publish_succeeded, revision_published,
}
use april_profile_kilo.Base.{
  Bool, List, Option, Text, [], any, codes, false, if◌then◌else◌, none, or_other, some, suc,
  text_eq, true, ◌∷◌,
}
use april_profile_kilo.FamilyDetail.{
  FamilyProps, FamilyState, about_family, act, apply_detail, given, last_revision, revision_id,
  show_detail_error, show_mutation_error, sort_revisions, tell,
}
use april_profile_kilo.Transport.Promise.{Outcome, fulfilled, rejected}
use april_profile_kilo.Editor.{Parsed, is_source, parse_draft, parsed, refused}
use april_profile_kilo.Providers.EntityTypes.{FamilyDetail, Revision, SaveDraftInput}
use april_profile_kilo.Errors.{
  Issue, ProviderError, Thrown, as_provider_error, conflict, type_message,
}
use april_profile_kilo.Runtime.{Runtime}

-- `reloadRevisionsOnly` up to its `await`.
unfoldable pub begin_revisions : FamilyState → FamilyState
begin_revisions s = record s { revisions_loading = true }

abbrev pub has_revision : Text → List Revision → Bool
has_revision id revs = any (λ (r : Revision). text_eq r.id id) revs

-- The updater of the two selections: a revision that is still there stays selected.
unfoldable pub keep_choice : List Revision → Option Text → Option Text
keep_choice sorted none = revision_id (last_revision sorted)
keep_choice sorted (some []) = revision_id (last_revision sorted)
keep_choice sorted (some (c ∷ id)) =
    if has_revision (c ∷ id) sorted then some (c ∷ id) else revision_id (last_revision sorted)

-- `reloadRevisionsOnly` after its `await`; it does not throw.
unfoldable pub revisions_answered :
    FamilyProps → Outcome (List Revision) → FamilyState → FamilyState
unfolding keep_choice sort_revisions show_detail_error
revisions_answered p (fulfilled revs) s =
    let sorted = sort_revisions revs in
    record s {
      revisions = sorted;
      target_revision = keep_choice sorted s.target_revision;
      selected_revision = keep_choice sorted s.selected_revision;
      revisions_loading = false;
    }
revisions_answered p (rejected e) s = record (show_detail_error p e s) { revisions_loading = false }

pub record SaveCall : Type 0 where
  pub family : Text
  pub input : SaveDraftInput

abbrev pub idle : FamilyState → FamilyState
idle s = record s { busy = none }

-- What `handleSaveDraft` does once it knows what to save.
abbrev pub submit_save :
    FamilyProps → Text → FamilyDetail → Value → FamilyState → FamilyState × Option SaveCall
submit_save p id detail payload s = (
  tell p draft_save_submitted (about_family id) (record s {
    draft_schema = payload;
    mutation_message = none;
    draft_api_issues = none;
    draft_conflict = false;
    busy = some (codes "save-draft");
  }),
  some (record {
    family = id;
    input = record {
      draft_schema = payload;
      if_draft_schema_version = detail.draft_schema_version;
    };
  }),
)

unfoldable pub submit_parsed :
    FamilyProps → Text → FamilyDetail → Parsed → FamilyState → FamilyState × Option SaveCall
submit_parsed p id detail (parsed fs) s = submit_save p id detail (object fs) s
submit_parsed p id detail (refused message) s = (record s { mutation_message = some message }, none)

unfoldable pub save_detail :
    Runtime → FamilyProps → Text → Option FamilyDetail → FamilyState → FamilyState × Option SaveCall
save_detail rt p id none s = (s, none)
save_detail rt p id (some detail) s =
    if is_source s.draft_mode
    then submit_parsed p id detail (parse_draft rt s.draft_source_text) s
    else submit_save p id detail s.draft_schema s

unfoldable pub save_family :
    Runtime → FamilyProps → Option Text → FamilyState → FamilyState × Option SaveCall
save_family rt p none s = (s, none)
save_family rt p (some id) s = save_detail rt p id s.family_detail s

-- `handleSaveDraft` up to its `await`, with the call that it makes.
unfoldable pub begin_save : Runtime → FamilyProps → FamilyState → FamilyState × Option SaveCall
unfolding save_family save_detail submit_parsed parse_draft
begin_save rt p s = save_family rt p (given s.family_id) s

-- `isProfilesProviderError(error) && error.schemaIssues?.length`
abbrev pub some_issues : Option (List Issue) → Option (List Issue)
some_issues (some (i ∷ is)) = some (i ∷ is)
some_issues _ = none

abbrev pub issues_of : Option ProviderError → Option (List Issue)
issues_of none = none
issues_of (some e) = some_issues e.schema_issues

abbrev pub is_conflict : Option ProviderError → Bool
is_conflict none = false
is_conflict (some e) = elim e.code [ conflict ↦ true | _ ↦ false ]

-- The `catch` of `handleSaveDraft`, and its `finally`.
unfoldable pub fail_save : FamilyProps → Text → Thrown → FamilyState → FamilyState
unfolding as_provider_error show_mutation_error
fail_save p id e s =
    let known = as_provider_error e in
    let marked = record s { draft_api_issues = issues_of known } in
    let clashed = record marked {
      draft_conflict = true;
      mutation_message = some (type_message conflict);
    } in
    let shown = show_mutation_error p e marked in
    idle (tell p draft_save_failed (about_family id) (if is_conflict known then clashed else shown))

-- `handleSaveDraft` after the answer, up to the host's reload of the catalogue.
unfoldable pub save_answered :
    Runtime → FamilyProps → Text → Outcome FamilyDetail → FamilyState → FamilyState
unfolding apply_detail begin_revisions fail_save
save_answered rt p id (fulfilled saved) s =
    let applied = begin_revisions (apply_detail rt saved s) in
    let told =
      tell p draft_save_succeeded (about_family id)
        (act (draft_saved id saved.draft_schema_version) applied) in
    record told { catalog_reloads = suc told.catalog_reloads }
save_answered rt p id (rejected e) s = fail_save p id e s

-- `handleSaveDraft` after the catalogue has been loaded again, or could not be.
unfoldable pub save_finished : FamilyProps → Text → Outcome (Unit {0}) → FamilyState → FamilyState
unfolding fail_save
save_finished p id (fulfilled _) s = idle s
save_finished p id (rejected e) s = fail_save p id e s

abbrev pub start_publish : FamilyProps → Text → FamilyState → FamilyState
start_publish p id s =
    tell p publish_submitted (about_family id)
      (record s { mutation_message = none; draft_api_issues = none; busy = some (codes "publish") })

-- `handlePublish` up to its first `await`.
unfoldable pub begin_publish : FamilyProps → FamilyState → FamilyState
begin_publish p s = elim (given s.family_id) [ none ↦ s | some id ↦ start_publish p id s ]

unfoldable pub fail_publish : FamilyProps → Text → Thrown → FamilyState → FamilyState
unfolding as_provider_error show_mutation_error
fail_publish p id e s =
    let issues = or_other (issues_of (as_provider_error e)) s.draft_api_issues in
    idle (
      tell p publish_failed (about_family id)
        (show_mutation_error p e (record s { draft_api_issues = issues })))

-- After the answer, up to the revisions.
unfoldable pub publish_answered :
    Runtime → FamilyProps → Text → Outcome FamilyDetail → FamilyState → FamilyState
unfolding apply_detail begin_revisions fail_publish
publish_answered rt p id (fulfilled saved) s = begin_revisions (apply_detail rt saved s)
publish_answered rt p id (rejected e) s = fail_publish p id e s

-- After the revisions, up to the host's reload of the catalogue.
unfoldable pub publish_listed :
    FamilyProps → Text → Outcome (List Revision) → FamilyState → FamilyState
unfolding revisions_answered
publish_listed p id o s =
    let told =
      tell p publish_succeeded (about_family id)
        (act (revision_published id) (revisions_answered p o s)) in
    record told { catalog_reloads = suc told.catalog_reloads }

-- `handleReloadDraftFromServer`: up to its `await`, after the answer, and after the revisions.
unfoldable pub begin_draft_reload : FamilyState → FamilyState
begin_draft_reload s = elim (given s.family_id) [
  | none ↦ s
  | some id ↦ record s { busy = some (codes "reload") }
]

unfoldable pub draft_reload_answered :
    Runtime → FamilyProps → Outcome FamilyDetail → FamilyState → FamilyState
unfolding apply_detail begin_revisions show_mutation_error
draft_reload_answered rt p (fulfilled detail) s = begin_revisions (apply_detail rt detail s)
draft_reload_answered rt p (rejected e) s = idle (show_mutation_error p e s)

unfoldable pub draft_reload_listed :
    FamilyProps → Outcome (List Revision) → FamilyState → FamilyState
unfolding revisions_answered
draft_reload_listed p o s = idle (revisions_answered p o s)
