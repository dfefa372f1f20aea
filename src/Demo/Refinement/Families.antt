-- ===== src/Demo/Refinement/Families.antt =====
-- The routes of entity types in frontend/src/mocks/handlers.ts against their contract.
use mathlib.Core.Path.{◌≡◌, refl, ap}
use mathlib.Core.Logic.{inl, inr}
use april_profile_kilo.Base.{
  Bool-cases, Option, Text, [], get, get-remove, get-set, none, or_else, remove, set, some, ◌++◌,
  ◌+◌, ◌==◌, ◌∷◌,
}
use april_profile_kilo.Demo.Contract.{
  Model, keep_family, model_delete, model_patch, model_publish, model_put, model_serve, of_family,
  post_family_request, update,
}
use april_profile_kilo.Demo.Refinement.{
  all_of-remove, all_of-set, family_answer, seen, view, view_path,
}
use april_profile_kilo.Demo.Families.{
  delete_one_family, patch_row, post_family, publish_row, put_row,
}
use april_profile_kilo.Value.{end, null, nullish, object}
use april_profile_kilo.Runtime.{Runtime}
use april_profile_kilo.Demo.{Store, all_of, empty, json}
use april_profile_kilo.Providers.{EntityTypeRow, RevisionRow, draft, published}
use april_profile_kilo.Providers.EntityTypes.{CreateFamilyInput, SaveDraftInput}

kept_family :
    (id : Text) (row : EntityTypeRow) (s : Store)
    → view (record s { families = set id row s.families })
      ≡ record (view s) { family_at = update id (some row) (view s).family_at }
unfolding view
kept_family id row s =
    view_path (record s { families = set id row s.families })
      (record (view s) { family_at = update id (some row) (view s).family_at })
      (λ j. get-set id j row s.families) (λ j. refl) (λ j. refl) (λ j v. refl)

kept_seen :
    (id : Text) (row : EntityTypeRow) (s : Store)
    → seen (of_family (json 200 row), record s { families = set id row s.families })
      ≡ keep_family id row (view s)
kept_seen id row s = ap (λ (m : Model). (of_family (json 200 row), m)) (kept_family id row s)

pub patch_refines :
    (id : Text) (namespace code : Option Text) (s : Store) (o : Option EntityTypeRow)
    → seen (family_answer (patch_row id namespace code s o))
      ≡ model_patch id namespace code (view s) o
unfolding patch_row
patch_refines id namespace code s none = refl
patch_refines id namespace code s (some row) = kept_seen id _ s

pub delete_refines :
    (id : Text) (s : Store) (o : Option EntityTypeRow)
    → get id s.families ≡ o
    → seen (family_answer (delete_one_family id s)) ≡ model_delete id (view s) o
unfolding delete_one_family view
delete_refines id s none e = rw e refl
delete_refines id s (some row) e = rw e (λ i. (
  of_family (empty 204),
  view_path (record s { families = remove id s.families; revisions = remove id s.revisions })
      (record (view s) {
        family_at = update id none (view s).family_at;
        revisions_at = update id [] (view s).revisions_at;
      })
      (λ j. get-remove id j s.families) (λ j. all_of-remove id j s.revisions) (λ j. refl)
      (λ j v. refl) i,
))

pub put_refines :
    (id : Text) (body : SaveDraftInput) (s : Store) (o : Option EntityTypeRow)
    → seen (family_answer (put_row id body s o)) ≡ model_put id body (view s) o
unfolding put_row
put_refines id body s none = refl
put_refines id body s (some row) =
    elim (Bool-cases (body.if_draft_schema_version == row.draft_schema_version)) [
      | inl fits ↦ rw fits (kept_seen id _ s)
      | inr stale ↦ rw stale refl
    ]

pub publish_refines :
    (id fresh now : Text) (s : Store) (o : Option EntityTypeRow)
    → seen (family_answer (publish_row id fresh now s o)) ≡ model_publish id fresh now (view s) o
unfolding publish_row view
publish_refines id fresh now s none = refl
publish_refines id fresh now s (some row) =
    let number = or_else row.published_schema_version 0 + 1 in
    let next : EntityTypeRow = record row {
      status = published;
      published_schema = row.draft_schema;
      published_schema_version = some number;
      published_at = some now;
    } in
    let revision : RevisionRow = record {
      id = fresh;
      family_id = id;
      revision_no = number;
      schema = row.draft_schema;
      published_at = now;
    } in
    let revisions = all_of (get id s.revisions) ++ revision ∷ [] in
    ap (λ (m : Model). (of_family (json 200 next), m))
      (view_path
        (record s { families = set id next s.families; revisions = set id revisions s.revisions })
        (record (view s) {
          family_at = update id (some next) (view s).family_at;
          revisions_at = update id revisions (view s).revisions_at;
        })
        (λ j. get-set id j next s.families) (λ j. all_of-set id j revisions s.revisions) (λ j. refl)
        (λ j v. refl))

pub post_refines :
    (rt : Runtime) (fresh now : Text) (body : CreateFamilyInput) (s : Store)
    → seen (family_answer (post_family fresh now body s))
      ≡ model_serve rt (post_family_request fresh now body) (view s)
unfolding post_family model_serve view
post_refines rt fresh now body s =
    let row : EntityTypeRow = record {
      id = fresh;
      namespace = body.namespace;
      code = body.code;
      status = draft;
      draft_schema = nullish body.draft_schema (object end);
      draft_schema_version = 1;
      published_schema = null;
      published_schema_version = none;
      published_at = none;
      created_at = now;
    } in
    ap (λ (m : Model). (of_family (json 201 row), m))
      (view_path
        (record s { families = set fresh row s.families; revisions = set fresh [] s.revisions })
        (record (view s) {
          family_at = update fresh (some row) (view s).family_at;
          revisions_at = update fresh [] (view s).revisions_at;
        })
        (λ j. get-set fresh j row s.families) (λ j. all_of-set fresh j [] s.revisions) (λ j. refl)
        (λ j v. refl))
