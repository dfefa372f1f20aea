-- ===== src/Demo/Families.antt =====
-- frontend/src/mocks/handlers.ts: the routes of entity types.
use april_profile_kilo.Base.{
  List, Option, Text, [], codes, get, if◌then◌else◌, is_some, map, none, or_else, remove, set, some,
  ◌++◌, ◌+◌, ◌==◌, ◌∷◌,
}
use april_profile_kilo.Providers.{EntityTypeRow, RevisionRow, draft, published}
use april_profile_kilo.Providers.EntityTypes.{CreateFamilyInput, SaveDraftInput}
use april_profile_kilo.Demo.{Reply, Store, all_of, empty, json, not_found_reply, problem}
use april_profile_kilo.Value.{end, null, nullish, object}

-- GET /v1/entity-types
unfoldable pub get_families : Store → List EntityTypeRow
get_families s = map (λ (e : Text × EntityTypeRow). e.1) s.families

-- GET /v1/entity-types/:entityTypeID
unfoldable pub get_one_family : Text → Store → Reply EntityTypeRow
get_one_family id s = elim (get id s.families) [ none ↦ not_found_reply | some row ↦ json 200 row ]

-- POST /v1/entity-types
unfoldable pub post_family : Text → Text → CreateFamilyInput → Store → Reply EntityTypeRow × Store
post_family fresh now body s =
    let row : EntityTypeRow = record {
      id = fresh;
      namespace = body.namespace;
      code = body.code;
      status = draft;
      draft_schema = nullish body.draft_schema (object end);
      draft_schema_version = 1;
      published_schema = null;
      published_schema_version = none;
      published_at = none;
      created_at = now;
    } in
    (
      json 201 row,
      record s { families = set fresh row s.families; revisions = set fresh [] s.revisions },
    )

-- PATCH /v1/entity-types/:entityTypeID, with the two fields of its body.
unfoldable pub patch_row :
    Text → Option Text → Option Text → Store → Option EntityTypeRow → Reply EntityTypeRow × Store
patch_row id namespace code s none = (not_found_reply, s)
patch_row id namespace code s (some row) =
    let next : EntityTypeRow = record row {
      namespace = or_else namespace row.namespace;
      code = or_else code row.code;
    } in
    (json 200 next, record s { families = set id next s.families })

unfoldable pub patch_one_family :
    Text → Option Text → Option Text → Store → Reply EntityTypeRow × Store
unfolding patch_row
patch_one_family id namespace code s = patch_row id namespace code s (get id s.families)

-- DELETE /v1/entity-types/:entityTypeID
unfoldable pub delete_one_family : Text → Store → Reply EntityTypeRow × Store
delete_one_family id s =
    if is_some (get id s.families)
    then (
      empty 204,
      record s { families = remove id s.families; revisions = remove id s.revisions },
    )
    else (not_found_reply, s)

-- PUT /v1/entity-types/:entityTypeID/draft
unfoldable pub put_row :
    Text → SaveDraftInput → Store → Option EntityTypeRow → Reply EntityTypeRow × Store
put_row id body s none = (not_found_reply, s)
put_row id body s (some row) =
    let next : EntityTypeRow = record row {
      draft_schema = body.draft_schema;
      draft_schema_version = row.draft_schema_version + 1;
    } in
    if body.if_draft_schema_version == row.draft_schema_version
    then (json 200 next, record s { families = set id next s.families })
    else (problem 409 (codes "draft version conflict"), s)

unfoldable pub put_draft : Text → SaveDraftInput → Store → Reply EntityTypeRow × Store
unfolding put_row
put_draft id body s = put_row id body s (get id s.families)

-- POST /v1/entity-types/:entityTypeID/publish
unfoldable pub publish_row :
    Text → Text → Text → Store → Option EntityTypeRow → Reply EntityTypeRow × Store
publish_row id fresh now s none = (not_found_reply, s)
publish_row id fresh now s (some row) =
    let next_no = or_else row.published_schema_version 0 + 1 in
    let rev : RevisionRow = record {
      id = fresh;
      family_id = id;
      revision_no = next_no;
      schema = row.draft_schema;
      published_at = now;
    } in
    let next : EntityTypeRow = record row {
      status = published;
      published_schema = row.draft_schema;
      published_schema_version = some next_no;
      published_at = some now;
    } in
    (
      json 200 next,
      record s {
        families = set id next s.families;
        revisions = set id (all_of (get id s.revisions) ++ rev ∷ []) s.revisions;
      },
    )

unfoldable pub publish : Text → Text → Text → Store → Reply EntityTypeRow × Store
unfolding publish_row
publish id fresh now s = publish_row id fresh now s (get id s.families)

-- GET /v1/entity-types/:entityTypeID/revisions
unfoldable pub get_revisions : Text → Store → List RevisionRow
get_revisions id s = all_of (get id s.revisions)
