-- ===== src/Demo/Contract.antt =====
-- What the demonstration API promises: a state of functions, with no order and no representation,
-- and one step for each route of frontend/src/mocks/handlers.ts but the two lists and the batch
-- upgrade.
use april_profile_kilo.Providers.{
  EntityTypeRow, ProfileRow, RevisionRow, Snapshot, draft, published,
}
use april_profile_kilo.Demo.{
  Reply, build_snapshot, empty, json, named, not_found_reply, preview_value, problem,
  snapshot_from_row, truthy,
}
use april_profile_kilo.Base.{
  List, Option, Text, [], codes, if◌then◌else◌, none, or_else, some, text_eq, ℕ, ◌++◌, ◌+◌, ◌==◌,
  ◌∷◌,
}
use april_profile_kilo.Providers.EntityTypes.{CreateFamilyInput, SaveDraftInput}
use april_profile_kilo.Runtime.{Runtime}
use april_profile_kilo.Value.{Value, chain, end, null, nullish, object, string}
use april_profile_kilo.Demo.Profiles.{version_or_row}
use april_profile_kilo.Providers.Profiles.{CreateInput}
use april_profile_kilo.ProfilesList.{answer}

pub record Model : Type 0 where
  pub family_at : Text → Option EntityTypeRow
  pub revisions_at : Text → List RevisionRow
  pub row_at : Text → Option ProfileRow
  pub snapshot_at : Text → ℕ → Option Snapshot

-- A function, changed at one key.
abbrev pub update {ℓ} : {A : Type ℓ} → Text → A → (Text → A) → Text → A
update k v f j = if text_eq k j then v else f j

-- A history, changed at one version of one profile.
abbrev pub record_version :
    Text → ℕ → Snapshot → (Text → ℕ → Option Snapshot) → Text → ℕ → Option Snapshot
record_version id version snap f = update id (λ v. if version == v then some snap else f id v) f

pub data Request : Type 0 where
  post_family_request : Text → Text → CreateFamilyInput → Request
  patch_family_request : Text → Option Text → Option Text → Request
  delete_family_request get_family_request get_revisions_request : Text → Request
  put_draft_request : Text → SaveDraftInput → Request
  publish_request : Text → Text → Text → Request
  post_entity_request : Text → Text → CreateInput → Request
  put_entity_request : Text → Value → Request
  delete_entity_request upgrade_entity_request get_entity_request : Text → Request
  get_version_request : Text → ℕ → Request

pub data Answer : Type 0 where
  of_family : Reply EntityTypeRow → Answer
  of_revisions : List RevisionRow → Answer
  of_snapshot : Reply Snapshot → Answer

abbrev pub missing_family : Model → Answer × Model
missing_family m = (of_family not_found_reply, m)

abbrev pub missing_profile : Model → Answer × Model
missing_profile m = (of_snapshot not_found_reply, m)

-- The row takes its place.
abbrev pub keep_family : Text → EntityTypeRow → Model → Answer × Model
keep_family id row m =
    (of_family (json 200 row), record m { family_at = update id (some row) m.family_at })

abbrev pub model_patch :
    Text → Option Text → Option Text → Model → Option EntityTypeRow → Answer × Model
model_patch id namespace code m none = missing_family m
model_patch id namespace code m (some row) =
    keep_family id
      (record row { namespace = or_else namespace row.namespace; code = or_else code row.code }) m

abbrev pub model_delete : Text → Model → Option EntityTypeRow → Answer × Model
model_delete id m none = missing_family m
model_delete id m (some row) = (
  of_family (empty 204),
  record m { family_at = update id none m.family_at; revisions_at = update id [] m.revisions_at },
)

-- A draft is accepted at the version that the family has, and moves it on by one.
abbrev pub model_put : Text → SaveDraftInput → Model → Option EntityTypeRow → Answer × Model
model_put id body m none = missing_family m
model_put id body m (some row) =
    if body.if_draft_schema_version == row.draft_schema_version
    then keep_family id
        (record row {
          draft_schema = body.draft_schema;
          draft_schema_version = row.draft_schema_version + 1;
        })
        m
    else (of_family (problem 409 (codes "draft version conflict")), m)

-- The draft becomes the next revision.
abbrev pub model_publish : Text → Text → Text → Model → Option EntityTypeRow → Answer × Model
model_publish id fresh now m none = missing_family m
model_publish id fresh now m (some row) =
    let number = or_else row.published_schema_version 0 + 1 in
    let next : EntityTypeRow = record row {
      status = published;
      published_schema = row.draft_schema;
      published_schema_version = some number;
      published_at = some now;
    } in
    let revision : RevisionRow = record {
      id = fresh;
      family_id = id;
      revision_no = number;
      schema = row.draft_schema;
      published_at = now;
    } in
    (
      of_family (json 200 next),
      record m {
        family_at = update id (some next) m.family_at;
        revisions_at = update id (m.revisions_at id ++ revision ∷ []) m.revisions_at;
      },
    )

module _ (rt : Runtime) where
  -- The profile moves from `row` to `next`, and its history has both.
  abbrev pub model_advance : Text → ProfileRow → ProfileRow → Snapshot → Model → Answer × Model
  model_advance id row next snap m = (
    of_snapshot (json 200 snap),
    record m {
      row_at = update id (some next) m.row_at;
      snapshot_at =
          record_version id next.version snap
            (record_version id row.version (snapshot_from_row rt row) m.snapshot_at);
    },
  )

  abbrev pub shown_name : Text → ProfileRow → Value
  shown_name id row =
      if truthy (preview_value rt row.preview) then preview_value rt row.preview else string id

  abbrev pub model_put_entity : Text → Value → Model → Option ProfileRow → Answer × Model
  model_put_entity id document m none = missing_profile m
  model_put_entity id document m (some row) =
      let name = nullish (chain (codes "name") document) (shown_name id row) in
      model_advance id row
        (record row { version = row.version + 1; preview = rt.compact (named name) })
        (build_snapshot id (row.version + 1) name row.entity_type_id) m

  abbrev pub model_upgrade : Text → Model → Option ProfileRow → Answer × Model
  model_upgrade id m none = missing_profile m
  model_upgrade id m (some row) =
      model_advance id row (record row { version = row.version + 1 })
        (build_snapshot id (row.version + 1) (shown_name id row) row.entity_type_id) m

  abbrev pub model_entity : Option ProfileRow → Reply Snapshot
  model_entity none = not_found_reply
  model_entity (some row) = json 200 (snapshot_from_row rt row)

  unfoldable pub model_serve : Request → Model → Answer × Model
  unfolding build_snapshot preview_value snapshot_from_row
  model_serve (post_family_request fresh now body) m =
      let row : EntityTypeRow = record {
        id = fresh;
        namespace = body.namespace;
        code = body.code;
        status = draft;
        draft_schema = nullish body.draft_schema (object end);
        draft_schema_version = 1;
        published_schema = null;
        published_schema_version = none;
        published_at = none;
        created_at = now;
      } in
      (
        of_family (json 201 row),
        record m {
          family_at = update fresh (some row) m.family_at;
          revisions_at = update fresh [] m.revisions_at;
        },
      )
  model_serve (patch_family_request id namespace code) m =
      model_patch id namespace code m (m.family_at id)
  model_serve (delete_family_request id) m = model_delete id m (m.family_at id)
  model_serve (get_family_request id) m =
      (of_family (elim (m.family_at id) [ none ↦ not_found_reply | some row ↦ json 200 row ]), m)
  model_serve (get_revisions_request id) m = (of_revisions (m.revisions_at id), m)
  model_serve (put_draft_request id body) m = model_put id body m (m.family_at id)
  model_serve (publish_request id fresh now) m = model_publish id fresh now m (m.family_at id)
  model_serve (post_entity_request fresh now body) m =
      let name = chain (codes "name") body.document in
      let row : ProfileRow = record {
        entity_id = fresh;
        entity_type_id = body.entity_type_id;
        version = 1;
        created_at = now;
        preview = rt.compact (named (nullish name (string (codes "Created"))));
      } in
      let snap =
        build_snapshot fresh 1 (nullish name (string (codes "New profile"))) body.entity_type_id in
      (
        of_snapshot (json 201 snap),
        record m {
          row_at = update fresh (some row) m.row_at;
          snapshot_at = record_version fresh 1 snap m.snapshot_at;
        },
      )
  model_serve (put_entity_request id document) m = model_put_entity id document m (m.row_at id)
  model_serve (delete_entity_request id) m = (
    of_snapshot (empty 204),
    record m {
      row_at = update id none m.row_at;
      snapshot_at = update id (λ v. none) m.snapshot_at;
    },
  )
  model_serve (upgrade_entity_request id) m = model_upgrade id m (m.row_at id)
  model_serve (get_entity_request id) m = (of_snapshot (model_entity (m.row_at id)), m)
  model_serve (get_version_request id version) m =
      (of_snapshot (version_or_row rt version (m.row_at id) (m.snapshot_at id version)), m)

  -- The answers to a sequence of requests, and the state after it.
  unfoldable pub model_serve_all : List Request → Model → List Answer × Model
  unfolding model_serve
  model_serve_all [] m = ([], m)
  model_serve_all (r ∷ rs) m =
      let (answer, next) = model_serve r m in
      let (answers, last) = model_serve_all rs next in (answer ∷ answers, last)
