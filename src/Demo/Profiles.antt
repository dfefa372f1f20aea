-- ===== src/Demo/Profiles.antt =====
-- frontend/src/mocks/handlers.ts: the routes of profiles.
use april_profile_kilo.Demo.{
  Reply, Store, all_of, build_snapshot, empty, get_at, json, named, not_found_reply, preview_value,
  remember, snapshot_from_row, truthy,
}
use april_profile_kilo.Base.{
  Bool, List, Option, Text, [], codes, drop, find, get, if◌then◌else◌, is_nil, keep, length, ltb,
  map, none, not, or_else, remove, some, take, text_eq, true, ℕ, ◌&&◌, ◌+◌, ◌==◌, ◌||◌, ◌∷◌,
  includes,
}
use april_profile_kilo.Value.{Value, chain, nullish, string}
use april_profile_kilo.Providers.{ProfileListResponse, ProfileRow, Snapshot}
use april_profile_kilo.Providers.Profiles.{CreateInput}
use april_profile_kilo.Runtime.{Runtime}
use april_profile_kilo.Providers.Upgrades.{BatchUpgradeResult, BatchUpgradeRow}

pub record PageQuery : Type 0 where
  pub search : Option Text
  pub entity_type_id : Option Text
  pub limit : Option ℕ
  pub cursor : Option Text

abbrev pub page_start : Option Text → ℕ
page_start none = 0
page_start (some c) = if text_eq c (codes "cursor-2") then 2 else 0

module _ (rt : Runtime) where
  -- The test of the filter; `search` is in lower case.
  unfoldable pub is_hit : Text → Text → ProfileRow → Bool
  unfolding includes
  is_hit search type_id item =
      (is_nil search
        || includes (rt.to_lower item.entity_id) search
        || includes (rt.to_lower item.preview) search)
      && (is_nil type_id || text_eq item.entity_type_id type_id)

  abbrev pub filtered : PageQuery → Store → List ProfileRow
  filtered q s =
      keep (is_hit (rt.to_lower (or_else q.search [])) (or_else q.entity_type_id [])) s.list_items

  -- GET /v1/entities
  unfoldable pub get_page : PageQuery → Store → ProfileListResponse
  unfolding is_hit
  get_page q s =
      let found = filtered q s in
      let start = page_start q.cursor in
      let limit = or_else q.limit 20 in
      record {
        items = take limit (drop start found);
        next_cursor = if ltb (start + limit) (length found) then some (codes "cursor-2") else none;
        total_count = length found;
      }

abbrev pub is_row : Text → ProfileRow → Bool
is_row id row = text_eq row.entity_id id

-- DELETE /v1/entities/:entityID
unfoldable pub delete_entity : Text → Store → Reply Snapshot × Store
delete_entity id s = (
  empty 204,
  record s {
    list_items = keep (λ (row : ProfileRow). not (is_row id row)) s.list_items;
    past_snapshots = remove id s.past_snapshots;
  },
)

-- The row that `findIndex` finds, replaced.
unfoldable pub replace_first : Text → ProfileRow → List ProfileRow → List ProfileRow
replace_first id next [] = []
replace_first id next (row ∷ rows) =
    if is_row id row then next ∷ rows else row ∷ replace_first id next rows

module _ (rt : Runtime) where
  -- GET /v1/entities/:entityID
  unfoldable pub get_entity : Text → Store → Reply Snapshot
  get_entity id s = elim (find (is_row id) s.list_items) [
    | none ↦ not_found_reply
    | some row ↦ json 200 (snapshot_from_row rt row)
  ]

  abbrev pub current_if : ℕ → Option ProfileRow → Reply Snapshot
  current_if ver none = not_found_reply
  current_if ver (some row) =
      if row.version == ver then json 200 (snapshot_from_row rt row) else not_found_reply

  abbrev pub version_or_row : ℕ → Option ProfileRow → Option Snapshot → Reply Snapshot
  version_or_row ver row (some snap) = json 200 snap
  version_or_row ver row none = current_if ver row

  -- GET /v1/entities/:entityID/versions/:version
  unfoldable pub get_version : Text → ℕ → Store → Reply Snapshot
  get_version id ver s =
      version_or_row ver (find (is_row id) s.list_items)
        (get_at ver (all_of (get id s.past_snapshots)))

  -- POST /v1/entities
  unfoldable pub post_entity : Text → Text → CreateInput → Store → Reply Snapshot × Store
  unfolding remember build_snapshot
  post_entity fresh now body s =
      let name = chain (codes "name") body.document in
      let row : ProfileRow = record {
        entity_id = fresh;
        entity_type_id = body.entity_type_id;
        version = 1;
        created_at = now;
        preview = rt.compact (named (nullish name (string (codes "Created"))));
      } in
      let snap =
        build_snapshot fresh 1 (nullish name (string (codes "New profile"))) body.entity_type_id in
      (json 201 snap, remember fresh 1 snap (record s { list_items = row ∷ s.list_items }))

  -- What the two handlers do that make a new version: the row before it is remembered, the row is
  -- replaced, and the new snapshot is remembered.
  unfoldable pub advance_row : Text → ProfileRow → ProfileRow → Snapshot → Store → Store
  unfolding remember replace_first
  advance_row id row next snap s =
      let kept = remember id row.version (snapshot_from_row rt row) s in
      remember id next.version snap
        (record kept { list_items = replace_first id next s.list_items })

  unfoldable pub put_found : Text → Value → Store → Option ProfileRow → Reply Snapshot × Store
  put_found id document s none = (not_found_reply, s)
  put_found id document s (some row) =
      let name = nullish (chain (codes "name") document) (
        if truthy (preview_value rt row.preview)
        then preview_value rt row.preview
        else string id) in
      let next : ProfileRow = record row {
        version = row.version + 1;
        preview = rt.compact (named name);
      } in
      let snap = build_snapshot id (row.version + 1) name row.entity_type_id in
      (json 200 snap, advance_row id row next snap s)

  -- PUT /v1/entities/:entityID
  unfoldable pub put_entity : Text → Value → Store → Reply Snapshot × Store
  unfolding put_found
  put_entity id document s = put_found id document s (find (is_row id) s.list_items)

  unfoldable pub upgrade_found : Text → Store → Option ProfileRow → Reply Snapshot × Store
  upgrade_found id s none = (not_found_reply, s)
  upgrade_found id s (some row) =
      let next : ProfileRow = record row { version = row.version + 1 } in
      let name =
        if truthy (preview_value rt row.preview) then preview_value rt row.preview else string id in
      let snap = build_snapshot id (row.version + 1) name row.entity_type_id in
      (json 200 snap, advance_row id row next snap s)

  -- POST /v1/entities/:entityID/upgrade-entity-type-revision; the body is not read.
  unfoldable pub upgrade_entity : Text → Store → Reply Snapshot × Store
  unfolding upgrade_found
  upgrade_entity id s = upgrade_found id s (find (is_row id) s.list_items)

abbrev pub upgraded_row : Text → BatchUpgradeRow
upgraded_row id = record {
  entity_id = id;
  ok = true;
  code = none;
  message = none;
  profile_version = some 2;
}

-- POST /v1/entities/batch-upgrade-entity-type-revision
unfoldable pub batch_upgrade_demo : Option (List Text) → BatchUpgradeResult
batch_upgrade_demo ids = record {
  processed = length (all_of ids);
  succeeded = length (all_of ids);
  failed = 0;
  idempotency_key = none;
  results = map upgraded_row (all_of ids);
}
