-- ===== src/Demo.antt =====
-- frontend/src/mocks/handlers.ts, `createDemoApiHandlers`: the API server of the demonstration, as a
-- store and one function for each route. Fresh ids and times are arguments.
pub mod Families
pub mod Profiles
pub mod Revisions
pub mod Drafts
pub mod History
pub mod Contract
pub mod Refinement
pub mod Pages
pub mod Seeds
use april_profile_kilo.Base.{
  Bool, Dict, List, Option, Text, [], codes, false, get, if◌then◌else◌, none, set, some, suc, true,
  zero, ℕ, ◌==◌, ◌∷◌,
}
use april_profile_kilo.Value.{
  Value, boolean, chain, end, field, null, nullish, number, object, string, undefined,
}
use april_profile_kilo.Providers.{EntityTypeRow, ProfileRow, RevisionRow, Snapshot}
use april_profile_kilo.Runtime.{Runtime}

-- A snapshot with its `external_refs`, which are always empty, left out.
pub record Store : Type 0 where
  pub families : Dict EntityTypeRow
  pub revisions : Dict (List RevisionRow)
  pub list_items : List ProfileRow
  pub past_snapshots : Dict (List (ℕ × Snapshot))

-- `HttpResponse.json(value, { status })`, the same with a message, and a response with no body.
pub data Reply (T : Type 0) : Type 0 where
  json : ℕ → T → Reply T
  problem : ℕ → Text → Reply T
  empty : ℕ → Reply T

abbrev pub not_found_reply : {T : Type 0} → Reply T
not_found_reply = problem 404 (codes "not found")

-- A `Map` with number keys.
unfoldable pub get_at : ℕ → List (ℕ × Snapshot) → Option Snapshot
get_at k [] = none
get_at k ((j, v) ∷ m) = if j == k then some v else get_at k m

unfoldable pub set_at : ℕ → Snapshot → List (ℕ × Snapshot) → List (ℕ × Snapshot)
set_at k v [] = (k, v) ∷ []
set_at k v ((j, w) ∷ m) = if j == k then (j, v) ∷ m else (j, w) ∷ set_at k v m

-- `revisions.get(id) ?? []`, and the inner map that the handlers create where it is missing.
abbrev pub all_of {ℓ} : {A : Type ℓ} → Option (List A) → List A
all_of none = []
all_of (some xs) = xs

-- A value that `||` passes on.
abbrev pub truthy : Value → Bool
truthy undefined = false
truthy null = false
truthy (boolean b) = b
truthy (number zero) = false
truthy (number (suc n)) = true
truthy (string []) = false
truthy (string (c ∷ s)) = true
truthy v = true

abbrev pub named : Value → Value
named name = object (field (codes "name") name end)

-- `buildSnapshot`
unfoldable pub build_snapshot : Text → ℕ → Value → Text → Snapshot
build_snapshot entity_id version name type_id = record {
  entity_id = entity_id;
  entity_type_id = type_id;
  version = version;
  document = named name;
  created_at = codes "2026-04-24T10:00:00Z";
}

module _ (rt : Runtime) where
  -- `previewName`: a preview that is no JSON, or null, has the empty name.
  unfoldable pub preview_value : Text → Value
  preview_value preview = elim (rt.parse preview) [
    | none ↦ string []
    | some v ↦ nullish (chain (codes "name") v) (string [])
  ]

  abbrev pub name_or_id : ProfileRow → Value
  name_or_id row =
      if truthy (preview_value row.preview) then preview_value row.preview else string row.entity_id

  -- `snapshotFromListRow`
  unfoldable pub snapshot_from_row : ProfileRow → Snapshot
  unfolding build_snapshot preview_value
  snapshot_from_row row =
      build_snapshot row.entity_id row.version (name_or_id row) row.entity_type_id

-- `pastSnapshots.get(id)!.set(version, snap)` after the map of the id has been made sure of.
unfoldable pub remember : Text → ℕ → Snapshot → Store → Store
remember id version snap s = record s {
  past_snapshots = set id (set_at version snap (all_of (get id s.past_snapshots))) s.past_snapshots;
}

-- `seedVersionHistory`
unfoldable pub seed_history : Runtime → List ProfileRow → Store → Store
unfolding remember
seed_history rt [] s = s
seed_history rt (row ∷ rows) s =
    seed_history rt rows (remember row.entity_id row.version (snapshot_from_row rt row) s)
