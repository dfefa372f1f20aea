-- ===== src/Demo/Refinement/Profiles.antt =====
-- The routes of profiles in frontend/src/mocks/handlers.ts against their contract.
use mathlib.Core.Path.{◌≡◌, refl, ap, fun_ext}
use mathlib.Core.Logic.{inl, inr}
use native.Mathlib.Omega.{arith}
use april_profile_kilo.Base.{
  Bool-cases, List, Text, [], find, get, if◌then◌else◌, keep, none, not, some, text_eq, text_eq_iff,
  true, ℕ, ◌∷◌, Dict, Option, codes, remove, ◌∙◌,
}
use april_profile_kilo.Providers.{ProfileRow, Snapshot}
use april_profile_kilo.Demo.Refinement.{
  all_of-set, view, all_of-remove, seen, snapshot_answer, view_path,
}
use april_profile_kilo.Demo.{
  Store, all_of, get_at, remember, set_at, build_snapshot, empty, json, named, snapshot_from_row,
}
use april_profile_kilo.Demo.Profiles.{
  is_row, replace_first, advance_row, delete_entity, post_entity, put_found, upgrade_found,
}
use april_profile_kilo.Demo.History.{get_at-set_at, find-is_row}
use april_profile_kilo.Demo.Contract.{
  record_version, Model, delete_entity_request, model_advance, model_put_entity, model_serve,
  model_upgrade, of_snapshot, post_entity_request, update,
}
use april_profile_kilo.Value.{Value, chain, nullish, string}
use april_profile_kilo.Runtime.{Runtime}
use april_profile_kilo.Providers.Profiles.{CreateInput}

find-replace_first_any :
    (id j : Text) (row next : ProfileRow) (rows : List ProfileRow)
    → find (is_row id) rows ≡ some row
    → is_row id next ≡ true
    → find (is_row j) (replace_first id next rows)
      ≡ (if text_eq id j then some next else find (is_row j) rows)
unfolding replace_first
find-replace_first_any id j row next [] found same = ground arith
find-replace_first_any id j row next (r ∷ rows) found same = elim (Bool-cases (is_row id r)) [
  | inl here ↦ ground (
    arith,
    text_eq_iff r.entity_id id,
    text_eq_iff next.entity_id id,
    text_eq_iff id j,
    text_eq_iff next.entity_id j,
    text_eq_iff r.entity_id j,
  )
  | inr there ↦ ground (
    arith,
    text_eq_iff r.entity_id id,
    text_eq_iff id j,
    text_eq_iff r.entity_id j,
    find-replace_first_any id j row next rows,
  )
]

find-keep_others :
    (id j : Text) (rows : List ProfileRow)
    → find (is_row j) (keep (λ (row : ProfileRow). not (is_row id row)) rows)
      ≡ (if text_eq id j then none else find (is_row j) rows)
find-keep_others id j [] = ground arith
find-keep_others id j (r ∷ rows) = ground (
  arith,
  text_eq_iff r.entity_id id,
  text_eq_iff id j,
  text_eq_iff r.entity_id j,
  find-keep_others id j rows,
)

-- A remembered snapshot, as the view reads it.
recall_any :
    (id : Text) (k : ℕ) (snap : Snapshot) (s : Store) (j : Text) (v : ℕ)
    → get_at v (all_of (get j (remember id k snap s).past_snapshots))
      ≡ record_version id k snap (view s).snapshot_at j v
unfolding remember view
recall_any id k snap s j v = elim (Bool-cases (text_eq id j)) [
  | inl same ↦
      rw (all_of-set id j (set_at k snap (all_of (get id s.past_snapshots))) s.past_snapshots, same)
        (get_at-set_at k v snap (all_of (get id s.past_snapshots)))
  | inr apart ↦
      rw
        (all_of-set id j (set_at k snap (all_of (get id s.past_snapshots))) s.past_snapshots, apart)
        refl
]

removed_history :
    (id j : Text) (v : ℕ) (m : Dict (List (ℕ × Snapshot)))
    → get_at v (all_of (get j (remove id m)))
      ≡ update {A = ℕ → Option Snapshot} id (λ w. none) (λ k w. get_at w (all_of (get k m))) j v
unfolding get_at
removed_history id j v m = elim (Bool-cases (text_eq id j)) [
  | inl same ↦ rw (all_of-remove id j m, same) refl
  | inr apart ↦ rw (all_of-remove id j m, apart) refl
]

module _ (rt : Runtime) where
  -- Both snapshots of an advance, as the view reads them.
  advance_recalled :
      (id : Text) (row next : ProfileRow) (snap : Snapshot) (s : Store) (j : Text) (v : ℕ)
      → get_at v (all_of (get j (advance_row rt id row next snap s).past_snapshots))
        ≡ record_version id next.version snap
            (record_version id row.version (snapshot_from_row rt row) (view s).snapshot_at)
            j
            v
  unfolding advance_row
  advance_recalled id row next snap s j v =
      let kept = remember id row.version (snapshot_from_row rt row) s in
      let moved : Store = record kept { list_items = replace_first id next s.list_items } in
      let first_read : (k : Text) (w : ℕ)
          → (view moved).snapshot_at k w
            ≡ record_version id row.version (snapshot_from_row rt row) (view s).snapshot_at k w =
        λ k w. unfold view in recall_any id row.version (snapshot_from_row rt row) s k w in
      let all_read = fun_ext (λ k. fun_ext (first_read k)) in
      recall_any id next.version snap moved j v
      ∙ ap (λ (f : Text → ℕ → Option Snapshot). record_version id next.version snap f j v) all_read

  advance_refines :
      (id : Text) (row next : ProfileRow) (snap : Snapshot) (s : Store)
      → find (is_row id) s.list_items ≡ some row
      → is_row id next ≡ true
      → seen (snapshot_answer (json 200 snap, advance_row rt id row next snap s))
        ≡ model_advance rt id row next snap (view s)
  unfolding advance_row
  advance_refines id row next snap s found same =
      let old = snapshot_from_row rt row in
      let kept = remember id row.version old s in
      let moved : Store = record kept { list_items = replace_first id next s.list_items } in
      ap (λ (m : Model). (of_snapshot (json 200 snap), m))
        (view_path (advance_row rt id row next snap s)
          (model_advance rt id row next snap (view s)).1 (λ j. unfold remember view in refl)
          (λ j. unfold remember view in refl)
          (λ j.
            unfold remember view in find-replace_first_any id j row next s.list_items found same)
          (λ j v. advance_recalled id row next snap s j v))

  pub put_entity_refines :
      (id : Text) (document : Value) (s : Store) (o : Option ProfileRow)
      → find (is_row id) s.list_items ≡ o
      → seen (snapshot_answer (put_found rt id document s o))
        ≡ model_put_entity rt id document (view s) o
  unfolding put_found
  put_entity_refines id document s none found = refl
  put_entity_refines id document s (some row) found =
      advance_refines id row _ _ s found (find-is_row rt id row s.list_items found)

  pub upgrade_refines :
      (id : Text) (s : Store) (o : Option ProfileRow)
      → find (is_row id) s.list_items ≡ o
      → seen (snapshot_answer (upgrade_found rt id s o)) ≡ model_upgrade rt id (view s) o
  unfolding upgrade_found
  upgrade_refines id s none found = refl
  upgrade_refines id s (some row) found =
      advance_refines id row _ _ s found (find-is_row rt id row s.list_items found)

  pub post_entity_refines :
      (fresh now : Text) (body : CreateInput) (s : Store)
      → seen (snapshot_answer (post_entity rt fresh now body s))
        ≡ model_serve rt (post_entity_request fresh now body) (view s)
  unfolding post_entity model_serve
  post_entity_refines fresh now body s =
      let name = chain (codes "name") body.document in
      let row : ProfileRow = record {
        entity_id = fresh;
        entity_type_id = body.entity_type_id;
        version = 1;
        created_at = now;
        preview = rt.compact (named (nullish name (string (codes "Created"))));
      } in
      let snap =
        build_snapshot fresh 1 (nullish name (string (codes "New profile"))) body.entity_type_id in
      let listed : Store = record s { list_items = row ∷ s.list_items } in
      ap (λ (m : Model). (of_snapshot (json 201 snap), m))
        (view_path (remember fresh 1 snap listed)
          (record (view s) {
            row_at = update fresh (some row) (view s).row_at;
            snapshot_at = record_version fresh 1 snap (view s).snapshot_at;
          })
          (λ j. unfold remember view in refl) (λ j. unfold remember view in refl)
          (λ j. unfold remember view in refl)
          (λ j v. recall_any fresh 1 snap listed j v ∙ (unfold view in refl)))

  pub delete_entity_refines :
      (id : Text) (s : Store)
      → seen (snapshot_answer (delete_entity id s))
        ≡ model_serve rt (delete_entity_request id) (view s)
  unfolding delete_entity model_serve view
  delete_entity_refines id s =
      ap (λ (m : Model). (of_snapshot (empty 204), m))
        (view_path (delete_entity id s).1
          (record (view s) {
            row_at = update id none (view s).row_at;
            snapshot_at = update id (λ v. none) (view s).snapshot_at;
          })
          (λ j. refl) (λ j. refl) (λ j. find-keep_others id j s.list_items)
          (λ j v. removed_history id j v s.past_snapshots))
