-- ===== src/Demo/History.antt =====
-- frontend/src/mocks/handlers.ts: the versions of a profile that the demonstration serves.
use mathlib.Core.Path.{◌≡◌, refl, sym}
use mathlib.Core.Logic.{inl, inr}
use native.Mathlib.Omega.{arith}
use april_profile_kilo.Demo.Profiles.{
  advance_row, get_version, is_row, put_entity, put_found, upgrade_entity, upgrade_found,
  replace_first, version_or_row,
}
use april_profile_kilo.Demo.{Store, all_of, get_at, json, remember, set_at, snapshot_from_row}
use april_profile_kilo.Base.{
  List, Text, [], find, get, get-set, if◌then◌else◌, some, text_eq_refl, ℕ, ◌+◌, ◌==◌, ◌∷◌,
  Bool-cases, true, Option, false, none,
}
use april_profile_kilo.Providers.{ProfileRow, Snapshot}
use april_profile_kilo.Runtime.{Runtime}
use april_profile_kilo.Value.{Value}

pub get_at-set_at :
    (k j : ℕ) (v : Snapshot) (m : List (ℕ × Snapshot))
    → get_at j (set_at k v m) ≡ (if k == j then some v else get_at j m)
unfolding get_at set_at
get_at-set_at k j v [] = refl
get_at-set_at k j v ((i, w) ∷ m) = ground (arith, get_at-set_at k j v m)

-- The version map of one profile after a snapshot has been remembered.
recall :
    (id : Text) (k j : ℕ) (v : Snapshot) (s : Store)
    → get_at j (all_of (get id (remember id k v s).past_snapshots))
      ≡ (if k == j then some v else get_at j (all_of (get id s.past_snapshots)))
unfolding remember
recall id k j v s =
    rw
      (
        get-set id id (set_at k v (all_of (get id s.past_snapshots))) s.past_snapshots,
        text_eq_refl id,
      )
      (get_at-set_at k j v (all_of (get id s.past_snapshots)))

module _ (rt : Runtime) where
  -- The version map after the row of a profile has moved on.
  recall_advanced :
      (id : Text) (row next : ProfileRow) (snap : Snapshot) (s : Store) (j : ℕ)
      → get_at j (all_of (get id (advance_row rt id row next snap s).past_snapshots)) ≡ (
          if next.version == j
          then some snap
          else if row.version == j
          then some (snapshot_from_row rt row)
          else get_at j (all_of (get id s.past_snapshots)))
  unfolding advance_row remember
  recall_advanced id row next snap s j =
      let kept = remember id row.version (snapshot_from_row rt row) s in
      let moved : Store = record kept { list_items = replace_first id next s.list_items } in
      let later = recall id next.version j snap moved in
      let earlier = recall id row.version j (snapshot_from_row rt row) s in rw (later, earlier) refl

  find-replace_first :
      (id : Text) (row next : ProfileRow) (rows : List ProfileRow)
      → find (is_row id) rows ≡ some row
      → is_row id next ≡ true
      → find (is_row id) (replace_first id next rows) ≡ some next
  unfolding replace_first
  find-replace_first id row next [] found same = ground arith
  find-replace_first id row next (r ∷ rows) found same = elim (Bool-cases (is_row id r)) [
    | inl here ↦ rw (here, same) refl
    | inr there ↦ rw (there, there) (find-replace_first id row next rows (ground arith) same)
  ]

  listed_advanced :
      (id : Text) (row next : ProfileRow) (snap : Snapshot) (s : Store)
      → find (is_row id) s.list_items ≡ some row
      → is_row id next ≡ true
      → find (is_row id) (advance_row rt id row next snap s).list_items ≡ some next
  unfolding advance_row remember
  listed_advanced id row next snap s found same =
      find-replace_first id row next s.list_items found same

  unserved :
      (row next : ProfileRow) (v : ℕ) (o : Option Snapshot)
      → (next.version == v) ≡ false
      → (row.version == v) ≡ false
      → version_or_row rt v (some next) o ≡ version_or_row rt v (some row) o
  unserved row next v none new old = rw (new, old) refl
  unserved row next v (some snap) new old = refl

  reply_advanced :
      (row next : ProfileRow) (snap : Snapshot) (v : ℕ) (o : Option Snapshot)
      → next.version ≡ row.version + 1
      → version_or_row rt v (some next) (
          if next.version == v
          then some snap
          else if row.version == v
          then some (snapshot_from_row rt row)
          else o)
        ≡ (if next.version == v
            then json 200 snap
            else if row.version == v
            then json 200 (snapshot_from_row rt row)
            else version_or_row rt v (some row) o)
  reply_advanced row next snap v o up = elim (Bool-cases (next.version == v)) [
    | inl new ↦ rw new refl
    | inr apart ↦ elim (Bool-cases (row.version == v)) [
      | inl old ↦ rw (apart, old) refl
      | inr neither ↦ rw (apart, neither) (unserved row next v o apart neither)
    ]
  ]

  -- The routes of versions after a row has moved on.
  get_version-advance_row :
      (id : Text) (row next : ProfileRow) (snap : Snapshot) (s : Store) (v : ℕ)
      → find (is_row id) s.list_items ≡ some row
      → is_row id next ≡ true
      → next.version ≡ row.version + 1
      → get_version rt id v (advance_row rt id row next snap s) ≡ (
          if next.version == v
          then json 200 snap
          else if row.version == v
          then json 200 (snapshot_from_row rt row)
          else get_version rt id v s)
  unfolding get_version
  get_version-advance_row id row next snap s v found same up =
      rw
        (
          get_version,
          recall_advanced id row next snap s v,
          listed_advanced id row next snap s found same,
          found,
        )
        (reply_advanced row next snap v (get_at v (all_of (get id s.past_snapshots))) up)

  pub find-is_row :
      (id : Text) (row : ProfileRow) (rows : List ProfileRow)
      → find (is_row id) rows ≡ some row
      → is_row id row ≡ true
  find-is_row id row [] found = ground arith
  find-is_row id row (r ∷ rows) found = elim (Bool-cases (is_row id r)) [
    | inl here ↦ let same : r ≡ row = ground arith in rw (sym same) here
    | inr there ↦ find-is_row id row rows (ground arith)
  ]

  -- For every listed profile and every version number, the route of versions answers, after an
  -- update of the profile, the update's own answer for the next version, the profile as it was
  -- listed for the version it had, and what it answered before for any other.
  pub put_entity_history :
      (id : Text) (document : Value) (s : Store) (row : ProfileRow) (v : ℕ)
      → find (is_row id) s.list_items ≡ some row
      → get_version rt id v (put_entity rt id document s).1 ≡ (
          if row.version + 1 == v
          then (put_entity rt id document s).0
          else if row.version == v
          then json 200 (snapshot_from_row rt row)
          else get_version rt id v s)
  unfolding put_entity put_found
  put_entity_history id document s row v found =
      rw found
        (get_version-advance_row id row _ _ s v found (find-is_row id row s.list_items found) refl)

  -- For every listed profile and every version number, the route of versions answers, after an
  -- upgrade of the profile to a revision of its type, the upgrade's own answer for the next version,
  -- the profile as it was listed for the version it had, and what it answered before for any other.
  pub upgrade_entity_history :
      (id : Text) (s : Store) (row : ProfileRow) (v : ℕ)
      → find (is_row id) s.list_items ≡ some row
      → get_version rt id v (upgrade_entity rt id s).1 ≡ (
          if row.version + 1 == v
          then (upgrade_entity rt id s).0
          else if row.version == v
          then json 200 (snapshot_from_row rt row)
          else get_version rt id v s)
  unfolding upgrade_entity upgrade_found
  upgrade_entity_history id s row v found =
      rw found
        (get_version-advance_row id row _ _ s v found (find-is_row id row s.list_items found) refl)
