-- ===== src/Demo/Revisions.antt =====
-- frontend/src/mocks/handlers.ts: the numbers of the revisions of an entity type.
use mathlib.Core.Path.{◌≡◌, refl, sym}
use mathlib.Core.Logic.{inl, inr}
use native.Mathlib.Omega.{arith}
use april_profile_kilo.Demo.Families.{
  delete_one_family, patch_one_family, post_family, publish, put_draft, patch_row, publish_row,
  put_row,
}
use april_profile_kilo.Demo.{Store, all_of}
use april_profile_kilo.Providers.{EntityTypeRow, RevisionRow, draft, published}
use april_profile_kilo.Base.{
  List, Option, Text, [], get, length, or_else, some, suc, ℕ, ◌++◌, ◌+◌, ◌∷◌, if◌then◌else◌, set,
  text_eq, Bool-cases, text_eq_iff, get-set, Dict, is_some, none, text_eq_refl, ◌==◌, get-remove,
  length-append,
}
use april_profile_kilo.Providers.EntityTypes.{CreateFamilyInput, SaveDraftInput}
use april_profile_kilo.Value.{end, null, nullish, object}

-- The list holds the revisions `n`, `n + 1` and so on of one family.
abbrev pub IsCounted : Text → ℕ → List RevisionRow → Type 0
IsCounted id n [] = Unit
IsCounted id n (rev ∷ revs) =
    (rev.revision_no ≡ n) × (rev.family_id ≡ id) × IsCounted id (suc n) revs

-- The row has the number of its last publication, and its revisions are counted from 1.
abbrev pub IsCountedRow : Text → EntityTypeRow → List RevisionRow → Type 0
IsCountedRow id row revs =
    (or_else row.published_schema_version 0 ≡ length revs) × IsCounted id 1 revs

IsCountedEach : Store → Type 0
IsCountedEach s =
    (id : Text) (row : EntityTypeRow)
    → get id s.families ≡ some row
    → IsCountedRow id row (all_of (get id s.revisions))

-- The same of a family that may be missing.
abbrev pub IsCountedFamily : Text → Option EntityTypeRow → List RevisionRow → Type 0
IsCountedFamily id none revs = Unit
IsCountedFamily id (some row) revs = IsCountedRow id row revs

-- Every family of the store is counted.
abbrev pub IsCountedStore : Store → Type 0
IsCountedStore s =
    (id : Text) → IsCountedFamily id (get id s.families) (all_of (get id s.revisions))

-- The requests that change an entity type.
pub data Change : Type 0 where
  posted : Text → Text → CreateFamilyInput → Change
  patched : Text → Option Text → Option Text → Change
  removed : Text → Change
  drafted : Text → SaveDraftInput → Change
  issued : Text → Text → Text → Change

unfoldable pub apply_change : Change → Store → Store
apply_change (posted fresh now body) s = (post_family fresh now body s).1
apply_change (patched id namespace code) s = (patch_one_family id namespace code s).1
apply_change (removed id) s = (delete_one_family id s).1
apply_change (drafted id body) s = (put_draft id body s).1
apply_change (issued id fresh now) s = (publish id fresh now s).1

unfoldable pub apply_changes : List Change → Store → Store
unfolding apply_change
apply_changes [] s = s
apply_changes (c ∷ cs) s = apply_changes cs (apply_change c s)

IsCounted-snoc :
    (id : Text) (n : ℕ) (revs : List RevisionRow) (rev : RevisionRow)
    → IsCounted id n revs
    → rev.revision_no ≡ n + length revs
    → rev.family_id ≡ id
    → IsCounted id n (revs ++ rev ∷ [])
IsCounted-snoc id n [] rev c h f = (omega arith, f, tt)
IsCounted-snoc id n (r ∷ revs) rev c h f =
    (c.0, c.1, IsCounted-snoc id (suc n) revs rev c.2 (omega arith) f)

-- A write to one family keeps the store counted when the new row and revisions are.
counted_at :
    (k : Text) (row : EntityTypeRow) (revs : List RevisionRow) (s t : Store)
    → t.families ≡ set k row s.families
    → ((id : Text)
        → all_of (get id t.revisions)
          ≡ (if text_eq k id then revs else all_of (get id s.revisions)))
    → IsCountedRow k row revs
    → IsCountedEach s
    → IsCountedEach t
unfolding IsCountedEach
counted_at k row revs s t fam rev c h id now e = elim (Bool-cases (text_eq k id)) [
  | inl same ↦
      let here : some row ≡ some now = ground (arith, get-set k id row s.families) in
      let new : row ≡ now = ground arith in
      let there : k ≡ id = (text_eq_iff k id).0 same in rw (rev id, same, sym there, sym new) c
  | inr apart ↦
      let old : get id s.families ≡ some now = ground (arith, get-set k id row s.families) in
      rw (rev id, apart) (h id now old)
]

-- A write to the revisions of one family, as `counted_at` wants it.
revisions_set :
    (k : Text) (revs : List RevisionRow) (m : Dict (List RevisionRow)) (id : Text)
    → all_of (get id (set k revs m)) ≡ (if text_eq k id then revs else all_of (get id m))
revisions_set k revs m id = ground (arith, get-set k id revs m)

-- The revisions of a family that stay as they are.
revisions_kept :
    (k : Text) (m : Dict (List RevisionRow)) (id : Text)
    → all_of (get id m) ≡ (if text_eq k id then all_of (get k m) else all_of (get id m))
revisions_kept k m id = elim (Bool-cases (text_eq k id)) [
  | inl same ↦ rw ((text_eq_iff k id).0 same, text_eq_refl id) refl
  | inr apart ↦ rw apart refl
]

patch_row-IsCountedEach :
    (id : Text) (namespace code : Option Text) (s : Store) (o : Option EntityTypeRow)
    → get id s.families ≡ o
    → IsCountedEach s
    → IsCountedEach (patch_row id namespace code s o).1
unfolding patch_row IsCountedEach
patch_row-IsCountedEach id namespace code s none found h = h
patch_row-IsCountedEach id namespace code s (some row) found h =
    counted_at id
      (record row { namespace = or_else namespace row.namespace; code = or_else code row.code })
      (all_of (get id s.revisions)) s (patch_row id namespace code s (some row)).1 refl
      (revisions_kept id s.revisions) (h id row found) h

put_row-IsCountedEach :
    (id : Text) (body : SaveDraftInput) (s : Store) (o : Option EntityTypeRow)
    → get id s.families ≡ o
    → IsCountedEach s
    → IsCountedEach (put_row id body s o).1
unfolding put_row IsCountedEach
put_row-IsCountedEach id body s none found h = h
put_row-IsCountedEach id body s (some row) found h =
    elim (Bool-cases (body.if_draft_schema_version == row.draft_schema_version)) [
      | inl fits ↦
          let next : EntityTypeRow = record row {
            draft_schema = body.draft_schema;
            draft_schema_version = row.draft_schema_version + 1;
          } in
          rw fits (
            counted_at id next (all_of (get id s.revisions)) s
              (record s { families = set id next s.families }) refl (revisions_kept id s.revisions)
              (h id row found) h)
      | inr stale ↦ rw stale h
    ]

publish_row-IsCountedEach :
    (id fresh now : Text) (s : Store) (o : Option EntityTypeRow)
    → get id s.families ≡ o
    → IsCountedEach s
    → IsCountedEach (publish_row id fresh now s o).1
unfolding publish_row IsCountedEach
publish_row-IsCountedEach id fresh now s none found h = h
publish_row-IsCountedEach id fresh now s (some row) found h =
    let revs = all_of (get id s.revisions) in
    let no = or_else row.published_schema_version 0 + 1 in
    let rev : RevisionRow = record {
      id = fresh;
      family_id = id;
      revision_no = no;
      schema = row.draft_schema;
      published_at = now;
    } in
    let next : EntityTypeRow = record row {
      status = published;
      published_schema = row.draft_schema;
      published_schema_version = some no;
      published_at = some now;
    } in
    let old = h id row found in
    counted_at id next (revs ++ rev ∷ []) s (publish_row id fresh now s (some row)).1 refl
      (revisions_set id (revs ++ rev ∷ []) s.revisions)
      (
        ground (arith, length-append revs (rev ∷ [])),
        IsCounted-snoc id 1 revs rev old.1 (ground arith) refl,
      )
      h

post_family-IsCountedEach :
    (fresh now : Text) (body : CreateFamilyInput) (s : Store)
    → IsCountedEach s
    → IsCountedEach (post_family fresh now body s).1
unfolding post_family
post_family-IsCountedEach fresh now body s h =
    let row : EntityTypeRow = record {
      id = fresh;
      namespace = body.namespace;
      code = body.code;
      status = draft;
      draft_schema = nullish body.draft_schema (object end);
      draft_schema_version = 1;
      published_schema = null;
      published_schema_version = none;
      published_at = none;
      created_at = now;
    } in
    counted_at fresh row [] s (post_family fresh now body s).1 refl
      (revisions_set fresh [] s.revisions) (refl, tt) h

delete_one_family-IsCountedEach :
    (id : Text) (s : Store) → IsCountedEach s → IsCountedEach (delete_one_family id s).1
unfolding delete_one_family IsCountedEach
delete_one_family-IsCountedEach id s h = elim (Bool-cases (is_some (get id s.families))) [
  | inl there ↦ rw there (λ j row e. elim (Bool-cases (text_eq id j)) [
    | inl same ↦
        let gone : none ≡ some row = ground (arith, get-remove id j s.families) in ground arith
    | inr apart ↦
        let old : get j s.families ≡ some row = ground (arith, get-remove id j s.families) in
        rw (get-remove id j s.revisions, apart) (h j row old)
  ])
  | inr missing ↦ rw missing h
]

apply_change-IsCountedEach :
    (c : Change) (s : Store) → IsCountedEach s → IsCountedEach (apply_change c s)
unfolding apply_change patch_one_family put_draft publish
apply_change-IsCountedEach (posted fresh now body) s h =
    post_family-IsCountedEach fresh now body s h
apply_change-IsCountedEach (patched id namespace code) s h =
    patch_row-IsCountedEach id namespace code s (get id s.families) refl h
apply_change-IsCountedEach (removed id) s h = delete_one_family-IsCountedEach id s h
apply_change-IsCountedEach (drafted id body) s h =
    put_row-IsCountedEach id body s (get id s.families) refl h
apply_change-IsCountedEach (issued id fresh now) s h =
    publish_row-IsCountedEach id fresh now s (get id s.families) refl h

counted_row :
    (id : Text) (revs : List RevisionRow) (o : Option EntityTypeRow) (row : EntityTypeRow)
    → o ≡ some row
    → IsCountedFamily id o revs
    → IsCountedRow id row revs
counted_row id revs none row e h = ground arith
counted_row id revs (some old) row e h = let same : old ≡ row = ground arith in rw (sym same) h

counted_family :
    (id : Text) (revs : List RevisionRow) (o : Option EntityTypeRow)
    → ((row : EntityTypeRow) → o ≡ some row → IsCountedRow id row revs)
    → IsCountedFamily id o revs
counted_family id revs none h = tt
counted_family id revs (some row) h = h row refl

apply_change-IsCountedStore :
    (c : Change) (s : Store) → IsCountedStore s → IsCountedStore (apply_change c s)
unfolding IsCountedEach
apply_change-IsCountedStore c s h id =
    counted_family id _ (get id (apply_change c s).families) (
      apply_change-IsCountedEach c s (λ k row e. counted_row k _ (get k s.families) row e (h k)) id)

-- From a store where the number of each family's last publication (0 before the first) is that of
-- its revisions, and these are numbered 1, 2 and so on and belong to it, any sequence of requests on
-- entity types (create, patch, delete, save a draft, publish) leads to such a store.
pub revisions_counted :
    (cs : List Change) (s : Store) → IsCountedStore s → IsCountedStore (apply_changes cs s)
unfolding apply_changes
revisions_counted [] s h = h
revisions_counted (c ∷ cs) s h =
    revisions_counted cs (apply_change c s) (apply_change-IsCountedStore c s h)
