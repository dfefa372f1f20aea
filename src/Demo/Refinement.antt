-- ===== src/Demo/Refinement.antt =====
-- The routes of frontend/src/mocks/handlers.ts as one server, and what its contract sees of a store.
pub mod Families
pub mod Profiles
pub mod Runs
use mathlib.Core.Path.{◌≡◌, refl, sym, fun_ext}
use native.Mathlib.Omega.{arith}
use april_profile_kilo.Base.{
  Dict, List, Text, [], find, get, get-remove, get-set, if◌then◌else◌, remove, set, some, text_eq,
  ℕ, ◌∷◌, Bool-cases, Option, inl, inr, none, ◌==◌, ap, or_else, ◌++◌, ◌+◌,
}
use april_profile_kilo.Demo.Contract.{
  Answer, Model, Request, delete_entity_request, delete_family_request, get_entity_request,
  get_family_request, get_revisions_request, get_version_request, of_family, of_revisions,
  of_snapshot, patch_family_request, post_entity_request, post_family_request, publish_request,
  put_draft_request, put_entity_request, update, upgrade_entity_request, model_delete, model_patch,
  model_put, keep_family, model_publish, model_serve,
}
use april_profile_kilo.Demo.Families.{
  delete_one_family, get_one_family, get_revisions, patch_one_family, post_family, publish,
  put_draft, patch_row, put_row, publish_row,
}
use april_profile_kilo.Demo.{Reply, Store, all_of, get_at, empty, json}
use april_profile_kilo.Providers.{EntityTypeRow, Snapshot, RevisionRow, draft, published}
use april_profile_kilo.Demo.Profiles.{
  delete_entity, get_entity, get_version, is_row, post_entity, put_entity, upgrade_entity,
}
use april_profile_kilo.Runtime.{Runtime}
use april_profile_kilo.ProfilesList.{answer}
use april_profile_kilo.Providers.EntityTypes.{SaveDraftInput, CreateFamilyInput}
use april_profile_kilo.Editor.{schema}
use april_profile_kilo.Value.{end, null, nullish, number, object}

-- The view of a store: it forgets the order of the entries and of the rows.
unfoldable pub view : Store → Model
view s = record {
  family_at = λ id. get id s.families;
  revisions_at = λ id. all_of (get id s.revisions);
  row_at = λ id. find (is_row id) s.list_items;
  snapshot_at = λ id version. get_at version (all_of (get id s.past_snapshots));
}

abbrev pub family_answer : Reply EntityTypeRow × Store → Answer × Store
family_answer (reply, s) = (of_family reply, s)

abbrev pub snapshot_answer : Reply Snapshot × Store → Answer × Store
snapshot_answer (reply, s) = (of_snapshot reply, s)

-- The routes, as the server dispatches them.
unfoldable pub serve : Runtime → Request → Store → Answer × Store
unfolding post_family patch_one_family delete_one_family get_one_family get_revisions put_draft
    publish post_entity put_entity delete_entity upgrade_entity get_entity get_version
serve rt (post_family_request fresh now body) s = family_answer (post_family fresh now body s)
serve rt (patch_family_request id namespace code) s =
    family_answer (patch_one_family id namespace code s)
serve rt (delete_family_request id) s = family_answer (delete_one_family id s)
serve rt (get_family_request id) s = (of_family (get_one_family id s), s)
serve rt (get_revisions_request id) s = (of_revisions (get_revisions id s), s)
serve rt (put_draft_request id body) s = family_answer (put_draft id body s)
serve rt (publish_request id fresh now) s = family_answer (publish id fresh now s)
serve rt (post_entity_request fresh now body) s = snapshot_answer (post_entity rt fresh now body s)
serve rt (put_entity_request id document) s = snapshot_answer (put_entity rt id document s)
serve rt (delete_entity_request id) s = snapshot_answer (delete_entity id s)
serve rt (upgrade_entity_request id) s = snapshot_answer (upgrade_entity rt id s)
serve rt (get_entity_request id) s = (of_snapshot (get_entity rt id s), s)
serve rt (get_version_request id version) s = (of_snapshot (get_version rt id version s), s)

unfoldable pub serve_all : Runtime → List Request → Store → List Answer × Store
unfolding serve
serve_all rt [] s = ([], s)
serve_all rt (r ∷ rs) s =
    let (answer, next) = serve rt r s in
    let (answers, last) = serve_all rt rs next in (answer ∷ answers, last)

-- An answer of the server, seen.
abbrev pub seen : Answer × Store → Answer × Model
seen (answer, s) = (answer, view s)

-- A store, its view given field by field.
pub view_path :
    (s : Store) (m : Model)
    → ((id : Text) → get id s.families ≡ m.family_at id)
    → ((id : Text) → all_of (get id s.revisions) ≡ m.revisions_at id)
    → ((id : Text) → find (is_row id) s.list_items ≡ m.row_at id)
    → ((id : Text) (v : ℕ) → get_at v (all_of (get id s.past_snapshots)) ≡ m.snapshot_at id v)
    → view s ≡ m
unfolding view
view_path s m f r l p = λ i. record {
  family_at = λ id. f id i;
  revisions_at = λ id. r id i;
  row_at = λ id. l id i;
  snapshot_at = λ id version. p id version i;
}

-- A write to a map of lists, as the view reads it.
pub all_of-set :
    {A : Type 0} (k j : Text) (xs : List A) (m : Dict (List A))
    → all_of (get j (set k xs m)) ≡ (if text_eq k j then xs else all_of (get j m))
all_of-set k j xs m = ground (arith, get-set k j xs m)

pub all_of-remove :
    {A : Type 0} (k j : Text) (m : Dict (List A))
    → all_of (get j (remove k m)) ≡ (if text_eq k j then [] else all_of (get j m))
all_of-remove k j m = ground (arith, get-remove k j m)
