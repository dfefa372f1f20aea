-- ===== src/Demo/Seeds.antt =====
-- frontend/src/mocks/handlers.ts: the store that the demonstration starts with.
use mathlib.Core.Path.{◌≡◌, refl}
use mathlib.Core.Logic.{inl, inr}
use april_profile_kilo.Value.{Value, array, cons, end, field, nil, object, string}
use april_profile_kilo.Base.{
  Bool-cases, Dict, List, Text, [], codes, get, some, text_eq, text_eq_iff, ◌∷◌,
}
use april_profile_kilo.Demo.{Store, all_of, named, remember, seed_history, snapshot_from_row}
use april_profile_kilo.Demo.Revisions.{
  Change, IsCountedFamily, IsCountedStore, apply_changes, revisions_counted,
}
use april_profile_kilo.Providers.{EntityTypeRow, ProfileRow, RevisionRow, published}
use april_profile_kilo.Runtime.{Runtime}
use april_profile_kilo.FamilyDetail.{revision_id}

-- `ENTITY_TYPE_A`, `ENTITY_TYPE_B`, `E1`, `E2` and `E3`
abbrev pub entity_type_a : Text
entity_type_a = codes "89ac9958-fec8-43d7-8908-f0438e8e0e39"

abbrev pub entity_type_b : Text
entity_type_b = codes "7fd4f598-c6a7-4b44-9fd8-e8cb2e65d6ad"

abbrev pub first_entity : Text
first_entity = codes "c7c5e6ea-8787-4ca0-a691-9f4fdc9830ff"

abbrev pub second_entity : Text
second_entity = codes "4f18363d-70e8-4814-9d12-5236b18877d0"

abbrev pub third_entity : Text
third_entity = codes "d6f55c6c-6ea8-4ad2-b42b-7e7eefaf55a3"

abbrev type_only : Text → Value
type_only t = object (field (codes "type") (string t) end)

abbrev pub schema_person : Value
schema_person = object (
    field (codes "type") (string (codes "object")) (
      field (codes "properties")
        (object (
          field (codes "name")
            (object (
              field (codes "type") (string (codes "string"))
                (field (codes "title") (string (codes "Display name")) end)))
            (field (codes "email")
              (object (
                field (codes "type") (string (codes "string"))
                  (field (codes "format") (string (codes "email")) end)))
              end)))
        (field (codes "required") (array (cons (string (codes "name")) nil)) end)))

abbrev pub schema_order : Value
schema_order = object (
    field (codes "type") (string (codes "object")) (
      field (codes "properties")
        (object (
          field (codes "orderNo") (type_only (codes "string"))
            (field (codes "total") (type_only (codes "number")) end)))
        end))

abbrev new_year : Text
new_year = codes "2026-01-01T00:00:00Z"

abbrev seeded_family : Text → Text → Value → EntityTypeRow
seeded_family type_id code described = record {
  id = type_id;
  namespace = codes "demo";
  code = code;
  status = published;
  draft_schema = described;
  draft_schema_version = 1;
  published_schema = described;
  published_schema_version = some 1;
  published_at = some new_year;
  created_at = codes "2025-12-01T00:00:00Z";
}

abbrev seeded_revision : Text → Text → Value → RevisionRow
seeded_revision revision_id type_id described = record {
  id = revision_id;
  family_id = type_id;
  revision_no = 1;
  schema = described;
  published_at = new_year;
}

unfoldable pub initial_families : Dict EntityTypeRow
initial_families =
    (entity_type_a, seeded_family entity_type_a (codes "person") schema_person)
    ∷ (entity_type_b, seeded_family entity_type_b (codes "order") schema_order)
    ∷ []

unfoldable pub initial_revisions : Dict (List RevisionRow)
initial_revisions =
    (
      entity_type_a,
      seeded_revision (codes "aaaaaaaa-aaaa-aaaa-aaaa-aaaaaaaaaaa1") entity_type_a schema_person
          ∷ [],
    )
    ∷ (
      entity_type_b,
      seeded_revision (codes "bbbbbbbb-bbbb-bbbb-bbbb-bbbbbbbbbbb1") entity_type_b schema_order
          ∷ [],
    )
    ∷ []

abbrev seeded_row : Runtime → Text → Text → Text → Text → ProfileRow
seeded_row rt entity_id type_id created_at name = record {
  entity_id = entity_id;
  entity_type_id = type_id;
  version = 1;
  created_at = created_at;
  preview = rt.compact (named (string name));
}

unfoldable pub initial_list : Runtime → List ProfileRow
initial_list rt =
    seeded_row rt first_entity entity_type_a (codes "2026-04-24T10:00:00Z") (codes "Acme Corp")
    ∷ seeded_row rt second_entity entity_type_a (codes "2026-04-24T10:01:00Z") (codes "Contoso Ltd")
    ∷ seeded_row rt third_entity entity_type_b (codes "2026-04-24T10:02:00Z") (codes "Order #1042")
    ∷ []

unfoldable pub initial_store : Runtime → Store
unfolding initial_families initial_revisions initial_list seed_history
initial_store rt = seed_history rt (initial_list rt) (record {
  families = initial_families;
  revisions = initial_revisions;
  list_items = initial_list rt;
  past_snapshots = [];
})

seed_history_families :
    (rt : Runtime) (rows : List ProfileRow) (s : Store)
    → ((seed_history rt rows s).families ≡ s.families)
      × ((seed_history rt rows s).revisions ≡ s.revisions)
unfolding seed_history remember
seed_history_families rt [] s = (refl, refl)
seed_history_families rt (row ∷ rows) s =
    seed_history_families rt rows (remember row.entity_id row.version (snapshot_from_row rt row) s)

seeded-IsCounted :
    (id : Text) → IsCountedFamily id (get id initial_families) (all_of (get id initial_revisions))
unfolding initial_families initial_revisions get
seeded-IsCounted id = elim (Bool-cases (text_eq entity_type_a id)) [
  | inl first_one ↦ rw first_one (refl, (refl, (text_eq_iff entity_type_a id).0 first_one, tt))
  | inr apart ↦ elim (Bool-cases (text_eq entity_type_b id)) [
    | inl second_one ↦
        rw (apart, second_one) (refl, (refl, (text_eq_iff entity_type_b id).0 second_one, tt))
    | inr neither ↦ rw (apart, neither) tt
  ]
]

initial_store-IsCounted : (rt : Runtime) → IsCountedStore (initial_store rt)
unfolding initial_store
initial_store-IsCounted rt id =
    let same = seed_history_families rt (initial_list rt) (record {
      families = initial_families;
      revisions = initial_revisions;
      list_items = initial_list rt;
      past_snapshots = [];
    }) in
    rw (same.0, same.1) (seeded-IsCounted id)

-- In the demonstration, from its first store on and after any sequence of requests on entity types
-- (create, patch, delete, save a draft, publish), the number of each family's last publication (0
-- before the first) is that of its revisions, and these are numbered 1, 2 and so on and belong to it.
pub demo_revisions_counted :
    (rt : Runtime) (cs : List Change) → IsCountedStore (apply_changes cs (initial_store rt))
demo_revisions_counted rt cs = revisions_counted cs (initial_store rt) (initial_store-IsCounted rt)
