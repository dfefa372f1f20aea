-- ===== src/Providers/EntityTypes.antt =====
-- providers/openapiEntityTypesProvider.ts, `createOpenApiEntityTypesProvider`: one operation a
-- method, with the mappings of its rows.
use april_profile_kilo.Value.{
  Fields, Value, end, field, null, nullish, number, object, of_option, string,
}
use april_profile_kilo.Base.{List, Option, Text, [], codes, map, or_else, some, ℕ, ◌∷◌}
use april_profile_kilo.Providers.{
  EntityTypeRow, ListPage, ListQuery, Operation, ProfileListResponse, RevisionRow, Status,
  one_field, plain_request, sort_text, to_page, updated_desc, json_media,
}

pub record FamilySummary : Type 0 where
  pub id : Text
  pub namespace : Text
  pub code : Text
  pub status : Status
  pub draft_schema_version : ℕ
  pub published_schema_version : Option ℕ

pub record FamilyDetail : Type 0 where
  pub summary : FamilySummary
  pub open summary use *
  pub draft_schema : Value
  pub published_schema : Value
  pub created_at : Text
  pub published_at : Option Text

pub record Revision : Type 0 where
  pub id : Text
  pub family_id : Text
  pub revision_no : ℕ
  pub schema : Value
  pub published_at : Text

unfoldable pub map_entity_type : EntityTypeRow → FamilySummary
map_entity_type row = record {
  id = row.id;
  namespace = row.namespace;
  code = row.code;
  status = row.status;
  draft_schema_version = row.draft_schema_version;
  published_schema_version = row.published_schema_version;
}

unfoldable pub map_entity_type_detail : EntityTypeRow → FamilyDetail
unfolding map_entity_type
map_entity_type_detail row = record {
  summary = map_entity_type row;
  draft_schema = nullish row.draft_schema (object end);
  published_schema = nullish row.published_schema null;
  created_at = row.created_at;
  published_at = row.published_at;
}

unfoldable pub map_revision : RevisionRow → Revision
map_revision row = record {
  id = row.id;
  family_id = row.family_id;
  revision_no = row.revision_no;
  schema = nullish row.schema (object end);
  published_at = row.published_at;
}

abbrev family_path : Text → Fields
family_path id = one_field (codes "entityTypeID") (string id)

unfoldable pub list_families : Operation (List EntityTypeRow) (List FamilySummary)
unfolding map_entity_type
list_families = record {
  request =
      plain_request (codes "GET") (codes "/v1/entity-types")
        ((401, codes "Unauthorized") ∷ (403, codes "Forbidden") ∷ []);
  convert = map map_entity_type;
}

unfoldable pub get_family : Text → Operation EntityTypeRow FamilyDetail
get_family id = record {
  request =
      record (plain_request (codes "GET") (codes "/v1/entity-types/{entityTypeID}")
        ((401, codes "Unauthorized") ∷ (403, codes "Forbidden") ∷ (404, codes "Not found") ∷ [])) {
          path = family_path id;
        };
  convert = map_entity_type_detail;
}

pub record CreateFamilyInput : Type 0 where
  pub namespace : Text
  pub code : Text
  pub draft_schema : Value

unfoldable pub create_family : CreateFamilyInput → Operation EntityTypeRow FamilyDetail
create_family input = record {
  request =
      record (plain_request (codes "POST") (codes "/v1/entity-types") (
        (400, codes "Bad request") ∷ (401, codes "Unauthorized") ∷ (403, codes "Forbidden") ∷ [])) {
          media_type = json_media;
          body = some (
              object (
                field (codes "namespace") (string input.namespace) (
                  field (codes "code") (string input.code)
                    (field (codes "draft_schema") input.draft_schema end))));
        };
  convert = map_entity_type_detail;
}

pub record PatchFamilyInput : Type 0 where
  pub namespace : Text
  pub code : Text

unfoldable pub patch_family : Text → PatchFamilyInput → Operation EntityTypeRow FamilyDetail
patch_family id input = record {
  request =
      record (plain_request (codes "PATCH") (codes "/v1/entity-types/{entityTypeID}") (
        (401, codes "Unauthorized")
        ∷ (403, codes "Forbidden")
        ∷ (404, codes "Not found")
        ∷ (409, codes "Conflict")
        ∷ [])) {
          path = family_path id;
          media_type = json_media;
          body = some (
              object (
                field (codes "namespace") (string input.namespace)
                  (field (codes "code") (string input.code) end)));
        };
  convert = map_entity_type_detail;
}

-- The response is dropped.
unfoldable pub delete_family : Text → Operation Value (Unit {0})
delete_family id = record {
  request =
      record (plain_request (codes "DELETE") (codes "/v1/entity-types/{entityTypeID}") (
        (401, codes "Unauthorized")
        ∷ (403, codes "Forbidden")
        ∷ (404, codes "Not found")
        ∷ (409, codes "Conflict")
        ∷ [])) { path = family_path id };
  convert = λ _. tt;
}

pub record SaveDraftInput : Type 0 where
  pub draft_schema : Value
  pub if_draft_schema_version : ℕ

unfoldable pub save_draft : Text → SaveDraftInput → Operation EntityTypeRow FamilyDetail
save_draft id input = record {
  request =
      record (plain_request (codes "PUT") (codes "/v1/entity-types/{entityTypeID}/draft") (
        (400, codes "Bad request")
        ∷ (401, codes "Unauthorized")
        ∷ (403, codes "Forbidden")
        ∷ (404, codes "Not found")
        ∷ (409, codes "Conflict")
        ∷ [])) {
          path = family_path id;
          media_type = json_media;
          body = some (
              object (
                field (codes "draft_schema") input.draft_schema (
                  field (codes "if_draft_schema_version") (number input.if_draft_schema_version)
                    end)));
        };
  convert = map_entity_type_detail;
}

unfoldable pub publish_draft : Text → Operation EntityTypeRow FamilyDetail
publish_draft id = record {
  request =
      record (plain_request (codes "POST") (codes "/v1/entity-types/{entityTypeID}/publish") (
        (401, codes "Unauthorized")
        ∷ (403, codes "Forbidden")
        ∷ (404, codes "Not found")
        ∷ (422, codes "Validation")
        ∷ [])) { path = family_path id };
  convert = map_entity_type_detail;
}

unfoldable pub list_revisions : Text → Operation (List RevisionRow) (List Revision)
unfolding map_revision
list_revisions family_id = record {
  request =
      record (plain_request (codes "GET") (codes "/v1/entity-types/{entityTypeID}/revisions")
        ((401, codes "Unauthorized") ∷ (403, codes "Forbidden") ∷ [])) {
          path = family_path family_id;
        };
  convert = map map_revision;
}

-- The query has no entity type of its own.
unfoldable pub list_profiles_for_type : Text → ListQuery → Operation ProfileListResponse ListPage
list_profiles_for_type entity_type_id query = record {
  request =
      record (plain_request (codes "GET") (codes "/v1/entities") (
        (401, codes "Unauthorized")
        ∷ (403, codes "Forbidden")
        ∷ (422, codes "Validation")
        ∷ (429, codes "Rate limit")
        ∷ (500, codes "Server error")
        ∷ [])) {
          query = some (
              field (codes "search") (of_option query.search) (
                field (codes "entity_type_id") (string entity_type_id) (
                  field (codes "limit") (number query.limit) (
                    field (codes "cursor") (of_option query.cursor) (
                      field (codes "sort") (string (sort_text (or_else query.sort updated_desc)))
                        end)))));
        };
  convert = to_page;
}
