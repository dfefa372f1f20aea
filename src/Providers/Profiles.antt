-- ===== src/Providers/Profiles.antt =====
-- providers/openapiProfilesProvider.ts, `createOpenApiProfilesProvider`: one operation a method.
use april_profile_kilo.Providers.{
  Details, EntityTypeRow, ListPage, ListQuery, Operation, ProfileListResponse, Snapshot, one_field,
  plain_request, sort_text, to_details, to_page, updated_desc, json_media,
}
use april_profile_kilo.Base.{List, Option, Text, [], codes, map, or_else, some, ℕ, ◌++◌, ◌∷◌}
use april_profile_kilo.Value.{
  Fields, Value, as_object, end, field, number, object, of_option, string,
}

unfoldable pub list_profiles : ListQuery → Operation ProfileListResponse ListPage
list_profiles query = record {
  request =
      record (plain_request (codes "GET") (codes "/v1/entities") (
        (401, codes "Unauthorized")
        ∷ (403, codes "Forbidden")
        ∷ (422, codes "Validation error")
        ∷ (429, codes "Rate limit exceeded")
        ∷ (500, codes "Internal server error")
        ∷ [])) {
          query = some (
              field (codes "search") (of_option query.search) (
                field (codes "entity_type_id") (of_option query.entity_type_id) (
                  field (codes "limit") (number query.limit) (
                    field (codes "cursor") (of_option query.cursor) (
                      field (codes "sort") (string (sort_text (or_else query.sort updated_desc)))
                        end)))));
        };
  convert = to_page;
}

unfoldable pub get_profile : Text → Operation Snapshot Details
get_profile entity_id = record {
  request =
      record (plain_request (codes "GET") (codes "/v1/entities/{entityID}")
        ((401, codes "Unauthorized") ∷ (403, codes "Forbidden") ∷ (404, codes "Not found") ∷ [])) {
          path = one_field (codes "entityID") (string entity_id);
        };
  convert = to_details;
}

unfoldable pub get_by_version : Text → ℕ → Operation Snapshot Details
get_by_version entity_id version = record {
  request =
      record (plain_request (codes "GET") (codes "/v1/entities/{entityID}/versions/{version}")
        ((401, codes "Unauthorized") ∷ (403, codes "Forbidden") ∷ (404, codes "Not found") ∷ [])) {
          path =
              field (codes "entityID") (string entity_id)
                (field (codes "version") (number version) end);
        };
  convert = to_details;
}

pub record EntityTypeOption : Type 0 where
  pub id : Text
  pub label : Text
  pub published_schema : Option Fields

unfoldable pub to_type_option : EntityTypeRow → EntityTypeOption
to_type_option row = record {
  id = row.id;
  label = row.namespace ++ b'/' ∷ row.code;
  published_schema = as_object row.published_schema;
}

unfoldable pub list_entity_types : Operation (List EntityTypeRow) (List EntityTypeOption)
unfolding to_type_option
list_entity_types = record {
  request =
      plain_request (codes "GET") (codes "/v1/entity-types")
        ((401, codes "Unauthorized") ∷ (403, codes "Forbidden") ∷ []);
  convert = map to_type_option;
}

unfoldable pub get_published_schema : Text → Operation EntityTypeRow (Option Fields)
get_published_schema entity_type_id = record {
  request =
      record (plain_request (codes "GET") (codes "/v1/entity-types/{entityTypeID}")
        ((401, codes "Unauthorized") ∷ (403, codes "Forbidden") ∷ (404, codes "Not found") ∷ [])) {
          path = one_field (codes "entityTypeID") (string entity_type_id);
        };
  convert = λ row. as_object row.published_schema;
}

pub record CreateInput : Type 0 where
  pub entity_type_id : Text
  pub document : Value

unfoldable pub create_profile : CreateInput → Operation Snapshot Details
create_profile input = record {
  request =
      record (plain_request (codes "POST") (codes "/v1/entities") (
        (400, codes "Invalid payload")
        ∷ (401, codes "Unauthorized")
        ∷ (403, codes "Forbidden")
        ∷ (404, codes "Type not found")
        ∷ (409, codes "Conflict")
        ∷ [])) {
          media_type = json_media;
          body = some (
              object (
                field (codes "entity_type_id") (string input.entity_type_id)
                  (field (codes "document") input.document end)));
        };
  convert = to_details;
}

pub record UpdateInput : Type 0 where
  pub document : Value
  pub expected_version : Option ℕ

-- `void input.expectedVersion`: the field is not sent.
unfoldable pub update_profile : Text → UpdateInput → Operation Snapshot Details
update_profile entity_id input = record {
  request =
      record (plain_request (codes "PUT") (codes "/v1/entities/{entityID}") (
        (400, codes "Invalid payload")
        ∷ (401, codes "Unauthorized")
        ∷ (403, codes "Forbidden")
        ∷ (404, codes "Not found")
        ∷ (409, codes "Conflict")
        ∷ [])) {
          path = one_field (codes "entityID") (string entity_id);
          media_type = json_media;
          body = some (object (one_field (codes "document") input.document));
        };
  convert = to_details;
}

-- The response is dropped.
unfoldable pub remove_profile : Text → Operation Value (Unit {0})
remove_profile entity_id = record {
  request =
      record (plain_request (codes "DELETE") (codes "/v1/entities/{entityID}")
        ((401, codes "Unauthorized") ∷ (403, codes "Forbidden") ∷ (404, codes "Not found") ∷ [])) {
          path = one_field (codes "entityID") (string entity_id);
        };
  convert = λ _. tt;
}
