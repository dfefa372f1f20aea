-- ===== src/Services/EntityTypes.antt =====
-- generated/services/EntityTypesService.ts: the requests on entity types, one function a method. A request body is passed on as it is.
use april_profile_kilo.Providers.{json_media, plain_request}
use april_profile_kilo.Base.{Text, [], codes, some, ℕ, ◌∷◌}
use april_profile_kilo.FamilyDetail.{revision_id}
use april_profile_kilo.Value.{Value, end, field, number, string}
use april_profile_kilo.Transport.Request.{ApiRequest}

unfoldable pub list_all_entity_types : ApiRequest
list_all_entity_types =
    plain_request (codes "GET") (codes "/v1/entity-types") (
      (401, codes "Нет или невалидный Bearer") ∷ (403, codes "В токене нет claim с tenant_id") ∷ [])

unfoldable pub create_entity_type_draft : Value → ApiRequest
create_entity_type_draft request_body =
    record (plain_request (codes "POST") (codes "/v1/entity-types") (
      (400, codes "Невалидный body или пустые поля namespace/code")
      ∷ (401, codes "Нет или невалидный Bearer")
      ∷ (403, codes "В токене нет claim с tenant_id")
      ∷ [])) { media_type = json_media; body = some request_body }

unfoldable pub publish_entity_type_draft : Text → ApiRequest
publish_entity_type_draft entity_type_id =
    record (plain_request (codes "POST") (codes "/v1/entity-types/{entityTypeID}/publish") (
      (401, codes "Нет или невалидный Bearer")
      ∷ (403, codes "В токене нет claim с tenant_id")
      ∷ (404, codes "Тип не найден в текущем tenant")
      ∷ (422, codes "Черновик не проходит структурную валидацию/invariants")
      ∷ [])) { path = (field (codes "entityTypeID") (string entity_type_id) end) }

unfoldable pub get_entity_type : Text → ApiRequest
get_entity_type entity_type_id =
    record (plain_request (codes "GET") (codes "/v1/entity-types/{entityTypeID}") (
      (401, codes "Нет или невалидный Bearer")
      ∷ (403, codes "В токене нет claim с tenant_id")
      ∷ (404, codes "Не найдено")
      ∷ [])) { path = (field (codes "entityTypeID") (string entity_type_id) end) }

unfoldable pub patch_entity_type_family : Text → Value → ApiRequest
patch_entity_type_family entity_type_id request_body =
    record (plain_request (codes "PATCH") (codes "/v1/entity-types/{entityTypeID}") (
      (401, codes "Нет или невалидный Bearer")
      ∷ (403, codes "В токене нет claim с tenant_id")
      ∷ (404, codes "Семейство типа не найдено")
      ∷ (409, codes "Дубликат пары namespace/code в tenant")
      ∷ [])) {
        path = (field (codes "entityTypeID") (string entity_type_id) end);
        media_type = json_media;
        body = some request_body;
      }

unfoldable pub delete_entity_type_family : Text → ApiRequest
delete_entity_type_family entity_type_id =
    record (plain_request (codes "DELETE") (codes "/v1/entity-types/{entityTypeID}") (
      (401, codes "Нет или невалидный Bearer")
      ∷ (403, codes "В токене нет claim с tenant_id")
      ∷ (404, codes "Семейство типа не найдено")
      ∷ (409, codes "Есть опубликованные ревизии или сущности")
      ∷ [])) { path = (field (codes "entityTypeID") (string entity_type_id) end) }

unfoldable pub put_entity_type_draft : Text → Value → ApiRequest
put_entity_type_draft entity_type_id request_body =
    record (plain_request (codes "PUT") (codes "/v1/entity-types/{entityTypeID}/draft") (
      (400, codes "Невалидный JSON или отсутствует if_draft_schema_version")
      ∷ (401, codes "Нет или невалидный Bearer")
      ∷ (403, codes "В токене нет claim с tenant_id")
      ∷ (404, codes "Семейство типа не найдено")
      ∷ (409, codes "Конфликт if_draft_schema_version")
      ∷ [])) {
        path = (field (codes "entityTypeID") (string entity_type_id) end);
        media_type = json_media;
        body = some request_body;
      }

unfoldable pub list_entity_type_revisions : Text → ApiRequest
list_entity_type_revisions entity_type_id =
    record (plain_request (codes "GET") (codes "/v1/entity-types/{entityTypeID}/revisions") (
      (401, codes "Нет или невалидный Bearer")
      ∷ (403, codes "В токене нет claim с tenant_id")
      ∷ [])) { path = (field (codes "entityTypeID") (string entity_type_id) end) }

unfoldable pub get_entity_type_revision_by_no : Text → ℕ → ApiRequest
get_entity_type_revision_by_no entity_type_id revision_no =
    record (plain_request (codes "GET")
      (codes "/v1/entity-types/{entityTypeID}/revisions/by-revision-no/{revisionNo}")
      ((401, codes "Нет или невалидный Bearer")
        ∷ (403, codes "В токене нет claim с tenant_id")
        ∷ (404, codes "Ревизия или семейство не найдены")
        ∷ [])) {
          path =
              (field (codes "entityTypeID") (string entity_type_id)
                (field (codes "revisionNo") (number revision_no) end));
        }

unfoldable pub get_entity_type_revision : Text → Text → ApiRequest
get_entity_type_revision entity_type_id revision_id =
    record (plain_request (codes "GET")
      (codes "/v1/entity-types/{entityTypeID}/revisions/{revisionID}")
      ((401, codes "Нет или невалидный Bearer")
        ∷ (403, codes "В токене нет claim с tenant_id")
        ∷ (404, codes "Ревизия или семейство не найдены")
        ∷ [])) {
          path =
              (field (codes "entityTypeID") (string entity_type_id)
                (field (codes "revisionID") (string revision_id) end));
        }
