-- ===== src/Services/Profiles.antt =====
-- generated/services/ProfilesService.ts: the requests on profiles, one function a method. A request body is passed on as it is.
use april_profile_kilo.Value.{Value, end, field, number, of_option, string}
use april_profile_kilo.Base.{Option, Text, [], codes, or_else, some, ℕ, ◌∷◌}
use april_profile_kilo.Providers.{Sort, json_media, plain_request, sort_text, updated_desc}
use april_profile_kilo.Transport.Request.{ApiRequest}

unfoldable pub batch_upgrade_entity_type_revision : Value → ApiRequest
batch_upgrade_entity_type_revision request_body =
    record (plain_request (codes "POST") (codes "/v1/entities/batch-upgrade-entity-type-revision") (
      (400, codes "Невалидный запрос или целевая ревизия")
      ∷ (401, codes "Нет или невалидный Bearer")
      ∷ (403, codes "В токене нет claim с tenant_id")
      ∷ [])) { media_type = json_media; body = some request_body }

unfoldable pub list_entity_profiles :
    Option Text → Option Text → Option ℕ → Option Text → Option Sort → ApiRequest
list_entity_profiles search entity_type_id limit cursor sort =
    record (plain_request (codes "GET") (codes "/v1/entities") (
      (401, codes "Нет или невалидный Bearer")
      ∷ (403, codes "В токене нет claim с tenant_id")
      ∷ (422, codes "Невалидный `cursor`/`limit`/query-параметры")
      ∷ (429, codes "Слишком много запросов (rate limit, если включён)")
      ∷ (500, codes "Внутренняя ошибка")
      ∷ [])) {
        query =
            (some (
              field (codes "search") (of_option search) (
                field (codes "entity_type_id") (of_option entity_type_id) (
                  field (codes "limit") (number (or_else limit 20)) (
                    field (codes "cursor") (of_option cursor) (
                      field (codes "sort") (string (sort_text (or_else sort updated_desc)))
                        end))))));
      }

unfoldable pub create_entity_profile : Value → ApiRequest
create_entity_profile request_body =
    record (plain_request (codes "POST") (codes "/v1/entities") (
      (400, codes "Невалидный payload")
      ∷ (401, codes "Нет или невалидный Bearer")
      ∷ (403, codes "В токене нет claim с tenant_id")
      ∷ (404, codes "Тип сущности не найден")
      ∷ (
        409,
        codes "Тип не опубликован, конфликт external mapping или все поля заблокированы authority",
      )
      ∷ (422, codes "Документ не соответствует JSON Schema последней опубликованной ревизии типа")
      ∷ [])) { media_type = json_media; body = some request_body }

unfoldable pub get_entity_current_profile : Text → ApiRequest
get_entity_current_profile entity_id =
    record (plain_request (codes "GET") (codes "/v1/entities/{entityID}") (
      (401, codes "Нет или невалидный Bearer")
      ∷ (403, codes "В токене нет claim с tenant_id")
      ∷ (404, codes "Сущность не найдена")
      ∷ [])) { path = (field (codes "entityID") (string entity_id) end) }

unfoldable pub update_entity_profile : Text → Value → ApiRequest
update_entity_profile entity_id request_body =
    record (plain_request (codes "PUT") (codes "/v1/entities/{entityID}") (
      (400, codes "Невалидный payload")
      ∷ (401, codes "Нет или невалидный Bearer")
      ∷ (403, codes "В токене нет claim с tenant_id")
      ∷ (404, codes "Сущность не найдена")
      ∷ (
        409,
        codes
            "Конфликт external mapping или все предложенные поля отклонены authority (код `authority_all_blocked`)",
      )
      ∷ [])) {
        path = (field (codes "entityID") (string entity_id) end);
        media_type = json_media;
        body = some request_body;
      }

unfoldable pub delete_entity_profile : Text → ApiRequest
delete_entity_profile entity_id =
    record (plain_request (codes "DELETE") (codes "/v1/entities/{entityID}") (
      (401, codes "Нет или невалидный Bearer")
      ∷ (403, codes "В токене нет claim с tenant_id")
      ∷ (404, codes "Сущность не найдена")
      ∷ [])) { path = (field (codes "entityID") (string entity_id) end) }

unfoldable pub upgrade_entity_type_revision : Text → Option Value → ApiRequest
upgrade_entity_type_revision entity_id request_body =
    record (plain_request (codes "POST")
      (codes "/v1/entities/{entityID}/upgrade-entity-type-revision")
      ((400, codes "Невалидный JSON или целевая ревизия")
        ∷ (401, codes "Нет или невалидный Bearer")
        ∷ (403, codes "В токене нет claim с tenant_id")
        ∷ (404, codes "Сущность не найдена")
        ∷ (422, codes "Документ не проходит валидацию по схеме целевой ревизии")
        ∷ [])) {
          path = (field (codes "entityID") (string entity_id) end);
          media_type = json_media;
          body = request_body;
        }

unfoldable pub get_entity_profile_by_version : Text → ℕ → ApiRequest
get_entity_profile_by_version entity_id version =
    record (plain_request (codes "GET") (codes "/v1/entities/{entityID}/versions/{version}") (
      (401, codes "Нет или невалидный Bearer")
      ∷ (403, codes "В токене нет claim с tenant_id")
      ∷ (404, codes "Версия или сущность не найдены")
      ∷ [])) {
        path =
            (field (codes "entityID") (string entity_id)
              (field (codes "version") (number version) end));
      }

unfoldable pub get_entity_current_by_external : Text → Text → ApiRequest
get_entity_current_by_external source_system external_id =
    record (plain_request (codes "GET")
      (codes "/v1/external-mappings/{sourceSystem}/{externalID}/entity")
      ((401, codes "Нет или невалидный Bearer")
        ∷ (403, codes "В токене нет claim с tenant_id")
        ∷ (404, codes "Маппинг не найден")
        ∷ [])) {
          path =
              (field (codes "sourceSystem") (string source_system)
                (field (codes "externalID") (string external_id) end));
        }
