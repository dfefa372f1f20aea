-- ===== src/Services/Others.antt =====
-- generated/services: AdminService.ts, SystemService.ts and AuthService.ts, one function a method.
use april_profile_kilo.Base.{Text, [], codes, some, ◌∷◌}
use april_profile_kilo.Providers.{json_media, plain_request}
use april_profile_kilo.Value.{Value, end, field, string}
use april_profile_kilo.Transport.Request.{ApiRequest}

unfoldable pub list_profile_field_conflicts : ApiRequest
list_profile_field_conflicts = plain_request (codes "GET") (codes "/v1/admin/profile-conflicts") (
    (401, codes "Нет или невалидный Bearer")
    ∷ (403, codes "Нет tenant claim или недостаточно прав realm-роли")
    ∷ [])

unfoldable pub resolve_profile_field_conflict : Text → Value → ApiRequest
resolve_profile_field_conflict conflict_id request_body =
    record (plain_request (codes "POST") (codes "/v1/admin/profile-conflicts/{conflictID}/resolve")
      ((400, codes "Невалидный body")
        ∷ (401, codes "Нет или невалидный Bearer")
        ∷ (403, codes "Недостаточно прав")
        ∷ (404, codes "Конфликт не найден")
        ∷ [])) {
          path = (field (codes "conflictID") (string conflict_id) end);
          media_type = json_media;
          body = some request_body;
        }

unfoldable pub merge_entity_profiles : Value → ApiRequest
merge_entity_profiles request_body =
    record (plain_request (codes "POST") (codes "/v1/admin/entities/merge") (
      (400, codes "Некорректная пара сущностей")
      ∷ (401, codes "Нет или невалидный Bearer")
      ∷ (403, codes "Недостаточно прав")
      ∷ (404, codes "Сущность не найдена")
      ∷ (409, codes "Коллизия external mapping при merge")
      ∷ [])) { media_type = json_media; body = some request_body }

unfoldable pub get_system_ping : ApiRequest
get_system_ping = plain_request (codes "GET") (codes "/v1/system/ping") []

unfoldable pub get_healthz : ApiRequest
get_healthz = plain_request (codes "GET") (codes "/healthz") []

unfoldable pub get_readyz : ApiRequest
get_readyz =
    plain_request (codes "GET") (codes "/readyz")
      ((503, codes "Не готов (зависимости недоступны)") ∷ [])

unfoldable pub get_auth_who_am_i : ApiRequest
get_auth_who_am_i =
    plain_request (codes "GET") (codes "/v1/auth/whoami") (
      (401, codes "Нет или невалидный Bearer") ∷ (403, codes "В токене нет claim с tenant_id") ∷ [])
