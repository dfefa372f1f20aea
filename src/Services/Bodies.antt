-- ===== src/Services/Bodies.antt =====
-- generated/models: the bodies that the API takes, as the types of the generated client declare them.
-- A field that is not given is `undefined`; the fields write_source and external_refs, which the front
-- end never gives, are left out.
use april_profile_kilo.Value.{Value, end, field, number, object, of_option, string, undefined}
use april_profile_kilo.Base.{Bool, List, Option, Text, codes, none, some, ℕ}
use april_profile_kilo.Providers.Upgrades.{
  boolean_or_undefined, number_or_undefined, texts_or_undefined,
}

-- `CreateEntityRequest`
unfoldable pub create_entity_request : Text → Value → Value
create_entity_request entity_type_id document =
    object (
      field (codes "entity_type_id") (string entity_type_id)
        (field (codes "document") document end))

-- `UpdateEntityRequest`
unfoldable pub update_entity_request : Value → Value
update_entity_request document = object (field (codes "document") document end)

-- `CreateEntityTypeDraftRequest`
unfoldable pub create_entity_type_draft_request : Text → Text → Value → Value
create_entity_type_draft_request namespace code draft_schema = object (
    field (codes "namespace") (string namespace)
      (field (codes "code") (string code) (field (codes "draft_schema") draft_schema end)))

-- `PatchEntityTypeFamilyRequest`
unfoldable pub patch_entity_type_family_request : Text → Text → Value
patch_entity_type_family_request namespace code =
    object (field (codes "namespace") (string namespace) (field (codes "code") (string code) end))

-- `PutEntityTypeDraftRequest`
unfoldable pub put_entity_type_draft_request : Value → ℕ → Value
put_entity_type_draft_request draft_schema if_draft_schema_version = object (
    field (codes "draft_schema") draft_schema
      (field (codes "if_draft_schema_version") (number if_draft_schema_version) end))

-- `UpgradeEntityTypeRevisionRequest`; a call that names no revision has no body.
unfoldable pub upgrade_entity_type_revision_request : Option Text → Option ℕ → Option Value
upgrade_entity_type_revision_request none none = none
upgrade_entity_type_revision_request (some id) none = some (
    object (
      field (codes "entity_type_revision_id") (string id)
        (field (codes "revision_no") undefined end)))
upgrade_entity_type_revision_request none (some n) = some (
    object (
      field (codes "entity_type_revision_id") undefined
        (field (codes "revision_no") (number n) end)))
upgrade_entity_type_revision_request (some id) (some n) = some (
    object (
      field (codes "entity_type_revision_id") (string id)
        (field (codes "revision_no") (number n) end)))

-- `BatchUpgradeEntityTypeRevisionRequest`, from the type's id on in the order of its declaration.
unfoldable pub batch_upgrade_request :
    Text
    → Option Text
    → Option ℕ
    → Option (List Text)
    → Option Bool
    → Option ℕ
    → Option Text
    → Value
batch_upgrade_request entity_type_id target_id revision_no ids behind limit key = object (
    field (codes "entity_type_id") (string entity_type_id) (
      field (codes "target_entity_type_revision_id") (of_option target_id) (
        field (codes "target_revision_no") (number_or_undefined revision_no) (
          field (codes "entity_ids") (texts_or_undefined ids) (
            field (codes "only_behind_latest") (boolean_or_undefined behind) (
              field (codes "limit") (number_or_undefined limit)
                (field (codes "idempotency_key") (of_option key) end)))))))
