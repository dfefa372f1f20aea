-- ===== src/Providers/Upgrades.antt =====
-- providers/openapiEntityTypesProvider.ts: the upgrade of profiles to a revision of their type.
use april_profile_kilo.Base.{
  Bool, List, Option, Text, [], codes, if◌then◌else◌, is_some, none, some, ℕ, ◌||◌, ◌∷◌,
}
use april_profile_kilo.Value.{
  Items, Value, array, boolean, cons, end, field, nil, number, object, of_option, string, undefined,
}
use april_profile_kilo.Providers.{
  Details, Operation, Snapshot, one_field, plain_request, to_details, json_media,
}

pub record UpgradeInput : Type 0 where
  pub entity_type_revision_id : Option Text
  pub revision_no : Option ℕ

abbrev pub number_or_undefined : Option ℕ → Value
number_or_undefined none = undefined
number_or_undefined (some n) = number n

-- A body is sent only if one of the two fields is given.
unfoldable pub upgrade_body : Option UpgradeInput → Option Value
upgrade_body none = none
upgrade_body (some input) =
    if is_some input.entity_type_revision_id || is_some input.revision_no
    then some (
        object (
          field (codes "entity_type_revision_id") (of_option input.entity_type_revision_id)
            (field (codes "revision_no") (number_or_undefined input.revision_no) end)))
    else none

unfoldable pub upgrade_binding : Text → Option UpgradeInput → Operation Snapshot Details
unfolding upgrade_body
upgrade_binding entity_id input = record {
  request =
      record (plain_request (codes "POST")
        (codes "/v1/entities/{entityID}/upgrade-entity-type-revision")
        ((400, codes "Bad request")
          ∷ (401, codes "Unauthorized")
          ∷ (403, codes "Forbidden")
          ∷ (404, codes "Not found")
          ∷ (422, codes "Validation")
          ∷ [])) {
            path = one_field (codes "entityID") (string entity_id);
            media_type = json_media;
            body = upgrade_body input;
          };
  convert = to_details;
}

pub record BatchUpgradeInput : Type 0 where
  pub entity_type_id : Text
  pub target_revision_id : Option Text
  pub target_revision_no : Option ℕ
  pub entity_ids : Option (List Text)
  pub only_behind_latest : Option Bool
  pub limit : Option ℕ
  pub idempotency_key : Option Text

pub record BatchUpgradeRow : Type 0 where
  pub entity_id : Text
  pub ok : Bool
  pub code : Option Text
  pub message : Option Text
  pub profile_version : Option ℕ

pub record BatchUpgradeResult : Type 0 where
  pub processed : ℕ
  pub succeeded : ℕ
  pub failed : ℕ
  pub idempotency_key : Option Text
  pub results : List BatchUpgradeRow

abbrev pub text_items : List Text → Items
text_items [] = nil
text_items (t ∷ ts) = cons (string t) (text_items ts)

abbrev pub texts_or_undefined : Option (List Text) → Value
texts_or_undefined none = undefined
texts_or_undefined (some ts) = array (text_items ts)

abbrev pub boolean_or_undefined : Option Bool → Value
boolean_or_undefined none = undefined
boolean_or_undefined (some b) = boolean b

-- The rows of the response have the fields of the result, in snake case.
unfoldable pub batch_upgrade : BatchUpgradeInput → Operation BatchUpgradeResult BatchUpgradeResult
batch_upgrade input = record {
  request =
      record (plain_request (codes "POST") (codes "/v1/entities/batch-upgrade-entity-type-revision")
        ((400, codes "Bad request")
          ∷ (401, codes "Unauthorized")
          ∷ (403, codes "Forbidden")
          ∷ [])) {
            media_type = json_media;
            body = some (
                object (
                  field (codes "entity_type_id") (string input.entity_type_id) (
                    field (codes "target_entity_type_revision_id")
                      (of_option input.target_revision_id)
                      (field (codes "target_revision_no")
                        (number_or_undefined input.target_revision_no)
                        (field (codes "entity_ids") (texts_or_undefined input.entity_ids) (
                          field (codes "only_behind_latest")
                            (boolean_or_undefined input.only_behind_latest)
                            (field (codes "limit") (number_or_undefined input.limit) (
                              field (codes "idempotency_key") (of_option input.idempotency_key)
                                end))))))));
          };
  convert = λ r. r;
}
