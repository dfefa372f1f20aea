-- ===== src/Display.antt =====
-- profileDisplay.ts under frontend/packages/profile-ui/src: names and labels of profiles.
pub mod Duplicates
use april_profile_kilo.Base.{
  Bool, List, Option, Text, [], codes, decimal, drop, false, if◌then◌else◌, is_nil, length, ltb,
  none, or_else, or_other, some, take, text_eq, trim, true, ◌++◌, ◌-◌, ◌∷◌,
}
use april_profile_kilo.Value.{Fields, Value, as_object, chain, object, string}
use april_profile_kilo.Providers.{ListItem}
use april_profile_kilo.Runtime.{Runtime}

-- `typeof v === "string" && v.trim()`, trimmed: `none` if it is no text or blank.
abbrev pub non_empty : Text → Option Text
non_empty [] = none
non_empty (c ∷ s) = some (c ∷ s)

unfoldable pub trimmed_text : Value → Option Text
unfolding trim
trimmed_text (string s) = non_empty (trim s)
trimmed_text v = none

-- `extractProfileNameFromDocument`
unfoldable pub extract_name : Value → Option Text
extract_name doc =
    or_other (trimmed_text (chain (codes "name") doc)) (trimmed_text (chain (codes "title") doc))

-- `shortenEntityIdForUi`
unfoldable pub shorten_entity_id : Text → Text
shorten_entity_id id =
    if ltb 14 (length id) then take 8 id ++ 0x2026 ∷ drop (length id - 4) id else id

-- `listSecondaryLabel`
unfoldable pub list_secondary_label : ListItem → Text
list_secondary_label item = b'v' ∷ decimal item.version

-- `excludeEntityId && it.entityId === excludeEntityId`
abbrev pub is_excluded : Option Text → ListItem → Bool
is_excluded none it = false
is_excluded (some []) it = false
is_excluded (some (c ∷ id)) it = text_eq it.entity_id (c ∷ id)

module _ (rt : Runtime) where
  -- `tryParsePreviewDocument`
  unfoldable pub try_parse_preview : Text → Option Fields
  try_parse_preview preview = elim (rt.parse preview) [ none ↦ none | some v ↦ as_object v ]

  -- `extractProfileNameFromDocument(tryParsePreviewDocument(preview) ?? undefined)`
  unfoldable pub preview_name : Text → Option Text
  unfolding try_parse_preview
  preview_name preview = elim (try_parse_preview preview) [
    | none ↦ none
    | some fs ↦ extract_name (object fs)
  ]

  -- `listPrimaryLabel`
  unfoldable pub list_primary_label : ListItem → Text
  unfolding preview_name
  list_primary_label item = or_else (preview_name item.preview) (shorten_entity_id item.entity_id)

  -- `raw.trim().toLowerCase()`
  unfoldable pub normalized : Text → Text
  unfolding trim
  normalized t = rt.to_lower (trim t)

  abbrev pub has_name : Text → ListItem → Bool
  has_name wanted it = elim (preview_name it.preview) [
    | none ↦ false
    | some existing ↦ text_eq (normalized existing) wanted
  ]

  -- The loop of `isDuplicateProfileName`.
  unfoldable pub duplicate_among : Text → Option Text → List ListItem → Bool
  duplicate_among wanted exclude [] = false
  duplicate_among wanted exclude (it ∷ items) =
      let rest = duplicate_among wanted exclude items in
      if is_excluded exclude it then rest else if has_name wanted it then true else rest

  unfoldable pub is_duplicate_name : Text → List ListItem → Option Text → Bool
  unfolding duplicate_among
  is_duplicate_name raw items exclude =
      if is_nil (normalized raw) then false else duplicate_among (normalized raw) exclude items
