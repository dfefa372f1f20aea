-- ===== src/ProfileDetail/Panes.antt =====
-- components/ProfilesWidgetProfileDetailCore.tsx: the schema panel, the title for the host's modal and
-- the version sheet's effects.
use april_profile_kilo.Base.{
  Option, Text, [], false, if◌then◌else◌, is_some, none, not, some, trim, ◌||◌, ◌∷◌,
}
use april_profile_kilo.ProfileDetail.Controls.{Frame, is_compact}
use april_profile_kilo.Runtime.{Runtime}
use april_profile_kilo.ProfileDetail.Schemas.{
  SchemaShown, card_name, schema_failed, schema_ready, absent_schema, loading_schema, unsupported,
}
use april_profile_kilo.Value.{Fields}
use april_profile_kilo.ProfileDetail.{ProfileState}

pub data SchemaPane : Type 0 where
  schema_loader no_schema_support no_schema : SchemaPane
  schema_alert : Text → SchemaPane
  schema_tree : Fields → SchemaPane

-- `renderPublishedSchemaPanel`
unfoldable pub schema_pane : SchemaShown → SchemaPane
schema_pane unsupported = no_schema_support
schema_pane loading_schema = schema_loader
schema_pane (schema_failed message) = schema_alert message
schema_pane absent_schema = no_schema
schema_pane (schema_ready fs) = schema_tree fs

-- The title that the host's modal is told, `none` for `null`.
abbrev title_text : Text → Option Text
title_text [] = none
title_text (c ∷ s) = some (c ∷ s)

unfoldable pub modal_title : Runtime → Frame → ProfileState → Option Text
unfolding card_name trim
modal_title rt f s =
    if not f.host_chrome || not (is_some f.list_item)
    then none
    else title_text (trim (card_name rt f.list_item s))

-- The effects on the sheet: another profile, or a layout with no sheet, closes it.
abbrev pub close_sheet : ProfileState → ProfileState
close_sheet s = record s { version_sheet = false }

unfoldable pub layout_effect : Frame → ProfileState → ProfileState
layout_effect f s = if is_compact f then s else close_sheet s
