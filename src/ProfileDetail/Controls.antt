-- ===== src/ProfileDetail/Controls.antt =====
-- components/ProfilesWidgetProfileDetailCore.tsx: the controls that a profile's toolbars offer. Colours,
-- sizes and icons are left out.
use april_profile_kilo.Base.{
  Bool, List, Option, Text, [], codes, false, if◌then◌else◌, is_nil, is_some, none, not, some,
  text_eq, true, ◌&&◌, ◌++◌, ◌||◌, ◌∷◌,
}
use april_profile_kilo.Providers.{ListItem}
use april_profile_kilo.Editor.{Parsed, mode_eq, parse_draft, parsed, refused, source}
use april_profile_kilo.Runtime.{Runtime}
use april_profile_kilo.ProfileDetail.{ProfileState, is_historical}

-- The properties and the viewport that decide what is rendered.
pub record Frame : Type 0 where
  -- `matchesNarrowViewport` and `hostGridProfileModalChrome`
  pub narrow : Bool
  pub host_chrome : Bool
  -- a `gridModalDetailHeaderHostEl` is there
  pub header_mounted : Bool
  pub embed_create : Bool
  pub editing_enabled : Bool
  pub delete_allowed : Bool
  pub list_item : Option ListItem

-- A Boolean argument says that the control is disabled, the last one that it shows as loading.
pub data Element : Type 0 where
  versions_button version_select : Bool → Bool → Element
  edit_toolbar view_toolbar create_toolbar : Element
  save_history_button delete_button : Bool → Element
  save_changes_button create_button : Bool → Bool → Element
  edit_button cancel_edit_button cancel_create_button : Element
  create_editor edit_document view_document details_loader : Element
  history_alert nothing_alert no_versions : Element
  card_title mutation_alert details_alert : Text → Element
  -- its value, its label, and whether it is the version on view
  version_row : Text → Text → Bool → Element

-- `test ? elements : null`
abbrev pub shown_if {ℓ} : {A : Type ℓ} → Bool → List A → List A
shown_if true xs = xs
shown_if false xs = []

-- `===` on ids that may be null
unfoldable pub same_id : Option Text → Option Text → Bool
same_id none none = true
same_id (some s) (some t) = text_eq s t
same_id _ _ = false

-- `busyEntityId === entityId`
abbrev pub is_busy : ProfileState → Bool
is_busy s = same_id s.busy_entity s.entity_id

abbrev pub is_creating : ProfileState → Bool
is_creating s = same_id s.busy_entity (some (codes "create"))

-- `detailsLoading || Object.keys(versionDetailsByNum).length === 0`
abbrev pub lacks_versions : ProfileState → Bool
lacks_versions s = s.details_loading || is_nil s.versions

abbrev parses : Parsed → Bool
parses (parsed fs) = true
parses (refused message) = false

-- `compactProfileOverlayChrome`
abbrev pub is_compact : Frame → Bool
is_compact f = f.narrow && f.host_chrome

module _ (rt : Runtime) where
  -- `editDraftSaveOk`
  unfoldable pub edit_can_save : ProfileState → Bool
  unfolding parse_draft
  edit_can_save s =
      if mode_eq s.edit_draft_mode source then parses (parse_draft rt s.edit_draft_text) else true

  -- `createDraftSaveOk`
  unfoldable pub create_can_save : ProfileState → Bool
  unfolding parse_draft
  create_can_save s =
      if mode_eq s.create_draft_mode source
      then parses (parse_draft rt s.create_draft_text)
      else true

  -- The editor's own toolbar, of the draft or of the document on view.
  abbrev pub mode_toolbars : ProfileState → List Element
  mode_toolbars s =
      shown_if (not s.details_loading && s.edit_mode && not (is_historical s)) (edit_toolbar ∷ [])
      ++ shown_if (not s.details_loading && (not s.edit_mode || is_historical s))
          (view_toolbar ∷ [])

  -- `profileDetailToolbar`, `none` for `null`.
  unfoldable pub detail_toolbar : Frame → ProfileState → Option (List Element)
  unfolding edit_can_save is_historical
  detail_toolbar f s =
      if f.narrow
      then none
      else if is_compact f && s.version_sheet
      then none
      else some (
          (if is_compact f
            then versions_button (lacks_versions s) s.versions_loading ∷ []
            else version_select (lacks_versions s) s.versions_loading ∷ [])
          ++ mode_toolbars s
          ++ shown_if (f.editing_enabled && is_historical s) (save_history_button (is_busy s) ∷ [])
          ++ shown_if (f.editing_enabled && not (is_historical s)) (
              if s.edit_mode
              then save_changes_button (not (edit_can_save s)) (is_busy s) ∷ cancel_edit_button ∷ []
              else edit_button ∷ [])
          ++ shown_if f.delete_allowed (delete_button (is_busy s) ∷ []))

  -- `profileDetailMobileShellMainCenter`, empty for `null`.
  unfoldable pub shell_controls : Frame → ProfileState → List Element
  unfolding edit_can_save is_historical
  shell_controls f s = shown_if (f.narrow && is_some f.list_item) (
      shown_if (is_compact f) (versions_button (lacks_versions s) s.versions_loading ∷ [])
      ++ mode_toolbars s
      ++ shown_if (f.editing_enabled && not (is_historical s) && not s.edit_mode) (edit_button ∷ [])
      ++ shown_if f.delete_allowed (delete_button (is_busy s) ∷ [])
      ++ shown_if (f.editing_enabled && is_historical s) (save_history_button (is_busy s) ∷ [])
      ++ shown_if (f.editing_enabled && not (is_historical s) && s.edit_mode)
          (cancel_edit_button ∷ save_changes_button (not (edit_can_save s)) (is_busy s) ∷ []))
