-- ===== src/ProfileDetail/Screen.antt =====
-- components/ProfilesWidgetProfileDetailCore.tsx: what the component renders, place by place. Styling
-- and fixed texts are left out.
use april_profile_kilo.ProfileDetail.Controls.{
  Element, Frame, cancel_create_button, card_title, create_button, create_can_save, create_editor,
  create_toolbar, detail_toolbar, details_alert, details_loader, edit_document, history_alert,
  is_compact, is_creating, lacks_versions, mutation_alert, no_versions, nothing_alert,
  shell_controls, shown_if, version_row, version_select, view_document,
}
use april_profile_kilo.Base.{
  Bool, List, Option, Text, [], codes, decimal, if◌then◌else◌, is_nil, is_some, ltb, map, none, not,
  some, text_eq, ℕ, ◌&&◌, ◌++◌, ◌==◌, ◌||◌, ◌∷◌,
}
use april_profile_kilo.ProfileDetail.{ProfileState, is_historical}
use april_profile_kilo.Providers.{Details}
use april_profile_kilo.Runtime.{Runtime}
use april_profile_kilo.ProfileDetail.Schemas.{card_name}
use april_profile_kilo.Demo.{all_of}

-- The header of the host's modal, the component's column, the bar at its foot, and two overlays.
pub data Place : Type 0 where
  host_header column shell_bar create_modal version_list : Place

abbrev pub placed : Place → List Element → List (Place × Element)
placed p [] = []
placed p (e ∷ es) = (p, e) ∷ placed p es

-- `sort((a, b) => b - a)` on distinct numbers
unfoldable pub insert_desc : ℕ → List ℕ → List ℕ
insert_desc n [] = n ∷ []
insert_desc n (m ∷ ms) = if ltb m n then n ∷ m ∷ ms else m ∷ insert_desc n ms

unfoldable pub sort_desc : List (ℕ × Details) → List ℕ
unfolding insert_desc
sort_desc [] = []
sort_desc ((n, d) ∷ m) = insert_desc n (sort_desc m)

abbrev version_label : Option ℕ → ℕ → Text
version_label none v = b'v' ∷ decimal v
version_label (some head) v =
    if v == head then b'v' ∷ decimal v ++ codes " (current)" else b'v' ∷ decimal v

-- `String(viewedVersion)`
abbrev viewed_text : Option ℕ → Text
viewed_text none = codes "null"
viewed_text (some v) = decimal v

abbrev pub version_element : ProfileState → ℕ → Element
version_element s v =
    version_row (decimal v) (version_label s.head_version v)
      (text_eq (decimal v) (viewed_text s.viewed_version))

-- `versionSelectData`, as the rows of the version sheet.
unfoldable pub version_rows : ProfileState → List Element
unfolding sort_desc
version_rows s = map (version_element s) (sort_desc s.versions)

-- `createProfileHeaderIconButtons`
abbrev pub create_icons : Runtime → ProfileState → List Element
create_icons rt s =
    cancel_create_button ∷ create_button (not (create_can_save rt s)) (is_creating s) ∷ []

-- `createProfileHeaderActions`, empty for `null`.
unfoldable pub create_actions : Runtime → Frame → ProfileState → List Element
unfolding create_can_save
create_actions rt f s =
    if f.embed_create && s.create_opened
    then shown_if (not f.narrow) (create_toolbar ∷ create_icons rt s)
    else create_icons rt s

-- `showMobileInlineCreateChrome`
abbrev pub creates_inline : Frame → ProfileState → Bool
creates_inline f s = s.create_opened && (f.embed_create || (f.narrow && not f.embed_create))

abbrev pub alert_if : (Text → Element) → Option Text → List Element
alert_if alert none = []
alert_if alert (some []) = []
alert_if alert (some (c ∷ s)) = alert (c ∷ s) ∷ []

module _ (rt : Runtime) where
  unfoldable pub create_part : Frame → ProfileState → List (Place × Element)
  unfolding create_actions create_can_save
  create_part f s =
      placed host_header (shown_if f.header_mounted (create_actions rt f s))
      ++ placed column (create_editor ∷ [])
      ++ placed shell_bar (
          shown_if f.narrow (
            cancel_create_button
            ∷ create_toolbar
            ∷ create_button (not (create_can_save rt s)) (is_creating s)
            ∷ []))

  -- The card's header where the host has none.
  unfoldable pub card_header : Frame → ProfileState → List Element
  unfolding detail_toolbar card_name
  card_header f s = shown_if (not f.host_chrome) (
      card_title (card_name rt f.list_item s)
      ∷ (if f.narrow
          then version_select (lacks_versions s) s.versions_loading ∷ []
          else all_of (detail_toolbar rt f s)))

  unfoldable pub document_part : Frame → ProfileState → List (Place × Element)
  unfolding shell_controls is_historical
  document_part f s =
      placed column (
        if f.editing_enabled && s.edit_mode && not (is_historical s)
        then edit_document ∷ []
        else view_document ∷ [])
      ++ placed shell_bar (
          shown_if (f.narrow && is_some f.list_item && not s.version_sheet) (shell_controls rt f s))

  unfoldable pub detail_part : Frame → ProfileState → List (Place × Element)
  unfolding detail_toolbar card_header document_part is_historical
  detail_part f s =
      placed host_header
        (shown_if (f.host_chrome && f.header_mounted) (all_of (detail_toolbar rt f s)))
      ++ placed column (
          card_header f s
          ++ shown_if (is_historical s) (history_alert ∷ [])
          ++ alert_if details_alert s.details_error)
      ++ (if s.details_loading then placed column (details_loader ∷ []) else document_part f s)

  -- The column: the creation, the selected profile, or a message.
  unfoldable pub main_part : Frame → ProfileState → List (Place × Element)
  unfolding create_part detail_part
  main_part f s =
      if creates_inline f s
      then create_part f s
      else if is_some f.list_item
      then detail_part f s
      else placed column (nothing_alert ∷ [])

  unfoldable pub overlays : Frame → ProfileState → List (Place × Element)
  unfolding create_actions version_rows
  overlays f s =
      placed create_modal (
        shown_if (s.create_opened && not f.embed_create && not f.narrow)
          (create_actions rt f s ++ create_editor ∷ []))
      ++ placed version_list (
          shown_if (is_compact f && s.version_sheet)
            (if is_nil s.versions then no_versions ∷ [] else version_rows s))

  unfoldable pub screen : Frame → ProfileState → List (Place × Element)
  unfolding main_part overlays
  screen f s =
      placed column (alert_if mutation_alert s.mutation_error) ++ main_part f s ++ overlays f s
