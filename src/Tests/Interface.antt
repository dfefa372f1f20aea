-- ===== src/Tests/Interface.antt =====
-- What the widgets render, on concrete states, and a host that renders them.
use mathlib.Core.Path.{◌≡◌, refl}
use april_profile_kilo.Base.{
  All, Text, [], any, codes, false, is_nil, is_some, none, not, some, trim, true, ◌&&◌, ◌↔◌, ◌∷◌,
  text_eq, length,
}
use april_profile_kilo.Embed.{Embed, context_now, token_rotates, embedded}
use april_profile_kilo.Tests.Calls.{ann_arguments, no_text}
use april_profile_kilo.FamiliesList.{
  FamiliesState, begin_creation, catalog_reloaded, families_in, family_step, first_families,
}
use april_profile_kilo.ProfileDetail.OnScreen.{no_edit_when_read_only}
use april_profile_kilo.FamiliesList.Screen.{
  create_enabled_iff, families_screen, is_detail, is_enabled_create,
}
use april_profile_kilo.ProfileDetail.Offers.{is_create_editor, is_delete, is_edit, shown_at}
use april_profile_kilo.ProfilesList.Screen.{shown_in, widget_parts}
use april_profile_kilo.Providers.{build_config}
use april_profile_kilo.ProfileDetail.{ProfileState, is_historical}
use april_profile_kilo.Tests.Screens.{ann, bob, second_load}
use april_profile_kilo.ProfileDetail.Controls.{Frame}
use april_profile_kilo.ProfileDetail.Screen.{screen}
use april_profile_kilo.ProfilesList.Offers.{creator_shown_once, delete_shown_once}
use april_profile_kilo.App.Links.{Reaches, is_redirect, reachable_pages}
use april_profile_kilo.App.{home, integration_surface}
use april_profile_kilo.Tests.Families.{blank_engine, host_props}
use april_profile_kilo.Providers.Agreement.{all_requests}
use april_profile_kilo.Providers.Wire.{IsSentRight}
use april_profile_kilo.Transport.Promise.{fulfilled}
use april_profile_kilo.Tests.Details.{showing, still_engine}
use april_profile_kilo.ProfilesList.{ListState, grid}
use april_profile_kilo.FamiliesList.Reloads.{detail_remounted}
use april_profile_kilo.ProfilesList.Layout.{selected_row}
use april_profile_kilo.Editor.{form, mode_eq}
use april_profile_kilo.ProfileDetail.Schemas.{SchemaPanel, schema_failed, offers_form}
use april_profile_kilo.ProfileDetail.Views.{editor_panels, editor_view}
use april_profile_kilo.ProfileDetail.Modes.{mode_effects_settle, mode_passes, viewed_json}
use april_profile_kilo.Editor.Panes.{body_panes}
use april_profile_kilo.ProfileDetail.Drafts.{is_draft_editor, is_draft_toolbar}
use april_profile_kilo.App.Surfaces.{read_only_keeps_draft_toolbar, standalone_frame}

-- The second of two listed profiles is selected, in a grid.
abbrev in_grid : ListState
in_grid = record second_load {
  loading = false;
  items = ann ∷ bob ∷ [];
  view = grid;
  selected = some (codes "e-2");
}

-- No profile is being created; a draft of the newest version is open.
abbrev at_rest : ProfileState
at_rest = record showing { create_opened = false }

delete_shown_once_example :
    shown_in is_delete (widget_parts still_engine false true none in_grid at_rest) ≡ 1
unfolding selected_row text_eq
delete_shown_once_example = delete_shown_once still_engine false true none in_grid at_rest refl

abbrev adding : ListState
adding = record in_grid { selected = none; grid_create_session = true }

creator_shown_once_example :
    shown_in is_create_editor (widget_parts still_engine true true none adding showing) ≡ 1
creator_shown_once_example = creator_shown_once still_engine true true none adding showing

abbrev read_only_frame : Frame
read_only_frame = record {
  narrow = false;
  host_chrome = false;
  header_mounted = false;
  embed_create = false;
  editing_enabled = false;
  delete_allowed = true;
  list_item = some ann;
}

abbrev viewing_only : ProfileState
viewing_only = record at_rest { edit_mode = false }

no_edit_when_read_only_example :
    shown_at is_edit (screen still_engine read_only_frame viewing_only) ≡ 0
no_edit_when_read_only_example =
    no_edit_when_read_only still_engine read_only_frame viewing_only refl

-- The form of a new entity type, filled in.
abbrev filled : FamiliesState
filled = record first_families {
  list_loading = false;
  create_opened = true;
  create_namespace = codes "crm";
  create_code = codes "lead";
}

create_enabled_iff_example : any is_enabled_create (families_screen blank_engine filled) ≡ (
    not filled.list_loading
    && filled.create_opened
    && not (is_nil (trim filled.create_namespace))
    && not (is_nil (trim filled.create_code))
    && is_some (begin_creation blank_engine filled).1)
create_enabled_iff_example = create_enabled_iff blank_engine filled

detail_remounted_example :
    (any is_detail
        (families_screen blank_engine (family_step blank_engine host_props catalog_reloaded filled))
      ≡ false)
    × (any is_detail (
          families_screen blank_engine (
            family_step blank_engine host_props
              (families_in 5 1 (fulfilled []))
              (family_step blank_engine host_props catalog_reloaded filled)))
        ≡ true)
detail_remounted_example = detail_remounted blank_engine host_props filled 5 (fulfilled [])

abbrev before_refresh : Embed
before_refresh = record {
  base_url = codes "/admin/profile/api";
  token = some (codes "old");
  own_context = none;
}

abbrev after_refresh : Embed
after_refresh = record before_refresh { token = some (codes "new") }

abbrev same_bytes : Text → Text
same_bytes t = t

-- After a refresh of the token, all requests bear the new one.
token_rotates_example :
    ((embedded before_refresh (after_refresh ∷ [])).providers_made ≡ 1)
    × All
        (IsSentRight same_bytes no_text
          (build_config
            (embedded before_refresh (after_refresh ∷ [])).provider
            (context_now after_refresh (embedded before_refresh (after_refresh ∷ [])) none))
          (some (codes "new")))
        (all_requests ann_arguments)
token_rotates_example =
    token_rotates same_bytes no_text before_refresh (after_refresh ∷ []) none ann_arguments
      (refl, tt) refl

reachable_pages_example :
    Reaches home integration_surface ↔ (is_redirect integration_surface ≡ false)
reachable_pages_example = reachable_pages integration_surface

-- A schema that is refused, with a provider that reads schemas.
abbrev refused_panel : SchemaPanel
refused_panel = record {
  shown = schema_failed (codes "Access denied for this operation.");
  request = 1;
  fired_requests = [];
}

mode_effects_settle_example :
    (mode_passes 5 viewed_json false (editor_panels true refused_panel) form
      ≡ mode_passes 2 viewed_json false (editor_panels true refused_panel) form)
    × (length (
          body_panes
            (editor_view true true true refused_panel)
            (mode_passes 5 viewed_json false (editor_panels true refused_panel) form))
        ≡ 0)
unfolding offers_form mode_eq
mode_effects_settle_example =
    mode_effects_settle viewed_json false true true refused_panel true form 3

read_only_keeps_draft_toolbar_example :
    (shown_at is_draft_toolbar
        (screen still_engine (standalone_frame still_engine false true) at_rest)
      ≡ 1)
    × (shown_at is_draft_editor
          (screen still_engine (standalone_frame still_engine false true) at_rest)
        ≡ 0)
unfolding is_historical
read_only_keeps_draft_toolbar_example =
    read_only_keeps_draft_toolbar still_engine at_rest refl refl refl
