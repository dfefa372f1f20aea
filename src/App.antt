-- ===== src/App.antt =====
-- The demonstration application: frontend/src/App.tsx, and the pages under frontend/src/widgetDemos
-- with the links that they render and the messages that they show of a widget's actions.
pub mod Links
pub mod Surfaces
use mathlib.Core.Path.{◌≡◌, refl}
use april_profile_kilo.Telemetry.{
  Action, batch_upgrade_done, created, deleted, draft_saved, entity_upgrade_failed,
  entity_upgrade_requested, entity_upgrade_succeeded, family_created, family_deleted,
  family_patched, revision_published, updated,
}
use april_profile_kilo.Base.{
  Bool, List, Option, Text, [], codes, decimal, false, if◌then◌else◌, none, not, or_else, some,
  text_eq, true, ◌++◌, ◌∷◌,
}

pub data Page : Type 0 where
  home widget_demos showcase : Page
  profiles_demo entity_types_demo profiles_api_demo entity_types_api_demo : Page
  profiles_core_demo entity_types_core_demo : Page
  list_redirect profiles_surface detail_surface catalog_surface : Page
  schema_surface upgrade_surface integration_surface : Page

-- The `Routes` of `App`.
unfoldable pub routes : List (Text × Page)
routes =
    (codes "/", home)
    ∷ (codes "/widget-demos", widget_demos)
    ∷ (codes "/showcase", showcase)
    ∷ (codes "/profiles-widget-demo", profiles_demo)
    ∷ (codes "/entity-types-widget-demo", entity_types_demo)
    ∷ (codes "/profiles-api-widget-demo", profiles_api_demo)
    ∷ (codes "/entity-types-api-widget-demo", entity_types_api_demo)
    ∷ (codes "/profiles-widget-core-demo", profiles_core_demo)
    ∷ (codes "/entity-types-widget-core-demo", entity_types_core_demo)
    ∷ (codes "/demo/surfaces/profiles-widget-list", list_redirect)
    ∷ (codes "/demo/surfaces/profiles-widget", profiles_surface)
    ∷ (codes "/demo/surfaces/profiles-widget-profile-detail", detail_surface)
    ∷ (codes "/demo/surfaces/entity-types-widget-catalog-list", catalog_surface)
    ∷ (codes "/demo/surfaces/entity-types-widget-schema-admin", schema_surface)
    ∷ (codes "/demo/surfaces/entity-types-widget-entities-upgrade", upgrade_surface)
    ∷ (codes "/demo/surfaces/entity-types-widget-integration", integration_surface)
    ∷ []

-- The route of a path, none of which has parameters.
unfoldable pub route_in : Text → List (Text × Page) → Option Page
route_in path [] = none
route_in path ((p, page) ∷ rest) = if text_eq path p then some page else route_in path rest

unfoldable pub page_at : Text → Option Page
unfolding routes route_in
page_at path = route_in path routes

-- The links of `HomePage`.
abbrev home_links : List Text
home_links =
    codes "/widget-demos"
    ∷ codes "/showcase"
    ∷ codes "/profiles-widget-demo"
    ∷ codes "/entity-types-widget-demo"
    ∷ []

-- The links of `WidgetDemosIndexPage`.
abbrev index_links : List Text
index_links =
    codes "/profiles-widget-demo"
    ∷ codes "/entity-types-widget-demo"
    ∷ codes "/profiles-api-widget-demo"
    ∷ codes "/entity-types-api-widget-demo"
    ∷ codes "/profiles-widget-core-demo"
    ∷ codes "/entity-types-widget-core-demo"
    ∷ codes "/demo/surfaces/profiles-widget"
    ∷ codes "/demo/surfaces/profiles-widget-profile-detail"
    ∷ codes "/demo/surfaces/entity-types-widget-catalog-list"
    ∷ codes "/demo/surfaces/entity-types-widget-schema-admin"
    ∷ codes "/demo/surfaces/entity-types-widget-entities-upgrade"
    ∷ codes "/demo/surfaces/entity-types-widget-integration"
    ∷ codes "/showcase"
    ∷ codes "/"
    ∷ []

-- The links of `WidgetDemoChrome` and of `SurfaceDocDemoChrome`.
abbrev chrome_links : List Text
chrome_links = codes "/" ∷ codes "/widget-demos" ∷ []

-- Where a page leads within the application, by a link or by a redirection.
unfoldable pub links : Page → List Text
links home = home_links
links widget_demos = index_links
links showcase = codes "/" ∷ []
links list_redirect = codes "/demo/surfaces/profiles-widget" ∷ []
links page = chrome_links

-- `action.type`
unfoldable pub action_type : Action → Text
action_type (created item) = codes "created"
action_type (updated item) = codes "updated"
action_type (deleted id) = codes "deleted"
action_type (family_created id namespace code) = codes "family_created"
action_type (family_patched id) = codes "family_patched"
action_type (family_deleted id) = codes "family_deleted"
action_type (revision_published id) = codes "revision_published"
action_type (draft_saved id v) = codes "draft_saved"
action_type (entity_upgrade_requested id) = codes "entity_upgrade_requested"
action_type (entity_upgrade_succeeded id) = codes "entity_upgrade_succeeded"
action_type (entity_upgrade_failed id message) = codes "entity_upgrade_failed"
action_type (batch_upgrade_done id ok bad skipped) = codes "batch_upgrade_done"

-- `onAction` of the pages of the profile widgets, and of their surfaces; the profile widgets report no
-- other actions than these.
unfoldable pub demo_message : Action → Option Text
unfolding action_type
demo_message (deleted id) = some (codes "Deleted entity " ++ id)
demo_message (created item) =
    some (codes "created entity " ++ item.entity_id ++ codes ", version " ++ decimal item.version)
demo_message (updated item) =
    some (codes "updated entity " ++ item.entity_id ++ codes ", version " ++ decimal item.version)
demo_message other_action = none

unfoldable pub surface_message : Action → Option Text
surface_message (deleted id) = some (codes "deleted " ++ id)
surface_message (created item) = some (codes "created " ++ item.entity_id)
surface_message (updated item) = some (codes "updated " ++ item.entity_id)
surface_message other_action = none

-- `isDemoMswEnabled` and `useDemoApiEnv`: whether the build is for development, and the variables of
-- the environment.
pub record Env : Type 0 where
  pub dev : Bool
  pub api_base_url : Option Text
  pub access_token : Option Text
  pub demo_mock : Option Text

abbrev is_not_false : Option Text → Bool
is_not_false none = true
is_not_false (some t) = not (text_eq t (codes "false"))

unfoldable pub is_demo_msw_enabled : Env → Bool
is_demo_msw_enabled env = if not env.dev then false else is_not_false env.demo_mock

unfoldable pub demo_api_base : Env → Text
demo_api_base env = or_else env.api_base_url (codes "/admin/profile/api")
