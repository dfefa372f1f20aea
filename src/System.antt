-- ===== src/System.antt =====
-- The parts together: what the list of components/ProfilesWidgetCore.tsx does with the calls of the
-- detail that it renders, and how the server of frontend/src/mocks/handlers.ts reads a query.
pub mod Creation
pub mod Removal
use mathlib.Core.Path.{◌≡◌, refl}
use april_profile_kilo.ProfileDetail.{
  Notice, created_selected, entity_deleted_notice, list_asked, list_updated, told,
}
use april_profile_kilo.ProfilesList.Handlers.{
  ListEvent, detail_acted, detail_created, detail_deleted, list_revalidated,
}
use april_profile_kilo.Base.{List, [], some, ◌++◌, ◌∷◌}
use april_profile_kilo.Telemetry.{acted}
use april_profile_kilo.ProfilesList.{Seen}
use april_profile_kilo.Demo.Refinement.{seen}
use april_profile_kilo.Demo.Profiles.{PageQuery}
use april_profile_kilo.Providers.{ListQuery}

-- The callback that a call of the detail reaches, with what the render saw that made it; telemetry and
-- errors go to the host alone.
unfoldable pub event_of : Seen → Notice → List ListEvent
event_of seen (told (acted a)) = detail_acted seen a ∷ []
event_of seen (told output) = []
event_of seen (list_updated item) = list_revalidated seen ∷ []
event_of seen list_asked = list_revalidated seen ∷ []
event_of seen (entity_deleted_notice id) = detail_deleted seen ∷ []
event_of seen (created_selected id) = detail_created id ∷ []

unfoldable pub events_of : Seen → List Notice → List ListEvent
unfolding event_of
events_of seen [] = []
events_of seen (n ∷ ns) = event_of seen n ++ events_of seen ns

-- The parameters of GET /v1/entities, as the server reads them from the query of `list`.
unfoldable pub page_query_of : ListQuery → PageQuery
page_query_of q = record {
  search = q.search;
  entity_type_id = q.entity_type_id;
  limit = some q.limit;
  cursor = q.cursor;
}
