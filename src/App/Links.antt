-- ===== src/App/Links.antt =====
-- The pages of the demonstration application and the ways between them.
use mathlib.Core.Path.{◌≡◌, refl, sym, ap}
use native.Mathlib.Omega.{arith}
use april_profile_kilo.App.{
  Page, catalog_surface, detail_surface, entity_types_api_demo, entity_types_core_demo,
  entity_types_demo, home, integration_surface, links, list_redirect, page_at, profiles_api_demo,
  profiles_core_demo, profiles_demo, profiles_surface, route_in, routes, schema_surface, showcase,
  upgrade_surface, widget_demos,
}
use april_profile_kilo.Base.{
  Bool, Bool-cases, List, Option, Text, [], any, codes, false, inl, inr, is_some, none, not, some,
  text_eq, text_eq_iff, true, ◌↔◌, ◌∙◌, ◌∷◌, ◌&&◌,
}

-- The pages that a visitor of the first can come to, page by page.
pub data Reaches : Page → Page → Type 0 where
  stay : {p : Page} → Reaches p p
  follow :
      {p q r : Page} (path : Text)
      → Reaches p q
      → any (text_eq path) (links q) ≡ true
      → page_at path ≡ some r
      → Reaches p r

abbrev pub all_of_them : (Text → Bool) → List Text → Bool
all_of_them f [] = true
all_of_them f (t ∷ ts) = f t && all_of_them f ts

abbrev pub is_redirect : Page → Bool
is_redirect list_redirect = true
is_redirect page = false

abbrev pub has_route : Text → Bool
has_route path = is_some (page_at path)

-- Every link of every page, the redirection included, names the path of a route.
pub links_have_routes : (p : Page) → all_of_them has_route (links p) ≡ true
unfolding links page_at routes route_in text_eq
links_have_routes home = refl
links_have_routes widget_demos = refl
links_have_routes showcase = refl
links_have_routes profiles_demo = refl
links_have_routes entity_types_demo = refl
links_have_routes profiles_api_demo = refl
links_have_routes entity_types_api_demo = refl
links_have_routes profiles_core_demo = refl
links_have_routes entity_types_core_demo = refl
links_have_routes list_redirect = refl
links_have_routes profiles_surface = refl
links_have_routes detail_surface = refl
links_have_routes catalog_surface = refl
links_have_routes schema_surface = refl
links_have_routes upgrade_surface = refl
links_have_routes integration_surface = refl

abbrev avoids_redirect : Text → Bool
avoids_redirect path = elim (page_at path) [ none ↦ true | some page ↦ not (is_redirect page) ]

links_avoid_redirect : (p : Page) → all_of_them avoids_redirect (links p) ≡ true
unfolding links page_at routes route_in text_eq
links_avoid_redirect home = refl
links_avoid_redirect widget_demos = refl
links_avoid_redirect showcase = refl
links_avoid_redirect profiles_demo = refl
links_avoid_redirect entity_types_demo = refl
links_avoid_redirect profiles_api_demo = refl
links_avoid_redirect entity_types_api_demo = refl
links_avoid_redirect profiles_core_demo = refl
links_avoid_redirect entity_types_core_demo = refl
links_avoid_redirect list_redirect = refl
links_avoid_redirect profiles_surface = refl
links_avoid_redirect detail_surface = refl
links_avoid_redirect catalog_surface = refl
links_avoid_redirect schema_surface = refl
links_avoid_redirect upgrade_surface = refl
links_avoid_redirect integration_surface = refl

all_at :
    (f : Text → Bool) (path : Text) (ts : List Text)
    → all_of_them f ts ≡ true
    → any (text_eq path) ts ≡ true
    → f path ≡ true
all_at f path [] h e = let absurd_case : false ≡ true = e in ground arith
all_at f path (t ∷ ts) h e = elim (Bool-cases (text_eq path t)) [
  | inl same ↦ rw ((text_eq_iff path t).0 same) (ground arith)
  | inr apart ↦ all_at f path ts (ground arith) (ground arith)
]

avoided :
    (path : Text) (r : Page)
    → page_at path ≡ some r
    → avoids_redirect path ≡ true
    → is_redirect r ≡ false
avoided path r here h =
    let there : not (is_redirect r) ≡ true =
      sym
        (ap (λ (o : Option Page). elim o [ none ↦ true | some page ↦ not (is_redirect page) ]) here)
      ∙ h in
    ground arith

reached_is_no_redirect : (p q : Page) → Reaches p q → is_redirect p ≡ false → is_redirect q ≡ false
reached_is_no_redirect p q stay h = h
reached_is_no_redirect p r (follow {q = q} path on link here) h =
    avoided path r here (all_at avoids_redirect path (links q) (links_avoid_redirect q) link)

module _ where
  to_index : Reaches home widget_demos
  unfolding links page_at routes route_in text_eq
  to_index = follow (codes "/widget-demos") stay refl refl

  by_index :
      (path : Text) (r : Page)
      → any (text_eq path) (links widget_demos) ≡ true
      → page_at path ≡ some r
      → Reaches home r
  by_index path r link here = follow path to_index link here

  reach : (p : Page) → is_redirect p ≡ false → Reaches home p
  unfolding links page_at routes route_in text_eq
  reach home h = stay
  reach widget_demos h = to_index
  reach showcase h = by_index (codes "/showcase") showcase refl refl
  reach profiles_demo h = by_index (codes "/profiles-widget-demo") profiles_demo refl refl
  reach entity_types_demo h =
      by_index (codes "/entity-types-widget-demo") entity_types_demo refl refl
  reach profiles_api_demo h =
      by_index (codes "/profiles-api-widget-demo") profiles_api_demo refl refl
  reach entity_types_api_demo h =
      by_index (codes "/entity-types-api-widget-demo") entity_types_api_demo refl refl
  reach profiles_core_demo h =
      by_index (codes "/profiles-widget-core-demo") profiles_core_demo refl refl
  reach entity_types_core_demo h =
      by_index (codes "/entity-types-widget-core-demo") entity_types_core_demo refl refl
  reach list_redirect h = let wrong : true ≡ false = h in ground arith
  reach profiles_surface h =
      by_index (codes "/demo/surfaces/profiles-widget") profiles_surface refl refl
  reach detail_surface h =
      by_index (codes "/demo/surfaces/profiles-widget-profile-detail") detail_surface refl refl
  reach catalog_surface h =
      by_index (codes "/demo/surfaces/entity-types-widget-catalog-list") catalog_surface refl refl
  reach schema_surface h =
      by_index (codes "/demo/surfaces/entity-types-widget-schema-admin") schema_surface refl refl
  reach upgrade_surface h =
      by_index (codes "/demo/surfaces/entity-types-widget-entities-upgrade") upgrade_surface refl
        refl
  reach integration_surface h =
      by_index (codes "/demo/surfaces/entity-types-widget-integration") integration_surface refl
        refl

-- A visitor can come from the home page to exactly the pages other than the old address of the list,
-- which only redirects.
pub reachable_pages : (p : Page) → Reaches home p ↔ (is_redirect p ≡ false)
reachable_pages p = (λ on. reached_is_no_redirect home p on refl, λ h. reach p h)
