-- ===== src/Demo/Refinement/Runs.antt =====
-- Sequences of requests to frontend/src/mocks/handlers.ts.
use mathlib.Core.Path.{◌≡◌, refl, ap}
use april_profile_kilo.Demo.Refinement.Profiles.{
  delete_entity_refines, post_entity_refines, put_entity_refines, upgrade_refines,
}
use april_profile_kilo.Demo.{Store, Reply}
use april_profile_kilo.Base.{List, Option, [], find, get, ◌∷◌, Text, none, some}
use april_profile_kilo.Demo.Contract.{
  Answer, Request, delete_entity_request, delete_family_request, get_entity_request,
  get_family_request, get_revisions_request, get_version_request, model_serve, model_serve_all,
  patch_family_request, post_entity_request, post_family_request, publish_request,
  put_draft_request, put_entity_request, upgrade_entity_request, of_snapshot, model_entity,
}
use april_profile_kilo.Demo.Refinement.Families.{
  delete_refines, patch_refines, post_refines, publish_refines, put_refines,
}
use april_profile_kilo.Demo.Refinement.{seen, serve, serve_all, view}
use april_profile_kilo.Demo.Profiles.{get_entity, get_version, is_row, put_entity, upgrade_entity}
use april_profile_kilo.Providers.{ProfileRow, Snapshot}
use april_profile_kilo.Demo.Families.{
  get_one_family, get_revisions, patch_one_family, publish, put_draft,
}
use april_profile_kilo.Runtime.{Runtime}

module _ (rt : Runtime) where
  entity_reply :
      (id : Text) (s : Store) (o : Option ProfileRow)
      → find (is_row id) s.list_items ≡ o
      → get_entity rt id s ≡ model_entity rt o
  unfolding get_entity
  entity_reply id s none found = rw (get_entity, found) refl
  entity_reply id s (some row) found = rw (get_entity, found) refl

  serve_refines : (r : Request) (s : Store) → seen (serve rt r s) ≡ model_serve rt r (view s)
  unfolding serve model_serve view patch_one_family put_draft publish put_entity upgrade_entity
      get_one_family get_revisions get_entity get_version
  serve_refines (post_family_request fresh now body) s = post_refines rt fresh now body s
  serve_refines (patch_family_request id namespace code) s =
      patch_refines id namespace code s (get id s.families)
  serve_refines (delete_family_request id) s = delete_refines id s (get id s.families) refl
  serve_refines (get_family_request id) s = refl
  serve_refines (get_revisions_request id) s = refl
  serve_refines (put_draft_request id body) s = put_refines id body s (get id s.families)
  serve_refines (publish_request id fresh now) s =
      publish_refines id fresh now s (get id s.families)
  serve_refines (post_entity_request fresh now body) s = post_entity_refines rt fresh now body s
  serve_refines (put_entity_request id document) s =
      put_entity_refines rt id document s (find (is_row id) s.list_items) refl
  serve_refines (delete_entity_request id) s = delete_entity_refines rt id s
  serve_refines (upgrade_entity_request id) s =
      upgrade_refines rt id s (find (is_row id) s.list_items) refl
  serve_refines (get_entity_request id) s =
      ap (λ (reply : Reply Snapshot). (of_snapshot reply, view s))
        (entity_reply id s (find (is_row id) s.list_items) refl)
  serve_refines (get_version_request id version) s = refl

  -- Any sequence of requests (create, read, patch, delete, save a draft, publish, list revisions; and
  -- create, read, read a version, update, upgrade and delete for profiles) gets the answers that the
  -- contract gives from the view of the store, and ends in a store with the contract's state as its
  -- view: neither the order of entries nor that of rows shows in an answer.
  pub server_refines_contract :
      (rs : List Request) (s : Store)
      → ((serve_all rt rs s).0 ≡ (model_serve_all rt rs (view s)).0)
        × (view (serve_all rt rs s).1 ≡ (model_serve_all rt rs (view s)).1)
  unfolding serve_all model_serve_all
  server_refines_contract [] s = (refl, refl)
  server_refines_contract (r ∷ rs) s =
      let step = serve_refines r s in
      let rest = server_refines_contract rs (serve rt r s).1 in
      rw (← step) (ap (λ (l : List Answer). (serve rt r s).0 ∷ l) rest.0, rest.1)
