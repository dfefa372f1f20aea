-- ===== src/App/Surfaces.antt =====
-- frontend/src/widgetDemos/demoShared.ts and surfaceDemos/SurfaceDocDemoPages.tsx: the sample rows, and
-- the page that shows the profile detail by itself.
use mathlib.Core.Path.{◌≡◌, refl}
use native.Mathlib.Omega.{arith}
use april_profile_kilo.ProfileDetail.OnScreen.{delete_offered_once, no_edit_when_read_only}
use april_profile_kilo.Value.{string}
use april_profile_kilo.Base.{
  Bool, List, Option, Text, [], codes, false, map, none, not, some, true, ◌++◌, ◌∷◌,
}
use april_profile_kilo.ProfileDetail.Screen.{creates_inline, screen}
use april_profile_kilo.ProfileDetail.Controls.{Frame}
use april_profile_kilo.Providers.{ListItem, to_list_item}
use april_profile_kilo.Demo.Seeds.{initial_list}
use april_profile_kilo.Runtime.{Runtime}
use april_profile_kilo.Demo.{named}
use april_profile_kilo.ProfileDetail.Offers.{is_delete, is_edit, shown_at}
use april_profile_kilo.ProfileDetail.{ProfileState, is_historical}
use april_profile_kilo.ProfileDetail.Drafts.{
  draft_editor_shown, draft_toolbar_shown, is_draft_editor, is_draft_toolbar,
}

abbrev demo_item : Runtime → Text → Text → Text → Text → ListItem
demo_item rt entity_id type_id stamp name = record {
  entity_id = entity_id;
  entity_type_id = type_id;
  version = 1;
  updated_at = stamp;
  preview = rt.compact (named (string name));
}

-- `DEMO_PROFILES_SEED_LIST_ITEMS`, with its own copies of the ids.
unfoldable pub demo_seed_items : Runtime → List ListItem
demo_seed_items rt =
    demo_item rt (codes "c7c5e6ea-8787-4ca0-a691-9f4fdc9830ff")
      (codes "89ac9958-fec8-43d7-8908-f0438e8e0e39") (codes "2026-04-24T10:00:00Z")
      (codes "Acme Corp")
    ∷ demo_item rt (codes "4f18363d-70e8-4814-9d12-5236b18877d0")
        (codes "89ac9958-fec8-43d7-8908-f0438e8e0e39") (codes "2026-04-24T10:01:00Z")
        (codes "Contoso Ltd")
    ∷ demo_item rt (codes "d6f55c6c-6ea8-4ad2-b42b-7e7eefaf55a3")
        (codes "7fd4f598-c6a7-4b44-9fd8-e8cb2e65d6ad") (codes "2026-04-24T10:02:00Z")
        (codes "Order #1042")
    ∷ []

-- `profileWidgetDocUrl`
unfoldable pub profile_widget_doc_url : Text → Text
profile_widget_doc_url file_name =
    codes "https://github.com/ukituki-ps/april-profile/blob/develop/docs/widgets/profile/"
    ++ file_name

abbrev first_of : List ListItem → Option ListItem
first_of [] = none
first_of (item ∷ items) = some item

-- What `ProfilesSurfaceDetailStandaloneBody` passes on and the viewport; the host has no dialog around
-- the detail, so no header of its own.
unfoldable pub standalone_frame : Runtime → Bool → Bool → Frame
unfolding demo_seed_items
standalone_frame rt narrow read_only = record {
  narrow = narrow;
  host_chrome = false;
  header_mounted = false;
  embed_create = false;
  editing_enabled = not read_only;
  delete_allowed = not read_only;
  list_item = first_of (demo_seed_items rt);
}

-- The sample rows of the pages are the rows that the demonstration's server starts with, as the
-- provider returns them.
pub demo_items_are_seeds : (rt : Runtime) → map to_list_item (initial_list rt) ≡ demo_seed_items rt
unfolding demo_seed_items initial_list to_list_item
demo_items_are_seeds rt = refl

-- Switched to read-only with no draft open, the page shows nothing that edits or deletes the profile,
-- on any viewport; otherwise a wide viewport shows the button that deletes it exactly once.
pub read_only_switch :
    (rt : Runtime) (narrow : Bool) (s : ProfileState)
    → s.edit_mode ≡ false
    → (shown_at is_edit (screen rt (standalone_frame rt narrow true) s) ≡ 0)
      × (shown_at is_delete (screen rt (standalone_frame rt narrow true) s) ≡ 0)
      × (shown_at is_delete (screen rt (standalone_frame rt false false) s) ≡ 1)
unfolding standalone_frame demo_seed_items creates_inline
read_only_switch rt narrow s closed = (
  no_edit_when_read_only rt (standalone_frame rt narrow true) s (ground arith),
  ground (arith, delete_offered_once rt (standalone_frame rt narrow true) s),
  ground (arith, delete_offered_once rt (standalone_frame rt false false) s),
)

-- A user who is editing the newest version and then switches the page to read-only no longer sees the
-- draft, and sees the draft's toolbar all the same, on a wide viewport exactly once: it drives an
-- editor that is not on the screen.
pub read_only_keeps_draft_toolbar :
    (rt : Runtime) (s : ProfileState)
    → s.edit_mode ≡ true
    → is_historical s ≡ false
    → s.details_loading ≡ false
    → (shown_at is_draft_toolbar (screen rt (standalone_frame rt false true) s) ≡ 1)
      × (shown_at is_draft_editor (screen rt (standalone_frame rt false true) s) ≡ 0)
unfolding standalone_frame demo_seed_items creates_inline
read_only_keeps_draft_toolbar rt s draft_open newest loaded = (
  ground (arith, draft_toolbar_shown rt (standalone_frame rt false true) s),
  ground (arith, draft_editor_shown rt (standalone_frame rt false true) s),
)
