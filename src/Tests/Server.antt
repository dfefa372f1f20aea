-- ===== src/Tests/Server.antt =====
-- The demonstration's server on concrete inputs.
use mathlib.Core.Path.{◌≡◌, refl}
use april_profile_kilo.Base.{
  List, Text, [], codes, none, some, text_eq, ◌∷◌, arith, drop, length, take, ℕ, ◌≤◌,
}
use april_profile_kilo.Demo.{Store, named}
use april_profile_kilo.Demo.Revisions.{Change, drafted, issued, posted}
use april_profile_kilo.Providers.EntityTypes.{SaveDraftInput}
use april_profile_kilo.Providers.{EntityTypeRow, ProfileRow, draft}
use april_profile_kilo.Demo.History.{upgrade_entity_history}
use april_profile_kilo.Demo.Profiles.{
  get_version, upgrade_entity, PageQuery, filtered, get_page, is_hit,
}
use april_profile_kilo.Value.{Value, end, field, null, object, string}
use april_profile_kilo.Runtime.{Runtime}
use april_profile_kilo.Demo.Contract.{
  Request, delete_entity_request, get_entity_request, get_version_request, model_serve_all,
  publish_request, put_entity_request,
}
use april_profile_kilo.Demo.Pages.{pages_never_end}
use april_profile_kilo.Demo.Refinement.{serve_all, view}
use april_profile_kilo.Demo.Refinement.Runs.{server_refines_contract}

abbrev contact : EntityTypeRow
contact = record {
  id = codes "t-1";
  namespace = codes "crm";
  code = codes "contact";
  status = draft;
  draft_schema = object end;
  draft_schema_version = 1;
  published_schema = null;
  published_schema_version = none;
  published_at = none;
  created_at = codes "2026-04-24T10:00:00Z";
}

abbrev pub ann_row : ProfileRow
ann_row = record {
  entity_id = codes "e-1";
  entity_type_id = codes "t-1";
  version = 1;
  created_at = codes "2026-04-24T10:00:00Z";
  preview = codes "Ann";
}

abbrev pub small_store : Store
small_store = record {
  families = (codes "t-1", contact) ∷ [];
  revisions = [];
  list_items = ann_row ∷ [];
  past_snapshots = [];
}

abbrev empty_store : Store
empty_store = record { families = []; revisions = []; list_items = []; past_snapshots = [] }

abbrev first_save : SaveDraftInput
first_save = record { draft_schema = object end; if_draft_schema_version = 1 }

abbrev second_save : SaveDraftInput
second_save = record { draft_schema = null; if_draft_schema_version = 1 }

abbrev publish_twice : List Change
publish_twice =
    posted (codes "t-2") (codes "now")
      (record { namespace = codes "crm"; code = codes "lead"; draft_schema = null })
    ∷ issued (codes "t-2") (codes "r-1") (codes "now")
    ∷ drafted (codes "t-2") first_save
    ∷ issued (codes "t-2") (codes "r-2") (codes "later")
    ∷ []

abbrev name_text : Value → Text
name_text (object (field k (string s) fs)) = s
name_text v = []

abbrev pub name_engine : Runtime
name_engine = record {
  parse = λ text. some (named (string text));
  compact = name_text;
  pretty = name_text;
  to_lower = λ t. t;
}

upgrade_entity_history_example :
    get_version name_engine (codes "e-1") 2 (upgrade_entity name_engine (codes "e-1") small_store).1
    ≡ (upgrade_entity name_engine (codes "e-1") small_store).0
unfolding text_eq
upgrade_entity_history_example =
    upgrade_entity_history name_engine (codes "e-1") small_store ann_row 2 refl

abbrev visit : List Request
visit =
    put_entity_request (codes "e-1") (named (string (codes "Ann Lee")))
    ∷ get_version_request (codes "e-1") 1
    ∷ publish_request (codes "t-1") (codes "r-1") (codes "now")
    ∷ delete_entity_request (codes "e-1")
    ∷ get_entity_request (codes "e-1")
    ∷ []

server_refines_contract_example :
    ((serve_all name_engine visit small_store).0
      ≡ (model_serve_all name_engine visit (view small_store)).0)
    × (view (serve_all name_engine visit small_store).1
        ≡ (model_serve_all name_engine visit (view small_store)).1)
server_refines_contract_example = server_refines_contract name_engine visit small_store

abbrev crowded_store : Store
crowded_store = record small_store { list_items = ann_row ∷ ann_row ∷ ann_row ∷ ann_row ∷ [] }

abbrev one_a_page : PageQuery
one_a_page = record { search = none; entity_type_id = none; limit = some 1; cursor = none }

pages_never_end_example :
    (start : ℕ) × (start ≤ 2)
    × ((get_page name_engine one_a_page crowded_store).items
        ≡ take 1 (drop start (filtered name_engine one_a_page crowded_store)))
    × (length (get_page name_engine one_a_page crowded_store).items ≡ 1)
    × ((get_page name_engine one_a_page crowded_store).next_cursor ≡ some (codes "cursor-2"))
pages_never_end_example =
    pages_never_end name_engine one_a_page crowded_store (unfold is_hit in omega arith)
