-- ===== src/System/Creation.antt =====
-- A profile is created: from the answer of the server to the selection in the list.
use mathlib.Core.Path.{subst, ◌≡◌, refl, ap, sym}
use april_profile_kilo.Demo.Profiles.{get_page, is_hit, post_entity}
use april_profile_kilo.ProfilesList.Handlers.{
  detail_acted, detail_created, list_revalidated, child_acted, run, step,
}
use april_profile_kilo.Base.{
  Bool-cases, Text, [], false, inl, inr, is_nil, none, some, suc, ◌∷◌, List, codes, text_eq, trim,
  true, ℕ, text_eq_refl, ==_refl, first, ◌∙◌, ◌++◌,
}
use april_profile_kilo.ProfilesList.{
  ListState, Load, Props, Seen, abort_current, begin_load, list_query, show_loading, has_id,
  load_succeeded, merged_items, store_page,
}
use april_profile_kilo.Demo.{Reply, Store, json, build_snapshot, remember}
use april_profile_kilo.Providers.{
  Details, ListPage, Snapshot, to_page, ProfileRow, to_list_item, to_details,
}
use april_profile_kilo.Telemetry.{created, emit}
use april_profile_kilo.System.{event_of, events_of, page_query_of}
use april_profile_kilo.ProfileDetail.{DetailProps, ProfileState}
use april_profile_kilo.Runtime.{Runtime}
use april_profile_kilo.ProfileDetail.Creating.{create_answered}
use april_profile_kilo.ProfileDetail.Editing.{item_of}
use april_profile_kilo.Transport.Promise.{fulfilled}
use april_profile_kilo.Demo.Refinement.{seen}
use april_profile_kilo.Providers.Profiles.{CreateInput}
use april_profile_kilo.Transport.Call.{quiet}
use april_profile_kilo.ProfilesList.Selection.{preferred_is_selected}

abbrev reply_id : Reply Snapshot → Text
reply_id (json status snap) = snap.entity_id
reply_id reply = []

-- The page that the server returns for the query of a load.
abbrev pub page_served : Runtime → Props → Seen → Store → ListPage
page_served rt p seen store = to_page (get_page rt (page_query_of (list_query p seen none)) store)

-- The load that is begun last, numbered as the state says.
abbrev pub last_load : Props → Seen → ListState → Load
last_load p seen s = record {
  id = s.request_id;
  append = false;
  asks = list_query p seen none;
  aborted = false;
}

module _ (p : Props) (seen : Seen) (s : ListState) where
  pub begin_load_keeps :
      ((begin_load p seen none false s).preferred ≡ s.preferred)
      × ((begin_load p seen none false s).grid_create_session ≡ s.grid_create_session)
      × ((earlier : List Load) × ((begin_load p seen none false s).in_flight
            ≡ earlier ++ last_load p seen (begin_load p seen none false s) ∷ []))
  unfolding begin_load show_loading abort_current
  begin_load_keeps = elim (Bool-cases (is_nil s.items)) [
    | inl blank ↦ rw (begin_load, show_loading, blank) (refl, refl, (_, refl))
    | inr listed ↦ rw (begin_load, show_loading, listed) (refl, refl, (_, refl))
  ]

-- The list once it has got the calls of a detail whose creation was answered.
abbrev pub told_list :
    Runtime → Props → DetailProps → Seen → Details → ProfileState → ListState → ListState
told_list rt p dp seen details d s =
    run p (events_of seen (create_answered rt dp (fulfilled details) d).notices) s

events_of_creation :
    (rt : Runtime) (dp : DetailProps) (seen : Seen) (details : Details) (d : ProfileState)
    → d.notices ≡ []
    → events_of seen (create_answered rt dp (fulfilled details) d).notices
      ≡ detail_acted seen (created (item_of rt details))
        ∷ detail_created details.entity_id
        ∷ list_revalidated seen
        ∷ []
unfolding events_of event_of create_answered emit
events_of_creation rt dp seen details d h = elim (Bool-cases dp.observes) [
  | inl on ↦ rw (events_of, create_answered, h, on) refl
  | inr off ↦ rw (events_of, create_answered, h, off) refl
]

-- With no search and all types, the rows of the store are all hits.
module _ (rt : Runtime) (p : Props) (seen : Seen) (blank : trim seen.query ≡ [])
    (all_types : seen.filter_type_id ≡ codes "all") (lower : rt.to_lower [] ≡ []) where
  asks_all :
      ((page_query_of (list_query p seen none)).search ≡ none)
      × ((page_query_of (list_query p seen none)).entity_type_id ≡ none)
      × ((page_query_of (list_query p seen none)).limit ≡ some p.page_size)
      × ((page_query_of (list_query p seen none)).cursor ≡ none)
  unfolding page_query_of list_query text_eq
  asks_all = (rw blank refl, rw all_types refl, refl, refl)

  hits_all : (row : ProfileRow) → is_hit rt (rt.to_lower []) [] row ≡ true
  unfolding is_hit
  hits_all row = rw lower refl

  first_served :
      (n : ℕ) (row : ProfileRow) (rows : List ProfileRow) (store : Store)
      → p.page_size ≡ suc n
      → store.list_items ≡ row ∷ rows
      → has_id row.entity_id (page_served rt p seen store).items ≡ true
  unfolding to_page to_list_item get_page
  first_served n row rows store size listed =
      let (search, type_id, limit, cursor) = asks_all in
      rw
        (
          page_served,
          to_page,
          get_page,
          search,
          type_id,
          limit,
          cursor,
          size,
          listed,
          hits_all row,
          text_eq_refl row.entity_id,
        )
        refl

-- The row that the server puts first for a new profile.
posted :
    (rt : Runtime) (fresh now : Text) (input : CreateInput) (store : Store)
    → (row : ProfileRow) × (row.entity_id ≡ fresh)
      × ((post_entity rt fresh now input store).1.list_items ≡ row ∷ store.list_items)
unfolding post_entity remember
posted rt fresh now input store = (_, refl, refl)

posted_id :
    (rt : Runtime) (fresh now : Text) (input : CreateInput) (store : Store) (snap : Snapshot)
    → (post_entity rt fresh now input store).0 ≡ json 201 snap
    → snap.entity_id ≡ fresh
unfolding post_entity build_snapshot
posted_id rt fresh now input store snap h = sym (ap reply_id h)

module _ (rt : Runtime) (p : Props) (dp : DetailProps) (seen : Seen) (s : ListState)
    (d : ProfileState) where
  -- What the creation leaves of the list, before the answer of its load.
  told_of_creation :
      (details : Details)
      → d.notices ≡ []
      → told_list rt p dp seen details d s
        ≡ begin_load p seen none false
            (record (child_acted p seen (created (item_of rt details)) s) {
              preferred = some details.entity_id;
            })
  unfolding run step
  told_of_creation details h = rw (events_of_creation rt dp seen details d h) refl

  awaits_created :
      (details : Details)
      → d.notices ≡ []
      → ((told_list rt p dp seen details d s).preferred ≡ some details.entity_id)
        × ((earlier : List Load) × ((told_list rt p dp seen details d s).in_flight
              ≡ earlier ++ last_load p seen (told_list rt p dp seen details d s) ∷ []))
  awaits_created details h =
      let kept =
        begin_load_keeps p seen (record (child_acted p seen (created (item_of rt details)) s) {
          preferred = some details.entity_id;
        }) in
      rw (told_of_creation details h) (kept.0, kept.2)

pub selected_after_load :
    (p : Props) (seen : Seen) (elapsed : ℕ) (page : ListPage) (s : ListState)
    → (load_succeeded p elapsed (last_load p seen s) page s).selected
      ≡ (store_page p (last_load p seen s) page s).selected
unfolding load_succeeded
selected_after_load p seen elapsed page s = rw (load_succeeded, ==_refl s.request_id) refl

selects_preferred :
    (p : Props) (seen : Seen) (elapsed : ℕ) (page : ListPage) (s : ListState) (c : ℕ) (id : Text)
    → s.preferred ≡ some (c ∷ id)
    → has_id (c ∷ id) page.items ≡ true
    → (load_succeeded p elapsed (last_load p seen s) page s).selected ≡ some (c ∷ id)
unfolding merged_items
selects_preferred p seen elapsed page s c id wanted listed =
    selected_after_load p seen elapsed page s
    ∙ (preferred_is_selected p (last_load p seen s) page s c id listed wanted).0

module _ (rt : Runtime) (p : Props) (dp : DetailProps) (seen : Seen) (n : ℕ)
    (blank : trim seen.query ≡ []) (all_types : seen.filter_type_id ≡ codes "all")
    (lower : rt.to_lower [] ≡ []) (size : p.page_size ≡ suc n) where
  -- A profile is posted under an id that is not empty, the server answers with its snapshot, and the
  -- detail has told nobody anything before. Then the detail's calls make the list begin a load; and
  -- once that load, for no search, all types and at least one row, is answered with the page that the
  -- server then has, the new profile is selected, whatever was selected and listed before. The lower
  -- case of the empty text is taken to be empty.
  pub created_comes_selected :
      (s : ListState) (d : ProfileState) (store : Store) (c : ℕ) (id now : Text)
      (input : CreateInput) (snap : Snapshot) (elapsed : ℕ)
      → d.notices ≡ []
      → (post_entity rt (c ∷ id) now input store).0 ≡ json 201 snap
      → ((earlier : List Load) × ((told_list rt p dp seen (to_details snap) d s).in_flight
            ≡ earlier ++ last_load p seen (told_list rt p dp seen (to_details snap) d s) ∷ []))
        × ((load_succeeded p elapsed
              (last_load p seen (told_list rt p dp seen (to_details snap) d s))
              (page_served rt p seen (post_entity rt (c ∷ id) now input store).1)
              (told_list rt p dp seen (to_details snap) d s)).selected
            ≡ some (c ∷ id))
  unfolding to_details
  created_comes_selected s d store c id now input snap elapsed quiet answered_by =
      let same = posted_id rt (c ∷ id) now input store snap answered_by in
      let (row, is_new, first) = posted rt (c ∷ id) now input store in
      let page = page_served rt p seen (post_entity rt (c ∷ id) now input store).1 in
      let served =
        first_served rt p seen blank all_types lower n row store.list_items
          (post_entity rt (c ∷ id) now input store).1 size first in
      let (prefers, waits) = awaits_created rt p dp seen s d (to_details snap) quiet in
      (
        waits,
        selects_preferred p seen elapsed page (told_list rt p dp seen (to_details snap) d s) c id
            (prefers ∙ ap some same)
            (subst (λ (t : Text). has_id t page.items ≡ true) is_new served),
      )
