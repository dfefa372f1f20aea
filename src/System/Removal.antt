-- ===== src/System/Removal.antt =====
-- A profile is deleted: from the answer of the server to the list without it.
use mathlib.Core.Path.{◌≡◌, refl, sym}
use native.Mathlib.Omega.{arith}
use april_profile_kilo.Demo.Profiles.{delete_entity, get_page, is_row}
use april_profile_kilo.Demo.{Store}
use april_profile_kilo.ProfileDetail.{DetailProps, ProfileState}
use april_profile_kilo.Base.{
  Bool, Bool-cases, List, Text, [], any, drop, false, inl, inr, keep, map, not, suc, take, zero, ℕ,
  ◌∙◌, ◌∷◌, ==_refl, ap, none, some, true, ◌++◌, ◌≢◌,
}
use april_profile_kilo.Providers.{ProfileRow, to_list_item, to_page, ListPage}
use april_profile_kilo.ProfilesList.Handlers.{
  detail_acted, detail_deleted, list_revalidated, run, child_acted, entity_deleted, step,
}
use april_profile_kilo.System.{event_of, events_of}
use april_profile_kilo.Transport.Promise.{fulfilled}
use april_profile_kilo.ProfilesList.{
  ListState, Props, Seen, has_id, Load, begin_load, load_succeeded, merged_items,
}
use april_profile_kilo.System.Creation.{
  page_served, begin_load_keeps, last_load, selected_after_load,
}
use april_profile_kilo.Telemetry.{deleted, emit}
use april_profile_kilo.ProfileDetail.Restoring.{removal_answered}
use april_profile_kilo.Runtime.{Runtime}
use april_profile_kilo.Demo.Refinement.{seen}
use april_profile_kilo.Transport.Call.{quiet}
use april_profile_kilo.ProfilesList.Selection.{selected_is_listed, items-store_page}

any-keep :
    (q f : ProfileRow → Bool) (rows : List ProfileRow)
    → any q rows ≡ false
    → any q (keep f rows) ≡ false
any-keep q f [] h = refl
any-keep q f (row ∷ rows) h = ground (arith, any-keep q f rows)

any-take :
    (q : ProfileRow → Bool) (n : ℕ) (rows : List ProfileRow)
    → any q rows ≡ false
    → any q (take n rows) ≡ false
any-take q zero rows h = refl
any-take q (suc n) [] h = refl
any-take q (suc n) (row ∷ rows) h = ground (arith, any-take q n rows)

any-drop :
    (q : ProfileRow → Bool) (n : ℕ) (rows : List ProfileRow)
    → any q rows ≡ false
    → any q (drop n rows) ≡ false
any-drop q zero rows h = h
any-drop q (suc n) [] h = refl
any-drop q (suc n) (row ∷ rows) h = any-drop q n rows (ground arith)

any_others :
    (q : ProfileRow → Bool) (rows : List ProfileRow)
    → any q (keep (λ (row : ProfileRow). not (q row)) rows) ≡ false
any_others q [] = refl
any_others q (row ∷ rows) = ground (arith, any_others q rows)

has_id-listed :
    (id : Text) (rows : List ProfileRow) → has_id id (map to_list_item rows) ≡ any (is_row id) rows
unfolding to_list_item
has_id-listed id [] = refl
has_id-listed id (row ∷ rows) = rw (has_id-listed id rows) refl

-- Whatever is asked for, a page of the server after a deletion is without the deleted profile.
page_without :
    (rt : Runtime) (p : Props) (seen : Seen) (id : Text) (store : Store)
    → has_id id (page_served rt p seen (delete_entity id store).1).items ≡ false
unfolding to_page get_page delete_entity
page_without rt p seen id store =
    has_id-listed id _
    ∙ any-take (is_row id) _ _ (
        any-drop (is_row id) _ _
          (any-keep (is_row id) _ _ (any_others (is_row id) store.list_items)))

-- The list once it has got the calls of a detail whose deletion was answered.
abbrev pub told_removed : Props → DetailProps → Seen → Text → ProfileState → ListState → ListState
told_removed p dp seen id d s =
    run p (events_of seen (removal_answered dp id (fulfilled tt) d).notices) s

events_of_removal :
    (dp : DetailProps) (seen : Seen) (id : Text) (d : ProfileState)
    → d.notices ≡ []
    → events_of seen (removal_answered dp id (fulfilled tt) d).notices
      ≡ detail_acted seen (deleted id) ∷ detail_deleted seen ∷ list_revalidated seen ∷ []
unfolding events_of event_of removal_answered emit
events_of_removal dp seen id d h = elim (Bool-cases dp.observes) [
  | inl on ↦ rw (events_of, removal_answered, h, on) refl
  | inr off ↦ rw (events_of, removal_answered, h, off) refl
]

told_of_removal :
    (p : Props) (dp : DetailProps) (seen : Seen) (id : Text) (d : ProfileState) (s : ListState)
    → d.notices ≡ []
    → told_removed p dp seen id d s
      ≡ begin_load p seen none false (entity_deleted p seen (child_acted p seen (deleted id) s))
unfolding run step
told_of_removal p dp seen id d s h = rw (events_of_removal dp seen id d h) refl

items_after_load :
    (p : Props) (seen : Seen) (elapsed : ℕ) (page : ListPage) (s : ListState)
    → (load_succeeded p elapsed (last_load p seen s) page s).items ≡ page.items
unfolding load_succeeded merged_items
items_after_load p seen elapsed page s =
    rw (load_succeeded, ==_refl s.request_id) (items-store_page p (last_load p seen s) page s)

module _ (rt : Runtime) (p : Props) (dp : DetailProps) (seen : Seen) where
  -- A profile is deleted, the server answers, and the detail has told nobody anything before. Then the
  -- detail's calls make the list begin a load; and once that load is answered with the page that the
  -- server then has, whatever is searched for, the profile is neither in the list nor selected.
  pub deleted_is_gone :
      (s : ListState) (d : ProfileState) (store : Store) (id : Text) (elapsed : ℕ)
      → d.notices ≡ []
      → ((earlier : List Load) × ((told_removed p dp seen id d s).in_flight
            ≡ earlier ++ last_load p seen (told_removed p dp seen id d s) ∷ []))
        × (has_id id
              (load_succeeded p elapsed
                (last_load p seen (told_removed p dp seen id d s))
                (page_served rt p seen (delete_entity id store).1)
                (told_removed p dp seen id d s)).items
            ≡ false)
        × ((load_succeeded p elapsed
              (last_load p seen (told_removed p dp seen id d s))
              (page_served rt p seen (delete_entity id store).1)
              (told_removed p dp seen id d s)).selected
            ≢ some id)
  unfolding merged_items
  deleted_is_gone s d store id elapsed quiet =
      let after = told_removed p dp seen id d s in
      let page = page_served rt p seen (delete_entity id store).1 in
      let load = last_load p seen after in
      let gone = page_without rt p seen id store in
      (
        rw (told_of_removal p dp seen id d s quiet)
            (begin_load_keeps p seen (entity_deleted p seen (child_acted p seen (deleted id) s))).2,
        rw (items_after_load p seen elapsed page after) gone,
        λ chosen.
            let listed =
              selected_is_listed p load page after id
                (sym (selected_after_load p seen elapsed page after) ∙ chosen) in
            let still = sym (ap (has_id id) (items-store_page p load page after)) ∙ listed in
            let wrong : false ≡ true = sym gone ∙ still in ground arith,
      )
