-- ===== src/ProfilesList/Loading.antt =====
-- The loads of the list under any order of events.
use april_profile_kilo.ProfilesList.{
  ListState, Load, Props, Seen, abort_load, begin_load, list_query, show_loading, load_answered,
  answer, drop_load, store_page,
}
use april_profile_kilo.Base.{
  All, Bool, List, Option, Text, [], any, arith, map, suc, true, ℕ, ◌++◌, ◌==◌, ◌||◌, ◌∷◌, ◌≡◌, ◌≤◌,
  ◌⊎◌, All-append, false, refl, Bool-cases, find, inl, inr, keep, not, some, ◌≢◌, ==_iff,
  Option-cases,
}
use april_profile_kilo.Providers.{ListPage}
use april_profile_kilo.Transport.Promise.{Outcome, fulfilled, rejected}

-- Of the loads under way only the last one begun can have a signal that has not fired.
abbrev pub IsNumbered : ℕ → Load → Type 0
IsNumbered id l = (l.id ≤ id) × ((l.id ≡ id) ⊎ (l.aborted ≡ true))

abbrev pub is_current : ℕ → Load → Bool
is_current id l = l.id == id

pub record IsOrderly (s : ListState) : Type 0 where
  pub numbered : All (IsNumbered s.request_id) s.in_flight
  pub awaited :
      (s.loading || s.loading_more) ≡ true → any (is_current s.request_id) s.in_flight ≡ true

-- Aborting the current load leaves none that is not aborted.
abort-IsNumbered :
    (id : ℕ) (ls : List Load)
    → All (IsNumbered id) ls
    → All (IsNumbered (suc id)) (map (abort_load id) ls)
abort-IsNumbered id [] h = tt
abort-IsNumbered id (l ∷ ls) (h, hs) = (ground arith, abort-IsNumbered id ls hs)

pub abort_same :
    (id : ℕ) (ls : List Load)
    → All (IsNumbered id) ls
    → All (IsNumbered id) (map (abort_load id) ls)
abort_same id [] h = tt
abort_same id (l ∷ ls) (h, hs) = (ground arith, abort_same id ls hs)

pub any_abort :
    (id : ℕ) (ls : List Load)
    → any (is_current id) ls ≡ true
    → any (is_current id) (map (abort_load id) ls) ≡ true
any_abort id [] h = cc
any_abort id (l ∷ ls) h = ground (arith, any_abort id ls)

any_last :
    (id : ℕ) (ls : List Load) (l : Load) → l.id ≡ id → any (is_current id) (ls ++ l ∷ []) ≡ true
any_last id [] l h = ground arith
any_last id (k ∷ ls) l h = ground (arith, any_last id ls l h)

module _ (append : Bool) (s : ListState) where
  in_flight-show_loading : (show_loading append s).in_flight ≡ s.in_flight
  unfolding show_loading
  in_flight-show_loading = ground arith

  request_id-show_loading : (show_loading append s).request_id ≡ s.request_id
  unfolding show_loading
  request_id-show_loading = ground arith

module _ (p : Props) (seen : Seen) (cursor : Option Text) (append : Bool) (s : ListState) where
  abbrev pub new_load : Load
  new_load = record {
    id = suc s.request_id;
    append = append;
    asks = list_query p seen cursor;
    aborted = false;
  }

  pub in_flight-begin_load :
      (begin_load p seen cursor append s).in_flight
      ≡ map (abort_load s.request_id) s.in_flight ++ new_load ∷ []
  unfolding begin_load
  in_flight-begin_load = rw in_flight-show_loading refl

  pub request_id-begin_load : (begin_load p seen cursor append s).request_id ≡ suc s.request_id
  unfolding begin_load
  request_id-begin_load = request_id-show_loading append _

  pub begin_load-IsOrderly : IsOrderly s → IsOrderly (begin_load p seen cursor append s)
  begin_load-IsOrderly h = record {
    numbered =
        rw (in_flight-begin_load, request_id-begin_load)
          (All-append (IsNumbered (suc s.request_id)) _ (new_load ∷ [])
            (abort-IsNumbered s.request_id s.in_flight h.numbered) (ground arith));
    awaited = λ _.
        rw (in_flight-begin_load, request_id-begin_load)
          (any_last (suc s.request_id) (map (abort_load s.request_id) s.in_flight) new_load refl);
  }

keep-All : (P : Load → Type 0) (q : Load → Bool) (ls : List Load) → All P ls → All P (keep q ls)
keep-All P q [] h = tt
keep-All P q (l ∷ ls) (h, hs) = elim (Bool-cases (q l)) [
  | inl kept ↦ rw (kept, keep) (h, keep-All P q ls hs)
  | inr dropped ↦ rw (dropped, keep) (keep-All P q ls hs)
]

any-keep :
    (r id : ℕ) (ls : List Load)
    → id ≢ r
    → any (is_current r) ls ≡ true
    → any (is_current r) (keep (λ (l : Load). not (l.id == id)) ls) ≡ true
any-keep r id [] ne h = cc
any-keep r id (l ∷ ls) ne h = ground (arith, any-keep r id ls ne)

id-find :
    (id : ℕ) (ls : List Load) (l : Load) → find (λ (k : Load). k.id == id) ls ≡ some l → l.id ≡ id
id-find id [] l h = cc
id-find id (k ∷ ls) l h = ground (arith, id-find id ls l)

pub store_page-keeps :
    (p : Props) (l : Load) (page : ListPage) (s : ListState)
    → ((store_page p l page s).in_flight ≡ s.in_flight)
      × ((store_page p l page s).request_id ≡ s.request_id)
unfolding store_page
store_page-keeps p l page s = ground arith

-- A load that is not the last one begun changes nothing when it is answered.
pub stale_answer :
    (p : Props) (elapsed : ℕ) (l : Load) (o : Outcome ListPage) (s : ListState)
    → l.id ≢ s.request_id
    → load_answered p elapsed l o s ≡ s
unfolding load_answered
stale_answer p elapsed l (fulfilled page) s h = ground arith
stale_answer p elapsed l (rejected e) s h = ground arith

-- The last one begun leaves no spinner.
record IsStopped (s t : ListState) : Type 0 where
  calm : t.loading ≡ false
  calm_more : t.loading_more ≡ false
  same_calls : t.in_flight ≡ s.in_flight
  same_id : t.request_id ≡ s.request_id

current_answer :
    (p : Props) (elapsed : ℕ) (l : Load) (o : Outcome ListPage) (s : ListState)
    → l.id ≡ s.request_id
    → IsStopped s (load_answered p elapsed l o s)
unfolding load_answered
current_answer p elapsed l (fulfilled page) s h = ground (arith, store_page-keeps p l page s)
current_answer p elapsed l (rejected e) s h = ground arith

answer_found-IsOrderly :
    (p : Props) (elapsed : ℕ) (o : Outcome ListPage) (l : Load) (s : ListState)
    → IsOrderly s
    → IsOrderly (load_answered p elapsed l o (drop_load l.id s))
answer_found-IsOrderly p elapsed o l s h = elim (Bool-cases (l.id == s.request_id)) [
  | inl same ↦
      let c = current_answer p elapsed l o (drop_load l.id s) ((==_iff _ _).0 same) in
      record {
        numbered =
            rw (c.same_calls, c.same_id)
              (keep-All (IsNumbered s.request_id) _ s.in_flight h.numbered);
        awaited = λ e. ground (arith, c.calm, c.calm_more);
      }
  | inr stale ↦ rw (stale_answer p elapsed l o (drop_load l.id s) (ground arith)) (record {
    numbered = keep-All (IsNumbered s.request_id) _ s.in_flight h.numbered;
    awaited = λ e. any-keep s.request_id l.id s.in_flight (ground arith) (h.awaited e);
  })
]

pub answer-IsOrderly :
    (p : Props) (elapsed id : ℕ) (o : Outcome ListPage) (s : ListState)
    → IsOrderly s
    → IsOrderly (answer p elapsed id o s)
unfolding answer
answer-IsOrderly p elapsed id o s h =
    elim (Option-cases (find (λ (l : Load). l.id == id) s.in_flight)) [
      | inl missing ↦ rw missing h
      | inr (l, found) ↦ rw found (answer_found-IsOrderly p elapsed o l s h)
    ]
