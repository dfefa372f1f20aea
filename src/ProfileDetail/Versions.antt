-- ===== src/ProfileDetail/Versions.antt =====
-- components/ProfilesWidgetProfileDetailCore.tsx: the map of the versions of a profile.
use mathlib.Core.Path.{◌≡◌, refl, ap}
use native.Mathlib.Omega.{arith}
use april_profile_kilo.Base.{
  Bool-cases, List, Option, [], if◌then◌else◌, inl, inr, none, or_other, some, suc, ℕ, ◌<◌, ◌==◌,
  ◌∷◌, Text, false, true, ◌+◌, ◌∙◌, ◌≤◌, first, leb, ltb, map, zero, ◌&&◌, ◌-◌,
}
use april_profile_kilo.ProfileDetail.{
  put_version, put_versions, version_at, DetailProps, ProfileState, VersionLoad, has_fired,
  select_version, versions_answered, is_historical, all_answers, older_from, older_versions,
  version_answers,
}
use april_profile_kilo.Providers.{Details}
use april_profile_kilo.Transport.Promise.{fulfilled}
use april_profile_kilo.Runtime.{Runtime}
use april_profile_kilo.ProfileDetail.Editing.{begin_update, UpdateCall}
use april_profile_kilo.ProfileDetail.Names.{history_is_read_only}
use april_profile_kilo.FamilyDetail.{given}
use april_profile_kilo.Value.{Value}
use april_profile_kilo.Editor.{form}
use april_profile_kilo.ProfileDetail.Restoring.{begin_history_save, history_of}

version_at-put_version :
    (k j : ℕ) (d : Details) (m : List (ℕ × Details))
    → version_at j (put_version k d m) ≡ (if k == j then some d else version_at j m)
unfolding version_at put_version
version_at-put_version k j d [] = refl
version_at-put_version k j d ((i, e) ∷ m) = ground (arith, version_at-put_version k j d m)

-- The answers to the requests of `olderVersions`: each the version that was asked for.
abbrev pub AnswersFrom : ℕ → List Details → Type 0
AnswersFrom n [] = Unit
AnswersFrom n (d ∷ ds) = (d.version ≡ n) × AnswersFrom (suc n) ds

-- The answer for version `k` where the answers begin with version `n`.
abbrev pub answer_for : ℕ → List Details → ℕ → Option Details
answer_for n [] k = none
answer_for n (d ∷ ds) k = if n == k then some d else answer_for (suc n) ds k

answer_for-below : (n k : ℕ) (ds : List Details) → k < n → answer_for n ds k ≡ none
answer_for-below n k [] h = refl
answer_for-below n k (d ∷ ds) h = ground (arith, answer_for-below (suc n) k ds)

version_at-put_versions :
    (n k : ℕ) (ds : List Details) (m : List (ℕ × Details))
    → AnswersFrom n ds
    → version_at k (put_versions ds m) ≡ or_other (answer_for n ds k) (version_at k m)
unfolding put_versions
version_at-put_versions n k [] m h = refl
version_at-put_versions n k (d ∷ ds) m (hd, hs) = elim (Bool-cases (n == k)) [
  | inl here ↦
      let gone : answer_for (suc n) ds k ≡ none = answer_for-below (suc n) k ds (ground arith) in
      rw
        (
          version_at-put_versions (suc n) k ds (put_version d.version d m) hs,
          gone,
          here,
          version_at-put_version d.version k d m,
          hd,
          here,
        )
        refl
  | inr there ↦
      rw
        (
          version_at-put_versions (suc n) k ds (put_version d.version d m) hs,
          there,
          version_at-put_version d.version k d m,
          hd,
          there,
        )
        refl
]

answers_of :
    (kept : ℕ → Details) (ns : List ℕ)
    → all_answers (map (λ n. fulfilled (kept n)) ns) ≡ fulfilled (map kept ns)
unfolding all_answers
answers_of kept [] = refl
answers_of kept (n ∷ ns) = rw (answers_of kept ns) refl

asked_in_order :
    (kept : ℕ → Details)
    → ((n : ℕ) → (kept n).version ≡ n)
    → (first count : ℕ) → AnswersFrom first (map kept (older_from first count))
unfolding older_from
asked_in_order kept h first zero = tt
asked_in_order kept h first (suc n) = (h first, asked_in_order kept h (suc first) n)

answer_in_order :
    (kept : ℕ → Details) (first count k : ℕ)
    → answer_for first (map kept (older_from first count)) k
      ≡ (if leb first k && ltb k (first + count) then some (kept k) else none)
unfolding older_from
answer_in_order kept first zero k = ground arith
answer_in_order kept first (suc n) k = elim (Bool-cases (first == k)) [
  | inl here ↦ let same : first ≡ k = ground arith in rw (here, same) (ground arith)
  | inr there ↦ rw (there, answer_in_order kept (suc first) n k) (ground arith)
]

newest_or_kept :
    (head older : Details) (k : ℕ)
    → 1 ≤ k
    → k ≤ head.version
    → or_other
        (if leb 1 k && ltb k (1 + (head.version - 1)) then some older else none)
        (version_at k ((head.version, head) ∷ []))
      ≡ some (if k == head.version then head else older)
unfolding version_at
newest_or_kept head older k low high = elim (Bool-cases (k == head.version)) [
  | inl newest ↦
      let same : k ≡ head.version = ground arith in
      let beyond : ltb k (1 + (head.version - 1)) ≡ false = ground arith in
      let found : (head.version == k) ≡ true = ground arith in
      rw (beyond, newest, found) (ground arith)
  | inr below ↦
      let within : ltb k (1 + (head.version - 1)) ≡ true = ground arith in
      let from_one : leb 1 k ≡ true = ground arith in rw (within, below, from_one) refl
]

module _ (p : DetailProps) where
  stored_versions :
      (l : VersionLoad) (snaps : List Details) (s : ProfileState)
      → s.request_id ≡ l.id
      → has_fired l.signal s ≡ false
      → (versions_answered p l (fulfilled snaps) s).versions
        ≡ put_versions snaps ((l.head.version, l.head) ∷ [])
  unfolding versions_answered
  stored_versions l snaps s same live =
      let hit : (s.request_id == l.id) ≡ true = ground arith in rw (hit, live, hit) refl

  -- Once the calls for the older versions of a profile have been answered, each with the version that
  -- it asked for, and no other load has begun and the signal has not fired, every version from 1 to the
  -- newest is there to be viewed: the newest as the load of the profile has brought it, the others as
  -- they were answered.
  pub versions_complete :
      (l : VersionLoad) (kept : ℕ → Details) (s : ProfileState) (k : ℕ)
      → s.request_id ≡ l.id
      → has_fired l.signal s ≡ false
      → ((n : ℕ) → (kept n).version ≡ n)
      → 1 ≤ k
      → k ≤ l.head.version
      → version_at k
          (versions_answered p l (version_answers (λ n. fulfilled (kept n)) l) s).versions
        ≡ some (if k == l.head.version then l.head else kept k)
  unfolding version_answers older_versions
  versions_complete l kept s k same live numbered low high =
      let snaps = map kept (older_from 1 (l.head.version - 1)) in
      rw
        (
          version_answers,
          older_versions,
          answers_of kept (older_from 1 (l.head.version - 1)),
          stored_versions l snaps s same live,
          version_at-put_versions 1 k snaps ((l.head.version, l.head) ∷ [])
              (asked_in_order kept numbered 1 (l.head.version - 1)),
          answer_in_order kept 1 (l.head.version - 1) k,
        )
        (newest_or_kept l.head (kept k) k low high)

module _ (rt : Runtime) (p : DetailProps) where
  -- The state in which a version of the map is viewed.
  abbrev viewing : ℕ → Details → ProfileState → ProfileState
  viewing k d s = record s {
    viewed_version = some k;
    version_sheet = false;
    edit_draft_value = d.document;
    edit_draft_text = rt.pretty d.document;
    edit_draft_mode = form;
    selected_document = some d.document;
    edit_issues = none;
    edit_mode = false;
  }

  chosen :
      (s : ProfileState) (k : ℕ) (d : Details)
      → version_at k s.versions ≡ some d
      → select_version rt k s ≡ viewing k d s
  unfolding select_version
  chosen s k d stored = rw (select_version, stored) refl

  viewing_old :
      (s : ProfileState) (k head : ℕ) (d : Details)
      → s.head_version ≡ some head
      → k < head
      → is_historical (viewing k d s) ≡ true
  unfolding is_historical
  viewing_old s k head d newest older = ground arith

  saved_back :
      (s : ProfileState) (id : Text) (document : Value)
      → is_historical s ≡ true
      → (history_of p (some id) (some document) s).1
        ≡ some (record {
          entity = id;
          input = record { document = document; expected_version = none };
        })
  unfolding history_of
  saved_back s id document old = rw old refl

  history_sent :
      (s : ProfileState) (k : ℕ) (d : Details) (c : ℕ) (id : Text)
      → s.entity_id ≡ some (c ∷ id)
      → is_historical (viewing k d s) ≡ true
      → (begin_history_save p (viewing k d s)).1
        ≡ some (record {
          entity = c ∷ id;
          input = record { document = d.document; expected_version = none };
        })
  unfolding begin_history_save
  history_sent s k d c id whose old =
      ap (λ (o : Option Text). (history_of p (given o) (some d.document) (viewing k d s)).1) whose
      ∙ saved_back (viewing k d s) (c ∷ id) d.document old

  -- An old version that is viewed is shown, cannot be updated, and can be brought back: saving it
  -- sends its own document as a new version.
  pub old_version_comes_back :
      (s : ProfileState) (k head : ℕ) (d : Details) (c : ℕ) (id : Text)
      → s.entity_id ≡ some (c ∷ id)
      → version_at k s.versions ≡ some d
      → s.head_version ≡ some head
      → k < head
      → ((select_version rt k s).selected_document ≡ some d.document)
        × ((begin_update rt p (select_version rt k s)).1 ≡ none)
        × ((begin_history_save p (select_version rt k s)).1
            ≡ some (record {
              entity = c ∷ id;
              input = record { document = d.document; expected_version = none };
            }))
  old_version_comes_back s k head d c id whose stored newest older =
      let shown = chosen s k d stored in
      let old = viewing_old s k head d newest older in
      (
        ap (λ (t : ProfileState). t.selected_document) shown,
        ap (λ (t : ProfileState). (begin_update rt p t).1) shown
            ∙ ap (λ (r : ProfileState × Option UpdateCall). r.1)
                (history_is_read_only rt p (viewing k d s) old),
        ap (λ (t : ProfileState). (begin_history_save p t).1) shown
            ∙ history_sent s k d c id whose old,
      )
