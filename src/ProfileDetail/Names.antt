-- ===== src/ProfileDetail/Names.antt =====
-- components/ProfilesWidgetProfileDetailCore.tsx: what an update or a creation sends.
use mathlib.Core.Path.{◌≡◌, refl, ap, sym}
use native.Mathlib.Omega.{arith}
use april_profile_kilo.ProfileDetail.Editing.{
  UpdateCall, begin_update, name_is_taken, submit_update, update_of, draft_document, update_with,
}
use april_profile_kilo.ProfileDetail.{DetailProps, ProfileState, is_historical}
use april_profile_kilo.Base.{
  Text, false, none, some, true, Bool-cases, Option, inl, inr, ◌⊎◌, List, codes, text_eq_refl, trim,
}
use april_profile_kilo.Runtime.{Runtime}
use april_profile_kilo.Display.{extract_name, is_duplicate_name, non_empty}
use april_profile_kilo.Value.{Value, object, Fields, chain, end, field, prop, put, string}
use april_profile_kilo.FamilyDetail.{given}
use april_profile_kilo.Editor.{Parsed, parsed, refused, is_source, parse_draft}
use april_profile_kilo.ProfileDetail.Creating.{
  begin_create, create_named, create_parsed, spread, submit_create, with_name,
}
use april_profile_kilo.Providers.Profiles.{CreateInput}
use april_profile_kilo.Providers.{ListItem}

module _ (rt : Runtime) (p : DetailProps) where
  read_only :
      (o : Option Text) (s : ProfileState) → is_historical s ≡ true → update_of rt p o s ≡ (s, none)
  unfolding update_of
  read_only none s h = refl
  read_only (some id) s h = rw h refl

  -- While an old version of a profile is viewed, an update is not sent and changes nothing.
  pub history_is_read_only :
      (s : ProfileState) → is_historical s ≡ true → begin_update rt p s ≡ (s, none)
  unfolding begin_update
  history_is_read_only s h = read_only (given s.entity_id) s h

  -- What may be sent: the draft's name is not that of another listed profile, and the version that
  -- is expected is the one that is viewed.
  abbrev pub MaySend : ProfileState → UpdateCall → Type 0
  MaySend s call =
      (name_is_taken rt call.entity (extract_name call.input.document) s.list_items ≡ false)
      × (call.input.expected_version ≡ s.viewed_version)

  submitted :
      (id : Text) (document : Value) (s : ProfileState) (call : UpdateCall)
      → (submit_update rt p id document s).1 ≡ some call
      → MaySend s call × (call.entity ≡ id)
  unfolding submit_update
  submitted id document s call sent =
      elim (Bool-cases (name_is_taken rt id (extract_name document) s.list_items)) [
        | inl taken ↦ ground arith
        | inr unused ↦
            let made : UpdateCall = record {
              entity = id;
              input = record { document = document; expected_version = s.viewed_version };
            } in
            let same : made ≡ call = ground arith in rw (sym same) ((unused, refl), refl)
      ]

  submitted_with :
      (id : Text) (s : ProfileState) (d : Parsed ⊎ Value) (call : UpdateCall)
      → (update_with rt p id s d).1 ≡ some call
      → MaySend s call × (call.entity ≡ id)
  unfolding update_with
  submitted_with id s (inl (refused message)) call sent = ground arith
  submitted_with id s (inl (parsed fs)) call sent =
      submitted id (object fs) (record s { edit_draft_value = object fs }) call sent
  submitted_with id s (inr document) call sent = submitted id document s call sent

  submitted_of :
      (o : Option Text) (s : ProfileState) (call : UpdateCall)
      → (update_of rt p o s).1 ≡ some call
      → MaySend s call × (o ≡ some call.entity)
  unfolding update_of
  submitted_of none s call sent = ground arith
  submitted_of (some id) s call sent = elim (Bool-cases (is_historical s)) [
    | inl old ↦ ground arith
    | inr current ↦
        let cleared : ProfileState = record s { mutation_error = none } in
        let (may, whose) =
          submitted_with id cleared (draft_document rt cleared) call (ground arith) in
        (may, ap some (sym whose))
  ]

  -- An update that is sent is one of the profile that is shown, does not give it the name of
  -- another listed profile, and expects the version that is viewed.
  pub update_is_checked :
      (s : ProfileState) (call : UpdateCall)
      → (begin_update rt p s).1 ≡ some call
      → MaySend s call × (given s.entity_id ≡ some call.entity)
  unfolding begin_update
  update_is_checked s call sent = submitted_of (given s.entity_id) s call sent

prop-put : (k : Text) (v : Value) (fs : Fields) → prop k (put k v fs) ≡ v
unfolding prop put
prop-put k v end = rw (text_eq_refl k) refl
prop-put k v (field j w fs) = ground (arith, prop-put k v fs)

chain-with_name :
    (document : Value) (name : Text) → chain (codes "name") (with_name document name) ≡ string name
unfolding with_name chain
chain-with_name document name = prop-put (codes "name") (string name) (spread document)

module _ (rt : Runtime) (p : DetailProps) where
  -- What is created: a document whose name is the one given, which no listed profile has, of the
  -- type that was chosen.
  pub record IsChecked (ty nm : Option Text) (items : List ListItem) (input : CreateInput)
      : Type 0 where
    pub name : Text
    pub given_name : nm ≡ some name
    pub in_document : chain (codes "name") input.document ≡ string name
    pub unused : is_duplicate_name rt name items none ≡ false
    pub of_type : ty ≡ some input.entity_type_id

  create_named-IsChecked :
      (ty nm : Option Text) (document : Value) (s : ProfileState) (input : CreateInput)
      → (create_named rt p ty nm document s).1 ≡ some input
      → IsChecked ty nm s.list_items input
  unfolding create_named
  create_named-IsChecked none nm document s input sent = ground arith
  create_named-IsChecked (some ty) none document s input sent = ground arith
  create_named-IsChecked (some ty) (some nm) document s input sent =
      elim (Bool-cases (is_duplicate_name rt nm s.list_items none)) [
        | inl taken ↦ ground arith
        | inr free_name ↦
            let made : CreateInput = record {
              entity_type_id = ty;
              document = with_name document nm;
            } in
            let same : made ≡ input = ground arith in
            record {
              name = nm;
              given_name = refl;
              in_document = rw (sym same) (chain-with_name document nm);
              unused = free_name;
              of_type = rw (sym same) refl;
            }
      ]

  create_parsed-IsChecked :
      (s : ProfileState) (d : Parsed) (input : CreateInput)
      → (create_parsed rt p s d).1 ≡ some input
      → IsChecked (given s.create_type) (non_empty (trim s.create_name)) s.list_items input
  unfolding create_parsed submit_create
  create_parsed-IsChecked s (refused message) input sent = ground arith
  create_parsed-IsChecked s (parsed fs) input sent =
      create_named-IsChecked (given s.create_type) (non_empty (trim s.create_name)) (object fs)
        (record s { create_draft_value = object fs }) input sent

  -- A profile that is created has, in its document, the name that was given, which is not blank once
  -- it is trimmed and which no listed profile has, and it is of the type that was chosen.
  pub begin_create-IsChecked :
      (s : ProfileState) (input : CreateInput)
      → (begin_create rt p s).1 ≡ some input
      → IsChecked (given s.create_type) (non_empty (trim s.create_name)) s.list_items input
  unfolding begin_create submit_create
  begin_create-IsChecked s input sent =
      let cleared : ProfileState = record s { mutation_error = none } in
      elim (Bool-cases (is_source s.create_draft_mode)) [
        | inl text ↦
            create_parsed-IsChecked cleared (parse_draft rt s.create_draft_text) input
              (ground arith)
        | inr value ↦
            create_named-IsChecked (given s.create_type) (non_empty (trim s.create_name))
              s.create_draft_value cleared input (ground arith)
      ]
