-- ===== src/FamilyDetail/Pieces.antt =====
-- components/EntityTypesWidgetDetailCore.tsx: which pieces of the screen pass a test.
use mathlib.Core.Path.{◌≡◌, refl}
use native.Mathlib.Omega.{arith}
use april_profile_kilo.FamilyDetail.Screen.{
  Piece, alert_of, busy_with, choose_alert, delete_dialog, delete_family_button, detail_pieces,
  edit_family_button, error_alert, family_heading, family_loader, family_part, family_screen,
  message_alert, panel, patch_dialog, piece_if, upgrade_behind_button, upgrade_panel, upgrade_rows,
  upgrade_selected_button, revisions_panel, upgrade_alert, entity_piece, load_more_button,
  no_revisions_alert, revision_piece, revision_schema, revisions_loader, target_select,
  upgrade_help, upgrade_loader, upgrade_one_button, chosen_revision, has_more, is_chosen,
  schema_of_chosen,
}
use april_profile_kilo.Base.{
  Bool, Bool-cases, List, Option, Text, [], any, codes, false, inl, inr, is_nil, is_some, none, not,
  some, ◌&&◌, ◌++◌, ◌||◌, ◌∷◌, true, ◌∙◌, if◌then◌else◌, length, map, ℕ,
}
use april_profile_kilo.Providers.EntityTypes.{FamilyDetail, Revision}
use april_profile_kilo.FamilyDetail.{FamilyState, given}
use april_profile_kilo.Runtime.{Runtime}
use april_profile_kilo.Providers.{ListItem}
use april_profile_kilo.Value.{Value}

abbrev pub PieceTest : Type 0
PieceTest = Piece → Bool

any-append : (p : PieceTest) (xs ys : List Piece) → any p (xs ++ ys) ≡ (any p xs || any p ys)
any-append p [] ys = refl
any-append p (x ∷ xs) ys = ground (arith, any-append p xs ys)

-- A test that only pieces of the panels pass.
abbrev pub IsAboutPanels : PieceTest → Type 0
IsAboutPanels p =
    (p choose_alert ≡ false)
    × (p family_loader ≡ false)
    × (p edit_family_button ≡ false)
    × (p delete_family_button ≡ false)
    × ((t : Text) → p (message_alert t) ≡ false)
    × ((t : Text) → p (error_alert t) ≡ false)
    × ((a b c : Text) → p (family_heading a b c) ≡ false)
    × ((a b : Text) (c : Bool) → p (patch_dialog a b c) ≡ false)
    × ((c : Bool) → p (delete_dialog c) ≡ false)

abbrev pub has_error : FamilyState → Bool
has_error s = not (is_nil (alert_of error_alert s.detail_error))

-- The family is on the screen: loaded, with no error, and chosen.
abbrev pub shows_family : FamilyState → Bool
shows_family s =
    is_some (given s.family_id)
    && not s.detail_loading
    && not (has_error s)
    && is_some s.family_detail

any-between :
    (p : PieceTest) (before pieces one two : List Piece)
    → any p before ≡ false
    → any p one ≡ false
    → any p two ≡ false
    → any p (before ++ pieces ++ one ++ two) ≡ any p pieces
any-between p before pieces one two hb h1 h2 = ground (
  arith,
  any-append p (before ++ pieces ++ one) two,
  any-append p (before ++ pieces) one,
  any-append p before pieces,
)

or_tail : (a b : Bool) → (false || (a || (b || false)) || false) ≡ (a || b)
or_tail a b = ground arith

pub negated_twice : (b : Bool) → (not (not b) || false) ≡ b
negated_twice b = ground arith

and_assoc4 : (a b c d e : Bool) → (a && b && c && d && e) ≡ ((a && b && c && d) && e)
and_assoc4 a b c d e = ground arith

module _ (p : PieceTest) (about : IsAboutPanels p) (rt : Runtime) (s : FamilyState) where
  any-alert_message : (o : Option Text) → any p (alert_of message_alert o) ≡ false
  any-alert_message none = refl
  any-alert_message (some []) = refl
  any-alert_message (some (c ∷ t)) = rw (about.4) refl

  any-alert_error : (o : Option Text) → any p (alert_of error_alert o) ≡ false
  any-alert_error none = refl
  any-alert_error (some []) = refl
  any-alert_error (some (c ∷ t)) = rw (about.5) refl

  any-family_part :
      (o : Option FamilyDetail)
      → any p (family_part rt s o) ≡ (is_some o && any p (panel rt s s.active_tab))
  unfolding family_part
  any-family_part none = refl
  any-family_part (some d) = rw (about.6, about.2, about.3) refl

  any-detail_pieces :
      (o : Option Text)
      → any p (detail_pieces rt s o) ≡ (
          is_some o
          && not s.detail_loading
          && not (has_error s)
          && is_some s.family_detail
          && any p (panel rt s s.active_tab))
  unfolding detail_pieces
  any-detail_pieces none = rw (about.0) refl
  any-detail_pieces (some id) = elim (Bool-cases s.detail_loading) [
    | inl loading ↦ rw (loading, about.1) refl
    | inr loaded ↦ elim (Bool-cases (is_nil (alert_of error_alert s.detail_error))) [
      | inl fine ↦ rw (loaded, fine) (any-family_part s.family_detail)
      | inr wrong ↦ rw (loaded, wrong) (any-alert_error s.detail_error)
    ]
  ]

  any-piece_if : (b : Bool) (x : Piece) → p x ≡ false → any p (piece_if b x) ≡ false
  any-piece_if true x h = rw h refl
  any-piece_if false x h = refl

  pub any-family_screen :
      any p (family_screen rt s) ≡ (shows_family s && any p (panel rt s s.active_tab))
  unfolding family_screen
  any-family_screen =
      let patch = patch_dialog s.patch_namespace s.patch_code (busy_with (codes "patch") s) in
      let removal = delete_dialog (busy_with (codes "delete") s) in
      any-between p (alert_of message_alert s.mutation_message)
        (detail_pieces rt s (given s.family_id)) (piece_if s.patch_opened patch)
        (piece_if s.delete_opened removal) (any-alert_message s.mutation_message)
        (any-piece_if s.patch_opened patch (about.7 _ _ _))
        (any-piece_if s.delete_opened removal (about.8 _))
      ∙ any-detail_pieces (given s.family_id)
      ∙ and_assoc4 (is_some (given s.family_id)) (not s.detail_loading) (not (has_error s))
          (is_some s.family_detail) (any p (panel rt s s.active_tab))

-- A test that only the buttons pass that save the draft or upgrade a batch.
abbrev pub IsAboutButtons : PieceTest → Type 0
IsAboutButtons p =
    (p revisions_loader ≡ false)
    × (p no_revisions_alert ≡ false)
    × (p upgrade_loader ≡ false)
    × (p upgrade_help ≡ false)
    × ((b : Bool) → p (load_more_button b) ≡ false)
    × ((t : Text) → p (upgrade_alert t) ≡ false)
    × ((r : Revision) (b : Bool) → p (revision_piece r b) ≡ false)
    × ((n : ℕ) (v : Value) → p (revision_schema n v) ≡ false)
    × ((os : List (Text × Text)) (b : Bool) → p (target_select os b) ≡ false)
    × ((e : Text) (n : ℕ) (b : Bool) → p (entity_piece e n b) ≡ false)
    × ((e : Text) (b c : Bool) → p (upgrade_one_button e b c) ≡ false)

module _ (p : PieceTest) (about : IsAboutButtons p) (s : FamilyState) where
  any-alert_upgrade : (o : Option Text) → any p (alert_of upgrade_alert o) ≡ false
  any-alert_upgrade none = refl
  any-alert_upgrade (some []) = refl
  any-alert_upgrade (some (c ∷ t)) = rw (about.5) refl

  any-upgrade_rows : (rows : List ListItem) → any p (upgrade_rows s rows) ≡ false
  unfolding upgrade_rows
  any-upgrade_rows [] = refl
  any-upgrade_rows (row ∷ rows) = rw (about.9, about.10, any-upgrade_rows rows) refl

  any-revision_pieces :
      (rs : List Revision)
      → any p (map (λ (r : Revision). revision_piece r (is_chosen s.selected_revision r)) rs)
        ≡ false
  any-revision_pieces [] = refl
  any-revision_pieces (r ∷ rs) = rw (about.6, any-revision_pieces rs) refl

  any-schema : (o : Option Revision) → any p (schema_of_chosen o) ≡ false
  any-schema none = refl
  any-schema (some r) = rw (about.7) refl

  pub any-revisions_panel : any p (revisions_panel s) ≡ false
  unfolding revisions_panel
  any-revisions_panel = elim (Bool-cases s.revisions_loading) [
    | inl loading ↦ rw (revisions_panel, loading, about.0) refl
    | inr loaded ↦ elim (Bool-cases (is_nil s.revisions)) [
      | inl empty_list ↦ rw (revisions_panel, loaded, empty_list, about.1) refl
      | inr listed ↦
          rw (revisions_panel, loaded, listed)
            (any-append p
                (map (λ (r : Revision). revision_piece r (is_chosen s.selected_revision r))
                  s.revisions)
                (schema_of_chosen (chosen_revision s))
              ∙ rw (any-revision_pieces s.revisions) (any-schema (chosen_revision s)))
    ]
  ]

  any-loaded :
      (b : Bool) (rows : List ListItem)
      → any p (if b then upgrade_loader ∷ [] else upgrade_rows s rows) ≡ false
  any-loaded true rows = rw (about.2) refl
  any-loaded false rows = any-upgrade_rows rows

  any-more : (b c : Bool) → any p (piece_if b (load_more_button c)) ≡ false
  any-more true c = rw (about.4) refl
  any-more false c = refl

  any-shape :
      (alerts loaded more : List Piece) (one two : Piece)
      → any p alerts ≡ false
      → any p loaded ≡ false
      → any p more ≡ false
      → any p (alerts ++ one ∷ two ∷ loaded ++ more) ≡ (p one || p two)
  any-shape alerts loaded more one two ha hl hm =
      any-append p _ more ∙ rw (any-append p alerts (one ∷ two ∷ loaded), ha, hl, hm) (or_tail _ _)

  pub any-upgrade_panel : any p (upgrade_panel s) ≡ (
      p (
        upgrade_selected_button
          (length s.selected_entity_ids)
          (is_nil s.selected_entity_ids || is_nil s.revisions)
          (busy_with (codes "batch") s))
      || p (upgrade_behind_button (is_nil s.revisions) (busy_with (codes "batch-behind") s)))
  unfolding upgrade_panel
  any-upgrade_panel =
      rw (about.3, about.8)
        (any-shape (alert_of upgrade_alert s.upgrade_error)
          (if s.upgrade_loading then upgrade_loader ∷ [] else upgrade_rows s s.upgrade_entities)
          (piece_if (has_more s.upgrade_next_cursor) (load_more_button s.upgrade_loading_more)) _ _
          (any-alert_upgrade s.upgrade_error) (any-loaded s.upgrade_loading s.upgrade_entities)
          (any-more (has_more s.upgrade_next_cursor) s.upgrade_loading_more))
