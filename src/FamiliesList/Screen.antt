-- ===== src/FamiliesList/Screen.antt =====
-- components/EntityTypesWidgetCore.tsx: what the list of entity types renders, and the button that
-- creates one. Styling and fixed texts are left out.
use mathlib.Core.Path.{◌≡◌, refl}
use native.Mathlib.Omega.{arith}
use april_profile_kilo.Runtime.{Runtime}
use april_profile_kilo.Base.{
  Bool, Bool-cases, List, Option, Text, [], any, codes, decimal, false, if◌then◌else◌, inl, inr,
  is_nil, is_some, none, not, some, text_eq, trim, true, ℕ, ◌&&◌, ◌++◌, ◌||◌, ◌∷◌,
}
use april_profile_kilo.Editor.{Mode, Parsed, is_source, parse_draft, parsed, refused}
use april_profile_kilo.FamiliesList.{
  FamiliesState, begin_creation, family_title, status_text, submit_text,
}
use april_profile_kilo.FamilyDetail.Screen.{reads}
use april_profile_kilo.Providers.EntityTypes.{FamilySummary}

-- Of a closed dialog nothing is rendered.
pub data ListPart : Type 0 where
  families_loader cancel_creation_button : ListPart
  list_alert creation_alert namespace_input code_input : Text → ListPart
  -- the list's title, description, text to search, and whether it is selected
  family_card : Text → Text → Text → Text → Bool → ListPart
  detail_widget : Option Text → ListPart
  -- whether it is disabled, and whether it shows as loading
  create_family_button : Bool → Bool → ListPart
  schema_editor : Mode → ListPart

-- `createDraftSaveOk`
unfoldable pub create_draft_ok : Runtime → FamiliesState → Bool
unfolding parse_draft
create_draft_ok rt s =
    if is_source s.create_draft_mode then reads (parse_draft rt s.create_draft_text) else true

abbrev published_note : Option ℕ → Text
published_note none = []
published_note (some n) = codes " · published v" ++ decimal n

-- `listItems`: the description and the text that a search reads.
unfoldable pub family_description : FamilySummary → Text
family_description f =
    status_text f.status
    ++ codes " · draft v"
    ++ decimal f.draft_schema_version
    ++ published_note f.published_schema_version

unfoldable pub family_search_text : FamilySummary → Text
family_search_text f = f.id ++ b' ' ∷ f.namespace ++ b' ' ∷ f.code

abbrev pub is_selected_family : Option Text → Text → Bool
is_selected_family none id = false
is_selected_family (some chosen) id = text_eq chosen id

unfoldable pub family_card_of : Option Text → FamilySummary → ListPart
unfolding family_title family_description family_search_text
family_card_of selected f =
    family_card f.id (family_title f) (family_description f) (family_search_text f)
      (is_selected_family selected f.id)

unfoldable pub family_cards_of : Option Text → List FamilySummary → List ListPart
unfolding family_card_of
family_cards_of selected [] = []
family_cards_of selected (f ∷ fs) = family_card_of selected f ∷ family_cards_of selected fs

abbrev pub part_alert : (Text → ListPart) → Option Text → List ListPart
part_alert alert none = []
part_alert alert (some []) = []
part_alert alert (some (c ∷ t)) = alert (c ∷ t) ∷ []

unfoldable pub creation_dialog : Runtime → FamiliesState → List ListPart
unfolding create_draft_ok trim
creation_dialog rt s =
    if s.create_opened
    then cancel_creation_button
      ∷ create_family_button
          (is_nil (trim s.create_namespace)
            || is_nil (trim s.create_code)
            || not (create_draft_ok rt s))
          s.create_busy
      ∷ namespace_input s.create_namespace
      ∷ code_input s.create_code
      ∷ schema_editor s.create_draft_mode
      ∷ []
    else []

-- A load of the list replaces everything else.
unfoldable pub families_screen : Runtime → FamiliesState → List ListPart
unfolding family_cards_of creation_dialog
families_screen rt s =
    if s.list_loading
    then families_loader ∷ []
    else part_alert list_alert s.list_error
      ++ part_alert creation_alert s.create_error
      ++ family_cards_of s.selected_family s.families
      ++ detail_widget s.selected_family ∷ creation_dialog rt s

abbrev pub PartTest : Type 0
PartTest = ListPart → Bool

abbrev pub is_detail : PartTest
is_detail (detail_widget id) = true
is_detail part = false

-- A button that shows as loading takes no press.
abbrev pub is_enabled_create : PartTest
is_enabled_create (create_family_button disabled busy) = not disabled && not busy
is_enabled_create part = false

any-part_alert :
    (q : PartTest) (alert : Text → ListPart) (message : Option Text)
    → ((t : Text) → q (alert t) ≡ false)
    → any q (part_alert alert message) ≡ false
any-part_alert q alert none h = refl
any-part_alert q alert (some []) h = refl
any-part_alert q alert (some (c ∷ t)) h = ground (arith, h (c ∷ t))

any-family_cards_of :
    (q : PartTest) (selected : Option Text) (fs : List FamilySummary)
    → ((id title note searched : Text) (chosen : Bool)
        → q (family_card id title note searched chosen) ≡ false)
    → any q (family_cards_of selected fs) ≡ false
unfolding family_cards_of family_card_of
any-family_cards_of q selected [] h = refl
any-family_cards_of q selected (f ∷ fs) h = ground (
  arith,
  h f.id (family_title f) (family_description f) (family_search_text f)
      (is_selected_family selected f.id),
  any-family_cards_of q selected fs h,
)

any-append : (q : PartTest) (xs ys : List ListPart) → any q (xs ++ ys) ≡ (any q xs || any q ys)
any-append q [] ys = refl
any-append q (x ∷ xs) ys = ground (arith, any-append q xs ys)

-- What is neither a card nor an alert is on the screen with the detail or in the dialog.
any-families_screen :
    (q : PartTest) (rt : Runtime) (s : FamiliesState)
    → ((t : Text) → q (list_alert t) ≡ false)
    → ((t : Text) → q (creation_alert t) ≡ false)
    → ((id title note searched : Text) (chosen : Bool)
        → q (family_card id title note searched chosen) ≡ false)
    → q families_loader ≡ false
    → any q (families_screen rt s) ≡ (
        not s.list_loading && (q (detail_widget s.selected_family) || any q (creation_dialog rt s)))
unfolding families_screen
any-families_screen q rt s hl hc hf hw = elim (Bool-cases s.list_loading) [
  | inl busy ↦ rw (families_screen, busy) (ground (arith, hw))
  | inr ready ↦
      rw (families_screen, ready)
        (simp any-append (
          ground (
            arith,
            any-part_alert q list_alert s.list_error hl,
            any-part_alert q creation_alert s.create_error hc,
            any-family_cards_of q s.selected_family s.families hf,
          )))
]

module _ (rt : Runtime) (s : FamiliesState) where
  pub detail_shown : any is_detail (families_screen rt s) ≡ not s.list_loading
  detail_shown =
      ground
        (arith, any-families_screen is_detail rt s (λ t. refl) (λ t. refl) (λ a b c d e. refl) refl)

  submits_read : (read : Parsed) → is_some (submit_text s read).1 ≡ reads read
  unfolding submit_text
  submits_read (parsed fs) = refl
  submits_read (refused message) = refl

  creates_if : is_some (begin_creation rt s).1 ≡ create_draft_ok rt s
  unfolding begin_creation create_draft_ok
  creates_if = elim (Bool-cases (is_source s.create_draft_mode)) [
    | inl text ↦ rw text (submits_read (parse_draft rt s.create_draft_text))
    | inr whole ↦ rw whole refl
  ]

  dialog_creates : any is_enabled_create (creation_dialog rt s) ≡ (
      s.create_opened
      && not s.create_busy
      && not (is_nil (trim s.create_namespace))
      && not (is_nil (trim s.create_code))
      && create_draft_ok rt s)
  unfolding creation_dialog
  dialog_creates = ground arith

  -- The screen has an enabled button that creates an entity type exactly if no load of the list and no
  -- creation is under way, the dialog is open, both names have more than blanks, and a press of the
  -- button sends a request.
  pub create_enabled_iff : any is_enabled_create (families_screen rt s) ≡ (
      not s.list_loading
      && s.create_opened
      && not s.create_busy
      && not (is_nil (trim s.create_namespace))
      && not (is_nil (trim s.create_code))
      && is_some (begin_creation rt s).1)
  create_enabled_iff = ground (
    arith,
    any-families_screen is_enabled_create rt s (λ t. refl) (λ t. refl) (λ a b c d e. refl) refl,
    dialog_creates,
    creates_if,
  )
