-- ===== src/ProfilesList/Selection.antt =====
-- components/ProfilesWidgetCore.tsx: the selection after a page has come.
use mathlib.Core.Path.{subst}
use april_profile_kilo.Base.{
  Bool, Bool-cases, List, Option, Text, [], arith, false, if◌then◌else◌, inl, inr, none, some,
  text_eq_iff, true, ◌∷◌, ◌≡◌, ℕ,
}
use april_profile_kilo.ProfilesList.{
  ListState, Load, Props, first_id, has_id, merged_items, next_selection, still_listed, store_page,
}
use april_profile_kilo.Providers.{ListItem, ListPage}

first_id-IsListed :
    (items : List ListItem) (id : Text) → first_id items ≡ some id → has_id id items ≡ true
first_id-IsListed [] id h = cc
first_id-IsListed (item ∷ items) id h = ground (arith, text_eq_iff item.entity_id id)

still_listed-has :
    (o : Option Text) (items : List ListItem) (id : Text)
    → still_listed o items ≡ true
    → o ≡ some id
    → has_id id items ≡ true
still_listed-has none items id h e = cc
still_listed-has (some []) items id h e = cc
still_listed-has (some (c ∷ t)) items id h e = subst (λ (u : Text). has_id u items ≡ true) (cc) h

auto-has :
    (auto : Bool) (items : List ListItem) (id : Text)
    → (if auto then first_id items else none) ≡ some id
    → has_id id items ≡ true
auto-has true items id h = first_id-IsListed items id h
auto-has false items id h = cc

next_selection-has :
    (p : Props) (items : List ListItem) (s : ListState) (id : Text)
    → (next_selection p items s).selected ≡ some id
    → has_id id items ≡ true
unfolding next_selection
next_selection-has p items s id h = elim (Bool-cases (still_listed s.preferred items)) [
  | inl wanted ↦ still_listed-has s.preferred items id wanted (ground arith)
  | inr unwanted ↦ elim (Bool-cases (still_listed s.selected items)) [
    | inl kept ↦ still_listed-has s.selected items id kept (ground arith)
    | inr lost ↦ auto-has p.auto_select_first items id (ground arith)
  ]
]

pub items-store_page :
    (p : Props) (l : Load) (page : ListPage) (s : ListState)
    → (store_page p l page s).items ≡ merged_items l.append s.items page.items
unfolding store_page
items-store_page p l page s = ground arith

-- The state in which the selection is chosen.
abbrev stored : Load → ListPage → ListState → ListState
stored l page s = record s {
  items = merged_items l.append s.items page.items;
  next_cursor = page.next_cursor;
  total_count = page.total_count;
}

-- Whatever profile is selected after a page has been stored is one of those then listed.
pub selected_is_listed :
    (p : Props) (l : Load) (page : ListPage) (s : ListState) (id : Text)
    → (store_page p l page s).selected ≡ some id
    → has_id id (store_page p l page s).items ≡ true
unfolding store_page
selected_is_listed p l page s id h =
    rw (items-store_page p l page s) (next_selection-has p _ (stored l page s) id h)

-- A profile that the widget has been told to prefer is selected by the first page that lists it,
-- whatever was selected, and the preference is then spent.
pub preferred_is_selected :
    (p : Props) (l : Load) (page : ListPage) (s : ListState) (c : ℕ) (id : Text)
    → has_id (c ∷ id) (merged_items l.append s.items page.items) ≡ true
    → s.preferred ≡ some (c ∷ id)
    → ((store_page p l page s).selected ≡ some (c ∷ id))
      × ((store_page p l page s).preferred ≡ none)
unfolding store_page next_selection
preferred_is_selected p l page s c id h e = ground arith

-- With no preference, a selected profile that the page keeps stays selected.
pub selection_survives :
    (p : Props) (l : Load) (page : ListPage) (s : ListState) (c : ℕ) (id : Text)
    → has_id (c ∷ id) (merged_items l.append s.items page.items) ≡ true
    → s.preferred ≡ none
    → s.selected ≡ some (c ∷ id)
    → (store_page p l page s).selected ≡ some (c ∷ id)
unfolding store_page next_selection
selection_survives p l page s c id h e k = ground arith
