-- ===== src/Editor.antt =====
-- components/EntityTypesDraftJsonEditor.tsx under frontend/packages/profile-ui/src: the draft of a
-- JSON document, edited as a form, a tree or a text, and the toolbar that changes the view.
pub mod Modes
pub mod Switching
pub mod Panes
use april_profile_kilo.Base.{
  Bool, List, Option, Text, [], codes, false, if◌then◌else◌, length, none, some, suc, text_eq, true,
  zero, ℕ, ◌%◌, ◌++◌, ◌+◌, ◌∷◌,
}
use april_profile_kilo.Value.{Fields, Value, as_object, object}
use april_profile_kilo.Runtime.{Runtime}

pub data Mode : Type 0 where
  form tree source schema : Mode

pub data Parsed : Type 0 where
  parsed : Fields → Parsed
  refused : Text → Parsed

module _ (rt : Runtime) where
  -- `parseEntityTypeDraftSchemaText`
  unfoldable pub parse_draft : Text → Parsed
  parse_draft text = elim (rt.parse text) [
    | none ↦ refused (codes "Invalid JSON syntax.")
    | some v ↦ elim (as_object v) [
      | none ↦ refused (codes "Root value must be a JSON object.")
      | some fs ↦ parsed fs
    ]
  ]

-- The `withFormMode` and `withSchemaPanel` of the toolbar.
pub record Panels : Type 0 where
  pub with_form : Bool
  pub with_schema : Bool

abbrev pub included : Bool → Mode → List Mode
included true m = m ∷ []
included false m = []

-- `draftJsonModeOrder`
unfoldable pub mode_order : Panels → List Mode
mode_order p = included p.with_form form ++ tree ∷ source ∷ included p.with_schema schema

unfoldable pub mode_eq : Mode → Mode → Bool
mode_eq form form = true
mode_eq tree tree = true
mode_eq source source = true
mode_eq schema schema = true
mode_eq _ _ = false

-- `Math.max(0, order.indexOf(mode))`
unfoldable pub index_or_zero : List Mode → Mode → ℕ → ℕ
unfolding mode_eq
index_or_zero [] m i = 0
index_or_zero (n ∷ ns) m i = if mode_eq n m then i else index_or_zero ns m (suc i)

abbrev pub mode_at : List Mode → ℕ → Mode
mode_at [] i = tree
mode_at (m ∷ ms) zero = m
mode_at (m ∷ ms) (suc i) = mode_at ms i

-- The next mode of `handleCycleMode`, `modeCycleIcon` and `cycleTooltip`.
unfoldable pub next_mode : Panels → Mode → Mode
unfolding mode_order index_or_zero
next_mode p m =
    let order = mode_order p in mode_at order ((index_or_zero order m 0 + 1) % length order)

-- The state that the toolbar and its owner share.
pub record Draft : Type 0 where
  pub mode : Mode
  pub value : Value
  pub source_text : Text
  pub switch_error : Option Text

-- `onSourceTextChange`, and the effect that clears the error when the text is another.
unfoldable pub edit_source : Text → Draft → Draft
edit_source text d =
    if text_eq text d.source_text then d else record d { source_text = text; switch_error = none }

-- The branch of `handleModeChange` that reads the text before it leaves the text view.
unfoldable pub leave_source : Mode → Draft → Parsed → Draft
leave_source m d (parsed fs) = record d { mode = m; value = object fs; switch_error = none }
leave_source m d (refused message) = record d { switch_error = some message }

abbrev pub is_source : Mode → Bool
is_source source = true
is_source _ = false

module _ (rt : Runtime) (p : Panels) where
  -- To the form or the schema: nothing happens where the panel is not offered.
  abbrev pub to_panel : Bool → Mode → Draft → Draft
  to_panel offered m d =
      if offered
      then (if is_source d.mode
          then leave_source m d (parse_draft rt d.source_text)
          else record d { mode = m })
      else d

  -- To the tree: from the form and the schema at once.
  to_tree : Draft → Mode → Draft
  to_tree d form = record d { mode = tree }
  to_tree d schema = record d { mode = tree }
  to_tree d _ = leave_source tree d (parse_draft rt d.source_text)

  change_to : Mode → Draft → Draft
  change_to source d = record (edit_source (rt.pretty d.value) d) {
    mode = source;
    switch_error = none;
  }
  change_to schema d = to_panel p.with_schema schema d
  change_to form d = to_panel p.with_form form d
  change_to tree d = to_tree d d.mode

  -- `handleModeChange`
  unfoldable pub handle_mode_change : Mode → Draft → Draft
  unfolding change_to to_tree leave_source edit_source mode_eq parse_draft
  handle_mode_change m d = if mode_eq m d.mode then d else change_to m d

  -- `handleCycleMode`
  unfoldable pub handle_cycle_mode : Draft → Draft
  unfolding next_mode
  handle_cycle_mode d = handle_mode_change (next_mode p d.mode) d

-- The two effects that leave a mode whose panel is not offered.
unfoldable pub offered_mode : Panels → Mode → Mode
offered_mode p form = if p.with_form then form else tree
offered_mode p schema = if p.with_schema then schema else if p.with_form then form else tree
offered_mode p m = m
