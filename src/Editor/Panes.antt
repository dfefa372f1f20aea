-- ===== src/Editor/Panes.antt =====
-- components/EntityTypesDraftJsonEditor.tsx: the toolbar's control, and which view of the document the
-- editor renders. Styling and fixed texts are left out.
use mathlib.Core.Path.{◌≡◌, refl}
use native.Mathlib.Omega.{arith}
use april_profile_kilo.Value.{Fields, Value, array}
use april_profile_kilo.Base.{
  Bool, List, Option, Text, [], any, codes, if◌then◌else◌, is_some, length, none, not, some, ◌&&◌,
  ◌++◌, ◌∷◌,
}
use april_profile_kilo.Editor.{
  Draft, Mode, Panels, edit_source, form, mode_eq, mode_order, next_mode, offered_mode, schema,
  source, tree,
}

-- `draftJsonModeTooltipLabel`
unfoldable pub mode_title : Mode → Text
mode_title form = codes "Form"
mode_title tree = codes "Tree"
mode_title source = codes "Source"
mode_title schema = codes "Schema"

-- `segmentedData`: the values of its rows, in order.
unfoldable pub segments : Panels → List Mode
segments p =
    let middle = tree ∷ source ∷ (if p.with_schema then schema ∷ [] else []) in
    if p.with_form then form ∷ middle else middle

abbrev pub first_or_tree : List Mode → Mode
first_or_tree [] = tree
first_or_tree (m ∷ ms) = m

-- `segmentedValue`
unfoldable pub segment_shown : Panels → Mode → Mode
unfolding segments mode_eq
segment_shown p m =
    if any (λ (n : Mode). mode_eq n m) (segments p) then m else first_or_tree (segments p)

pub data ToolbarPart : Type 0 where
  -- the button that goes to the next mode, with its icon's mode and its label
  cycle_button : Mode → Text → ToolbarPart
  segmented : List Mode → Mode → ToolbarPart
  switch_alert : Text → ToolbarPart

abbrev switch_alert_of : Option Text → List ToolbarPart
switch_alert_of none = []
switch_alert_of (some []) = []
switch_alert_of (some (c ∷ s)) = switch_alert (c ∷ s) ∷ []

-- What `DraftJsonEditorToolbar` renders.
unfoldable pub toolbar_parts : Panels → Bool → Bool → Draft → List ToolbarPart
unfolding segments segment_shown next_mode mode_title
toolbar_parts p cycles read_only d =
    (if cycles
      then cycle_button (next_mode p d.mode) (mode_title (next_mode p d.mode))
      else segmented (segments p) (segment_shown p d.mode))
    ∷ (if read_only then [] else switch_alert_of d.switch_error)

-- The properties of the editor that decide what it shows.
pub record EditorView : Type 0 where
  pub panels : Panels
  pub read_only : Bool
  pub hides_toolbar : Bool
  pub form_schema : Option Fields
  pub has_schema_panel : Bool

pub data EditorPane : Type 0 where
  mode_toolbar issue_summary source_viewer source_editor schema_viewer : EditorPane
  form_pane : Fields → Bool → EditorPane
  -- whether it is writable
  tree_pane : Bool → EditorPane

abbrev form_panes : EditorView → Option Fields → List EditorPane
form_panes e none = []
form_panes e (some fs) = if e.panels.with_form then form_pane fs e.read_only ∷ [] else []

-- The view of the document, by mode.
unfoldable pub body_panes : EditorView → Mode → List EditorPane
body_panes e form = form_panes e e.form_schema
body_panes e tree = tree_pane (not e.read_only) ∷ []
body_panes e source = if e.read_only then source_viewer ∷ [] else source_editor ∷ []
body_panes e schema = if e.panels.with_schema && e.has_schema_panel then schema_viewer ∷ [] else []

-- What `EntityTypesDraftJsonEditor` renders.
unfoldable pub editor_panes : EditorView → Mode → List EditorPane
unfolding body_panes
editor_panes e m =
    (if e.hides_toolbar then [] else mode_toolbar ∷ []) ++ issue_summary ∷ body_panes e m

-- The `onChange` of the form.
unfoldable pub write_form : Bool → Value → Draft → Draft
write_form read_only v d = if read_only then d else record d { value = v }

-- The `setData` of the tree, which takes no array.
abbrev set_tree : Value → Draft → Draft
set_tree (array vs) d = d
set_tree v d = record d { value = v }

unfoldable pub write_tree : Bool → Value → Draft → Draft
write_tree read_only v d = if read_only then d else set_tree v d

-- The `onChange` of the text.
unfoldable pub write_source : Bool → Text → Draft → Draft
unfolding edit_source
write_source read_only text d = if read_only then d else edit_source text d

-- The segmented control offers the modes that the cycle button goes round, in the same order, and marks
-- the mode that the toolbar's effects leave the editor in, whichever panels are offered.
pub controls_agree :
    (p : Panels) (m : Mode) → (segments p ≡ mode_order p) × (segment_shown p m ≡ offered_mode p m)
unfolding segments segment_shown mode_order offered_mode mode_eq
controls_agree p form = ground arith
controls_agree p tree = ground arith
controls_agree p source = ground arith
controls_agree p schema = ground arith

-- With a form schema exactly if the form is offered, and a panel exactly if the schema is, the editor
-- shows the document in exactly one view once the toolbar's effects have run, whatever the mode was.
pub one_view_shown :
    (e : EditorView) (m : Mode)
    → is_some e.form_schema ≡ e.panels.with_form
    → e.has_schema_panel ≡ e.panels.with_schema
    → length (body_panes e (offered_mode e.panels m)) ≡ 1
unfolding body_panes offered_mode
one_view_shown e form hf hs = ground arith
one_view_shown e tree hf hs = refl
one_view_shown e source hf hs = ground arith
one_view_shown e schema hf hs = ground arith
