-- ===== src/ProfileDetail/Views.antt =====
-- components/ProfilesWidgetProfileDetailCore.tsx: the properties of the JSON editors that it renders,
-- for a published schema that is there or not.
use mathlib.Core.Path.{◌≡◌, refl}
use native.Mathlib.Omega.{arith}
use april_profile_kilo.Editor.{Mode, Panels, form, offered_mode, schema, source, tree}
use april_profile_kilo.Base.{
  Bool, Option, false, if◌then◌else◌, is_some, length, none, some, true, ◌&&◌, ◌||◌, Bool-cases,
  inl, inr, sym,
}
use april_profile_kilo.Editor.Panes.{EditorView, body_panes, one_view_shown}
use april_profile_kilo.ProfileDetail.{ProfileState}
use april_profile_kilo.ProfileDetail.Controls.{Frame}
use april_profile_kilo.ProfileDetail.Schemas.{
  SchemaPanel, SchemaShown, absent_schema, loading_schema, offers_form, schema_failed, schema_ready,
  unsupported,
}
use april_profile_kilo.Value.{Fields}

-- `profileEditorWithForm` and `createEditorWithForm`, with whether the provider can read schemas.
unfoldable pub editor_panels : Bool → SchemaPanel → Panels
unfolding offers_form
editor_panels reads_schemas panel = record {
  with_form = reads_schemas && offers_form panel;
  with_schema = reads_schemas;
}

-- `publishedSchemaOkForForm(state) ? state.data : undefined`
unfoldable pub form_schema_of : SchemaShown → Option Fields
form_schema_of (schema_ready fs) = some fs
form_schema_of _ = none

-- The editors of the draft, of the document on view and of a new profile; each gets a schema panel.
unfoldable pub editor_view : Bool → Bool → Bool → SchemaPanel → EditorView
unfolding editor_panels form_schema_of
editor_view reads_schemas read_only hides_toolbar panel = record {
  panels = editor_panels reads_schemas panel;
  read_only = read_only;
  hides_toolbar = hides_toolbar;
  form_schema = form_schema_of panel.shown;
  has_schema_panel = true;
}

unfoldable pub edit_view : Bool → SchemaPanel → EditorView
unfolding editor_view
edit_view reads_schemas panel = editor_view reads_schemas false true panel

unfoldable pub document_view : Bool → SchemaPanel → EditorView
unfolding editor_view
document_view reads_schemas panel = editor_view reads_schemas true true panel

-- Its own toolbar gives way to the one in the header or in the bar.
unfoldable pub create_view : Bool → Frame → ProfileState → SchemaPanel → EditorView
unfolding editor_view
create_view reads_schemas f s panel =
    editor_view reads_schemas false (s.create_opened && (f.embed_create || f.narrow)) panel

-- One of the effects on a mode, for a schema that cannot be read; and the one for the form.
unfoldable pub schema_mode_effect : Bool → Mode → Mode
schema_mode_effect reads_schemas schema = if reads_schemas then schema else form
schema_mode_effect reads_schemas m = m

unfoldable pub form_mode_effect : Panels → Mode → Mode
form_mode_effect p form = if p.with_form then form else tree
form_mode_effect p m = m

-- The two effects on the mode of a profile's draft, run until neither changes it, leave the editor in
-- the mode that the effects of its toolbar leave it in.
pub mode_effects_agree :
    (reads_schemas : Bool) (panel : SchemaPanel) (m : Mode)
    → form_mode_effect (editor_panels reads_schemas panel) (schema_mode_effect reads_schemas m)
      ≡ offered_mode (editor_panels reads_schemas panel) m
unfolding form_mode_effect schema_mode_effect editor_panels offered_mode
mode_effects_agree reads_schemas panel form = refl
mode_effects_agree reads_schemas panel tree = refl
mode_effects_agree reads_schemas panel source = refl
mode_effects_agree reads_schemas panel schema = ground arith

pub form_has_schema :
    (panel : SchemaPanel) (shown : SchemaShown)
    → panel.shown ≡ shown
    → offers_form panel ≡ is_some (form_schema_of panel.shown)
unfolding offers_form form_schema_of
form_has_schema panel unsupported e = rw e refl
form_has_schema panel loading_schema e = rw e refl
form_has_schema panel absent_schema e = rw e refl
form_has_schema panel (schema_ready fs) e = rw e refl
form_has_schema panel (schema_failed message) e = rw e refl

single_tree :
    (read_only hides_toolbar : Bool) (panel : SchemaPanel) (m : Mode)
    → length (
        body_panes
          (editor_view false read_only hides_toolbar panel)
          (offered_mode (editor_panels false panel) m))
      ≡ 1
unfolding body_panes editor_view editor_panels offered_mode
single_tree read_only hides_toolbar panel form = refl
single_tree read_only hides_toolbar panel tree = refl
single_tree true hides_toolbar panel source = refl
single_tree false hides_toolbar panel source = refl
single_tree read_only hides_toolbar panel schema = refl

-- Each of the JSON editors shows the document in exactly one view once the effects on its mode have
-- run, whatever the mode was and whether or not a published schema is there, being read or refused.
pub editors_show_one_view :
    (reads_schemas read_only hides_toolbar : Bool) (panel : SchemaPanel) (m : Mode)
    → length (
        body_panes
          (editor_view reads_schemas read_only hides_toolbar panel)
          (offered_mode (editor_panels reads_schemas panel) m))
      ≡ 1
unfolding editor_view editor_panels
editors_show_one_view reads_schemas read_only hides_toolbar panel m =
    elim (Bool-cases reads_schemas) [
      | inl on ↦ rw on (
          one_view_shown (editor_view true read_only hides_toolbar panel) m
            (sym (form_has_schema panel panel.shown refl)) refl)
      | inr off ↦ rw off (single_tree read_only hides_toolbar panel m)
    ]
