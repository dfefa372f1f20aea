-- ===== src/ProfileDetail/Modes.antt =====
-- components/ProfilesWidgetProfileDetailCore.tsx: the effects on the modes of its JSON editors, and the
-- view that the editors then show.
use mathlib.Core.Path.{◌≡◌, refl}
use native.Mathlib.Omega.{arith}
use april_profile_kilo.Base.{
  Bool, Bool-cases, Option-cases, ap, false, if◌then◌else◌, inl, inr, length, not, some, suc, sym,
  true, zero, ℕ, ◌&&◌, ◌||◌, ◌∙◌,
}
use april_profile_kilo.ProfileDetail.Schemas.{SchemaPanel, offers_form}
use april_profile_kilo.Editor.{Mode, Panels, form, mode_eq, schema, source, tree}
use april_profile_kilo.Value.{Fields}
use april_profile_kilo.ProfileDetail.Views.{
  editor_panels, editor_view, form_has_schema, form_schema_of,
}
use april_profile_kilo.Editor.Panes.{body_panes}
use april_profile_kilo.FamilyDetail.Screen.{panel}

-- The three editors: of the draft, of the document on view, and of a new profile.
pub data JsonEditor : Type 0 where
  draft_json viewed_json created_json : JsonEditor

-- Whether an effect leaves a form that is not offered: the component has one for the draft alone, the
-- toolbar has one for each editor, but only while it is on the screen.
unfoldable pub leaves_form : JsonEditor → Bool → Bool
leaves_form draft_json toolbar = true
leaves_form viewed_json toolbar = toolbar
leaves_form created_json toolbar = toolbar

-- One commit of the effects on the mode of an editor: each sees the mode of the render, and those of
-- the component run after those of its toolbar, so that what they set is what stays.
unfoldable pub mode_pass : JsonEditor → Bool → Panels → Mode → Mode
unfolding leaves_form
mode_pass e toolbar p form = if p.with_form || not (leaves_form e toolbar) then form else tree
mode_pass e toolbar p schema = if p.with_schema then schema else form
mode_pass e toolbar p m = m

-- The mode after so many renders.
unfoldable pub mode_passes : ℕ → JsonEditor → Bool → Panels → Mode → Mode
unfolding mode_pass
mode_passes zero e toolbar p m = m
mode_passes (suc n) e toolbar p m = mode_passes n e toolbar p (mode_pass e toolbar p m)

module _ (e : JsonEditor) (toolbar : Bool) (p : Panels) where
  third_pass :
      (m : Mode)
      → mode_pass e toolbar p (mode_pass e toolbar p (mode_pass e toolbar p m))
        ≡ mode_pass e toolbar p (mode_pass e toolbar p m)
  unfolding mode_pass
  third_pass form = ground arith
  third_pass tree = refl
  third_pass source = refl
  third_pass schema = ground arith

  passes_stay : (n : ℕ) (m : Mode) → mode_pass e toolbar p m ≡ m → mode_passes n e toolbar p m ≡ m
  unfolding mode_passes
  passes_stay zero m still = refl
  passes_stay (suc n) m still = rw still (passes_stay n m still)

  settled :
      (n : ℕ) (m : Mode)
      → mode_passes (suc (suc n)) e toolbar p m ≡ mode_pass e toolbar p (mode_pass e toolbar p m)
  unfolding mode_passes
  settled n m = passes_stay n (mode_pass e toolbar p (mode_pass e toolbar p m)) (third_pass m)

panes_in_form :
    (read_only hides_toolbar reads_schemas : Bool) (panel : SchemaPanel)
    → length (body_panes (editor_view reads_schemas read_only hides_toolbar panel) form)
      ≡ (if (editor_panels reads_schemas panel).with_form then 1 else 0)
unfolding body_panes editor_view editor_panels offers_form form_schema_of
panes_in_form read_only hides_toolbar false panel =
    elim (Option-cases (form_schema_of panel.shown)) [
      | inl missing ↦ rw (body_panes, missing) refl
      | inr (fs, there) ↦ rw (body_panes, there) refl
    ]
panes_in_form read_only hides_toolbar true panel =
    elim (Option-cases (form_schema_of panel.shown)) [
      | inl missing ↦ rw (body_panes, missing, form_has_schema panel panel.shown refl, missing) refl
      | inr (fs, there) ↦
          rw (body_panes, there, form_has_schema panel panel.shown refl, there) (ground arith)
    ]

offered_schema :
    (reads_schemas : Bool) (panel : SchemaPanel)
    → (reads_schemas && offers_form panel) ≡ true
    → (fs : Fields) × (form_schema_of panel.shown ≡ some fs)
offered_schema reads_schemas panel h = elim (Option-cases (form_schema_of panel.shown)) [
  | inl missing ↦
      let no_form : offers_form panel ≡ false =
        form_has_schema panel panel.shown refl ∙ rw missing refl in
      absurd (ground arith)
  | inr (fs, there) ↦ (fs, there)
]

-- Whether the editor rests in a form that is not offered.
abbrev rests_in_no_form : JsonEditor → Bool → Panels → Mode → Bool
rests_in_no_form e toolbar p m =
    not (leaves_form e toolbar) && not p.with_form && mode_eq (mode_passes 2 e toolbar p m) form

module _ (e : JsonEditor) (toolbar read_only hides_toolbar : Bool) (panel : SchemaPanel) where
  panes_after :
      (reads_schemas : Bool) (m : Mode)
      → length (
          body_panes
            (editor_view reads_schemas read_only hides_toolbar panel)
            (mode_passes 2 e toolbar (editor_panels reads_schemas panel) m))
        ≡ (if rests_in_no_form e toolbar (editor_panels reads_schemas panel) m then 0 else 1)
  unfolding mode_passes mode_pass mode_eq body_panes editor_view editor_panels
  panes_after reads_schemas tree = ground arith
  panes_after reads_schemas source = ground arith
  panes_after true schema = ground arith
  panes_after false schema = elim (Bool-cases (leaves_form e toolbar)) [
    | inl goes ↦ rw goes refl
    | inr stays ↦ rw stays (panes_in_form read_only hides_toolbar false panel)
  ]
  panes_after reads_schemas form = elim (Bool-cases (leaves_form e toolbar)) [
    | inl goes ↦ elim (Bool-cases (reads_schemas && offers_form panel)) [
      | inl offered ↦ rw (goes, offered, (offered_schema reads_schemas panel offered).1) refl
      | inr absent ↦ rw (goes, absent) refl
    ]
    | inr stays ↦ elim (Bool-cases (reads_schemas && offers_form panel)) [
      | inl offered ↦ rw (stays, offered, (offered_schema reads_schemas panel offered).1) refl
      | inr absent ↦ elim (Option-cases (form_schema_of panel.shown)) [
        | inl missing ↦ rw (absent, stays, stays, missing) refl
        | inr (fs, there) ↦ rw (absent, stays, stays, there) refl
      ]
    ]
  ]

abbrev pub edits_draft : JsonEditor → Bool
edits_draft draft_json = true
edits_draft viewed_json = false
edits_draft created_json = false

-- The mode is the form, or the schema with a provider that cannot read one.
abbrev pub leads_to_form : Bool → Mode → Bool
leads_to_form reads_schemas m = mode_eq m form || (mode_eq m schema && not reads_schemas)

-- No effect takes the editor out of a form that is not offered.
abbrev pub is_left_blank : JsonEditor → Bool → SchemaPanel → Bool → Mode → Bool
is_left_blank e toolbar panel reads_schemas m =
    not (edits_draft e || toolbar)
    && not (reads_schemas && offers_form panel)
    && leads_to_form reads_schemas m

leaves_form_lem :
    (e : JsonEditor) (toolbar : Bool) → leaves_form e toolbar ≡ (edits_draft e || toolbar)
unfolding leaves_form
leaves_form_lem draft_json toolbar = refl
leaves_form_lem viewed_json toolbar = refl
leaves_form_lem created_json toolbar = refl

rests_if_blank :
    (e : JsonEditor) (toolbar : Bool) (panel : SchemaPanel) (reads_schemas : Bool) (m : Mode)
    → rests_in_no_form e toolbar (editor_panels reads_schemas panel) m
      ≡ is_left_blank e toolbar panel reads_schemas m
unfolding mode_passes mode_pass mode_eq editor_panels
rests_if_blank e toolbar panel reads_schemas form = rw (leaves_form_lem e toolbar) (ground arith)
rests_if_blank e toolbar panel reads_schemas tree = rw (leaves_form_lem e toolbar) (ground arith)
rests_if_blank e toolbar panel reads_schemas source = rw (leaves_form_lem e toolbar) (ground arith)
rests_if_blank e toolbar panel reads_schemas schema = rw (leaves_form_lem e toolbar) (ground arith)

-- The effects on the mode of an editor come to rest after two renders at most, whatever the mode was,
-- whether or not its toolbar is on the screen, and whether a published schema is there, being read or
-- refused. The editor then shows the document in exactly one view; or in none, exactly where it is the
-- editor of the document on view or of a new profile, its toolbar is off the screen, no form is
-- offered, and the mode was the form, or the schema with a provider that cannot read one.
pub mode_effects_settle :
    (e : JsonEditor) (toolbar read_only hides_toolbar : Bool) (panel : SchemaPanel)
    (reads_schemas : Bool) (m : Mode) (n : ℕ)
    → (mode_passes (suc (suc n)) e toolbar (editor_panels reads_schemas panel) m
        ≡ mode_passes 2 e toolbar (editor_panels reads_schemas panel) m)
      × (length (
            body_panes
              (editor_view reads_schemas read_only hides_toolbar panel)
              (mode_passes (suc (suc n)) e toolbar (editor_panels reads_schemas panel) m))
          ≡ (if is_left_blank e toolbar panel reads_schemas m then 0 else 1))
mode_effects_settle e toolbar read_only hides_toolbar panel reads_schemas m n =
    let p = editor_panels reads_schemas panel in
    let rest = settled e toolbar p n m ∙ sym (settled e toolbar p 0 m) in
    (
      rest,
      rw rest (panes_after e toolbar read_only hides_toolbar panel reads_schemas m)
          ∙ ap (λ (blank : Bool). if blank then 0 else 1)
              (rests_if_blank e toolbar panel reads_schemas m),
    )
