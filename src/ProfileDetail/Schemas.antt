-- ===== src/ProfileDetail/Schemas.antt =====
-- components/ProfilesWidgetProfileDetailCore.tsx: the panels of the published schema, one of the
-- profile and one of the create dialog, and the view of the document that is shown.
use mathlib.Core.Path.{◌≡◌}
use native.Mathlib.Omega.{arith}
use april_profile_kilo.Display.{extract_name, list_primary_label}
use april_profile_kilo.FamilyDetail.{given}
use april_profile_kilo.Errors.{
  ProviderError, Thrown, abort_error, as_provider_error, profile_message,
}
use april_profile_kilo.Base.{
  Bool, List, Option, Text, [], any, codes, false, if◌then◌else◌, none, not, or_else, some, suc,
  true, ℕ, ◌&&◌, ◌==◌, ◌∷◌, ◌≢◌,
}
use april_profile_kilo.Transport.Promise.{Outcome, fulfilled, rejected}
use april_profile_kilo.Editor.{form, mode_eq, tree}
use april_profile_kilo.Runtime.{Runtime}
use april_profile_kilo.Value.{Fields, end, object}
use april_profile_kilo.Providers.{ListItem}
use april_profile_kilo.ProfileDetail.{ProfileState}

-- `PublishedSchemaPanelState`
pub data SchemaShown : Type 0 where
  unsupported loading_schema absent_schema : SchemaShown
  schema_ready : Fields → SchemaShown
  schema_failed : Text → SchemaShown

-- The state of a panel with its request counter and the requests whose signal has fired.
pub record SchemaPanel : Type 0 where
  pub shown : SchemaShown
  pub request : ℕ
  pub fired_requests : List ℕ

abbrev pub fire_request : SchemaPanel → SchemaPanel
fire_request s = record s { fired_requests = s.request ∷ s.fired_requests }

-- The effect of a panel, after the cleanup of the effect before it: a type to read, or none.
unfoldable pub panel_effect : Option Text → SchemaPanel → SchemaPanel
panel_effect none s = record (fire_request s) { shown = unsupported }
panel_effect (some type_id) s = record (fire_request s) {
  request = suc s.request;
  shown = loading_schema;
}

-- The type of the profile's panel: that of its row in the list.
abbrev pub profile_panel_type : Option ListItem → Option Text
profile_panel_type none = none
profile_panel_type (some item) = given (some item.entity_type_id)

-- The type of the create dialog's panel.
abbrev pub create_panel_type : ProfileState → Option Text
create_panel_type s = if s.create_opened then given s.create_type else none

abbrev pub is_awaited : ℕ → SchemaPanel → Bool
is_awaited id s = id == s.request && not (any (λ (n : ℕ). n == id) s.fired_requests)

abbrev pub show_schema : Option Fields → SchemaShown
show_schema none = absent_schema
show_schema (some fs) = schema_ready fs

abbrev pub schema_message : Option ProviderError → Text
schema_message none = codes "Failed to load schema."
schema_message (some e) = profile_message e.code

-- `error instanceof DOMException && error.name === "AbortError"`
abbrev pub is_dom_abort : Thrown → Bool
is_dom_abort abort_error = true
is_dom_abort _ = false

-- The answer of `getEntityTypePublishedSchema`.
unfoldable pub panel_answered : ℕ → Outcome (Option Fields) → SchemaPanel → SchemaPanel
unfolding profile_message as_provider_error
panel_answered id (fulfilled found) s =
    if is_awaited id s then record s { shown = show_schema found } else s
panel_answered id (rejected e) s =
    if is_awaited id s && not (is_dom_abort e)
    then record s { shown = schema_failed (schema_message (as_provider_error e)) }
    else s

-- An answer for a type that is not the last one asked for does not reach the panel.
stale_schema :
    (id : ℕ) (o : Outcome (Option Fields)) (s : SchemaPanel)
    → id ≢ s.request
    → panel_answered id o s ≡ s
unfolding panel_answered
stale_schema id (fulfilled found) s h = ground arith
stale_schema id (rejected e) s h = ground arith

-- `publishedSchemaOkForForm`
unfoldable pub offers_form : SchemaPanel → Bool
offers_form s = elim s.shown [ schema_ready fs ↦ true | _ ↦ false ]

-- The effect that leaves the form of the editor where it is not offered.
unfoldable pub leave_form : SchemaPanel → ProfileState → ProfileState
unfolding offers_form
leave_form panel s =
    if mode_eq s.edit_draft_mode form && not (offers_form panel)
    then record s { edit_draft_mode = tree }
    else s

-- The text of the read-only view: `JSON.stringify(selectedDocument ?? {}, null, 2)`.
unfoldable pub view_text : Runtime → ProfileState → Text
view_text rt s = rt.pretty (elim s.selected_document [ none ↦ object end | some d ↦ d ])

-- `displayNameForCard`
unfoldable pub card_name : Runtime → Option ListItem → ProfileState → Text
unfolding extract_name list_primary_label
card_name rt none s = []
card_name rt (some item) s = elim s.selected_document [
  | none ↦ list_primary_label rt item
  | some d ↦ or_else (extract_name d) (list_primary_label rt item)
]
