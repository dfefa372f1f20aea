-- ===== src/Telemetry.antt =====
-- observability.ts and the host context of types.ts, under frontend/packages/profile-ui/src, with
-- the calls that the widgets make to their host.
use april_profile_kilo.Base.{
  Bool, List, Option, Text, [], false, none, or_other, some, true, ℕ, ◌∷◌,
}
use april_profile_kilo.Errors.{ErrorReport}
use april_profile_kilo.Value.{Value}
use april_profile_kilo.Providers.{ListItem}

pub record HostTelemetry : Type 0 where
  pub request_id : Text
  pub correlation_id : Option Text

-- The parts of `ProfileWidgetHostContext` that reach a modelled path.
pub record HostContext : Type 0 where
  pub tenant_id : Text
  pub telemetry : Option HostTelemetry

pub data WidgetKind : Type 0 where
  profiles_list entity_types : WidgetKind

pub data EventName : Type 0 where
  view_loaded list_requested list_succeeded list_failed details_requested details_failed : EventName
  save_submitted save_succeeded save_failed : EventName
  draft_save_submitted draft_save_succeeded draft_save_failed : EventName
  publish_submitted publish_succeeded publish_failed : EventName
  upgrade_submitted upgrade_succeeded upgrade_failed : EventName
  batch_upgrade_submitted batch_upgrade_completed : EventName

abbrev pub Meta : Type 0
Meta = List (Text × Value)

pub record TelemetryEvent : Type 0 where
  pub widget : WidgetKind
  pub event : EventName
  pub request_id : Option Text
  pub correlation_id : Option Text
  pub meta : Meta

-- `hostContext.telemetry?.requestId`
abbrev pub host_request_id : HostContext → Option Text
host_request_id host = elim host.telemetry [ none ↦ none | some t ↦ some t.request_id ]

abbrev pub host_correlation_id : HostContext → Option Text
host_correlation_id host = elim host.telemetry [ none ↦ none | some t ↦ t.correlation_id ]

-- `buildTelemetryIds` and the event that `emitProfileWidgetTelemetry` passes on.
unfoldable pub telemetry_event : HostContext → WidgetKind → EventName → Meta → TelemetryEvent
telemetry_event host widget event meta = record {
  widget = widget;
  event = event;
  request_id = host_request_id host;
  correlation_id = or_other (host_correlation_id host) (host_request_id host);
  meta = meta;
}

-- types.ts, `ProfilesListAction` and `EntityTypesWidgetAction`
pub data Action : Type 0 where
  created updated : ListItem → Action
  deleted : Text → Action
  family_created : Text → Text → Text → Action
  family_patched family_deleted revision_published : Text → Action
  draft_saved : Text → ℕ → Action
  entity_upgrade_requested entity_upgrade_succeeded : Text → Action
  entity_upgrade_failed : Text → Text → Action
  batch_upgrade_done : Text → ℕ → ℕ → ℕ → Action

-- What a widget calls its host with, in order: `onObservability`, `onError`, `onAction` and
-- `onOpenEntity`.
pub data Output : Type 0 where
  observed : TelemetryEvent → Output
  failed : ErrorReport → Output
  acted : Action → Output
  opened : Text → Output

-- `emitProfileWidgetTelemetry`: nothing is called where the host observes nothing.
unfoldable pub emit : Bool → HostContext → WidgetKind → EventName → Meta → List Output
unfolding telemetry_event
emit false host widget event meta = []
emit true host widget event meta = observed (telemetry_event host widget event meta) ∷ []
