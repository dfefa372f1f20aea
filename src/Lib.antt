-- ===== src/Lib.antt =====
-- Verification library of the April Profile front end: the profile widgets of
-- frontend/packages/profile-ui, the demonstration server of frontend/src/mocks and the application
-- that shows them.
--
-- The parts of the program and the files that model them (paths from the repository's root; UI
-- stands for frontend/packages/profile-ui/src):
--
-- Base: what all modules share. Text is a list of UTF-16 code units, Dict is a JavaScript Map with
--   string keys, ◌==◌, ltb and leb are tests on the native ℕ, if is the conditional.
-- Value: JavaScript values as JSON makes them, with the operators ?. and ??.
-- Errors: UI/providers/apiErrorMapping.ts (statusToCode, mapApiErrorToProfilesProviderError),
--   isProfilesProviderError, and the mapSecureMessage and reportError of the widgets.
-- Transport: UI/generated/core. Transport/Promise is the class CancelablePromise with its flags,
--   handlers and settlement; Transport/Encode is encodeURIComponent and encodeURI;
--   Transport/Request is getQueryString, getUrl and catchErrorCodes of request.ts,
--   Transport/Headers its getHeaders and base64, Transport/Bodies its getFormData, getRequestBody,
--   getResponseHeader and getResponseBody; Transport/Call is one request with sendRequest and the
--   withSignal of the providers, as a machine whose steps are what the event loop may do next.
-- Providers: UI/providers/openapiProfilesProvider.ts and openapiEntityTypesProvider.ts. An
--   operation is the request that it opens and the conversion of its response (Providers/Profiles,
--   Providers/EntityTypes, Providers/Upgrades); conclude is its try and catch.
-- Services: UI/generated/services, one function from its arguments to a request for each method;
--   Services/Bodies has the bodies that UI/generated/models declares for them.
-- Embed: UI/components/ProfilesApiWidget.tsx, EntityTypesApiWidget.tsx and
--   ProfilesApiWidgetProfileDetail.tsx, and frontend/src/widgetDemos/openApiEmbedWiring.ts: what a
--   host's renders make of the provider and the token.
-- Display: UI/profileDisplay.ts. Editor: UI/components/EntityTypesDraftJsonEditor.tsx, with its
--   toolbar and the view of each mode in Editor/Panes.
-- Telemetry: UI/observability.ts and the action types of UI/types.ts.
-- ProfilesList: UI/components/ProfilesWidgetCore.tsx. A state holds the React states, the refs and
--   the loads under way; loadList is cut at its await into begin_load and answer, and run takes any
--   sequence of user acts, effects and answers. ProfilesList/Screen is what the widget renders,
--   with the detail that it mounts.
-- FamiliesList: UI/components/EntityTypesWidgetCore.tsx, its list and its create dialog;
--   FamiliesList/Screen is what it renders.
-- FamilyDetail: UI/components/EntityTypesWidgetDetailCore.tsx. FamilyDetail/Drafts saves, publishes
--   and reloads the draft, FamilyDetail/Upgrades and FamilyDetail/Batches have the profiles of the
--   type and their upgrade, FamilyDetail/Changes the rename and the deletion, FamilyDetail/Screen
--   what is rendered. A handler is a function up to each await and one for the answer, and what its
--   closure has captured is an argument of the second.
-- ProfileDetail: UI/components/ProfilesWidgetProfileDetailCore.tsx, in the same way. ProfileDetail
--   has the state and the map of versions, ProfileDetail/Loads the load of a profile,
--   ProfileDetail/Editing its update, ProfileDetail/Restoring its return to an old version and its
--   deletion, ProfileDetail/Creating the create dialog, ProfileDetail/Schemas the panels of the
--   published schema. What is rendered is a list of elements with their places:
--   ProfileDetail/Controls has the toolbars, ProfileDetail/Screen the rest, ProfileDetail/Panes the
--   panels, ProfileDetail/Views the properties of the JSON editors, ProfileDetail/Modes the effects on
--   their modes. ProfileDetail/Runs takes selections, choices of a version and the answers to loads
--   in any order; the changes of a profile are no part of it.
-- Demo: frontend/src/mocks/handlers.ts, one function on a store for each route, with the store that
--   it starts with (Demo/Seeds). Demo/Contract is an abstract server whose state is four functions,
--   and Demo/Refinement dispatches requests to the routes and relates the two.
-- App: frontend/src/App.tsx and the pages of frontend/src/widgetDemos: routes, links, messages,
--   samples.
-- System: the list, the detail and the server together: how the calls of the detail reach the list,
--   a creation and a deletion from the server's answer to the list.
-- Tests: the theorems applied to concrete inputs.
--
-- How they interact: a widget calls an operation of a provider with an abort signal; the provider
-- opens a request (Transport), awaits it under the signal and maps what is thrown (Errors); the
-- widget shows the mapped error and tells the host (Telemetry).
--
-- Numbers are naturals: the program's numbers here are versions, counts, statuses, limits and
-- times. Loops are structural recursions, so no fuel is needed. JSON text and the case mapping of
-- Unicode are fields of a Runtime record (Runtime), an argument of what uses them. Fresh ids and
-- the time are arguments of the server's routes.
--
-- Not modelled: the styling, layout and fixed texts of the rendered elements, which are otherwise
-- lists of data; the components of the vendored packages; blobs and form objects as request bodies
-- (no request has one); the Go service; the documentation site.
pub mod App
pub mod Base
pub mod Value
pub mod Errors
pub mod Transport
pub mod Providers
pub mod Services
pub mod Embed
pub mod Runtime
pub mod Display
pub mod Editor
pub mod Telemetry
pub mod ProfilesList
pub mod FamiliesList
pub mod FamilyDetail
pub mod ProfileDetail
pub mod Demo
pub mod System
pub mod Tests
