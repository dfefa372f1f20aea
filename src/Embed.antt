-- ===== src/Embed.antt =====
-- How a host embeds the widgets: components/ProfilesApiWidget.tsx, EntityTypesApiWidget.tsx and
-- ProfilesApiWidgetProfileDetail.tsx under frontend/packages/profile-ui/src, and the hooks of
-- frontend/src/widgetDemos/openApiEmbedWiring.ts. All of them wire a provider and a context alike.
use mathlib.Core.Path.{◌≡◌, refl, ap, subst}
use april_profile_kilo.Base.{
  All, Bool, List, Option, Text, [], if◌then◌else◌, none, some, suc, text_eq, text_eq_refl, ℕ, ◌∷◌,
  or_other, ◌∙◌,
}
use april_profile_kilo.Providers.{ProviderConfig, ProviderContext, build_config}
use april_profile_kilo.Value.{Value}
use april_profile_kilo.Transport.Request.{own}
use april_profile_kilo.Providers.Agreement.{Arguments, all_requests}
use april_profile_kilo.Providers.Wire.{IsSentRight, all_requests-IsSentRight}

-- The properties of one render that reach the wiring; only EntityTypesApiWidget takes a context.
pub record Embed : Type 0 where
  pub base_url : Text
  pub token : Option Text
  pub own_context : Option ProviderContext

-- What the hooks keep between renders: the memoised provider, how often it was made, and
-- `accessTokenRef`.
pub record Wiring : Type 0 where
  pub provider : ProviderConfig
  pub providers_made : ℕ
  pub token_ref : Option Text

-- `createOpenApiProfilesProvider({ apiBaseUrl })`
abbrev pub provider_for : Text → ProviderConfig
provider_for url = record { api_base_url = url; access_token = none }

-- `useMemo` with the address as its key, and the write to the ref at each render.
unfoldable pub render : Embed → Option Wiring → Wiring
render e none = record {
  provider = provider_for e.base_url;
  providers_made = 1;
  token_ref = e.token;
}
render e (some w) =
    if text_eq e.base_url w.provider.api_base_url
    then record w { token_ref = e.token }
    else record {
      provider = provider_for e.base_url;
      providers_made = suc w.providers_made;
      token_ref = e.token;
    }

-- The context of a request: its token is a getter, which reads the ref when the request is built.
unfoldable pub context_now : Embed → Wiring → Option Bool → ProviderContext
context_now e w signal = elim e.own_context [
  | none ↦ record { access_token = w.token_ref; signal = signal }
  | some c ↦ record c { signal = signal }
]

-- The copies of the wiring, each at one render: the component's or the hook's properties, and what it
-- kept of the render before.
unfoldable pub profiles_api_widget : Text → Option Text → Option Wiring → Wiring
unfolding render
profiles_api_widget url token w =
    render (record { base_url = url; token = token; own_context = none }) w

unfoldable pub profile_detail_api_widget : Text → Option Text → Option Wiring → Wiring
unfolding render
profile_detail_api_widget url token w =
    render (record { base_url = url; token = token; own_context = none }) w

-- The one copy that takes a context of the host's.
unfoldable pub entity_types_api_widget :
    Text → Option Text → Option ProviderContext → Option Wiring → Wiring
unfolding render
entity_types_api_widget url token ctx w =
    render (record { base_url = url; token = token; own_context = ctx }) w

unfoldable pub use_open_api_profiles_embed : Text → Option Text → Option Wiring → Wiring
unfolding render
use_open_api_profiles_embed url token w =
    render (record { base_url = url; token = token; own_context = none }) w

unfoldable pub use_open_api_entity_types_embed : Text → Option Text → Option Wiring → Wiring
unfolding render
use_open_api_entity_types_embed url token w =
    render (record { base_url = url; token = token; own_context = none }) w

unfoldable pub renders : List Embed → Wiring → Wiring
unfolding render
renders [] w = w
renders (e ∷ es) w = renders es (render e (some w))

-- The first render and those after it.
unfoldable pub embedded : Embed → List Embed → Wiring
unfolding renders render
embedded e es = renders es (render e none)

abbrev pub last_render : Embed → List Embed → Embed
last_render e [] = e
last_render e (f ∷ fs) = last_render f fs

abbrev pub HasAddress : Text → Embed → Type 0
HasAddress url e = e.base_url ≡ url

render_kept :
    (url : Text) (e : Embed) (w : Wiring)
    → w.provider ≡ provider_for url
    → e.base_url ≡ url
    → render e (some w) ≡ record w { token_ref = e.token }
unfolding render
render_kept url e w same here = rw (here, same, text_eq_refl url) refl

renders_kept :
    (url : Text) (e : Embed) (es : List Embed) (w : Wiring)
    → w.provider ≡ provider_for url
    → w.token_ref ≡ e.token
    → All (HasAddress url) es
    → ((renders es w).provider ≡ provider_for url)
      × ((renders es w).providers_made ≡ w.providers_made)
      × ((renders es w).token_ref ≡ (last_render e es).token)
unfolding renders
renders_kept url e [] w same token h = (same, refl, token)
renders_kept url e (f ∷ fs) w same token (here, h) =
    rw (renders, render_kept url f w same here)
      (renders_kept url f fs (record w { token_ref = f.token }) same refl h)

or_other-none : (t : Option Text) → or_other t none ≡ t
or_other-none none = refl
or_other-none (some s) = refl

sent_with :
    (utf8 : Text → List ℕ) (compact : Value → Text) (config : ProviderConfig)
    (ctx : ProviderContext) (a : Arguments) (token : Option Text)
    → or_other ctx.access_token config.access_token ≡ token
    → All (IsSentRight utf8 compact (build_config config ctx) token) (all_requests a)
sent_with utf8 compact config ctx a token e =
    subst (λ t. All (IsSentRight utf8 compact (build_config config ctx) t) (all_requests a)) e
      (all_requests-IsSentRight utf8 compact config ctx a)

token_now :
    (e : Embed) (w : Wiring) (signal : Option Bool)
    → e.own_context ≡ none
    → w.provider.access_token ≡ none
    → or_other (context_now e w signal).access_token w.provider.access_token ≡ w.token_ref
unfolding context_now
token_now e w signal own same = rw (context_now, own, same) (or_other-none w.token_ref)

-- However often the host renders a widget anew, with the same address and whatever tokens, one provider
-- is made, so that nothing is loaded again for a token; and every request made afterwards with the
-- widget's own context, to any operation and with any arguments, bears the token of the last render.
pub token_rotates :
    (utf8 : Text → List ℕ) (compact : Value → Text) (e : Embed) (es : List Embed)
    (signal : Option Bool) (a : Arguments)
    → All (HasAddress e.base_url) es
    → (last_render e es).own_context ≡ none
    → ((embedded e es).providers_made ≡ 1)
      × All
          (IsSentRight utf8 compact
            (build_config
              (embedded e es).provider
              (context_now (last_render e es) (embedded e es) signal))
            (last_render e es).token)
          (all_requests a)
unfolding embedded render
token_rotates utf8 compact e es signal a h own =
    let w = embedded e es in
    let kept = renders_kept e.base_url e es (render e none) refl refl h in
    let last = last_render e es in
    (
      kept.1,
      sent_with utf8 compact w.provider (context_now last w signal) a last.token (
          token_now last w signal own (ap (λ (c : ProviderConfig). c.access_token) kept.0)
          ∙ kept.2),
    )
