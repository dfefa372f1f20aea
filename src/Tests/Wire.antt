-- ===== src/Tests/Wire.antt =====
-- Requests and responses on concrete inputs.
use mathlib.Core.Path.{◌≡◌, refl}
use april_profile_kilo.Base.{All, Text, [], codes, get, none, some, text_eq, true, ◌∷◌}
use april_profile_kilo.Providers.{ProviderConfig, ProviderContext, build_config}
use april_profile_kilo.Providers.Wire.{
  IsDelivered, IsSentRight, every_success_delivers, all_requests-IsSentRight,
}
use april_profile_kilo.Providers.Agreement.{all_requests}
use april_profile_kilo.Transport.Bodies.{Response, get_response_body}
use april_profile_kilo.Value.{string}
use april_profile_kilo.Tests.Calls.{ann_arguments, no_text, ok_result}
use april_profile_kilo.Services.Agreement.{IsSameCall, counterparts, providers_call_the_api}
use april_profile_kilo.Services.{open_api}

abbrev json_response : Response
json_response = record {
  ok = true;
  status = 200;
  status_text = codes "OK";
  headers = (codes "Content-Type", codes "application/json; charset=utf-8") ∷ [];
  json = some (string (codes "hello"));
  text = [];
}

abbrev ann_context : ProviderContext
ann_context = record { access_token = some (codes "t0"); signal = none }

abbrev ann_provider : ProviderConfig
ann_provider = record { api_base_url = codes "/api"; access_token = none }

abbrev same_text : Text → Text
same_text t = t

json_response_read : get_response_body same_text json_response ≡ string (codes "hello")
unfolding get_response_body get text_eq
json_response_read = refl

every_success_delivers_example :
    All (IsDelivered no_text same_text json_response refl) (all_requests ann_arguments)
every_success_delivers_example =
    every_success_delivers no_text same_text json_response refl refl ann_arguments

all_requests-IsSentRight_example :
    All
      (IsSentRight same_text no_text (build_config ann_provider ann_context) (some (codes "t0")))
      (all_requests ann_arguments)
all_requests-IsSentRight_example =
    all_requests-IsSentRight same_text no_text ann_provider ann_context ann_arguments

providers_call_the_api_example :
    All (IsSameCall open_api no_text ok_result) (counterparts ann_arguments)
providers_call_the_api_example =
    providers_call_the_api open_api no_text ok_result refl ann_arguments
