-- ===== src/Services.antt =====
-- The API client that is generated from the OpenAPI document, under
-- frontend/packages/profile-ui/src/generated/services, with the configuration of core/OpenAPI.ts.
pub mod Profiles
pub mod EntityTypes
pub mod Others
pub mod Agreement
pub mod Bodies
use april_profile_kilo.Transport.Request.{Config}
use april_profile_kilo.Value.{end}
use april_profile_kilo.Base.{codes, false, none}
use april_profile_kilo.Transport.Call.{headers}

-- `OpenAPI`
abbrev pub open_api : Config
open_api = record {
  base = codes "/admin/profile/api";
  version = codes "0.3.0";
  with_credentials = false;
  credentials = codes "include";
  token = none;
  username = none;
  password = none;
  headers = end;
}
