-- ===== src/Examples/Sdk.antt =====
-- An SDK whose requests are what they carry, a server, and a secret with the credentials for it.
use machine_api_provider_nvi.Base.{String, ◌<>◌, true, none, some, [], ◌∷◌, refl, maybe}
use machine_api_provider_nvi.Base.Dict.{lookup}
use machine_api_provider_nvi.Api.Errors.{done}
use machine_api_provider_nvi.Api.Sdk.{Reply}
use machine_api_provider_nvi.Actuator.World.{Env, World, built}
use machine_api_provider_nvi.Actuator.World.Monad.{◌>>=◌, pure, wrapping, lift}
use machine_api_provider_nvi.Actuator.World.Calls.{request}
use machine_api_provider_nvi.Actuator.World.Growth.{Returns}
use machine_api_provider_nvi.Actuator.Provider.{get_nico_client}
use machine_api_provider_nvi.Actuator.ApiClient.{Operation, Method, ApiClient}
use machine_api_provider_nvi.Actuator.Client.{new_actuator}
use machine_api_provider_nvi.Actuator.Client.Wire.{Wire, Server, IsServed}
use machine_api_provider_nvi.Actuator.Client.Credentials.{
  sdk_actuator, IsAuthorised, get_nico_client-IsAuthorised,
}
use machine_api_provider_nvi.Examples.Sample.{env, machine, start, spec}

-- A server at an endpoint: the error of every answer is the endpoint and the token.
abbrev refusal : {A P B : Type 0} → String → Wire P B → A → Reply A
refusal endpoint wire a = record {
  value = a;
  http = none;
  failure = some (endpoint <> maybe wire.access_token "" (λ t. t));
}

module _ (endpoint : String) where
  reply_to : {P B R : Type 0} → Operation (Unit {0}) (Unit {0}) P B R → Wire P B → R
  reply_to Operation.create_instance wire = λ h. refusal endpoint wire none
  reply_to Operation.get_instance wire = λ h. refusal endpoint wire none
  reply_to Operation.delete_instance wire = λ h. refusal endpoint wire tt
  reply_to Operation.update_instance wire = λ h. refusal endpoint wire none
  reply_to Operation.get_instance_status_history wire = λ h. refusal endpoint wire []
  reply_to Operation.get_machine wire = λ h. refusal endpoint wire none
  reply_to Operation.get_machine_status_history wire = λ h. refusal endpoint wire []
  reply_to Operation.get_current_tenant wire = λ h. refusal endpoint wire none
  reply_to Operation.get_all_machine_health_report wire = λ h. refusal endpoint wire []
  reply_to Operation.create_or_update_machine_health_report wire = λ h. refusal endpoint wire none
  reply_to Operation.delete_machine_health_report wire = λ h. refusal endpoint wire tt
  reply_to Operation.get_all_machine_validation_runs wire = λ h. refusal endpoint wire []
  reply_to Operation.get_all_tenant_account wire = λ h. refusal endpoint wire []
  reply_to Operation.get_all_machine wire = λ s. (refusal endpoint wire [], s)
  reply_to Operation.get_all_sku wire = λ s. (refusal endpoint wire [], s)
  reply_to Operation.get_all_site_explorer_endpoint wire = λ s. (refusal endpoint wire [], s)

abbrev server : String → Server (Unit {0}) (Unit {0})
server endpoint = record { reply = reply_to endpoint }

-- The SDK's request is the wire's.
abbrev sdk_method : {P B R : Type 0} → String → Operation (Unit {0}) (Unit {0}) P B R → Method P B R
sdk_method {P} {B} {R} endpoint op = record {
  Request = Wire P B;
  start = λ ctx org path. record {
    access_token = lookup "token" ctx;
    org = org;
    path = path;
    body = none;
  };
  set = λ r b. record r { body = some b };
  execute = reply_to endpoint op;
}

abbrev sdk : String → ApiClient (Unit {0}) (Unit {0})
sdk endpoint = record { access_token_key = "token"; method = λ op. sdk_method endpoint op }

sdk-IsServed : (endpoint : String) → IsServed (sdk endpoint) (server endpoint)
sdk-IsServed endpoint = record {
  sends = λ op. record {
    wire = λ r. r;
    wire-start = λ ctx org path. refl;
    wire-set = λ r b. refl;
    execute-wire = λ r. refl;
  };
}

-- The cluster with the secret.
abbrev secured : Env
secured =
    let e = env (machine 0 none) in
    record e {
      kube = record e.kube {
        get_secret = λ h name namespace.
            done (("endpoint", "https://nico") ∷ ("orgName", "org") ∷ ("token", "t0ken") ∷ []);
      };
    }

abbrev now_asked : World
now_asked =
    (get_nico_client (sdk_actuator sdk server true [] secured) spec (start (machine 0 none))).1

fetched :
    Returns
      (get_nico_client (sdk_actuator sdk server true [] secured) spec)
      (start (machine 0 none))
      (built "https://nico" "t0ken", "org")
      now_asked
unfolding get_nico_client sdk_actuator new_actuator ◌>>=◌ pure wrapping lift request lookup
fetched = refl

get_nico_client-IsAuthorised_example :
    IsAuthorised sdk server
      (sdk_actuator sdk server true [] secured)
      spec
      []
      (built "https://nico" "t0ken")
      "org"
get_nico_client-IsAuthorised_example =
    get_nico_client-IsAuthorised sdk server sdk-IsServed true [] secured spec
      (start (machine 0 none)) now_asked (built "https://nico" "t0ken") "org" fetched
