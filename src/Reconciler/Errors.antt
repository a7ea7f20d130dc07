-- ===== src/Reconciler/Errors.antt =====
-- How a refused creation is retried, from the answer of the API to the result of the reconciler.
use machine_api_provider_nvi.Base.{String, Option, none, some, ◌≡◌, refl, arith, if◌then◌else◌}
use machine_api_provider_nvi.Api.Errors.{GoError, Outcome, err, external, as_classified}
use machine_api_provider_nvi.Api.Types.{NicoMachineProviderSpec}
use machine_api_provider_nvi.Api.Sdk.{HttpResponse, Instance}
use machine_api_provider_nvi.Actuator.World.{Env, World, NicoClient}
use machine_api_provider_nvi.Actuator.World.Monad.{◌>>=◌, fail, emit, pure}
use machine_api_provider_nvi.Actuator.Health.{has_code}
use machine_api_provider_nvi.Actuator.Create.{
  http_error_kind, classify_http_error, create_error, handle_create_error, handle_created,
}
use machine_api_provider_nvi.Reconciler.{
  done_after, failed_after, handle_kind, handle_actuator_error,
}

-- A refusal with status 400 is final; after anything else the reconciler tries again.
create_error-verdict :
    (env : Env) (http : Option HttpResponse) (cause : GoError)
    → handle_actuator_error (create_error env http cause)
      ≡ (if has_code 400 http then done_after 0 else failed_after 30 (create_error env http cause))
unfolding handle_actuator_error create_error classify_http_error as_classified http_error_kind
    handle_kind
create_error-verdict env none cause = refl
create_error-verdict env (some r) cause = ground arith

handle_create_error-err :
    (env : Env) (http : Option HttpResponse) (cause : GoError) (w : World)
    → (handle_create_error env {A = Unit {0}} http cause w).0 ≡ err (create_error env http cause)
unfolding handle_create_error ◌>>=◌ emit fail pure
handle_create_error-err env http cause w = ground arith

-- What a creation that the API refused comes to.
pub record IsRefused (http : Option HttpResponse) (r : Outcome (Unit {0})) : Type 0 where
  pub error : GoError
  pub returned : r ≡ err error
  pub verdict :
      handle_actuator_error error
      ≡ (if has_code 400 http then done_after 0 else failed_after 30 error)

-- If the request for an instance fails, the handling of the answer in Create returns an error. For
-- this error, the reconciler gives up without an error and without a retry if the response has
-- status 400, and returns the error with a retry after 30 seconds if it has another status or there
-- is no response.
pub handle_created-IsRefused :
    (env : Env) (client : NicoClient) (org : String) (spec : NicoMachineProviderSpec)
    (value : Option Instance) (http : Option HttpResponse) (message : String) (w : World)
    → IsRefused http
        (handle_created env client org spec
          (record { value = value; http = http; failure = some message })
          w).0
unfolding handle_created
handle_created-IsRefused env client org spec value http message w = record {
  error = create_error env http (external message);
  returned = handle_create_error-err env http (external message) w;
  verdict = create_error-verdict env http (external message);
}
