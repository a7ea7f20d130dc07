-- ===== src/Actuator/World/Calls.antt =====
-- The requests to the NICo and Kubernetes APIs, each recorded before it is answered.
use machine_api_provider_nvi.Base.{String, Option, none, some, List, ◌∷◌}
use machine_api_provider_nvi.Base.Dict.{Dict}
use machine_api_provider_nvi.Api.Errors.{external, Outcome, ok, err}
use machine_api_provider_nvi.Api.Sdk.{
  Instance, InstanceCreateRequest, InstanceDeleteRequest, InstanceUpdateRequest, Machine, Tenant,
  StatusDetail, MachineHealthReportEntry, MachineHealthReportEntryRequest, MachineValidationRun,
  TenantAccount, Reply,
}
use machine_api_provider_nvi.Actuator.World.{Env, NicoClient, ApiCall, Effect, History, Object}
use machine_api_provider_nvi.Actuator.World.Monad.{M, ◌>>=◌, lift}

unfoldable pub request : {A : Type 0} → Effect → (History → A) → M A
request e answer w = (ok (answer w.history), record w { history = e ∷ w.history })

abbrev pub written : Object × Option String → Outcome (Unit {0})
written (o, none) = ok tt
written (o, some e) = err (external e)

-- An update leaves in memory what the client decoded into the object.
unfoldable pub update_with : Effect → (History → Object × Option String) → M (Unit {0})
update_with e answer w =
    let reply = answer w.history in
    (written reply, record { object = reply.0; history = e ∷ w.history })

module _ (env : Env) where
  abbrev pub update_object : Object → M (Unit {0})
  update_object o = update_with (Effect.update_object o) (λ h. env.kube.update_object h o)

  abbrev pub update_status : Object → M (Unit {0})
  update_status o = update_with (Effect.update_status o) (λ h. env.kube.update_status h o)

  abbrev pub get_secret : String → String → M (Dict String)
  get_secret name namespace = do
    r ← request (Effect.get_secret name namespace) (λ h. env.kube.get_secret h name namespace)
    lift r

module _ (env : Env) (client : NicoClient) (org : String) where
  send : {A : Type 0} → ApiCall → (History → A) → M A
  unfolding request
  send call answer = request (Effect.api client org call) answer

  unfoldable pub create_instance : InstanceCreateRequest → M (Reply (Option Instance))
  unfolding send
  create_instance req =
      send (ApiCall.create_instance req) (λ h. (env.nico client).create_instance h org req)

  unfoldable pub get_instance : String → M (Reply (Option Instance))
  unfolding send
  get_instance id = send (ApiCall.get_instance id) (λ h. (env.nico client).get_instance h org id)

  unfoldable pub delete_instance : String → Option InstanceDeleteRequest → M (Reply (Unit {0}))
  unfolding send
  delete_instance id req =
      send (ApiCall.delete_instance id req) (λ h. (env.nico client).delete_instance h org id req)

  unfoldable pub update_instance : String → InstanceUpdateRequest → M (Reply (Unit {0}))
  unfolding send
  update_instance id req =
      send (ApiCall.update_instance id req) (λ h. (env.nico client).update_instance h org id req)

  unfoldable pub get_machine : String → M (Reply (Option Machine))
  unfolding send
  get_machine id = send (ApiCall.get_machine id) (λ h. (env.nico client).get_machine h org id)

  unfoldable pub get_current_tenant : M (Reply (Option Tenant))
  unfolding send
  get_current_tenant =
      send ApiCall.get_current_tenant (λ h. (env.nico client).get_current_tenant h org)

  unfoldable pub get_instance_status_history : String → M (Reply (List StatusDetail))
  unfolding send
  get_instance_status_history id =
      send (ApiCall.get_instance_status_history id)
        (λ h. (env.nico client).get_instance_status_history h org id)

  unfoldable pub get_all_machine_health_report : String → M (Reply (List MachineHealthReportEntry))
  unfolding send
  get_all_machine_health_report id =
      send (ApiCall.get_all_machine_health_report id)
        (λ h. (env.nico client).get_all_machine_health_report h org id)

  unfoldable pub create_or_update_machine_health_report :
      String → MachineHealthReportEntryRequest → M (Reply (Unit {0}))
  unfolding send
  create_or_update_machine_health_report id req =
      send (ApiCall.create_or_update_machine_health_report id req)
        (λ h. (env.nico client).create_or_update_machine_health_report h org id req)

  unfoldable pub delete_machine_health_report : String → String → M (Reply (Unit {0}))
  unfolding send
  delete_machine_health_report id source =
      send (ApiCall.delete_machine_health_report id source)
        (λ h. (env.nico client).delete_machine_health_report h org id source)

  unfoldable pub get_machine_validation_runs : String → M (Reply (List MachineValidationRun))
  unfolding send
  get_machine_validation_runs id =
      send (ApiCall.get_machine_validation_runs id)
        (λ h. (env.nico client).get_machine_validation_runs h org id)

  unfoldable pub get_machine_status_history : String → M (Reply (List StatusDetail))
  unfolding send
  get_machine_status_history id =
      send (ApiCall.get_machine_status_history id)
        (λ h. (env.nico client).get_machine_status_history h org id)

  unfoldable pub get_all_tenant_account : M (Reply (List TenantAccount))
  unfolding send
  get_all_tenant_account =
      send ApiCall.get_all_tenant_account (λ h. (env.nico client).get_all_tenant_account h org)
