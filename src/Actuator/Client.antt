-- ===== src/Actuator/Client.antt =====
-- nicoClient of pkg/actuators/machine/actuator.go: the methods of NicoClientInterface over the SDK.
pub mod Wire
pub mod Credentials
use machine_api_provider_nvi.Base.{String, Bool, true, false, Option, none, some, List, maybe}
use machine_api_provider_nvi.Api.Sdk.{
  Instance, InstanceCreateRequest, InstanceDeleteRequest, InstanceUpdateRequest, Machine, Tenant,
  StatusDetail, MachineHealthReportEntry, MachineHealthReportEntryRequest, MachineValidationRun,
  TenantAccount, Reply,
}
use machine_api_provider_nvi.BareMetal.Types.{NicoMachine, Sku, ExploredEndpoint}
use machine_api_provider_nvi.Actuator.World.{History, Nico, Env, NicoClient, injected, built}
use machine_api_provider_nvi.Actuator.ApiClient.{Context, with_value, Operation, Method, ApiClient}

-- A reply whose data is not used: the response and the error.
abbrev pub drop_value : {A : Type 0} → Reply A → Reply (Unit {0})
drop_value r = record { value = tt; http = r.http; failure = r.failure }

module _ {Deleted S : Type 0} (client : ApiClient Deleted S) (token : String) where
  unfoldable pub auth_ctx : Context → Context
  auth_ctx ctx = with_value client.access_token_key token ctx

  module _ (ctx : Context) (org : String) where
    -- `Method(c.authCtx(ctx), org, …).Execute()`
    plain : {P B R : Type 0} → Operation Deleted S P B R → P → R
    unfolding auth_ctx
    plain op path = let m = client.method op in m.execute (m.start (auth_ctx ctx) org path)

    -- `Method(c.authCtx(ctx), org, …).Setter(value).Execute()`
    setting : {P B R : Type 0} → Operation Deleted S P B R → P → B → R
    unfolding auth_ctx
    setting op path body =
        let m = client.method op in m.execute (m.set (m.start (auth_ctx ctx) org path) body)

    unfoldable pub create_instance : InstanceCreateRequest → History → Reply (Option Instance)
    unfolding setting
    create_instance req = setting Operation.create_instance tt req

    unfoldable pub get_instance : String → History → Reply (Option Instance)
    unfolding plain
    get_instance instance_id = plain Operation.get_instance instance_id

    -- The request's body is set if there is one; the data is thrown away.
    unfoldable pub delete_instance :
        String → Option InstanceDeleteRequest → History → Reply (Unit {0})
    unfolding plain setting
    delete_instance instance_id delete_req h =
        let execute =
          maybe delete_req (plain Operation.delete_instance instance_id)
            (setting Operation.delete_instance instance_id) in
        drop_value (execute h)

    unfoldable pub update_instance :
        String → InstanceUpdateRequest → History → Reply (Option Instance)
    unfolding setting
    update_instance instance_id req = setting Operation.update_instance instance_id req

    unfoldable pub get_machine : String → History → Reply (Option Machine)
    unfolding plain
    get_machine machine_id = plain Operation.get_machine machine_id

    unfoldable pub get_current_tenant : History → Reply (Option Tenant)
    unfolding plain
    get_current_tenant = plain Operation.get_current_tenant tt

    unfoldable pub get_instance_status_history : String → History → Reply (List StatusDetail)
    unfolding plain
    get_instance_status_history instance_id =
        plain Operation.get_instance_status_history instance_id

    unfoldable pub get_all_machine_health_report :
        String → History → Reply (List MachineHealthReportEntry)
    unfolding plain
    get_all_machine_health_report machine_id =
        plain Operation.get_all_machine_health_report machine_id

    unfoldable pub create_or_update_machine_health_report :
        String → MachineHealthReportEntryRequest → History → Reply (Option MachineHealthReportEntry)
    unfolding setting
    create_or_update_machine_health_report machine_id req =
        setting Operation.create_or_update_machine_health_report machine_id req

    unfoldable pub delete_machine_health_report : String → String → History → Reply (Unit {0})
    unfolding plain
    delete_machine_health_report machine_id source =
        plain Operation.delete_machine_health_report (machine_id, source)

    unfoldable pub get_machine_validation_runs :
        String → History → Reply (List MachineValidationRun)
    unfolding plain
    get_machine_validation_runs machine_id =
        plain Operation.get_all_machine_validation_runs machine_id

    unfoldable pub get_machine_status_history : String → History → Reply (List StatusDetail)
    unfolding plain
    get_machine_status_history machine_id = plain Operation.get_machine_status_history machine_id

    unfoldable pub get_all_tenant_account : History → Reply (List TenantAccount)
    unfolding plain
    get_all_tenant_account = plain Operation.get_all_tenant_account tt

    -- `IncludeMetadata(true)`
    unfoldable pub get_all_machine : S → Reply (List NicoMachine) × S
    unfolding setting
    get_all_machine = setting Operation.get_all_machine tt true

    unfoldable pub get_all_sku : S → Reply (List Sku) × S
    unfolding plain
    get_all_sku = plain Operation.get_all_sku tt

    unfoldable pub get_all_site_explorer_endpoint : S → Reply (List ExploredEndpoint) × S
    unfolding plain
    get_all_site_explorer_endpoint = plain Operation.get_all_site_explorer_endpoint tt

  -- The client as the actuator uses it: of three calls it does not read the data.
  unfoldable pub nico_client : Context → Nico
  unfolding create_instance get_instance delete_instance update_instance get_machine
      get_current_tenant get_instance_status_history get_all_machine_health_report
      create_or_update_machine_health_report delete_machine_health_report
      get_machine_validation_runs get_machine_status_history get_all_tenant_account
  nico_client ctx = record {
    create_instance = λ h org req. create_instance ctx org req h;
    get_instance = λ h org id. get_instance ctx org id h;
    delete_instance = λ h org id req. delete_instance ctx org id req h;
    update_instance = λ h org id req. drop_value (update_instance ctx org id req h);
    get_machine = λ h org id. get_machine ctx org id h;
    get_current_tenant = λ h org. get_current_tenant ctx org h;
    get_instance_status_history = λ h org id. get_instance_status_history ctx org id h;
    get_all_machine_health_report = λ h org id. get_all_machine_health_report ctx org id h;
    create_or_update_machine_health_report =
        λ h org id req. drop_value (create_or_update_machine_health_report ctx org id req h);
    delete_machine_health_report =
        λ h org id source. delete_machine_health_report ctx org id source h;
    get_machine_validation_runs = λ h org id. get_machine_validation_runs ctx org id h;
    get_machine_status_history = λ h org id. get_machine_status_history ctx org id h;
    get_all_tenant_account = λ h org. get_all_tenant_account ctx org h;
  }

-- A client that getNicoClient returns, with the SDK's client of an endpoint.
unfoldable pub client_of :
    {Deleted S : Type 0} → (String → ApiClient Deleted S) → Context → Nico → NicoClient → Nico
unfolding nico_client
client_of new_api_client ctx nico injected = nico
client_of new_api_client ctx nico (built endpoint token) =
    nico_client (new_api_client endpoint) token ctx

-- NewActuator and NewActuatorWithClient: the fields of Actuator, in an environment.
unfoldable pub new_actuator : Bool → Env → Env
new_actuator has_recorder env = record env {
  has_recorder = has_recorder;
  has_client = false;
  org_name = "";
}

unfoldable pub new_actuator_with_client : Bool → Bool → String → Env → Env
new_actuator_with_client has_recorder has_client org_name env = record env {
  has_recorder = has_recorder;
  has_client = has_client;
  org_name = org_name;
}
