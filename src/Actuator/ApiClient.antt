-- ===== src/Actuator/ApiClient.antt =====
-- The SDK's client, nico.APIClient, as a parameter: the methods that nicoClient of
-- pkg/actuators/machine/actuator.go calls.
use machine_api_provider_nvi.Base.{String, Bool, Option, List, ◌∷◌}
use machine_api_provider_nvi.Base.Dict.{Dict}
use machine_api_provider_nvi.Api.Sdk.{
  Instance, InstanceCreateRequest, InstanceDeleteRequest, InstanceUpdateRequest, Machine, Tenant,
  StatusDetail, MachineHealthReportEntry, MachineHealthReportEntryRequest, MachineValidationRun,
  TenantAccount, Reply,
}
use machine_api_provider_nvi.BareMetal.Types.{NicoMachine, Sku, ExploredEndpoint}
use machine_api_provider_nvi.Actuator.World.{History}

-- The values of a context.Context, the last one that was set first.
abbrev pub Context : Type 0
Context = Dict String

-- `context.WithValue`
abbrev pub with_value : String → String → Context → Context
with_value key value ctx = (key, value) ∷ ctx

-- The methods of the SDK that are called, by the path's values after the organisation, the value
-- that the request's setter takes (`⊥` where none is called), and what Execute gives. `Deleted` is
-- the data of a deletion, which is thrown away, and `S` the world that the hosts' controller runs in.
pub data Operation (Deleted S : Type 0) : Type 0 → Type 0 → Type 0 → Type 1 where
  create_instance :
      Operation Deleted S (Unit {0}) InstanceCreateRequest (History → Reply (Option Instance))
  get_instance : Operation Deleted S String ⊥ (History → Reply (Option Instance))
  delete_instance : Operation Deleted S String InstanceDeleteRequest (History → Reply Deleted)
  update_instance :
      Operation Deleted S String InstanceUpdateRequest (History → Reply (Option Instance))
  get_instance_status_history : Operation Deleted S String ⊥ (History → Reply (List StatusDetail))
  get_machine : Operation Deleted S String ⊥ (History → Reply (Option Machine))
  get_machine_status_history : Operation Deleted S String ⊥ (History → Reply (List StatusDetail))
  get_current_tenant : Operation Deleted S (Unit {0}) ⊥ (History → Reply (Option Tenant))
  get_all_machine_health_report :
      Operation Deleted S String ⊥ (History → Reply (List MachineHealthReportEntry))
  create_or_update_machine_health_report :
      Operation Deleted S String MachineHealthReportEntryRequest
        (History → Reply (Option MachineHealthReportEntry))
  delete_machine_health_report :
      Operation Deleted S (String × String) ⊥ (History → Reply (Unit {0}))
  get_all_machine_validation_runs :
      Operation Deleted S String ⊥ (History → Reply (List MachineValidationRun))
  get_all_tenant_account : Operation Deleted S (Unit {0}) ⊥ (History → Reply (List TenantAccount))
  get_all_machine : Operation Deleted S (Unit {0}) Bool (S → Reply (List NicoMachine) × S)
  get_all_sku : Operation Deleted S (Unit {0}) ⊥ (S → Reply (List Sku) × S)
  get_all_site_explorer_endpoint :
      Operation Deleted S (Unit {0}) ⊥ (S → Reply (List ExploredEndpoint) × S)

-- A method of the SDK: it starts a request, a setter of the request adds to it, Execute sends it.
pub record Method (Route Body Run : Type 0) : Type 1 where
  pub Request : Type 0
  pub start : Context → String → Route → Request
  pub set : Request → Body → Request
  pub execute : Request → Run

-- nico.APIClient, with the key nico.ContextAccessToken.
pub record ApiClient (Deleted S : Type 0) : Type 1 where
  pub access_token_key : String
  pub method : {P B R : Type 0} → Operation Deleted S P B R → Method P B R
