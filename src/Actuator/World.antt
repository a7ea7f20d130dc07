-- ===== src/Actuator/World.antt =====
-- What the actuator runs in. Its libraries and the two servers are the fields of `Env`; a server's
-- answer may depend on everything that was done before. Its state is the machine object in memory
-- and the history of effects, newest first.
pub mod Monad
pub mod Calls
pub mod Effects
pub mod Counts
pub mod Growth
pub mod Memory
pub mod Results
use machine_api_provider_nvi.Base.{ℕ, String, Bool, Option, List}
use machine_api_provider_nvi.Base.Dict.{Dict}
use machine_api_provider_nvi.Api.Errors.{GoError, LibResult}
use machine_api_provider_nvi.Api.Types.{
  NicoMachineProviderSpec, NicoMachineProviderStatus, Condition,
}
use machine_api_provider_nvi.Api.Sdk.{
  Instance, InstanceCreateRequest, InstanceDeleteRequest, InstanceUpdateRequest, Machine, Tenant,
  StatusDetail, MachineHealthReportEntry, MachineHealthReportEntryRequest, MachineValidationRun,
  TenantAccount, Reply,
}
use machine_api_provider_nvi.ProviderId.{UuidLibrary}

-- The fields of machinev1beta1.Machine that are read or written. Raw JSON is its text.
pub record TypedMachine : Type 0 where
  pub provider_spec_value : Option String
  pub provider_status : Option String
  pub provider_id : Option String
  pub error_reason : Option String
  pub error_message : Option String

-- What a runtime.Object is: the cases of the type switches, and one that is no client.Object.
pub data Kind : Type 0 where
  typed : TypedMachine → Kind
  unstructured : String → Kind
  unsupported : Kind
  not_client_object : Kind

-- An object with its metadata; a nil map is an empty one, a zero time is 0.
pub record Object : Type 0 where
  pub name : String
  pub namespace : String
  pub labels : Dict String
  pub annotations : Dict String
  pub finalizers : List String
  pub deletion_timestamp : ℕ
  pub kind : Kind

-- The client that getNicoClient returns.
pub data NicoClient : Type 0 where
  injected : NicoClient
  built : String → String → NicoClient

-- The requests of NicoClientInterface that the actuator makes.
pub data ApiCall : Type 0 where
  create_instance : InstanceCreateRequest → ApiCall
  get_instance : String → ApiCall
  delete_instance : String → Option InstanceDeleteRequest → ApiCall
  update_instance : String → InstanceUpdateRequest → ApiCall
  get_machine : String → ApiCall
  get_current_tenant : ApiCall
  get_instance_status_history : String → ApiCall
  get_all_machine_health_report : String → ApiCall
  create_or_update_machine_health_report : String → MachineHealthReportEntryRequest → ApiCall
  delete_machine_health_report : String → String → ApiCall
  get_machine_validation_runs : String → ApiCall
  get_machine_status_history : String → ApiCall
  get_all_tenant_account : ApiCall

-- The changes of pkg/metrics; the measured durations are left out.
pub data Metric : Type 0 where
  managed_inc managed_dec unhealthy_inc unhealthy_dec health_events_inc : Metric
  provision_duration : Metric
  api_latency : String → Metric
  api_error : String → String → Metric

pub data EventType : Type 0 where
  normal warning : EventType

pub data Effect : Type 0 where
  -- A request to the NICo API, for an organisation.
  api : NicoClient → String → ApiCall → Effect
  -- Reads and writes of the Kubernetes API.
  get_secret : String → String → Effect
  get_object : Effect
  update_object : Object → Effect
  update_status : Object → Effect
  metric : Metric → Effect
  -- An event: type, reason, format, values, and the error that is among them.
  event : EventType → String → String → List String → Option GoError → Effect

abbrev pub History : Type 0
History = List Effect

-- The NICo API behind a client; the text is the organisation.
pub record Nico : Type 0 where
  pub create_instance : History → String → InstanceCreateRequest → Reply (Option Instance)
  pub get_instance : History → String → String → Reply (Option Instance)
  pub delete_instance : History → String → String → Option InstanceDeleteRequest → Reply (Unit {0})
  pub update_instance : History → String → String → InstanceUpdateRequest → Reply (Unit {0})
  pub get_machine : History → String → String → Reply (Option Machine)
  pub get_current_tenant : History → String → Reply (Option Tenant)
  pub get_instance_status_history : History → String → String → Reply (List StatusDetail)
  pub get_all_machine_health_report :
      History → String → String → Reply (List MachineHealthReportEntry)
  pub create_or_update_machine_health_report :
      History → String → String → MachineHealthReportEntryRequest → Reply (Unit {0})
  pub delete_machine_health_report : History → String → String → String → Reply (Unit {0})
  pub get_machine_validation_runs : History → String → String → Reply (List MachineValidationRun)
  pub get_machine_status_history : History → String → String → Reply (List StatusDetail)
  pub get_all_tenant_account : History → String → Reply (List TenantAccount)

pub data Found : Type 0 where
  found : Object → Found
  not_found : Found
  get_failed : String → Found

-- The Kubernetes API. An update gives the object as the client leaves it in memory, and an error.
pub record Kube : Type 0 where
  pub get_secret : History → String → String → LibResult (Dict String)
  pub get_object : History → Found
  pub update_object : History → Object → Object × Option String
  pub update_status : History → Object → Object × Option String

-- `unstructured.NestedFieldCopy`: the field's JSON, if it was found and could be marshalled.
pub data Nested : Type 0 where
  nested_error : String → Nested
  nested_missing : Nested
  nested_field : LibResult String → Nested

-- encoding/json on the provider's types, and the fields of an unstructured object: each of
-- `set_nested_status` and `set_nested_provider_id` gives the new content.
pub record Json : Type 0 where
  pub unmarshal_spec : String → LibResult NicoMachineProviderSpec
  pub unmarshal_status : String → LibResult NicoMachineProviderStatus
  pub marshal_status : NicoMachineProviderStatus → LibResult String
  pub nested_spec : String → Nested
  pub nested_status : String → Nested
  pub unmarshal_map : String → LibResult String
  pub set_nested_status : String → String → LibResult String
  pub set_nested_provider_id : String → String → LibResult String
  -- The body of an API error: its message, if the body is such an object.
  pub error_message : String → LibResult String

pub record Env : Type 0 where
  -- The fields of Actuator: `eventRecorder != nil`, `nicoAPIClient != nil`, `orgName`.
  pub has_recorder : Bool
  pub has_client : Bool
  pub org_name : String
  -- The variables ProvisioningTimeout (nanoseconds) and MaxFaultBlockedAttempts.
  pub provisioning_timeout : ℕ
  pub max_fault_blocked_attempts : ℕ
  pub nico : NicoClient → Nico
  pub kube : Kube
  pub json : Json
  pub uuid : UuidLibrary
  -- `meta.SetStatusCondition`, at a time.
  pub set_status_condition : ℕ → List Condition → Condition → List Condition
  -- The clock, in nanoseconds; it is read as standing still between two effects.
  pub now : History → ℕ
  -- `%s` of a duration, RFC 3339 of a time, `%q` of a text.
  pub format_duration : ℕ → String
  pub format_time : ℕ → String
  pub quote : String → String

pub record World : Type 0 where
  pub object : Object
  pub history : History
