-- ===== src/Api/Sdk.antt =====
-- The types of the NICo SDK, each with the fields that the program reads or writes. A pointer and a
-- NullableString are an `Option`; the methods' results are three independent values in Go, and so
-- they are in `Reply`.
use machine_api_provider_nvi.Base.{ℕ, String, Bool, List, Option}
use machine_api_provider_nvi.Base.Dict.{Dict}
use machine_api_provider_nvi.Api.Types.{Int32}

-- InstanceStatus: the SDK's constants, and any other text.
pub data InstanceStatus : Type 0 where
  pending provisioning configuring ready updating rebooting terminating error : InstanceStatus
  other : String → InstanceStatus

-- `string(status)`
abbrev pub status_text : InstanceStatus → String
status_text pending = "Pending"
status_text provisioning = "Provisioning"
status_text configuring = "Configuring"
status_text ready = "Ready"
status_text updating = "Updating"
status_text rebooting = "Rebooting"
status_text terminating = "Terminating"
status_text error = "Error"
status_text (other s) = s

pub record Interface : Type 0 where
  pub ip_addresses : List String

pub record NvLinkInterface : Type 0 where
  pub nv_link_logical_partition_id : Option String
  pub nv_link_domain_id : Option String

pub record InfiniBandInterface : Type 0 where
  pub partition_id : Option String

pub record Instance : Type 0 where
  pub id : Option String
  pub machine_id : Option String
  pub site_id : Option String
  pub status : Option InstanceStatus
  pub interfaces : List Interface
  pub nv_link_interfaces : List NvLinkInterface
  pub infiniband_interfaces : List InfiniBandInterface

pub record InterfaceCreateRequest : Type 0 where
  pub subnet_id : String
  pub is_physical : Bool

pub record InfiniBandInterfaceCreateRequest : Type 0 where
  pub partition_id : Option String
  pub device : Option String
  pub is_physical : Option Bool
  pub device_instance : Option Int32

pub record NvLinkInterfaceCreateOrUpdateRequest : Type 0 where
  pub nv_link_logical_partition_id : Option String
  pub device_instance : Option Int32

pub record InstanceCreateRequest : Type 0 where
  pub name : String
  pub tenant_id : String
  pub vpc_id : String
  pub interfaces : List InterfaceCreateRequest
  pub phone_home_enabled : Option Bool
  pub instance_type_id : Option String
  pub machine_id : Option String
  pub allow_unhealthy_machine : Option Bool
  pub user_data : Option String
  pub operating_system_id : Option String
  pub ipxe_script : Option String
  pub ssh_key_group_ids : List String
  pub labels : Dict String
  pub network_security_group_id : Option String
  pub description : Option String
  pub always_boot_with_custom_ipxe : Option Bool
  pub infiniband_interfaces : List InfiniBandInterfaceCreateRequest
  pub nv_link_interfaces : List NvLinkInterfaceCreateOrUpdateRequest

pub record DpuExtensionServiceDeploymentRequest : Type 0 where
  pub dpu_extension_service_id : String
  pub version : Option String

pub record InstanceUpdateRequest : Type 0 where
  pub dpu_extension_service_deployments : List DpuExtensionServiceDeploymentRequest

pub record MachineHealthIssue : Type 0 where
  pub category : String
  pub summary : String
  pub details : String

pub record InstanceDeleteRequest : Type 0 where
  pub machine_health_issue : MachineHealthIssue

pub record MachineHealthProbeAlert : Type 0 where
  pub id : String
  pub message : String
  pub classifications : List String

pub record MachineHealthReportEntry : Type 0 where
  pub alerts : List MachineHealthProbeAlert

pub record MachineHealthReportEntryRequest : Type 0 where
  pub source : String
  pub alerts : List MachineHealthProbeAlert
  pub mode : String

pub record MachineHealth : Type 0 where
  pub alerts : List MachineHealthProbeAlert

-- nico.Machine, as far as the actuator reads it.
pub record Machine : Type 0 where
  pub health : Option MachineHealth

-- The counts are Go integers that are not negative.
pub record MachineValidationRun : Type 0 where
  pub end_time : Option ℕ
  pub state : String
  pub completed : ℕ
  pub total : ℕ

pub record StatusDetail : Type 0 where
  pub status : Option String
  pub message : Option String
  pub created : Option ℕ

pub record SiteCapability : Type 0 where
  pub targeted_instance_creation : Bool
  pub site_ids : List String

pub record TenantAccount : Type 0 where
  -- `acct.GetStatus() == TENANTACCOUNTSTATUS_READY`
  pub is_ready : Bool
  pub site_capabilities : List SiteCapability

pub record TenantCapabilities : Type 0 where
  pub targeted_instance_creation : Option Bool

pub record Tenant : Type 0 where
  pub capabilities : Option TenantCapabilities

-- The parts of *http.Response that are read: the code, and the body if it is not nil.
pub record HttpResponse : Type 0 where
  pub status_code : ℕ
  pub body : Option String

-- The values that an SDK method returns: its data, the response and the error.
pub record Reply {ℓ} (A : Type ℓ) : Type ℓ where
  pub value : A
  pub http : Option HttpResponse
  pub failure : Option String
