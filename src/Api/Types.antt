-- ===== src/Api/Types.antt =====
-- pkg/apis/nicoprovider/v1beta1/types.go, without the embedded TypeMeta and ObjectMeta, which the
-- program never reads. A pointer is an `Option`.
use machine_api_provider_nvi.Base.{ℕ, String, Bool, List, Option}
use machine_api_provider_nvi.Base.Dict.{Dict}

-- An `int32` that is only passed on: its sign and its absolute value.
pub record Int32 : Type 0 where
  pub negative : Bool
  pub magnitude : ℕ

pub record AdditionalSubnet : Type 0 where
  pub subnet_id : String
  pub is_physical : Bool

pub record CredentialsSecretReference : Type 0 where
  pub name : String
  pub namespace : String

pub record InfiniBandInterfaceSpec : Type 0 where
  pub partition_id : String
  pub device : String
  pub is_physical : Bool
  pub device_instance : Option Int32

pub record DpuExtensionServiceSpec : Type 0 where
  pub service_id : String
  pub version : String

pub record NvLinkInterfaceSpec : Type 0 where
  pub nv_link_logical_partition_id : String
  pub device_instance : Option Int32

pub record NicoMachineProviderSpec : Type 0 where
  pub site_id : String
  pub tenant_id : String
  pub instance_type_id : String
  pub machine_id : String
  pub allow_unhealthy_machine : Bool
  pub vpc_id : String
  pub subnet_id : String
  pub additional_subnet_ids : List AdditionalSubnet
  pub operating_system_id : String
  pub infini_band_interfaces : List InfiniBandInterfaceSpec
  pub nv_link_interfaces : List NvLinkInterfaceSpec
  pub network_security_group_id : String
  pub user_data : String
  pub ssh_key_group_ids : List String
  pub labels : Dict String
  pub description : String
  pub always_boot_with_custom_ipxe : Bool
  pub dpu_extension_services : List DpuExtensionServiceSpec
  pub credentials_secret : CredentialsSecretReference

pub record MachineAddress : Type 0 where
  pub address_type : String
  pub address : String

-- metav1.ConditionStatus
pub data ConditionStatus : Type 0 where
  condition_true condition_false condition_unknown : ConditionStatus

-- metav1.Condition; the time is in nanoseconds, 0 for the zero time.
pub record Condition : Type 0 where
  pub condition_type : String
  pub status : ConditionStatus
  pub reason : String
  pub message : String
  pub last_transition_time : ℕ

pub record NicoMachineProviderStatus : Type 0 where
  pub instance_id : Option String
  pub machine_id : Option String
  pub instance_state : Option String
  pub addresses : List MachineAddress
  pub conditions : List Condition
  pub health_labels : Dict String
