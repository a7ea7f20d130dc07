-- ===== src/Actuator/Request.antt =====
-- validateProviderSpec, buildInstanceRequest and the deployment request of
-- deployDpuExtensionServices, of pkg/actuators/machine/actuator.go.
pub mod Laws
use machine_api_provider_nvi.Base.{
  String, Bool, true, false, ◌&&◌, Option, none, some, List, [], ◌∷◌, map, ltb, is_empty, is_set,
  length, if◌then◌else◌,
}
use machine_api_provider_nvi.Base.Decimal.{itoa}
use machine_api_provider_nvi.Api.Errors.{GoError, errorf}
use machine_api_provider_nvi.Api.Types.{
  AdditionalSubnet, InfiniBandInterfaceSpec, NvLinkInterfaceSpec, DpuExtensionServiceSpec,
  NicoMachineProviderSpec,
}
use machine_api_provider_nvi.Api.Sdk.{
  InterfaceCreateRequest, InfiniBandInterfaceCreateRequest, NvLinkInterfaceCreateOrUpdateRequest,
  InstanceCreateRequest, DpuExtensionServiceDeploymentRequest, InstanceUpdateRequest,
}

-- The actuator's own copy of the validation.
unfoldable pub validate_provider_spec : NicoMachineProviderSpec → Option GoError
validate_provider_spec spec =
    if is_set spec.instance_type_id && is_set spec.machine_id
    then some (errorf "specify either instanceTypeId or machineId, not both" [])
    else if is_empty spec.instance_type_id && is_empty spec.machine_id
    then some (errorf "either instanceTypeId or machineId is required" [])
    else if is_empty spec.site_id
    then some (errorf "siteId is required" [])
    else if is_empty spec.tenant_id
    then some (errorf "tenantId is required" [])
    else if is_empty spec.vpc_id
    then some (errorf "vpcId is required" [])
    else if is_empty spec.subnet_id
    then some (errorf "subnetId is required" [])
    else if ltb 10 (length spec.additional_subnet_ids)
    then some (
        errorf "too many additional subnets (max 10, got %d)"
          (itoa (length spec.additional_subnet_ids) ∷ []))
    else none

-- `if s != "" { field = &s }`
abbrev pub if_set : String → Option String
if_set s = if is_set s then some s else none

-- `if b { field = ptr(true) }`
abbrev pub if_true : Bool → Option Bool
if_true b = if b then some true else none

abbrev pub additional_interface : AdditionalSubnet → InterfaceCreateRequest
additional_interface sub = record { subnet_id = sub.subnet_id; is_physical = sub.is_physical }

abbrev pub infini_band_request : InfiniBandInterfaceSpec → InfiniBandInterfaceCreateRequest
infini_band_request ib = record {
  partition_id = if_set ib.partition_id;
  device = if_set ib.device;
  is_physical = if_true ib.is_physical;
  device_instance = ib.device_instance;
}

abbrev pub nv_link_request : NvLinkInterfaceSpec → NvLinkInterfaceCreateOrUpdateRequest
nv_link_request nvl = record {
  nv_link_logical_partition_id = if_set nvl.nv_link_logical_partition_id;
  device_instance = nvl.device_instance;
}

abbrev pub default_ipxe_script : String
default_ipxe_script = "#!ipxe\necho Booting via NICo"

-- A list or map that stays nil in the request if the spec's is empty is an empty one here.
unfoldable pub build_instance_request : String → NicoMachineProviderSpec → InstanceCreateRequest
build_instance_request name spec = record {
  name = name;
  tenant_id = spec.tenant_id;
  vpc_id = spec.vpc_id;
  interfaces =
      record { subnet_id = spec.subnet_id; is_physical = false }
      ∷ map additional_interface spec.additional_subnet_ids;
  phone_home_enabled = some true;
  instance_type_id = if_set spec.instance_type_id;
  machine_id = if_set spec.machine_id;
  allow_unhealthy_machine = if_true spec.allow_unhealthy_machine;
  user_data = if_set spec.user_data;
  operating_system_id = if_set spec.operating_system_id;
  ipxe_script = if is_set spec.operating_system_id then none else some default_ipxe_script;
  ssh_key_group_ids = spec.ssh_key_group_ids;
  labels = spec.labels;
  network_security_group_id = if_set spec.network_security_group_id;
  description = if_set spec.description;
  always_boot_with_custom_ipxe = if_true spec.always_boot_with_custom_ipxe;
  infiniband_interfaces = map infini_band_request spec.infini_band_interfaces;
  nv_link_interfaces = map nv_link_request spec.nv_link_interfaces;
}

abbrev pub dpu_request : DpuExtensionServiceSpec → DpuExtensionServiceDeploymentRequest
dpu_request svc = record { dpu_extension_service_id = svc.service_id; version = if_set svc.version }

abbrev pub build_update_request : List DpuExtensionServiceSpec → InstanceUpdateRequest
build_update_request services = record {
  dpu_extension_service_deployments = map dpu_request services;
}
