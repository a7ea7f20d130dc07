-- ===== src/Actuator/Request/Laws.antt =====
-- The actuator's own check of a spec, and the creation request that it builds from one.
use machine_api_provider_nvi.Base.{
  ◌≤◌, false, not, none, some, List, [], ◌∷◌, ◌≡◌, ◌↔◌, ◌⊎◌, arith, eq_iff, length, is_some,
}
use machine_api_provider_nvi.Api.Types.{NicoMachineProviderSpec, AdditionalSubnet}
use machine_api_provider_nvi.Api.Sdk.{InstanceCreateRequest, InterfaceCreateRequest}
use machine_api_provider_nvi.Webhook.Fields.{IsWellFormed}
use machine_api_provider_nvi.Actuator.Request.{validate_provider_spec}

-- The actuator accepts exactly the specs that are well-formed: one kind of target, the required
-- fields, and at most ten additional subnets.
pub validate_provider_spec-IsWellFormed :
    (spec : NicoMachineProviderSpec) → (validate_provider_spec spec ≡ none) ↔ IsWellFormed spec
unfolding validate_provider_spec
validate_provider_spec-IsWellFormed spec = ground (
  arith,
  eq_iff spec.instance_type_id "",
  eq_iff spec.machine_id "",
  eq_iff spec.site_id "",
  eq_iff spec.tenant_id "",
  eq_iff spec.vpc_id "",
  eq_iff spec.subnet_id "",
)

-- An interface for each of the subnets, in their order: in the subnet, and physical as it says.
pub data Serves : List AdditionalSubnet → List InterfaceCreateRequest → Type 0 where
  nothing : Serves [] []
  next :
      {sub : AdditionalSubnet} {iface : InterfaceCreateRequest} {subs : List AdditionalSubnet}
      {ifaces : List InterfaceCreateRequest}
      → iface.subnet_id ≡ sub.subnet_id
      → iface.is_physical ≡ sub.is_physical
      → Serves subs ifaces
      → Serves (sub ∷ subs) (iface ∷ ifaces)

-- What the NICo API asks of a creation: one target, one way to boot, and one to eleven interfaces,
-- the first of which is the virtual one in the spec's subnet.
pub record IsComplete (spec : NicoMachineProviderSpec) (req : InstanceCreateRequest) : Type 0 where
  pub one_target : is_some req.instance_type_id ≡ not (is_some req.machine_id)
  pub target :
      (req.instance_type_id ≡ some spec.instance_type_id) ⊎ (req.machine_id ≡ some spec.machine_id)
  pub one_boot : is_some req.operating_system_id ≡ not (is_some req.ipxe_script)
  pub others : List InterfaceCreateRequest
  pub interfaces :
      req.interfaces ≡ record { subnet_id = spec.subnet_id; is_physical = false } ∷ others
  pub serves : Serves spec.additional_subnet_ids others
  pub few : length req.interfaces ≤ 11
