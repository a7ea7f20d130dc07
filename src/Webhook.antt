-- ===== src/Webhook.antt =====
-- pkg/apis/nicoprovider/v1beta1/webhook.go: the admission webhook. Decoding a request and JSON are
-- the fields of `Decoder`, `uuid.Parse` is the UUID library's, and Go's order of iteration over the
-- map of required fields is the parameter `order`.
pub mod Fields
pub mod Admission
use machine_api_provider_nvi.Base.{
  ℕ, suc, String, Bool, true, false, not, ◌&&◌, ◌||◌, Option, none, some, List, [], ◌∷◌, ltb, ◌==◌,
  string_eq, is_empty, is_set, length, if◌then◌else◌,
}
use machine_api_provider_nvi.Base.Decimal.{itoa}
use machine_api_provider_nvi.Api.Errors.{GoError, external, errorf, wrapf, LibResult, done, failed}
use machine_api_provider_nvi.Api.Types.{
  AdditionalSubnet, DpuExtensionServiceSpec, NicoMachineProviderSpec,
}
use machine_api_provider_nvi.ProviderId.{UuidLibrary}

unfoldable pub validate_provider_spec : NicoMachineProviderSpec → Option GoError
validate_provider_spec spec =
    if is_set spec.instance_type_id && is_set spec.machine_id
    then some (errorf "specify either instanceTypeId or machineId, not both" [])
    else if is_empty spec.instance_type_id && is_empty spec.machine_id
    then some (errorf "either instanceTypeId or machineId is required" [])
    else if is_empty spec.site_id
    then some (errorf "siteId is required" [])
    else if is_empty spec.tenant_id
    then some (errorf "tenantId is required" [])
    else if is_empty spec.vpc_id
    then some (errorf "vpcId is required" [])
    else if is_empty spec.subnet_id
    then some (errorf "subnetId is required" [])
    else if ltb 10 (length spec.additional_subnet_ids)
    then some (
        errorf "too many additional subnets (max 10, got %d)"
          (itoa (length spec.additional_subnet_ids) ∷ []))
    else none

-- The map `fields`, in the order in which it is written.
abbrev pub required_fields : NicoMachineProviderSpec → List (String × String)
required_fields spec =
    ("siteId", spec.site_id)
    ∷ ("tenantId", spec.tenant_id)
    ∷ ("vpcId", spec.vpc_id)
    ∷ ("subnetId", spec.subnet_id)
    ∷ []

module _ (uuid : UuidLibrary) where
  abbrev pub parses_uuid : LibResult ℕ → Bool
  parses_uuid (done u) = true
  parses_uuid (failed e) = false

  -- `_, err := uuid.Parse(value); err == nil`
  abbrev pub is_uuid : String → Bool
  is_uuid value = parses_uuid (uuid.parse value)

  pub check_fields : List (String × String) → Option GoError
  check_fields [] = none
  check_fields ((name, value) ∷ fields) =
      if is_uuid value
      then check_fields fields
      else some (errorf "invalid UUID for %s: %s" (name ∷ value ∷ []))

  -- The test of one optional field.
  pub optional_uuid : String → String → Option GoError
  optional_uuid format value =
      if is_set value && not (is_uuid value) then some (errorf format (value ∷ [])) else none

  pub check_subnets : ℕ → List AdditionalSubnet → Option GoError
  check_subnets i [] = none
  check_subnets i (sub ∷ subnets) =
      if is_uuid sub.subnet_id
      then check_subnets (suc i) subnets
      else some (
          errorf "invalid UUID for additionalSubnetIds[%d].subnetId: %s"
            (itoa i ∷ sub.subnet_id ∷ []))

  pub check_services : ℕ → List DpuExtensionServiceSpec → Option GoError
  check_services i [] = none
  check_services i (svc ∷ services) =
      let rest = check_services (suc i) services in
      if is_empty svc.service_id
      then some (errorf "dpuExtensionServices[%d].serviceId is required" (itoa i ∷ []))
      else if is_uuid svc.service_id
      then rest
      else some (
          errorf "invalid UUID for dpuExtensionServices[%d].serviceId: %s"
            (itoa i ∷ svc.service_id ∷ []))

  -- The first error of a row of tests.
  infixr 10 ◌orelse◌
  abbrev pub ◌orelse◌ : Option GoError → Option GoError → Option GoError
  none orelse k = k
  some e orelse k = some e

  unfoldable pub validate_uuids :
      (List (String × String) → List (String × String)) → NicoMachineProviderSpec → Option GoError
  validate_uuids order spec =
      check_fields (order (required_fields spec))
      orelse optional_uuid "invalid UUID for instanceTypeId: %s" spec.instance_type_id
      orelse optional_uuid "invalid UUID for machineId: %s" spec.machine_id
      orelse optional_uuid "invalid UUID for operatingSystemId: %s" spec.operating_system_id
      orelse optional_uuid "invalid UUID for networkSecurityGroupId: %s"
          spec.network_security_group_id
      orelse check_subnets 0 spec.additional_subnet_ids
      orelse check_services 0 spec.dpu_extension_services

unfoldable pub validate_immutable_fields :
    NicoMachineProviderSpec → NicoMachineProviderSpec → Option GoError
validate_immutable_fields old_spec new_spec =
    if not (old_spec.site_id == new_spec.site_id)
    then some
        (errorf "siteId is immutable (was %q, got %q)" (old_spec.site_id ∷ new_spec.site_id ∷ []))
    else if not (old_spec.tenant_id == new_spec.tenant_id)
    then some (
        errorf "tenantId is immutable (was %q, got %q)"
          (old_spec.tenant_id ∷ new_spec.tenant_id ∷ []))
    else none

-- A request: its object, and the old object's raw JSON, which is nil except on an update.
pub record AdmissionRequest : Type 0 where
  pub object : String
  pub old_object : Option String

-- Decoding a Machine, as far as the value of its providerSpec goes, and the JSON of a spec.
pub record Decoder : Type 0 where
  pub decode : String → LibResult (Option String)
  pub decode_raw : String → LibResult (Option String)
  pub unmarshal_spec : String → LibResult NicoMachineProviderSpec

pub data AdmissionResponse : Type 0 where
  allowed : String → AdmissionResponse
  denied : GoError → AdmissionResponse
  errored : ℕ → GoError → AdmissionResponse

-- No required field is set: the spec of another provider.
abbrev pub is_blank : NicoMachineProviderSpec → Bool
is_blank spec =
    is_empty spec.site_id
    && is_empty spec.tenant_id
    && is_empty spec.vpc_id
    && is_empty spec.subnet_id
    && is_empty spec.instance_type_id
    && is_empty spec.machine_id

module _ (uuid : UuidLibrary) (order : List (String × String) → List (String × String))
    (decoder : Decoder) where
  -- `admission.Denied` on an error, and what follows it otherwise.
  abbrev deny_or : Option GoError → AdmissionResponse → AdmissionResponse
  deny_or (some e) next = denied e
  deny_or none next = next

  -- The old spec is compared if it can be read.
  check_old_spec : LibResult NicoMachineProviderSpec → NicoMachineProviderSpec → AdmissionResponse
  check_old_spec (done old_spec) spec =
      deny_or (validate_immutable_fields old_spec spec) (allowed "valid provider spec")
  check_old_spec (failed e) spec = allowed "valid provider spec"

  check_old_machine : LibResult (Option String) → NicoMachineProviderSpec → AdmissionResponse
  check_old_machine (failed e) spec =
      errored 400 (wrapf "failed to decode old machine: %w" [] (external e))
  check_old_machine (done none) spec = allowed "valid provider spec"
  check_old_machine (done (some raw)) spec = check_old_spec (decoder.unmarshal_spec raw) spec

  check_update : Option String → NicoMachineProviderSpec → AdmissionResponse
  check_update none spec = allowed "valid provider spec"
  check_update (some old) spec = check_old_machine (decoder.decode_raw old) spec

  check_spec : Option String → LibResult NicoMachineProviderSpec → AdmissionResponse
  check_spec old (failed e) = denied (wrapf "failed to unmarshal providerSpec: %v" [] (external e))
  check_spec old (done spec) =
      if is_blank spec
      then allowed "not a NICo provider spec"
      else deny_or (validate_provider_spec spec)
          (deny_or (validate_uuids uuid order spec) (check_update old spec))

  check_machine : Option String → LibResult (Option String) → AdmissionResponse
  check_machine old (failed e) = errored 400 (wrapf "failed to decode machine: %w" [] (external e))
  check_machine old (done none) = allowed "no providerSpec to validate"
  check_machine old (done (some raw)) = check_spec old (decoder.unmarshal_spec raw)

  unfoldable pub handle : AdmissionRequest → AdmissionResponse
  unfolding check_machine check_spec check_update check_old_machine check_old_spec
  handle req = check_machine req.old_object (decoder.decode req.object)
