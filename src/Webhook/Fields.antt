-- ===== src/Webhook/Fields.antt =====
-- What the field tests of the webhook accept, and that Go's order of iteration does not matter.
use mathlib.Core.List.{Perm, Permᴰ}
use mathlib.Core.Logic.{∥∥₁_elim}
use mathlib.Core.Bool.{Bool-set}
use machine_api_provider_nvi.Base.{
  ℕ, suc, ◌≤◌, String, true, ◌&&◌, none, List, [], ◌∷◌, ◌≡◌, ◌≢◌, ◌↔◌, ◌⊎◌, refl, ◌∙◌, arith,
  eq_iff, length, All, Bool,
}
use machine_api_provider_nvi.Api.Types.{
  AdditionalSubnet, DpuExtensionServiceSpec, NicoMachineProviderSpec,
}
use machine_api_provider_nvi.ProviderId.{UuidLibrary}
use machine_api_provider_nvi.Webhook.{
  validate_provider_spec, required_fields, is_uuid, check_fields, optional_uuid, check_subnets,
  check_services, validate_uuids, validate_immutable_fields,
}

-- One kind of target, the required fields, and ten additional subnets at most.
pub record IsWellFormed (spec : NicoMachineProviderSpec) : Type 0 where
  pub one_target :
      ((spec.instance_type_id ≢ "") × (spec.machine_id ≡ ""))
      ⊎ ((spec.instance_type_id ≡ "") × (spec.machine_id ≢ ""))
  pub site : spec.site_id ≢ ""
  pub tenant : spec.tenant_id ≢ ""
  pub vpc : spec.vpc_id ≢ ""
  pub subnet : spec.subnet_id ≢ ""
  pub few_subnets : length spec.additional_subnet_ids ≤ 10

-- The webhook's validation passes exactly the well-formed specs.
pub validate_provider_spec_iff :
    (spec : NicoMachineProviderSpec) → (validate_provider_spec spec ≡ none) ↔ IsWellFormed spec
unfolding validate_provider_spec
validate_provider_spec_iff spec = ground (
  arith,
  eq_iff spec.instance_type_id "",
  eq_iff spec.machine_id "",
  eq_iff spec.site_id "",
  eq_iff spec.tenant_id "",
  eq_iff spec.vpc_id "",
  eq_iff spec.subnet_id "",
)

-- The immutable fields are the site and the tenant.
pub validate_immutable_fields_iff :
    (old_spec new_spec : NicoMachineProviderSpec)
    → (validate_immutable_fields old_spec new_spec ≡ none)
      ↔ ((old_spec.site_id ≡ new_spec.site_id) × (old_spec.tenant_id ≡ new_spec.tenant_id))
unfolding validate_immutable_fields
validate_immutable_fields_iff old_spec new_spec =
    ground (
      arith,
      eq_iff old_spec.site_id new_spec.site_id,
      eq_iff old_spec.tenant_id new_spec.tenant_id,
    )

module _ (uuid : UuidLibrary) where
  abbrev pub IsUuid : String → Type 0
  IsUuid value = is_uuid uuid value ≡ true

  abbrev pub IsOptionalUuid : String → Type 0
  IsOptionalUuid value = (value ≡ "") ⊎ IsUuid value

  -- Every ID of the spec that the webhook looks at is a UUID, or is absent where it may be.
  pub record HasUuids (spec : NicoMachineProviderSpec) : Type 0 where
    pub site : IsUuid spec.site_id
    pub tenant : IsUuid spec.tenant_id
    pub vpc : IsUuid spec.vpc_id
    pub subnet : IsUuid spec.subnet_id
    pub instance_type : IsOptionalUuid spec.instance_type_id
    pub machine : IsOptionalUuid spec.machine_id
    pub operating_system : IsOptionalUuid spec.operating_system_id
    pub network_security_group : IsOptionalUuid spec.network_security_group_id
    pub subnets : All (λ sub. IsUuid sub.subnet_id) spec.additional_subnet_ids
    pub services :
        All (λ svc. (svc.service_id ≢ "") × IsUuid svc.service_id) spec.dpu_extension_services

  all_uuids : List (String × String) → Bool
  all_uuids [] = true
  all_uuids ((name, value) ∷ fields) = is_uuid uuid value && all_uuids fields

  check_fields-all_uuids :
      (fields : List (String × String))
      → (check_fields uuid fields ≡ none) ↔ (all_uuids fields ≡ true)
  unfolding check_fields all_uuids
  check_fields-all_uuids [] = ground arith
  check_fields-all_uuids ((name, value) ∷ fields) = ground (arith, check_fields-all_uuids fields)

  all_uuids-Permᴰ : {xs ys : List (String × String)} → Permᴰ xs ys → all_uuids xs ≡ all_uuids ys
  unfolding all_uuids
  all_uuids-Permᴰ Permᴰ.nil = refl
  all_uuids-Permᴰ (Permᴰ.cons e p) = rw e (rw (all_uuids-Permᴰ p) refl)
  all_uuids-Permᴰ (Permᴰ.swap e f) = rw (e, f) (ground arith)
  all_uuids-Permᴰ (Permᴰ.trans p q) = all_uuids-Permᴰ p ∙ all_uuids-Permᴰ q

  all_uuids-Perm : {xs ys : List (String × String)} → Perm xs ys → all_uuids xs ≡ all_uuids ys
  all_uuids-Perm p = ∥∥₁_elim p (Bool-set _ _) all_uuids-Permᴰ

  optional_uuid_iff :
      (format value : String) → (optional_uuid uuid format value ≡ none) ↔ IsOptionalUuid value
  unfolding optional_uuid
  optional_uuid_iff format value = ground (arith, eq_iff value "")

  check_subnets_iff :
      (i : ℕ) (subnets : List AdditionalSubnet)
      → (check_subnets uuid i subnets ≡ none) ↔ All (λ sub. IsUuid sub.subnet_id) subnets
  unfolding check_subnets
  check_subnets_iff i [] = ground arith
  check_subnets_iff i (sub ∷ subnets) = ground (arith, check_subnets_iff (suc i) subnets)

  check_services_iff :
      (i : ℕ) (services : List DpuExtensionServiceSpec)
      → (check_services uuid i services ≡ none)
        ↔ All (λ svc. (svc.service_id ≢ "") × IsUuid svc.service_id) services
  unfolding check_services
  check_services_iff i [] = ground arith
  check_services_iff i (svc ∷ services) =
      ground (arith, eq_iff svc.service_id "", check_services_iff (suc i) services)

  -- Whatever the order in which the map of required fields is walked, the test of the UUIDs passes
  -- exactly if every ID that it looks at is a UUID, or is absent where it may be.
  pub validate_uuids_iff :
      (order : List (String × String) → List (String × String)) (spec : NicoMachineProviderSpec)
      → Perm (order (required_fields spec)) (required_fields spec)
      → (validate_uuids uuid order spec ≡ none) ↔ HasUuids spec
  unfolding validate_uuids all_uuids
  validate_uuids_iff order spec perm = ground (
    arith,
    check_fields-all_uuids (order (required_fields spec)),
    all_uuids-Perm perm,
    optional_uuid_iff "invalid UUID for instanceTypeId: %s" spec.instance_type_id,
    optional_uuid_iff "invalid UUID for machineId: %s" spec.machine_id,
    optional_uuid_iff "invalid UUID for operatingSystemId: %s" spec.operating_system_id,
    optional_uuid_iff "invalid UUID for networkSecurityGroupId: %s" spec.network_security_group_id,
    check_subnets_iff 0 spec.additional_subnet_ids,
    check_services_iff 0 spec.dpu_extension_services,
  )
