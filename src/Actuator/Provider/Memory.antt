-- ===== src/Actuator/Provider/Memory.antt =====
-- Reading the machine object and making a client leave the object in memory.
use machine_api_provider_nvi.Base.{String, Option, none, some}
use machine_api_provider_nvi.Api.Types.{NicoMachineProviderSpec}
use machine_api_provider_nvi.Actuator.World.{
  Env, Object, Kind, typed, unstructured, Nested, nested_error, nested_missing, nested_field,
}
use machine_api_provider_nvi.Actuator.World.Memory.{KeepsObject, memory_rules}
use machine_api_provider_nvi.Actuator.Provider.{
  unmarshal_spec, spec_of_typed, spec_of_nested, spec_of_kind, get_provider_spec, unmarshal_status,
  status_of_typed, status_of_nested, status_of_kind, get_provider_status, require_field,
  build_client, get_nico_client, unsupported_type,
}

module _ (env : Env) where
  spec_of_nested-KeepsObject : (n : Nested) → KeepsObject (spec_of_nested env n)
  unfolding spec_of_nested unmarshal_spec
  spec_of_nested-KeepsObject (nested_error e) = search memory_rules
  spec_of_nested-KeepsObject nested_missing = search memory_rules
  spec_of_nested-KeepsObject (nested_field r) = search memory_rules depth 8

  spec_of_typed-KeepsObject : (o : Option String) → KeepsObject (spec_of_typed env o)
  unfolding spec_of_typed unmarshal_spec
  spec_of_typed-KeepsObject none = search memory_rules
  spec_of_typed-KeepsObject (some raw) = search memory_rules

  spec_of_kind-KeepsObject : (k : Kind) → KeepsObject (spec_of_kind env k)
  unfolding spec_of_kind unsupported_type
  spec_of_kind-KeepsObject (typed m) = spec_of_typed-KeepsObject m.provider_spec_value
  spec_of_kind-KeepsObject (unstructured c) = spec_of_nested-KeepsObject (env.json.nested_spec c)
  spec_of_kind-KeepsObject _ = search memory_rules

  -- Reading the spec leaves the object.
  pub get_provider_spec-KeepsObject : (o : Object) → KeepsObject (get_provider_spec env o)
  unfolding get_provider_spec
  get_provider_spec-KeepsObject o = spec_of_kind-KeepsObject o.kind

  status_of_nested-KeepsObject : (n : Nested) → KeepsObject (status_of_nested env n)
  unfolding status_of_nested unmarshal_status
  status_of_nested-KeepsObject (nested_error e) = search memory_rules
  status_of_nested-KeepsObject nested_missing = search memory_rules
  status_of_nested-KeepsObject (nested_field r) = search memory_rules depth 8

  status_of_typed-KeepsObject : (o : Option String) → KeepsObject (status_of_typed env o)
  unfolding status_of_typed unmarshal_status
  status_of_typed-KeepsObject none = search memory_rules
  status_of_typed-KeepsObject (some raw) = search memory_rules

  status_of_kind-KeepsObject : (k : Kind) → KeepsObject (status_of_kind env k)
  unfolding status_of_kind unsupported_type
  status_of_kind-KeepsObject (typed m) = status_of_typed-KeepsObject m.provider_status
  status_of_kind-KeepsObject (unstructured c) =
      status_of_nested-KeepsObject (env.json.nested_status c)
  status_of_kind-KeepsObject _ = search memory_rules

  -- So does reading the status.
  pub get_provider_status-KeepsObject : (o : Object) → KeepsObject (get_provider_status env o)
  unfolding get_provider_status
  get_provider_status-KeepsObject o = status_of_kind-KeepsObject o.kind

  pub get_nico_client-KeepsObject :
      (spec : NicoMachineProviderSpec) → KeepsObject (get_nico_client env spec)
  unfolding get_nico_client build_client require_field
  get_nico_client-KeepsObject spec = search memory_rules depth 20
