-- ===== src/Actuator/Provider/Effects.antt =====
-- What the reads and writes of the machine object can do.
use machine_api_provider_nvi.Base.{String, Bool, true, Option, none, some, ◌≡◌}
use machine_api_provider_nvi.Api.Types.{NicoMachineProviderSpec, NicoMachineProviderStatus}
use machine_api_provider_nvi.Actuator.World.{
  Env, Object, Kind, typed, unstructured, Nested, nested_error, nested_missing, nested_field,
}
use machine_api_provider_nvi.Actuator.World.Effects.{
  EffectKind, reading, object_write, status_write, Emits, emits_rules,
}
use machine_api_provider_nvi.Actuator.Provider.{
  unmarshal_spec, spec_of_typed, spec_of_nested, spec_of_kind, get_provider_spec, unmarshal_status,
  status_of_typed, status_of_nested, status_of_kind, get_provider_status, store_status, send_status,
  set_provider_status, store_id, send_object, set_provider_id, require_field, build_client,
  get_nico_client, unsupported_type,
}

module _ (env : Env) {p : EffectKind → Bool} where
  spec_of_nested-Emits : (n : Nested) → Emits p (spec_of_nested env n)
  unfolding spec_of_nested unmarshal_spec
  spec_of_nested-Emits (nested_error e) = search emits_rules
  spec_of_nested-Emits nested_missing = search emits_rules
  spec_of_nested-Emits (nested_field r) = search emits_rules depth 8

  spec_of_typed-Emits : (o : Option String) → Emits p (spec_of_typed env o)
  unfolding spec_of_typed unmarshal_spec
  spec_of_typed-Emits none = search emits_rules
  spec_of_typed-Emits (some raw) = search emits_rules

  spec_of_kind-Emits : (k : Kind) → Emits p (spec_of_kind env k)
  unfolding spec_of_kind unsupported_type
  spec_of_kind-Emits (typed m) = spec_of_typed-Emits m.provider_spec_value
  spec_of_kind-Emits (unstructured c) = spec_of_nested-Emits (env.json.nested_spec c)
  spec_of_kind-Emits _ = search emits_rules

  -- Reading the spec has no effect.
  pub get_provider_spec-Emits : (o : Object) → Emits p (get_provider_spec env o)
  unfolding get_provider_spec
  get_provider_spec-Emits o = spec_of_kind-Emits o.kind

  status_of_nested-Emits : (n : Nested) → Emits p (status_of_nested env n)
  unfolding status_of_nested unmarshal_status
  status_of_nested-Emits (nested_error e) = search emits_rules
  status_of_nested-Emits nested_missing = search emits_rules
  status_of_nested-Emits (nested_field r) = search emits_rules depth 8

  status_of_typed-Emits : (o : Option String) → Emits p (status_of_typed env o)
  unfolding status_of_typed unmarshal_status
  status_of_typed-Emits none = search emits_rules
  status_of_typed-Emits (some raw) = search emits_rules

  status_of_kind-Emits : (k : Kind) → Emits p (status_of_kind env k)
  unfolding status_of_kind unsupported_type
  status_of_kind-Emits (typed m) = status_of_typed-Emits m.provider_status
  status_of_kind-Emits (unstructured c) = status_of_nested-Emits (env.json.nested_status c)
  status_of_kind-Emits _ = search emits_rules

  -- Nor has reading the status.
  pub get_provider_status-Emits : (o : Object) → Emits p (get_provider_status env o)
  unfolding get_provider_status
  get_provider_status-Emits o = status_of_kind-Emits o.kind

  module _ (writes : p status_write ≡ true) where
    store_status-Emits : (o : Object) (raw : String) (k : Kind) → Emits p (store_status env o raw k)
    unfolding store_status send_status unsupported_type
    store_status-Emits o raw (typed m) = search emits_rules depth 8
    store_status-Emits o raw (unstructured c) = search emits_rules depth 10
    store_status-Emits o raw _ = search emits_rules

    pub set_provider_status-Emits :
        (s : NicoMachineProviderStatus) → Emits p (set_provider_status env s)
    unfolding set_provider_status
    set_provider_status-Emits s = search (emits_rules, store_status-Emits) depth 8

  module _ (writes : p object_write ≡ true) where
    store_id-Emits : (o : Object) (id : String) (k : Kind) → Emits p (store_id env o id k)
    unfolding store_id send_object unsupported_type
    store_id-Emits o id (typed m) = search emits_rules depth 8
    store_id-Emits o id (unstructured c) = search emits_rules depth 10
    store_id-Emits o id _ = search emits_rules

    pub set_provider_id-Emits : (id : String) → Emits p (set_provider_id env id)
    unfolding set_provider_id
    set_provider_id-Emits id = search (emits_rules, store_id-Emits) depth 8

  module _ (reads : p reading ≡ true) where
    pub get_nico_client-Emits :
        (spec : NicoMachineProviderSpec) → Emits p (get_nico_client env spec)
    unfolding get_nico_client build_client require_field
    get_nico_client-Emits spec = search emits_rules depth 20
