-- ===== src/Actuator/Provider.antt =====
-- getProviderSpec, getProviderStatus, setProviderStatus, setProviderID, getNicoClient and
-- isMHCRemediation of pkg/actuators/machine/actuator.go.
pub mod Effects
pub mod Memory
pub mod Credentials
pub mod Stored
use machine_api_provider_nvi.Base.{
  maybe, String, Bool, true, false, Option, none, some, List, [], ◌∷◌, is_some, if◌then◌else◌,
}
use machine_api_provider_nvi.Base.Dict.{Dict, lookup}
use machine_api_provider_nvi.Api.Errors.{errorf, wrapf, external, LibResult, done, failed}
use machine_api_provider_nvi.Api.Types.{
  CredentialsSecretReference, NicoMachineProviderSpec, NicoMachineProviderStatus,
}
use machine_api_provider_nvi.Actuator.World.{
  Env, Object, Kind, typed, unstructured, unsupported, not_client_object, TypedMachine, Nested,
  nested_error, nested_missing, nested_field, NicoClient, injected, built,
}
use machine_api_provider_nvi.Actuator.World.Monad.{
  M, ◌>>=◌, ◌>>◌, pure, fail, lift, wrapping, get_memory, set_memory,
}
use machine_api_provider_nvi.Actuator.World.Calls.{update_object, update_status, get_secret}

abbrev pub empty_status : NicoMachineProviderStatus
empty_status = record {
  instance_id = none;
  machine_id = none;
  instance_state = none;
  addresses = [];
  conditions = [];
  health_labels = [];
}

-- `machine.(client.Object)`
abbrev pub is_client_object : Kind → Bool
is_client_object not_client_object = false
is_client_object (typed m) = true
is_client_object (unstructured content) = true
is_client_object unsupported = true

unsupported_type : {A : Type 0} → M A
unsupported_type = fail (errorf "unsupported machine type: %T" [])

module _ (env : Env) where
  unmarshal_spec : String → M NicoMachineProviderSpec
  unmarshal_spec raw =
      wrapping "failed to unmarshal providerSpec: %w" (lift (env.json.unmarshal_spec raw))

  spec_of_typed : Option String → M NicoMachineProviderSpec
  spec_of_typed none = fail (errorf "providerSpec.value is nil" [])
  spec_of_typed (some raw) = unmarshal_spec raw

  spec_of_nested : Nested → M NicoMachineProviderSpec
  spec_of_nested (nested_error e) = fail (wrapf "providerSpec.value not found: %w" [] (external e))
  spec_of_nested nested_missing = fail (errorf "providerSpec.value not found: %w" [])
  spec_of_nested (nested_field r) = do
    raw ← wrapping "failed to marshal providerSpec: %w" (lift r)
    unmarshal_spec raw

  spec_of_kind : Kind → M NicoMachineProviderSpec
  spec_of_kind (typed m) = spec_of_typed m.provider_spec_value
  spec_of_kind (unstructured content) = spec_of_nested (env.json.nested_spec content)
  spec_of_kind unsupported = unsupported_type
  spec_of_kind not_client_object = unsupported_type

  unfoldable pub get_provider_spec : Object → M NicoMachineProviderSpec
  unfolding spec_of_kind spec_of_nested spec_of_typed unmarshal_spec unsupported_type
  get_provider_spec o = spec_of_kind o.kind

  unmarshal_status : String → M NicoMachineProviderStatus
  unmarshal_status raw =
      wrapping "failed to unmarshal providerStatus: %w" (lift (env.json.unmarshal_status raw))

  status_of_typed : Option String → M NicoMachineProviderStatus
  status_of_typed none = pure empty_status
  status_of_typed (some raw) = unmarshal_status raw

  status_of_nested : Nested → M NicoMachineProviderStatus
  status_of_nested (nested_error e) =
      fail (wrapf "failed to get providerStatus: %w" [] (external e))
  status_of_nested nested_missing = pure empty_status
  status_of_nested (nested_field r) = do
    raw ← wrapping "failed to marshal providerStatus: %w" (lift r)
    unmarshal_status raw

  status_of_kind : Kind → M NicoMachineProviderStatus
  status_of_kind (typed m) = status_of_typed m.provider_status
  status_of_kind (unstructured content) = status_of_nested (env.json.nested_status content)
  status_of_kind unsupported = unsupported_type
  status_of_kind not_client_object = unsupported_type

  unfoldable pub get_provider_status : Object → M NicoMachineProviderStatus
  unfolding status_of_kind status_of_nested status_of_typed unmarshal_status unsupported_type
  get_provider_status o = status_of_kind o.kind

  -- Both writes keep the object in memory with the new field, and then send it.
  send_status : Object → M (Unit {0})
  send_status o = do
    set_memory o
    wrapping "failed to update machine status: %w" (update_status env o)

  store_status : Object → String → Kind → M (Unit {0})
  store_status o raw (typed m) =
      send_status (record o { kind = typed (record m { provider_status = some raw }) })
  store_status o raw (unstructured content) = do
    status_map ←
        wrapping "failed to unmarshal status to map: %w" (lift (env.json.unmarshal_map raw))
    content' ←
        wrapping "failed to set providerStatus: %w"
          (lift (env.json.set_nested_status content status_map))
    send_status (record o { kind = unstructured content' })
  store_status o raw unsupported = unsupported_type
  store_status o raw not_client_object = unsupported_type

  unfoldable pub set_provider_status : NicoMachineProviderStatus → M (Unit {0})
  unfolding store_status send_status unsupported_type
  set_provider_status status = do
    raw ← wrapping "failed to marshal status: %w" (lift (env.json.marshal_status status))
    o ← get_memory
    store_status o raw o.kind

  send_object : Object → M (Unit {0})
  send_object o = do set_memory o; wrapping "failed to update machine: %w" (update_object env o)

  store_id : Object → String → Kind → M (Unit {0})
  store_id o id (typed m) =
      send_object (record o { kind = typed (record m { provider_id = some id }) })
  store_id o id (unstructured content) = do
    content' ←
        wrapping "failed to set providerID: %w" (lift (env.json.set_nested_provider_id content id))
    send_object (record o { kind = unstructured content' })
  store_id o id unsupported = unsupported_type
  store_id o id not_client_object = unsupported_type

  unfoldable pub set_provider_id : String → M (Unit {0})
  unfolding store_id send_object unsupported_type
  set_provider_id id = do o ← get_memory; store_id o id o.kind

  -- A field of the secret, which the error names.
  require_field : String → String → String → Dict String → M String
  require_field format secret name fields =
      maybe (lookup name fields) (fail (errorf format (secret ∷ []))) pure

  build_client : CredentialsSecretReference → M (NicoClient × String)
  unfolding require_field
  build_client secret = do
    fields ←
        wrapping "failed to get credentials secret: %w"
          (get_secret env secret.name secret.namespace)
    endpoint ← require_field "secret %s is missing 'endpoint' field" secret.name "endpoint" fields
    org ← require_field "secret %s is missing 'orgName' field" secret.name "orgName" fields
    token ← require_field "secret %s is missing 'token' field" secret.name "token" fields
    pure (built endpoint token, org)

  -- The client, and the organisation.
  unfoldable pub get_nico_client : NicoMachineProviderSpec → M (NicoClient × String)
  unfolding build_client
  get_nico_client spec =
      if env.has_client then pure (injected, env.org_name) else build_client spec.credentials_secret

-- The annotation that a MachineHealthCheck sets before it deletes the Machine.
unfoldable pub is_mhc_remediation : Object → Bool
is_mhc_remediation o = is_some (lookup "machine.openshift.io/unhealthy" o.annotations)
