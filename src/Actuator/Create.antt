-- ===== src/Actuator/Create.antt =====
-- Create, handleCreateError, classifyHTTPError and deployDpuExtensionServices of
-- pkg/actuators/machine/actuator.go.
pub mod Effects
pub mod Laws
pub mod Checked
pub mod Stored
use machine_api_provider_nvi.Base.{
  maybe, ℕ, String, ◌<>◌, Bool, true, false, not, ◌&&◌, Option, none, some, List, [], ◌∷◌, ◌++◌,
  map, eqb, is_set, is_nil, length, if◌then◌else◌,
}
use machine_api_provider_nvi.Base.Decimal.{itoa}
use machine_api_provider_nvi.Api.Errors.{
  ApiErrorKind, error_transient, error_terminal, GoError, external, errorf, wrapf, classified,
  as_classified, LibResult, done, failed,
}
use machine_api_provider_nvi.Api.Types.{
  MachineAddress, NicoMachineProviderSpec, NicoMachineProviderStatus, condition_true,
}
use machine_api_provider_nvi.Api.Sdk.{
  InstanceStatus, status_text, Interface, Instance, HttpResponse, Reply,
}
use machine_api_provider_nvi.ProviderId.{new_provider_id, to_text}
use machine_api_provider_nvi.Actuator.World.{
  Env, NicoClient, Object, normal, warning, api_latency, api_error, managed_inc,
}
use machine_api_provider_nvi.Actuator.World.Monad.{
  M, ◌>>=◌, ◌>>◌, pure, fail, deref, lift, wrapping, count, when, eventf, get_memory, get_history,
}
use machine_api_provider_nvi.Actuator.World.Calls
use machine_api_provider_nvi.Actuator.Request.{
  validate_provider_spec, build_instance_request, build_update_request,
}
use machine_api_provider_nvi.Actuator.Conditions.{set_condition, cond_instance_provisioned}
use machine_api_provider_nvi.Actuator.Provider.{
  empty_status, is_client_object, get_provider_spec, set_provider_status, set_provider_id,
  get_nico_client,
}
use machine_api_provider_nvi.Actuator.Health.{has_targeted_instance_creation}
use machine_api_provider_nvi.Actuator.PreFlight.{check_pre_flight_health}

abbrev pub status_code_unknown : String
status_code_unknown = "unknown"

-- `strconv.Itoa(httpResp.StatusCode)`, or unknown.
abbrev pub code_label : Option HttpResponse → String
code_label none = status_code_unknown
code_label (some r) = itoa r.status_code

-- The kind that classifyHTTPError gives an error.
unfoldable pub http_error_kind : Option HttpResponse → ApiErrorKind
http_error_kind none = error_transient
http_error_kind (some r) = if eqb r.status_code 400 then error_terminal else error_transient

unfoldable pub classify_http_error : Option HttpResponse → GoError → GoError
unfolding http_error_kind
classify_http_error http e = classified (http_error_kind http) e

kind_text : Option ApiErrorKind → String
kind_text (some error_terminal) = "terminal"
kind_text (some error_transient) = "transient"
kind_text none = "transient"

-- The error text of the response's body, if it has one.
body_error : ℕ → LibResult String → GoError → GoError
body_error code (failed e) cause =
    wrapf "failed to create instance (status %d): %w" (itoa code ∷ []) cause
body_error code (done message) cause =
    if is_set message
    then wrapf "failed to create instance (status %d): %s: %w" (itoa code ∷ message ∷ []) cause
    else wrapf "failed to create instance (status %d): %w" (itoa code ∷ []) cause

-- The addresses of an instance, in order.
addresses_of_interface : List String → List MachineAddress
addresses_of_interface = map (λ ip. record { address_type = "InternalIP"; address = ip })

unfoldable pub addresses_of : List Interface → List MachineAddress
unfolding addresses_of_interface
addresses_of [] = []
addresses_of (iface ∷ ifaces) = addresses_of_interface iface.ip_addresses ++ addresses_of ifaces

-- `string(*instance.Status)`, if there is a status.
abbrev pub state_text : Option InstanceStatus → Option String
state_text none = none
state_text (some s) = some (status_text s)

module _ (env : Env) where
  response_error : Option HttpResponse → GoError → GoError
  response_error none cause = wrapf "failed to create instance: %w" [] cause
  response_error (some r) cause = elim r.body [
    | none ↦ wrapf "failed to create instance: %w" [] cause
    | some body ↦ body_error r.status_code (env.json.error_message body) cause
  ]

  -- The error that handleCreateError returns.
  unfoldable pub create_error : Option HttpResponse → GoError → GoError
  unfolding response_error body_error
  create_error http cause = classify_http_error http (response_error http cause)

  unfoldable pub handle_create_error : {A : Type 0} → Option HttpResponse → GoError → M A
  unfolding kind_text
  handle_create_error http cause = do
    count (api_error "CreateInstance" (code_label http))
    eventf env warning "FailedCreate" "NICo API error (%s): %v"
        (kind_text (as_classified (classify_http_error http cause)) ∷ []) (some cause)
    fail (create_error http cause)

  module _ (client : NicoClient) (org : String) where
    deploy_failed : Option HttpResponse → GoError → M (Unit {0})
    deploy_failed http cause = do
      count (api_error "UpdateInstance" (code_label http))
      eventf env warning "DPUDeployFailed" "Failed to deploy DPU extension services: %v" []
          (some cause)
      fail (wrapf "failed to deploy DPU extension services: %w" [] cause)

    unfoldable pub deploy_dpu_extension_services : String → NicoMachineProviderSpec → M (Unit {0})
    unfolding deploy_failed
    deploy_dpu_extension_services id spec = do
      reply ←
          Calls.update_instance env client org id (build_update_request spec.dpu_extension_services)
      maybe reply.failure
          (eventf env normal "DPUDeployed" "Deployed %d DPU extension service(s)"
            (itoa (length spec.dpu_extension_services) ∷ []) none)
          (λ e. deploy_failed reply.http (external e))

    -- The status of a new instance, at a time.
    unfoldable pub created_status : ℕ → String → Instance → NicoMachineProviderStatus
    created_status now id inst =
        set_condition env now cond_instance_provisioned condition_true "InstanceCreated"
          ("Instance " <> (id <> " created successfully"))
          (record empty_status {
            instance_id = inst.id;
            machine_id = inst.machine_id;
            instance_state = state_text inst.status;
            addresses = addresses_of inst.interfaces;
          })

    -- What follows the creation: the status, the provider ID and the DPU services.
    unfoldable pub record_instance : NicoMachineProviderSpec → Instance → M (Unit {0})
    record_instance spec inst = do
      id ← deref inst.id
      history ← get_history
      wrapping "failed to update provider status: %w"
          (set_provider_status env (created_status (env.now history) id inst))
      instance_uuid ←
          wrapping "failed to parse instance ID from response: %w" (lift (env.uuid.parse id))
      wrapping "failed to set provider ID: %w" (
          set_provider_id env
            (to_text env.uuid (new_provider_id org spec.tenant_id spec.site_id instance_uuid)))
      when (not (is_nil spec.dpu_extension_services)) (deploy_dpu_extension_services id spec)
      count managed_inc
      eventf env normal "Created" "Created instance %s" (id ∷ []) none

    no_data : Option HttpResponse → M (Unit {0})
    no_data http = do
      eventf env warning "FailedCreate" "Create instance returned no data" [] none
      r ← deref http
      fail (errorf "create instance returned no data, status code: %d" (itoa r.status_code ∷ []))

    unfoldable pub handle_created : NicoMachineProviderSpec → Reply (Option Instance) → M (Unit {0})
    unfolding no_data
    handle_created spec reply =
        maybe reply.failure (maybe reply.value (no_data reply.http) (record_instance spec))
          (λ e. handle_create_error reply.http (external e))

    unfoldable pub request_instance : String → NicoMachineProviderSpec → M (Unit {0})
    request_instance name spec = do
      reply ← Calls.create_instance env client org (build_instance_request name spec)
      count (api_latency "CreateInstance")
      handle_created spec reply

    pub require_targeting : NicoMachineProviderSpec → M (Unit {0})
    require_targeting spec = when (is_set spec.machine_id) (do
      allowed ← has_targeted_instance_creation env client org spec.site_id
      when (not allowed) (
          fail (
            errorf "tenant does not have targeted instance creation enabled; cannot use machineId"
              [])))

    fail_if : Option GoError → M (Unit {0})
    fail_if none = pure tt
    fail_if (some e) = fail e

    pub require_health : NicoMachineProviderSpec → M (Unit {0})
    require_health spec =
        when (is_set spec.machine_id && not spec.allow_unhealthy_machine)
          (do blocked ← check_pre_flight_health env client org spec; fail_if blocked)

    -- The checks of a targeted creation, and the creation.
    unfoldable pub create_checked : String → NicoMachineProviderSpec → M (Unit {0})
    unfolding require_targeting require_health fail_if
    create_checked name spec = do
      require_targeting spec
      require_health spec
      request_instance name spec

  invalid_spec : GoError → M (Unit {0})
  invalid_spec e = do
    eventf env warning "InvalidSpec" "Invalid provider spec: %v" [] (some e)
    fail (wrapf "invalid provider spec: %w" [] e)

  pub require_valid : NicoMachineProviderSpec → M (Unit {0})
  require_valid spec = maybe (validate_provider_spec spec) (pure tt) invalid_spec

  -- `obj, ok := machine.(client.Object)`, for all four operations.
  unfoldable pub require_client_object : M Object
  require_client_object = do
    o ← get_memory
    if is_client_object o.kind then pure o else fail (errorf "machine is not a client.Object" [])

  unfoldable pub create : M (Unit {0})
  unfolding require_valid invalid_spec
  create = do
    o ← require_client_object
    spec ← wrapping "failed to get provider spec: %w" (get_provider_spec env o)
    require_valid spec
    (client, org) ← wrapping "failed to create NICo client: %w" (get_nico_client env spec)
    create_checked client org o.name spec
