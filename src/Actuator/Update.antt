-- ===== src/Actuator/Update.antt =====
-- Update of pkg/actuators/machine/actuator.go.
pub mod Effects
pub mod Laws
pub mod Results
pub mod Tracked
pub mod Followed
pub mod Evolves
use machine_api_provider_nvi.Base.{
  maybe, ℕ, String, Bool, true, false, not, ◌&&◌, Option, none, some, List, [], ◌∷◌, eqb, any, ◌==◌,
  string_eq, if◌then◌else◌,
}
use machine_api_provider_nvi.Base.Decimal.{itoa}
use machine_api_provider_nvi.Api.Errors.{errorf, wrapf, external}
use machine_api_provider_nvi.Api.Types.{
  NicoMachineProviderSpec, NicoMachineProviderStatus, Condition,
}
use machine_api_provider_nvi.Api.Sdk.{InstanceStatus, ready, Instance, HttpResponse, Reply}
use machine_api_provider_nvi.Actuator.World.{Env, NicoClient, api_latency, provision_duration}
use machine_api_provider_nvi.Actuator.World.Monad.{
  M, ◌>>=◌, ◌>>◌, pure, fail, deref, wrapping, count, when, get_memory, set_memory, get_history,
}
use machine_api_provider_nvi.Actuator.World.Calls
use machine_api_provider_nvi.Actuator.Conditions.{
  set_instance_state_conditions, cond_instance_provisioned,
}
use machine_api_provider_nvi.Actuator.Topology.{set_topology_labels}
use machine_api_provider_nvi.Actuator.Provider.{
  get_provider_spec, get_provider_status, set_provider_status, get_nico_client,
}
use machine_api_provider_nvi.Actuator.Monitor.{update_machine_health}
use machine_api_provider_nvi.Actuator.Progress.{
  check_status_history, check_provisioning_timeout, text_or,
}
use machine_api_provider_nvi.Actuator.Create.{require_client_object, addresses_of, state_text}

-- The condition by which the provision duration is measured.
abbrev is_provisioned : Condition → Bool
is_provisioned c =
    c.condition_type == cond_instance_provisioned && not (eqb c.last_transition_time 0)

-- `if p != nil { q = p }`
abbrev pub or_old : Option String → Option String → Option String
or_old (some a) old = some a
or_old none old = old

module _ (env : Env) where
  observe_ready : InstanceStatus → List Condition → M (Unit {0})
  observe_ready ready conditions = when (any is_provisioned conditions) (count provision_duration)
  observe_ready _ conditions = pure tt

  -- The status and its conditions follow the instance's.
  pub track_state : Option InstanceStatus → NicoMachineProviderStatus → M NicoMachineProviderStatus
  track_state none s = pure s
  track_state (some status) s = do
    history ← get_history
    let s' =
        set_instance_state_conditions env (env.now history) status
          (record s { instance_state = state_text (some status) })
    observe_ready status s'.conditions
    pure s'

  update_labels : Instance → NicoMachineProviderSpec → M (Unit {0})
  update_labels inst spec = do
    o ← get_memory
    let (o', changed) = set_topology_labels o inst spec
    set_memory o'
    when changed (wrapping "failed to update machine labels: %w" (Calls.update_object env o'))

  module _ (client : NicoClient) (org : String) where
    unfoldable pub track_instance :
        NicoMachineProviderSpec → NicoMachineProviderStatus → Instance → M (Unit {0})
    unfolding track_state observe_ready update_labels
    track_instance spec status inst = do
      tracked ← track_state inst.status status
      let assigned = record tracked { machine_id = or_old inst.machine_id tracked.machine_id }
      update_labels inst spec
      healthy ← update_machine_health env client org inst assigned
      check_status_history env client org inst
      timed ← check_provisioning_timeout env inst healthy
      wrapping "failed to update provider status: %w"
          (set_provider_status env (record timed { addresses = addresses_of inst.interfaces }))

    no_data : Option HttpResponse → M (Unit {0})
    no_data http = do
      r ← deref http
      fail (errorf "get instance returned no data, status code: %d" (itoa r.status_code ∷ []))

    handle_instance :
        NicoMachineProviderSpec → NicoMachineProviderStatus → Reply (Option Instance) → M (Unit {0})
    handle_instance spec status reply =
        maybe reply.failure (maybe reply.value (no_data reply.http) (track_instance spec status))
          (λ e. fail (wrapf "failed to get instance: %w" [] (external e)))

    unfoldable pub update_instance_status :
        NicoMachineProviderSpec → NicoMachineProviderStatus → String → M (Unit {0})
    unfolding handle_instance no_data
    update_instance_status spec status id = do
      reply ← Calls.get_instance env client org id
      count (api_latency "GetInstance")
      handle_instance spec status reply

  update_known : NicoMachineProviderSpec → NicoMachineProviderStatus → Option String → M (Unit {0})
  update_known spec status none = fail (errorf "instance ID not set in provider status" [])
  update_known spec status (some id) = do
    (client, org) ← wrapping "failed to create NICo client: %w" (get_nico_client env spec)
    update_instance_status client org spec status id

  unfoldable pub update : M (Unit {0})
  unfolding update_known
  update = do
    o ← require_client_object env
    spec ← wrapping "failed to get provider spec: %w" (get_provider_spec env o)
    status ← wrapping "failed to get provider status: %w" (get_provider_status env o)
    update_known spec status status.instance_id
