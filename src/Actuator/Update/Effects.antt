-- ===== src/Actuator/Update/Effects.antt =====
-- What an update does.
use machine_api_provider_nvi.Base.{String, Bool, true, Option, none, some, List, ◌≡◌}
use machine_api_provider_nvi.Api.Types.{
  NicoMachineProviderSpec, NicoMachineProviderStatus, Condition,
}
use machine_api_provider_nvi.Api.Sdk.{InstanceStatus, ready, Instance}
use machine_api_provider_nvi.Actuator.World.{Env, NicoClient}
use machine_api_provider_nvi.Actuator.World.Calls.{get_instance}
use machine_api_provider_nvi.Actuator.World.Effects.{
  EffectKind, reading, report, object_write, status_write, note, Emits, emits_rules,
}
use machine_api_provider_nvi.Actuator.Provider.Effects.{
  get_provider_spec-Emits, get_provider_status-Emits, set_provider_status-Emits,
  get_nico_client-Emits,
}
use machine_api_provider_nvi.Actuator.Monitor.Effects.{update_machine_health-Emits}
use machine_api_provider_nvi.Actuator.Progress.Effects.{
  check_status_history-Emits, check_provisioning_timeout-Emits,
}
use machine_api_provider_nvi.Actuator.Create.Effects.{require_client_object-Emits}
use machine_api_provider_nvi.Actuator.Update.{
  observe_ready, track_state, update_labels, track_instance, handle_instance, no_data,
  update_instance_status, update_known, update,
}

module _ (env : Env) {p : EffectKind → Bool} (reads : p reading ≡ true) (reports : p report ≡ true)
    (objects : p object_write ≡ true) (writes : p status_write ≡ true) (notes : p note ≡ true) where
  observe_ready-Emits :
      (status : InstanceStatus) (cs : List Condition) → Emits p (observe_ready env status cs)
  unfolding observe_ready
  observe_ready-Emits ready cs = search emits_rules depth 8
  observe_ready-Emits _ cs = search emits_rules depth 8

  track_state-Emits :
      (o : Option InstanceStatus) (s : NicoMachineProviderStatus) → Emits p (track_state env o s)
  unfolding track_state
  track_state-Emits none s = search emits_rules
  track_state-Emits (some status) s = search (emits_rules, observe_ready-Emits) depth 12

  update_labels-Emits :
      (inst : Instance) (spec : NicoMachineProviderSpec) → Emits p (update_labels env inst spec)
  unfolding update_labels
  update_labels-Emits inst spec = search emits_rules depth 12

  module _ (client : NicoClient) (org : String) where
    pub track_instance-Emits :
        (spec : NicoMachineProviderSpec) (s : NicoMachineProviderStatus) (inst : Instance)
        → Emits p (track_instance env client org spec s inst)
    unfolding track_instance
    track_instance-Emits spec s inst =
        search
          (
            emits_rules,
            track_state-Emits,
            update_labels-Emits,
            update_machine_health-Emits,
            check_status_history-Emits,
            check_provisioning_timeout-Emits env client org,
            set_provider_status-Emits,
          )
          depth 20

    update_instance_status-Emits :
        (spec : NicoMachineProviderSpec) (s : NicoMachineProviderStatus) (id : String)
        → Emits p (update_instance_status env client org spec s id)
    unfolding update_instance_status handle_instance no_data get_instance
    update_instance_status-Emits spec s id = search (emits_rules, track_instance-Emits) depth 20

  update_known-Emits :
      (spec : NicoMachineProviderSpec) (s : NicoMachineProviderStatus) (o : Option String)
      → Emits p (update_known env spec s o)
  unfolding update_known
  update_known-Emits spec s none = search emits_rules
  update_known-Emits spec s (some id) =
      search (emits_rules, get_nico_client-Emits, update_instance_status-Emits) depth 12

  pub update-Emits : Emits p (update env)
  unfolding update
  update-Emits =
      search
        (
          emits_rules, require_client_object-Emits, get_provider_spec-Emits,
          get_provider_status-Emits, update_known-Emits,
        )
        depth 16
