-- ===== src/Actuator/Delete/Effects.antt =====
-- What a deletion does besides its one request.
use machine_api_provider_nvi.Base.{String, Bool, true, Option, none, some, ◌≡◌}
use machine_api_provider_nvi.Api.Types.{NicoMachineProviderSpec, NicoMachineProviderStatus}
use machine_api_provider_nvi.Api.Sdk.{Reply}
use machine_api_provider_nvi.Actuator.World.{Env, NicoClient, Object}
use machine_api_provider_nvi.Actuator.World.Calls
use machine_api_provider_nvi.Actuator.World.Effects.{
  EffectKind, deletion, reading, report, note, Emits, emits_rules,
}
use machine_api_provider_nvi.Actuator.Provider.Effects.{
  get_provider_spec-Emits, get_provider_status-Emits, get_nico_client-Emits,
}
use machine_api_provider_nvi.Actuator.Create.{require_client_object}
use machine_api_provider_nvi.Actuator.Delete.{
  report_mhc_health_issue, report_assigned, remediate, delete_failed, delete_answered, delete_code,
  handle_deleted, delete_instance, delete_known, delete,
}

module _ (env : Env) {p : EffectKind → Bool} (reads : p reading ≡ true) (reports : p report ≡ true)
    (notes : p note ≡ true) where
  module _ (client : NicoClient) (org : String) where
    report_assigned-Emits :
        (o : Object) (id : Option String) → Emits p (report_assigned env client org o id)
    unfolding report_assigned report_mhc_health_issue Calls.create_or_update_machine_health_report
    report_assigned-Emits o none = search emits_rules
    report_assigned-Emits o (some id) = search emits_rules depth 16

    pub remediate-Emits :
        (o : Object) (s : NicoMachineProviderStatus) → Emits p (remediate env client org o s)
    unfolding remediate
    remediate-Emits o s = search (emits_rules, report_assigned-Emits) depth 12

    pub handle_deleted-Emits :
        (id : String) (reply : Reply (Unit {0})) → Emits p (handle_deleted env client org id reply)
    unfolding handle_deleted delete_failed delete_code delete_answered
    handle_deleted-Emits id reply = search emits_rules depth 16

  module _ (deletes : p deletion ≡ true) where
    delete_known-Emits :
        (o : Object) (spec : NicoMachineProviderSpec) (s : NicoMachineProviderStatus)
        (id : Option String)
        → Emits p (delete_known env o spec s id)
    unfolding delete_known delete_instance Calls.delete_instance
    delete_known-Emits o spec s none = search emits_rules
    delete_known-Emits o spec s (some id) =
        search (emits_rules, get_nico_client-Emits, remediate-Emits, handle_deleted-Emits) depth 20

    pub delete-Emits : Emits p (delete env)
    unfolding delete require_client_object
    delete-Emits =
        search (emits_rules, get_provider_spec-Emits, get_provider_status-Emits, delete_known-Emits)
          depth 16
