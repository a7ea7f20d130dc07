-- ===== src/Actuator/Monitor/Effects.antt =====
-- Watching a machine's health reads, ends health reports, and records metrics and events.
use machine_api_provider_nvi.Base.{String, Bool, true, Option, none, some, List, ◌≡◌}
use machine_api_provider_nvi.Api.Types.{NicoMachineProviderStatus}
use machine_api_provider_nvi.Api.Sdk.{MachineHealthProbeAlert, Instance}
use machine_api_provider_nvi.Actuator.World.{Env, NicoClient}
use machine_api_provider_nvi.Actuator.World.Calls.{
  delete_machine_health_report, get_all_machine_health_report, get_machine,
}
use machine_api_provider_nvi.Actuator.World.Effects.{
  EffectKind, reading, report, note, Emits, emits_rules,
}
use machine_api_provider_nvi.Actuator.Monitor.{
  track_unhealthy_gauge, clear_report, report_status, update_machine_health_from_reports,
  update_machine_health_from_jsonb, after_reports, update_assigned, update_machine_health,
}

module _ (env : Env) (client : NicoClient) (org : String) {p : EffectKind → Bool}
    (reads : p reading ≡ true) (reports : p report ≡ true) (notes : p note ≡ true) where
  track_unhealthy_gauge-Emits :
      (was : Bool) (s : NicoMachineProviderStatus) → Emits p (track_unhealthy_gauge was s)
  unfolding track_unhealthy_gauge
  track_unhealthy_gauge-Emits was s = search emits_rules depth 8

  clear_report-Emits : (id : String) → Emits p (clear_report env client org id)
  unfolding clear_report delete_machine_health_report
  clear_report-Emits id = search emits_rules depth 8

  report_status-Emits :
      (id : String) (alerts : List MachineHealthProbeAlert) (s : NicoMachineProviderStatus)
      (was : Bool)
      → Emits p (report_status env client org id alerts s was)
  unfolding report_status
  report_status-Emits id alerts s was = search (emits_rules, clear_report-Emits) depth 12

  update_machine_health_from_reports-Emits :
      (id : String) (s : NicoMachineProviderStatus) (was : Bool)
      → Emits p (update_machine_health_from_reports env client org id s was)
  unfolding update_machine_health_from_reports get_all_machine_health_report
  update_machine_health_from_reports-Emits id s was =
      search (emits_rules, report_status-Emits) depth 12

  update_machine_health_from_jsonb-Emits :
      (id : String) (s : NicoMachineProviderStatus)
      → Emits p (update_machine_health_from_jsonb env client org id s)
  unfolding update_machine_health_from_jsonb get_machine
  update_machine_health_from_jsonb-Emits id s = search emits_rules depth 12

  after_reports-Emits :
      (id : String) (s : NicoMachineProviderStatus) (o : Option NicoMachineProviderStatus)
      → Emits p (after_reports env client org id s o)
  unfolding after_reports
  after_reports-Emits id s (some s') = search emits_rules
  after_reports-Emits id s none = update_machine_health_from_jsonb-Emits id s

  update_assigned-Emits :
      (id : String) (s : NicoMachineProviderStatus) → Emits p (update_assigned env client org id s)
  unfolding update_assigned
  update_assigned-Emits id s =
      search
        (
          emits_rules, update_machine_health_from_reports-Emits, after_reports-Emits,
          track_unhealthy_gauge-Emits,
        )
        depth 12

  pub update_machine_health-Emits :
      (inst : Instance) (s : NicoMachineProviderStatus)
      → Emits p (update_machine_health env client org inst s)
  unfolding update_machine_health
  update_machine_health-Emits inst s = search (emits_rules, update_assigned-Emits) depth 12
