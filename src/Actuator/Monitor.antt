-- ===== src/Actuator/Monitor.antt =====
-- updateMachineHealth, updateMachineHealthFromReports, updateMachineHealthFromJSONB and
-- trackUnhealthyGauge of pkg/actuators/machine/actuator.go: the health of a running machine.
pub mod Effects
pub mod Laws
pub mod Stamps
pub mod Results
use machine_api_provider_nvi.Base.{
  maybe, ℕ, String, ◌<>◌, Bool, true, false, not, ◌&&◌, Option, none, some, List, [], ◌∷◌, is_empty,
  is_set, is_nil, length, if◌then◌else◌,
}
use machine_api_provider_nvi.Base.Decimal.{itoa}
use machine_api_provider_nvi.Api.Types.{NicoMachineProviderStatus, condition_true, condition_false}
use machine_api_provider_nvi.Api.Sdk.{
  MachineHealthProbeAlert, MachineHealth, Machine, Instance, Reply,
}
use machine_api_provider_nvi.Actuator.World.{Env, NicoClient, unhealthy_inc, unhealthy_dec, normal}
use machine_api_provider_nvi.Actuator.World.Monad.{
  M, ◌>>=◌, ◌>>◌, pure, count, when, eventf, get_history,
}
use machine_api_provider_nvi.Actuator.World.Calls
use machine_api_provider_nvi.Actuator.Alerts.{classify_alerts, has_remediating_alert}
use machine_api_provider_nvi.Actuator.Conditions.{
  set_condition, is_condition_false, cond_machine_healthy, cond_nico_fault_remediation,
}
use machine_api_provider_nvi.Actuator.Health.{succeeded, is_status_ok, all_alerts}

abbrev pub label_healthy : String
label_healthy = "infra.nvidia.com/healthy"

abbrev pub label_alert_count : String
label_alert_count = "infra.nvidia.com/health-alert-count"

-- The first classification of an alert, or CriticalFault.
abbrev pub critical_reason : MachineHealthProbeAlert → String
critical_reason alert = elim alert.classifications [ [] ↦ "CriticalFault" | c ∷ cs ↦ c ]

abbrev pub critical_text : MachineHealthProbeAlert → ℕ → String
critical_text alert n =
    if is_set alert.message
    then alert.message
    else "Machine has " <> (itoa n <> " critical health alert(s)")

module _ (env : Env) (now : ℕ) where
  set_severity :
      List MachineHealthProbeAlert
      → List MachineHealthProbeAlert
      → ℕ
      → NicoMachineProviderStatus
      → NicoMachineProviderStatus
  set_severity (alert ∷ critical) warning total s =
      record (set_condition env now cond_machine_healthy condition_false (critical_reason alert)
        (critical_text alert (length (alert ∷ critical))) s) {
          health_labels = (label_healthy, "false") ∷ (label_alert_count, itoa total) ∷ [];
        }
  set_severity [] [] total s = s
  set_severity [] (alert ∷ warning) total s =
      record (set_condition env now cond_machine_healthy condition_true "HealthyWithWarnings"
        ("Machine has " <> (itoa (length (alert ∷ warning)) <> " warning alert(s)")) s) {
          health_labels =
              (label_healthy, "true") ∷ (label_alert_count, itoa (length (alert ∷ warning))) ∷ [];
        }

  set_remediation : Bool → NicoMachineProviderStatus → NicoMachineProviderStatus
  set_remediation true s =
      set_condition env now cond_nico_fault_remediation condition_true "RemediationInProgress"
        "Automated fault remediation in progress" s
  set_remediation false s =
      set_condition env now cond_nico_fault_remediation condition_false "NoRemediation"
        "No active fault remediation" s

  -- The status that some alerts give; both callers have their own text for no alert.
  unfoldable pub apply_alerts :
      String → List MachineHealthProbeAlert → NicoMachineProviderStatus → NicoMachineProviderStatus
  unfolding set_severity set_remediation
  apply_alerts healthy_text [] s =
      set_remediation false
        (record (set_condition env now cond_machine_healthy condition_true "Healthy" healthy_text
          s) { health_labels = (label_healthy, "true") ∷ [] })
  apply_alerts healthy_text (alert ∷ alerts) s =
      let (critical, warning) = classify_alerts (alert ∷ alerts) in
      set_remediation (has_remediating_alert (alert ∷ alerts))
        (set_severity critical warning (length (alert ∷ alerts)) s)

-- The gauge of unhealthy machines follows the transitions of the condition.
unfoldable pub track_unhealthy_gauge : Bool → NicoMachineProviderStatus → M (Unit {0})
track_unhealthy_gauge was_unhealthy s =
    let is_unhealthy = is_condition_false cond_machine_healthy s in
    if not was_unhealthy && is_unhealthy
    then count unhealthy_inc
    else if was_unhealthy && not is_unhealthy
    then count unhealthy_dec
    else pure tt

module _ (env : Env) (client : NicoClient) (org : String) where
  clear_report : String → M (Unit {0})
  clear_report machine_id = do
    reply ← Calls.delete_machine_health_report env client org machine_id "k8s-mhc"
    when (succeeded reply) (
        eventf env normal "MHCHealthReportCleared"
          "Cleared k8s-mhc health report for machine %s after recovery" (machine_id ∷ []) none)

  -- What follows an answer: the status, and the end of our own report on a recovery.
  report_status :
      String
      → List MachineHealthProbeAlert
      → NicoMachineProviderStatus
      → Bool
      → M (Option NicoMachineProviderStatus)
  unfolding clear_report
  report_status machine_id alerts s was_unhealthy = do
    history ← get_history
    let s' = apply_alerts env (env.now history) "No health alerts" alerts s
    when (was_unhealthy && not (is_condition_false cond_machine_healthy s'))
        (clear_report machine_id)
    pure (some s')

  -- The new status, or none if the API is unavailable.
  unfoldable pub update_machine_health_from_reports :
      String → NicoMachineProviderStatus → Bool → M (Option NicoMachineProviderStatus)
  unfolding report_status
  update_machine_health_from_reports machine_id s was_unhealthy = do
    reports ← Calls.get_all_machine_health_report env client org machine_id
    if succeeded reports
        then report_status machine_id (all_alerts reports.value) s was_unhealthy
        else pure none

  health_status : ℕ → Option Machine → NicoMachineProviderStatus → NicoMachineProviderStatus
  health_status now none s = s
  health_status now (some m) s = elim m.health [
    | none ↦ s
    | some health ↦ apply_alerts env now "Machine has no health alerts" health.alerts s
  ]

  unfoldable pub update_machine_health_from_jsonb :
      String → NicoMachineProviderStatus → M NicoMachineProviderStatus
  unfolding health_status
  update_machine_health_from_jsonb machine_id s = do
    reply ← Calls.get_machine env client org machine_id
    history ← get_history
    pure (if is_status_ok reply then health_status (env.now history) reply.value s else s)

  after_reports :
      String
      → NicoMachineProviderStatus
      → Option NicoMachineProviderStatus
      → M NicoMachineProviderStatus
  after_reports machine_id s (some s') = pure s'
  after_reports machine_id s none = update_machine_health_from_jsonb machine_id s

  update_assigned : String → NicoMachineProviderStatus → M NicoMachineProviderStatus
  update_assigned machine_id s = do
    let was_unhealthy = is_condition_false cond_machine_healthy s
    reported ← update_machine_health_from_reports machine_id s was_unhealthy
    s' ← after_reports machine_id s reported
    track_unhealthy_gauge was_unhealthy s'
    pure s'

  unfoldable pub update_machine_health :
      Instance → NicoMachineProviderStatus → M NicoMachineProviderStatus
  unfolding update_assigned after_reports
  update_machine_health inst s =
      maybe inst.machine_id (pure s)
        (λ machine_id. if is_empty machine_id then pure s else update_assigned machine_id s)
