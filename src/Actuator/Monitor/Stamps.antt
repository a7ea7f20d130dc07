-- ===== src/Actuator/Monitor/Stamps.antt =====
-- The health of a machine touches no condition but its own two.
use machine_api_provider_nvi.Base.{
  ℕ, String, Bool, true, false, List, [], ◌∷◌, ◌≡◌, ◌==◌, string_eq, length,
}
use machine_api_provider_nvi.Api.Types.{NicoMachineProviderStatus, Condition, condition_true}
use machine_api_provider_nvi.Api.Sdk.{MachineHealthProbeAlert}
use machine_api_provider_nvi.Actuator.World.{Env}
use machine_api_provider_nvi.Actuator.Alerts.{classify_alerts, has_remediating_alert}
use machine_api_provider_nvi.Actuator.Conditions.{
  set_condition, cond_machine_healthy, cond_nico_fault_remediation,
}
use machine_api_provider_nvi.Actuator.Conditions.Stamps.{Spared}
use machine_api_provider_nvi.Actuator.Monitor.{
  label_healthy, set_severity, set_remediation, apply_alerts,
}

module _ (env : Env) {type : String} {P : List Condition → Type 0} (spared : Spared env type P)
    (not_healthy : (type == cond_machine_healthy) ≡ false)
    (not_remediation : (type == cond_nico_fault_remediation) ≡ false) (now : ℕ) where
  set_severity-spared :
      (critical warning : List MachineHealthProbeAlert) (total : ℕ) (s : NicoMachineProviderStatus)
      → P s.conditions
      → P (set_severity env now critical warning total s).conditions
  unfolding set_severity set_condition
  set_severity-spared (alert ∷ critical) warning total s h =
      spared.kept now s.conditions _ not_healthy h
  set_severity-spared [] [] total s h = h
  set_severity-spared [] (alert ∷ warning) total s h = spared.kept now s.conditions _ not_healthy h

  set_remediation-spared :
      (b : Bool) (s : NicoMachineProviderStatus)
      → P s.conditions
      → P (set_remediation env now b s).conditions
  unfolding set_remediation set_condition
  set_remediation-spared true s h = spared.kept now s.conditions _ not_remediation h
  set_remediation-spared false s h = spared.kept now s.conditions _ not_remediation h

  pub apply_alerts-spared :
      (text : String) (alerts : List MachineHealthProbeAlert) (s : NicoMachineProviderStatus)
      → P s.conditions
      → P (apply_alerts env now text alerts s).conditions
  unfolding apply_alerts set_condition
  apply_alerts-spared text [] s h =
      let healthy =
        record (set_condition env now cond_machine_healthy condition_true "Healthy" text s) {
          health_labels = (label_healthy, "true") ∷ [];
        } in
      set_remediation-spared false healthy (spared.kept now s.conditions _ not_healthy h)
  apply_alerts-spared text (alert ∷ alerts) s h =
      let (critical, warning) = classify_alerts (alert ∷ alerts) in
      set_remediation-spared (has_remediating_alert (alert ∷ alerts)) _
        (set_severity-spared critical warning (length (alert ∷ alerts)) s h)
