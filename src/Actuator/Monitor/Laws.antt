-- ===== src/Actuator/Monitor/Laws.antt =====
-- The health conditions of a running machine follow its alerts.
use machine_api_provider_nvi.Base.{
  ℕ, suc, String, Bool, true, false, not, ◌&&◌, some, List, [], ◌∷◌, ◌≡◌, refl, ap, ◌∙◌, arith,
  string_eq, any, is_nil, if◌then◌else◌,
}
use machine_api_provider_nvi.Api.Types.{
  NicoMachineProviderStatus, ConditionStatus, condition_true, condition_false,
}
use machine_api_provider_nvi.Api.Sdk.{MachineHealthProbeAlert}
use machine_api_provider_nvi.Actuator.World.{
  Env, World, History, metric, Metric, unhealthy_inc, unhealthy_dec,
}
use machine_api_provider_nvi.Actuator.Alerts.{severity_remediating}
use machine_api_provider_nvi.Actuator.Alerts.Laws.{
  has, is_mere_warning, IsSplit, classify_alerts-IsSplit, has_remediating_alert-any,
}
use machine_api_provider_nvi.Actuator.Conditions.{
  set_condition, cond_machine_healthy, cond_nico_fault_remediation,
}
use machine_api_provider_nvi.Actuator.Conditions.Laws.{
  SetsConditions, status_of, set_condition-own, set_condition-others,
}
use machine_api_provider_nvi.Actuator.Monitor.{set_severity, set_remediation, apply_alerts}

-- `condition_true` if the test holds.
abbrev pub status_if : Bool → ConditionStatus
status_if true = condition_true
status_if false = condition_false

module _ (env : Env) (sets : SetsConditions env.set_status_condition) (now : ℕ) where
  status_of-own :
      (type : String) (status : ConditionStatus) (reason message : String)
      (s : NicoMachineProviderStatus)
      → status_of type (set_condition env now type status reason message s) ≡ some status
  status_of-own type status reason message s =
      rw (set_condition-own env sets now type status reason message s) refl

  set_remediation-healthy :
      (b : Bool) (s : NicoMachineProviderStatus)
      → status_of cond_machine_healthy (set_remediation env now b s)
        ≡ status_of cond_machine_healthy s
  unfolding set_remediation
  set_remediation-healthy true s =
      rw
        (set_condition-others env sets now cond_nico_fault_remediation condition_true _ _ s
          cond_machine_healthy refl)
        refl
  set_remediation-healthy false s =
      rw
        (set_condition-others env sets now cond_nico_fault_remediation condition_false _ _ s
          cond_machine_healthy refl)
        refl

  set_remediation-own :
      (b : Bool) (s : NicoMachineProviderStatus)
      → status_of cond_nico_fault_remediation (set_remediation env now b s) ≡ some (status_if b)
  unfolding set_remediation
  set_remediation-own true s = status_of-own _ _ _ _ _
  set_remediation-own false s = status_of-own _ _ _ _ _

  set_severity-healthy :
      (critical warning : List MachineHealthProbeAlert) (n : ℕ) (s : NicoMachineProviderStatus)
      → is_nil critical && is_nil warning ≡ false
      → status_of cond_machine_healthy (set_severity env now critical warning n s)
        ≡ some (status_if (is_nil critical))
  unfolding set_severity
  set_severity-healthy (a ∷ critical) warning n s h = status_of-own _ _ _ _ s
  set_severity-healthy [] [] n s h = absurd (grind (arith, h))
  set_severity-healthy [] (a ∷ warning) n s h = status_of-own _ _ _ _ s

  not_both_nil :
      (alert : MachineHealthProbeAlert) (alerts critical warning : List MachineHealthProbeAlert)
      → IsSplit (alert ∷ alerts) critical warning
      → is_nil critical && is_nil warning ≡ false
  not_both_nil alert alerts [] [] k = absurd (omega (arith, k.together))
  not_both_nil alert alerts [] (w ∷ warning) k = refl
  not_both_nil alert alerts (c ∷ critical) warning k = refl

  -- The two conditions that some alerts give.
  pub record Follows (alerts : List MachineHealthProbeAlert) (s : NicoMachineProviderStatus)
      : Type 0 where
    pub healthy :
        status_of cond_machine_healthy s
        ≡ some (status_if (not (any (λ a. not (is_mere_warning a)) alerts)))
    pub remediation :
        status_of cond_nico_fault_remediation s
        ≡ some (status_if (any (has severity_remediating) alerts))

  -- If SetStatusCondition does what it documents, then after a health update MachineHealthy is true
  -- if every alert is classified as a warning and not as critical, and false otherwise, and
  -- NicoFaultRemediation is true if some alert is classified as remediating, and false otherwise.
  pub apply_alerts-Follows :
      (text : String) (alerts : List MachineHealthProbeAlert) (s : NicoMachineProviderStatus)
      → Follows alerts (apply_alerts env now text alerts s)
  unfolding apply_alerts
  apply_alerts-Follows text [] s = record {
    healthy = set_remediation-healthy false _ ∙ status_of-own _ _ _ _ s;
    remediation = set_remediation-own false _;
  }
  apply_alerts-Follows text (alert ∷ alerts) s =
      let k = classify_alerts-IsSplit (alert ∷ alerts) in
      record {
        healthy =
            set_remediation-healthy _ _
            ∙ set_severity-healthy _ _ _ s (not_both_nil alert alerts _ _ k)
            ∙ ap (λ b. some (status_if b)) (nil_of_not _ _ k.some_critical);
        remediation =
            set_remediation-own _ _
            ∙ ap (λ b. some (status_if b)) (has_remediating_alert-any (alert ∷ alerts));
      }
    where
      nil_of_not : (a b : Bool) → a ≡ not b → b ≡ not a
      nil_of_not a b h = ground arith

-- How often a metric was counted.
unfoldable pub counted : (Metric → Bool) → History → ℕ
counted p [] = 0
counted p (metric m ∷ h) = let n = counted p h in if p m then suc n else n
counted p (_ ∷ h) = counted p h

abbrev pub is_inc : Metric → Bool
is_inc unhealthy_inc = true
is_inc _ = false

abbrev pub is_dec : Metric → Bool
is_dec unhealthy_dec = true
is_dec _ = false

abbrev pub as_count : Bool → ℕ
as_count true = 1
as_count false = 0
