-- ===== src/Actuator/Alerts/Laws.antt =====
-- What the classification of alerts promises.
use machine_api_provider_nvi.Base.{
  ◌+◌, String, Bool, true, false, not, ◌||◌, ◌&&◌, List, [], ◌∷◌, ◌≡◌, refl, sym, ◌∙◌, ap, arith,
  ◌==◌, string_eq, eq_iff, length, is_nil, All, any, if◌then◌else◌,
}
use machine_api_provider_nvi.Api.Sdk.{MachineHealthProbeAlert}
use machine_api_provider_nvi.Actuator.Alerts.{
  severity_critical, severity_warning, severity_remediating, scan_classifications, severity_of,
  classify_alert, classify_alerts, has_classification, has_remediating_alert,
}

abbrev pub has : String → MachineHealthProbeAlert → Bool
has s alert = any (λ c. c == s) alert.classifications

-- Only a warning that is not also critical is a mere warning.
abbrev pub is_mere_warning : MachineHealthProbeAlert → Bool
is_mere_warning alert = has severity_warning alert && not (has severity_critical alert)

critical_step :
    (b critical r : Bool) → ((if b then true else critical) || r) ≡ (critical || (b || r))
critical_step b critical r = ground arith

warning_step :
    (b b' warning r : Bool)
    → (b ≡ true → b' ≡ false)
    → ((if b then warning else if b' then true else warning) || r) ≡ (warning || (b' || r))
warning_step b b' warning r h = ground (arith, h)

not_both : (c : String) → (c == severity_critical) ≡ true → (c == severity_warning) ≡ false
not_both c h = let e = (eq_iff c severity_critical).0 h in rw e refl

scan_classifications-any :
    (cs : List String) (critical warning : Bool)
    → scan_classifications critical warning cs ≡ (
      critical || any (λ c. c == severity_critical) cs,
      warning || any (λ c. c == severity_warning) cs,
    )
unfolding scan_classifications
scan_classifications-any [] critical warning = ground arith
scan_classifications-any (c ∷ cs) critical warning =
    let first =
      critical_step (c == severity_critical) critical (any (λ d. d == severity_critical) cs) in
    let second =
      warning_step (c == severity_critical) (c == severity_warning) warning
        (any (λ d. d == severity_warning) cs) (not_both c) in
    scan_classifications-any cs _ _ ∙ (λ i. (first i, second i))

severity_of-eq :
    (critical warning : Bool)
    → (severity_of (critical, warning) == severity_warning) ≡ (warning && not critical)
unfolding severity_of
severity_of-eq true true = refl
severity_of-eq true false = refl
severity_of-eq false true = refl
severity_of-eq false false = refl

classify_alert-eq :
    (alert : MachineHealthProbeAlert)
    → (classify_alert alert == severity_warning) ≡ is_mere_warning alert
unfolding classify_alert
classify_alert-eq alert =
    ap (λ p. severity_of p == severity_warning)
      (scan_classifications-any alert.classifications false false)
    ∙ severity_of-eq (has severity_critical alert) (has severity_warning alert)

-- The two lists that classifyAlerts makes of some alerts.
pub record IsSplit (alerts critical warning : List MachineHealthProbeAlert) : Type 0 where
  pub all_critical : All (λ a. is_mere_warning a ≡ false) critical
  pub all_warning : All (λ a. is_mere_warning a ≡ true) warning
  pub together : length critical + length warning ≡ length alerts
  pub some_critical : any (λ a. not (is_mere_warning a)) alerts ≡ not (is_nil critical)

IsSplit-more :
    (b : Bool) (alert : MachineHealthProbeAlert)
    (alerts critical warning : List MachineHealthProbeAlert)
    → is_mere_warning alert ≡ b
    → IsSplit alerts critical warning
    → IsSplit
        (alert ∷ alerts)
        (if b then critical else alert ∷ critical)
        (if b then alert ∷ warning else warning)
IsSplit-more true alert alerts critical warning e k = record {
  all_critical = k.all_critical;
  all_warning = (e, k.all_warning);
  together = omega (arith, k.together);
  some_critical = rw e k.some_critical;
}
IsSplit-more false alert alerts critical warning e k = record {
  all_critical = (e, k.all_critical);
  all_warning = k.all_warning;
  together = omega (arith, k.together);
  some_critical = rw e refl;
}

abbrev split_pair :
    Bool
    → MachineHealthProbeAlert
    → List MachineHealthProbeAlert × List MachineHealthProbeAlert
    → List MachineHealthProbeAlert × List MachineHealthProbeAlert
split_pair b alert p = if b then (p.0, alert ∷ p.1) else (alert ∷ p.0, p.1)

IsSplit-if :
    (b : Bool) (alert : MachineHealthProbeAlert)
    (p : List MachineHealthProbeAlert × List MachineHealthProbeAlert)
    (alerts : List MachineHealthProbeAlert)
    → is_mere_warning alert ≡ b
    → IsSplit alerts p.0 p.1
    → IsSplit (alert ∷ alerts) (split_pair b alert p).0 (split_pair b alert p).1
IsSplit-if true alert p alerts e k = IsSplit-more true alert alerts p.0 p.1 e k
IsSplit-if false alert p alerts e k = IsSplit-more false alert alerts p.0 p.1 e k

-- Every alert of the critical list lacks the class "warning" or has the class "critical", every
-- alert of the other list has the first and lacks the second, the lengths of the two add up to that
-- of the input, and the critical list is empty exactly if the input has no alert for it.
pub classify_alerts-IsSplit :
    (alerts : List MachineHealthProbeAlert)
    → IsSplit alerts (classify_alerts alerts).0 (classify_alerts alerts).1
unfolding classify_alerts
classify_alerts-IsSplit [] = record {
  all_critical = ground arith;
  all_warning = ground arith;
  together = refl;
  some_critical = refl;
}
classify_alerts-IsSplit (alert ∷ alerts) =
    IsSplit-if (classify_alert alert == severity_warning) alert (classify_alerts alerts) alerts
      (sym (classify_alert-eq alert)) (classify_alerts-IsSplit alerts)

has_classification-any :
    (s : String) (cs : List String) → has_classification s cs ≡ any (λ c. c == s) cs
unfolding has_classification
has_classification-any s [] = refl
has_classification-any s (c ∷ cs) = rw (has_classification-any s cs) refl

-- There is a remediating alert exactly if some alert is classified as one.
pub has_remediating_alert-any :
    (alerts : List MachineHealthProbeAlert)
    → has_remediating_alert alerts ≡ any (has severity_remediating) alerts
unfolding has_remediating_alert
has_remediating_alert-any [] = refl
has_remediating_alert-any (alert ∷ alerts) =
    rw
      (
        has_classification-any severity_remediating alert.classifications,
        has_remediating_alert-any alerts,
      )
      refl
