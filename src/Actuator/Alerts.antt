-- ===== src/Actuator/Alerts.antt =====
-- classifyAlerts, classifyAlert and hasRemediatingAlert of pkg/actuators/machine/actuator.go.
pub mod Laws
use machine_api_provider_nvi.Base.{
  String, Bool, true, false, ◌||◌, List, [], ◌∷◌, ◌==◌, string_eq, if◌then◌else◌,
}
use machine_api_provider_nvi.Api.Sdk.{MachineHealthProbeAlert}

abbrev pub severity_critical : String
severity_critical = "critical"

abbrev pub severity_warning : String
severity_warning = "warning"

abbrev pub severity_remediating : String
severity_remediating = "remediating"

-- The loop of classifyAlert over the classifications, with its two flags.
scan_classifications : Bool → Bool → List String → Bool × Bool
scan_classifications critical warning [] = (critical, warning)
scan_classifications critical warning (c ∷ cs) =
    scan_classifications (if c == severity_critical then true else critical)
      (if c == severity_critical then warning else if c == severity_warning then true else warning)
      cs

severity_of : Bool × Bool → String
severity_of (critical, warning) =
    if critical then severity_critical else if warning then severity_warning else severity_critical

unfoldable pub classify_alert : MachineHealthProbeAlert → String
unfolding scan_classifications severity_of
classify_alert alert = severity_of (scan_classifications false false alert.classifications)

-- The critical alerts and the warnings. The two calls at the end of the clauses are one.
unfoldable pub classify_alerts :
    List MachineHealthProbeAlert → List MachineHealthProbeAlert × List MachineHealthProbeAlert
classify_alerts [] = ([], [])
classify_alerts (alert ∷ alerts) =
    let rest = classify_alerts alerts in
    if classify_alert alert == severity_warning
    then (rest.0, alert ∷ rest.1)
    else (alert ∷ rest.0, rest.1)

has_classification : String → List String → Bool
has_classification s [] = false
has_classification s (c ∷ cs) = c == s || has_classification s cs

unfoldable pub has_remediating_alert : List MachineHealthProbeAlert → Bool
unfolding has_classification
has_remediating_alert [] = false
has_remediating_alert (alert ∷ alerts) =
    has_classification severity_remediating alert.classifications || has_remediating_alert alerts
