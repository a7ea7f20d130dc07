-- ===== src/Actuator/Health.antt =====
-- hasTargetedInstanceCreation, checkCriticalFaults and checkMachineValidation of
-- pkg/actuators/machine/actuator.go: what the actuator asks before it creates an instance. The pair
-- (bool, string) of a check is the message, if the check found something.
pub mod Effects
pub mod Laws
use machine_api_provider_nvi.Base.{
  ℕ, String, ◌<>◌, Bool, true, false, not, ◌&&◌, ◌||◌, Option, none, some, List, [], ◌∷◌, ◌++◌, ltb,
  ◌==◌, string_eq, nat_eq, is_set, is_some, is_nil, any, length, if◌then◌else◌,
}
use machine_api_provider_nvi.Base.Decimal.{itoa}
use machine_api_provider_nvi.Api.Sdk.{
  MachineHealthProbeAlert, MachineHealthReportEntry, MachineHealth, Machine, MachineValidationRun,
  SiteCapability, TenantAccount, TenantCapabilities, Tenant, HttpResponse, Reply,
}
use machine_api_provider_nvi.Actuator.World.{Env, NicoClient}
use machine_api_provider_nvi.Actuator.World.Monad.{M, ◌>>=◌, ◌>>◌, pure}
use machine_api_provider_nvi.Actuator.World.Calls
use machine_api_provider_nvi.Actuator.Alerts.{classify_alerts}

-- `httpResp != nil && httpResp.StatusCode < 300`
abbrev pub is_below_300 : Option HttpResponse → Bool
is_below_300 none = false
is_below_300 (some r) = ltb r.status_code 300

-- `httpResp != nil && httpResp.StatusCode == code`
abbrev pub has_code : ℕ → Option HttpResponse → Bool
has_code code none = false
has_code code (some r) = r.status_code == code

-- `err == nil && httpResp != nil && httpResp.StatusCode < 300`
abbrev pub succeeded : {A : Type 0} → Reply A → Bool
succeeded r = not (is_some r.failure) && is_below_300 r.http

-- `err == nil && httpResp != nil && httpResp.StatusCode == http.StatusOK`
abbrev pub is_status_ok : {A : Type 0} → Reply A → Bool
is_status_ok r = not (is_some r.failure) && has_code 200 r.http

capability_allows : String → SiteCapability → Bool
capability_allows site cap =
    cap.targeted_instance_creation && (is_nil cap.site_ids || any (λ id. id == site) cap.site_ids)

account_allows : String → TenantAccount → Bool
account_allows site acct = acct.is_ready && any (capability_allows site) acct.site_capabilities

-- The loops over the accounts, their capabilities and the sites of these.
unfoldable pub accounts_allow : String → List TenantAccount → Bool
unfolding account_allows capability_allows
accounts_allow site accounts = any (account_allows site) accounts

capabilities_allow : Option TenantCapabilities → Bool
capabilities_allow none = true
capabilities_allow (some c) = elim c.targeted_instance_creation [ some b ↦ b | none ↦ true ]

-- The deprecated capabilities of the tenant; what is missing allows.
unfoldable pub tenant_allows : Reply (Option Tenant) → Bool
unfolding capabilities_allow
tenant_allows r = elim r.failure [
  | some e ↦ true
  | none ↦ elim r.value [ none ↦ true | some tenant ↦ capabilities_allow tenant.capabilities ]
]

-- The alerts of all reports, in order.
unfoldable pub all_alerts : List MachineHealthReportEntry → List MachineHealthProbeAlert
all_alerts [] = []
all_alerts (report ∷ reports) = report.alerts ++ all_alerts reports

critical_message : String → List MachineHealthProbeAlert → Option String
critical_message machine_id [] = none
critical_message machine_id (alert ∷ alerts) = some (
    if is_set alert.message
    then alert.message
    else "Machine "
      <> (machine_id
          <> (" has " <> (itoa (length (alert ∷ alerts)) <> " critical health alert(s)"))))

-- The message on the critical ones of some alerts, if there is one.
unfoldable pub critical_faults : String → List MachineHealthProbeAlert → Option String
unfolding critical_message
critical_faults machine_id alerts = critical_message machine_id (classify_alerts alerts).0

health_faults : String → Option MachineHealth → Option String
health_faults machine_id none = none
health_faults machine_id (some health) =
    if is_nil health.alerts then none else critical_faults machine_id health.alerts

-- The fallback, which reads the health of the machine itself.
unfoldable pub machine_faults : String → Reply (Option Machine) → Option String
unfolding health_faults
machine_faults machine_id r =
    if is_status_ok r
    then elim r.value [ none ↦ none | some m ↦ health_faults machine_id m.health ]
    else none

-- `r.EndTime != nil && (latest.EndTime == nil || r.EndTime.After(*latest.EndTime))`
unfoldable pub ends_later : Option ℕ → Option ℕ → Bool
ends_later none latest = false
ends_later (some t) none = true
ends_later (some t) (some u) = ltb u t

-- The loop that looks for the most recent run.
unfoldable pub latest_run : MachineValidationRun → List MachineValidationRun → MachineValidationRun
unfolding ends_later
latest_run latest [] = latest
latest_run latest (r ∷ runs) =
    latest_run (if ends_later r.end_time latest.end_time then r else latest) runs

module _ (env : Env) where
  run_failure : String → MachineValidationRun → Option String
  run_failure machine_id run =
      if not (run.state == "completed")
      then some
          ("Machine " <> (machine_id <> (" has a validation run in state " <> env.quote run.state)))
      else if ltb run.completed run.total
      then some (
          "Machine "
          <> (machine_id
              <> (" validation: "
                  <> (itoa run.completed <> ("/" <> (itoa run.total <> " tests passed"))))))
      else none

  runs_failure : String → List MachineValidationRun → Option String
  runs_failure machine_id [] = none
  runs_failure machine_id (r ∷ runs) = run_failure machine_id (latest_run r runs)

  -- What the most recent run of an answer says.
  unfoldable pub validation_failure : String → Reply (List MachineValidationRun) → Option String
  unfolding runs_failure run_failure
  validation_failure machine_id r = if succeeded r then runs_failure machine_id r.value else none

  module _ (client : NicoClient) (org : String) where
    unfoldable pub has_targeted_instance_creation : String → M Bool
    has_targeted_instance_creation site = do
      accounts ← Calls.get_all_tenant_account env client org
      if succeeded accounts
          then pure (accounts_allow site accounts.value)
          else do tenant ← Calls.get_current_tenant env client org; pure (tenant_allows tenant)

    unfoldable pub check_critical_faults : String → M (Option String)
    check_critical_faults machine_id = do
      reports ← Calls.get_all_machine_health_report env client org machine_id
      if succeeded reports then pure (critical_faults machine_id (all_alerts reports.value)) else do
        machine ← Calls.get_machine env client org machine_id
        pure (machine_faults machine_id machine)

    unfoldable pub check_machine_validation : String → M (Option String)
    check_machine_validation machine_id = do
      runs ← Calls.get_machine_validation_runs env client org machine_id
      pure (validation_failure machine_id runs)
