-- ===== src/Actuator/Health/Effects.antt =====
-- The questions before a creation are reads.
use machine_api_provider_nvi.Base.{String, Bool, true, ◌≡◌}
use machine_api_provider_nvi.Actuator.World.{Env, NicoClient}
use machine_api_provider_nvi.Actuator.World.Calls.{
  get_all_tenant_account, get_current_tenant, get_all_machine_health_report, get_machine,
  get_machine_validation_runs,
}
use machine_api_provider_nvi.Actuator.World.Effects.{EffectKind, reading, Emits, emits_rules}
use machine_api_provider_nvi.Actuator.Health.{
  has_targeted_instance_creation, check_critical_faults, check_machine_validation,
}

module _ (env : Env) (client : NicoClient) (org : String) {p : EffectKind → Bool}
    (reads : p reading ≡ true) where
  pub has_targeted_instance_creation-Emits :
      (site : String) → Emits p (has_targeted_instance_creation env client org site)
  unfolding has_targeted_instance_creation get_all_tenant_account get_current_tenant
  has_targeted_instance_creation-Emits site = search emits_rules depth 12

  pub check_critical_faults-Emits :
      (id : String) → Emits p (check_critical_faults env client org id)
  unfolding check_critical_faults get_all_machine_health_report get_machine
  check_critical_faults-Emits id = search emits_rules depth 12

  pub check_machine_validation-Emits :
      (id : String) → Emits p (check_machine_validation env client org id)
  unfolding check_machine_validation get_machine_validation_runs
  check_machine_validation-Emits id = search emits_rules depth 12
