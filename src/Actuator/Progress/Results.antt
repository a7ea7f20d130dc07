-- ===== src/Actuator/Progress/Results.antt =====
-- The check of the provisioning timeout leaves the instance of a status as it is.
use machine_api_provider_nvi.Base.{refl}
use machine_api_provider_nvi.Api.Types.{NicoMachineProviderStatus}
use machine_api_provider_nvi.Api.Sdk.{Instance, InstanceStatus}
use machine_api_provider_nvi.Actuator.World.{Env}
use machine_api_provider_nvi.Actuator.World.Results.{
  Gives, Gives-pure, Gives-if, Gives-bind, Gives-maybe,
}
use machine_api_provider_nvi.Actuator.Conditions.{set_condition}
use machine_api_provider_nvi.Actuator.Monitor.Results.{SameInstance, SameInstance-refl}
use machine_api_provider_nvi.Actuator.Progress.{time_out, check_waiting, check_provisioning_timeout}

module _ (env : Env) (s : NicoMachineProviderStatus) where
  time_out-Gives : (state : InstanceStatus) → Gives (SameInstance s) (time_out env state s)
  unfolding time_out set_condition
  time_out-Gives state = Gives-bind _ _ λ o. Gives-bind _ _ λ history. Gives-bind _ _ λ _.
      Gives-bind _ _
        λ _. Gives-pure _ (record { same_id = refl; same_machine = refl; same_state = refl })

  check_waiting-Gives :
      (state : InstanceStatus) → Gives (SameInstance s) (check_waiting env s state)
  unfolding check_waiting
  check_waiting-Gives state =
      Gives-bind _ _
        λ history. Gives-if _ _ _ (time_out-Gives state) (Gives-pure s (SameInstance-refl s))

  pub check_provisioning_timeout-Gives :
      (inst : Instance) → Gives (SameInstance s) (check_provisioning_timeout env inst s)
  unfolding check_provisioning_timeout
  check_provisioning_timeout-Gives inst =
      Gives-maybe inst.status _ _ (Gives-pure s (SameInstance-refl s)) check_waiting-Gives
