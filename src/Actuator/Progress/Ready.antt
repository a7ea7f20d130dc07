-- ===== src/Actuator/Progress/Ready.antt =====
-- The condition InstanceReady follows the state of the instance, up to the check of the timeout.
use machine_api_provider_nvi.Base.{String, Option, none, some, maybe, List, ◌≡◌, refl, ap, ◌∙◌}
use machine_api_provider_nvi.Api.Types.{
  NicoMachineProviderStatus, Condition, ConditionStatus, condition_false,
}
use machine_api_provider_nvi.Api.Sdk.{
  Instance, InstanceStatus, pending, provisioning, configuring, ready, updating, rebooting,
  terminating, error, other,
}
use machine_api_provider_nvi.Actuator.World.{Env}
use machine_api_provider_nvi.Actuator.World.Monad.{pure}
use machine_api_provider_nvi.Actuator.World.Results.{Gives, Gives-pure, Gives-if, Gives-bind}
use machine_api_provider_nvi.Actuator.Conditions.Laws.{
  SetsConditions, find_condition, set_condition-own, ready_status,
}
use machine_api_provider_nvi.Actuator.Conditions.Stamps.{Spared}
use machine_api_provider_nvi.Actuator.Monitor.Stamps.{apply_alerts-spared}
use machine_api_provider_nvi.Actuator.Monitor.Results.{AlertsKeep}
use machine_api_provider_nvi.Actuator.Progress.{time_out, check_waiting, check_provisioning_timeout}

-- InstanceReady has this status.
pub record ReadyIs (b : ConditionStatus) (cs : List Condition) : Type 0 where
  pub at : maybe (find_condition "InstanceReady" cs) none (λ found. some found.0) ≡ some b

abbrev status_found : Option (ConditionStatus × (String × String)) → Option ConditionStatus
status_found o = maybe o none (λ found. some found.0)

-- What InstanceReady says of an instance that has a state.
abbrev pub ReadyOf : Option InstanceStatus → NicoMachineProviderStatus → Type 0
ReadyOf none s' = Unit {0}
ReadyOf (some state) s' = ReadyIs (ready_status state) s'.conditions

module _ (env : Env) (sets : SetsConditions env.set_status_condition) where
  ReadyIs-Spared : {b : ConditionStatus} → Spared env "InstanceReady" (ReadyIs b)
  ReadyIs-Spared = record {
    kept = λ now cs c e h. record {
      at = ap status_found (sets.others now cs c "InstanceReady" e) ∙ h.at;
    };
  }

  pub ReadyIs-AlertsKeep : (b : ConditionStatus) → AlertsKeep env (λ s. ReadyIs b s.conditions)
  ReadyIs-AlertsKeep b = record {
    kept =
        λ now text alerts s h. apply_alerts-spared env ReadyIs-Spared refl refl now text alerts s h;
  }

  module _ (s : NicoMachineProviderStatus) where
    time_out-ReadyIs :
        (state : InstanceStatus)
        → Gives (λ s'. ReadyIs condition_false s'.conditions) (time_out env state s)
    unfolding time_out
    time_out-ReadyIs state = Gives-bind _ _ λ o. Gives-bind _ _ λ history. Gives-bind _ _ λ _.
        Gives-bind _ _ λ _.
          Gives-pure _ (record {
            at = ap status_found (set_condition-own env sets (env.now history) _ _ _ _ s);
          })

    check_waiting-ReadyIs :
        (state : InstanceStatus)
        → ReadyIs (ready_status state) s.conditions
        → Gives (λ s'. ReadyIs (ready_status state) s'.conditions) (check_waiting env s state)
    unfolding check_waiting
    check_waiting-ReadyIs pending h =
        Gives-bind _ _ λ history. Gives-if _ _ _ (time_out-ReadyIs pending) (Gives-pure s h)
    check_waiting-ReadyIs provisioning h =
        Gives-bind _ _ λ history. Gives-if _ _ _ (time_out-ReadyIs provisioning) (Gives-pure s h)
    check_waiting-ReadyIs configuring h =
        Gives-bind _ _ λ history. Gives-if _ _ _ (time_out-ReadyIs configuring) (Gives-pure s h)
    check_waiting-ReadyIs ready h = Gives-bind _ _ λ history. Gives-pure s h
    check_waiting-ReadyIs updating h = Gives-bind _ _ λ history. Gives-pure s h
    check_waiting-ReadyIs rebooting h = Gives-bind _ _ λ history. Gives-pure s h
    check_waiting-ReadyIs terminating h = Gives-bind _ _ λ history. Gives-pure s h
    check_waiting-ReadyIs error h = Gives-bind _ _ λ history. Gives-pure s h
    check_waiting-ReadyIs (other text) h = Gives-bind _ _ λ history. Gives-pure s h

    check-ReadyOf :
        (o : Option InstanceStatus)
        → ReadyOf o s
        → Gives (ReadyOf o) (maybe o (pure s) (check_waiting env s))
    check-ReadyOf none h = Gives-pure s tt
    check-ReadyOf (some state) h = check_waiting-ReadyIs state h

    pub check_provisioning_timeout-ReadyOf :
        (inst : Instance)
        → ReadyOf inst.status s
        → Gives (ReadyOf inst.status) (check_provisioning_timeout env inst s)
    unfolding check_provisioning_timeout
    check_provisioning_timeout-ReadyOf inst h = check-ReadyOf inst.status h
