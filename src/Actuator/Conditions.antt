-- ===== src/Actuator/Conditions.antt =====
-- setCondition, setInstanceStateConditions, isConditionFalse and the condition names of
-- pkg/actuators/machine/actuator.go. `meta.SetStatusCondition` is the environment's.
pub mod Laws
pub mod Stamps
use machine_api_provider_nvi.Base.{
  ℕ, String, ◌<>◌, Bool, true, false, List, [], ◌∷◌, ◌==◌, string_eq, if◌then◌else◌,
}
use machine_api_provider_nvi.Api.Types.{
  NicoMachineProviderStatus, Condition, ConditionStatus, condition_true, condition_false,
  condition_unknown,
}
use machine_api_provider_nvi.Api.Sdk.{
  InstanceStatus, pending, provisioning, configuring, ready, updating, rebooting, terminating,
  error, other,
}
use machine_api_provider_nvi.Actuator.World.{Env}

abbrev pub cond_instance_provisioned : String
cond_instance_provisioned = "InstanceProvisioned"

abbrev pub cond_machine_healthy : String
cond_machine_healthy = "MachineHealthy"

abbrev pub cond_nico_fault_remediation : String
cond_nico_fault_remediation = "NicoFaultRemediation"

-- `status == metav1.ConditionFalse`
abbrev pub is_false : ConditionStatus → Bool
is_false condition_true = false
is_false condition_false = true
is_false condition_unknown = false

-- `status == metav1.ConditionTrue`
abbrev pub is_true : ConditionStatus → Bool
is_true condition_true = true
is_true condition_false = false
is_true condition_unknown = false

-- The condition that SetStatusCondition is called with; its time is the zero time.
abbrev pub new_condition : String → ConditionStatus → String → String → Condition
new_condition type status reason message = record {
  condition_type = type;
  status = status;
  reason = reason;
  message = message;
  last_transition_time = 0;
}

module _ (env : Env) (now : ℕ) where
  unfoldable pub set_condition :
      String
      → ConditionStatus
      → String
      → String
      → NicoMachineProviderStatus
      → NicoMachineProviderStatus
  set_condition type status reason message s = record s {
    conditions =
        env.set_status_condition now s.conditions (new_condition type status reason message);
  }

  unfoldable pub set_instance_state_conditions :
      InstanceStatus → NicoMachineProviderStatus → NicoMachineProviderStatus
  set_instance_state_conditions pending s =
      set_condition "InstanceReady" condition_false "Pending" "Instance is pending allocation" (
        set_condition "InstanceAllocating" condition_true "Pending"
          "Instance creation request sent, awaiting allocation" s)
  set_instance_state_conditions provisioning s =
      set_condition "InstanceReady" condition_false "Provisioning" "Instance is being provisioned" (
        set_condition "InstanceProvisioning" condition_true "Provisioning"
          "NICo is provisioning the machine"
          (set_condition "InstanceAllocating" condition_false "Allocated"
            "Instance has been allocated" s))
  set_instance_state_conditions configuring s =
      set_condition "InstanceReady" condition_false "Configuring" "Instance is being configured" (
        set_condition "InstanceBootstrapping" condition_true "Configuring"
          "OS installed, configuration in progress"
          (set_condition "InstanceProvisioning" condition_false "Provisioned"
            "Machine has been provisioned" s))
  set_instance_state_conditions ready s =
      set_condition "InstanceReady" condition_true "InstanceRunning" "Instance is fully operational"
        (set_condition "InstanceBootstrapping" condition_false "Complete" "Bootstrap completed" s)
  set_instance_state_conditions updating s =
      set_condition "InstanceReady" condition_false "Updating" "Instance is being updated" s
  set_instance_state_conditions rebooting s =
      set_condition "InstanceReady" condition_false "Rebooting" "Instance is rebooting" s
  set_instance_state_conditions terminating s =
      set_condition "InstanceReady" condition_false "Terminating" "Instance is terminating" (
        set_condition "InstanceTerminating" condition_true "Terminating"
          "Instance deletion in progress" s)
  set_instance_state_conditions error s =
      set_condition "InstanceReady" condition_false "Error" "Instance encountered an error" (
        set_condition "InstanceError" condition_true "Error" "Instance is in a terminal error state"
          s)
  set_instance_state_conditions (other text) s =
      set_condition "InstanceReady" condition_false "Unknown"
        ("Instance is in unknown state: " <> text) s

-- The loop of isConditionFalse, which ends at the first condition of the type.
first_is_false : String → List Condition → Bool
first_is_false type [] = false
first_is_false type (c ∷ cs) =
    if c.condition_type == type then is_false c.status else first_is_false type cs

unfoldable pub is_condition_false : String → NicoMachineProviderStatus → Bool
unfolding first_is_false
is_condition_false type s = first_is_false type s.conditions
