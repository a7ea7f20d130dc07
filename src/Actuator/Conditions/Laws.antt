-- ===== src/Actuator/Conditions/Laws.antt =====
-- The conditions of a status, with what `meta.SetStatusCondition` documents as a hypothesis.
use machine_api_provider_nvi.Base.{
  ℕ, String, Bool, true, false, Option, none, some, maybe, List, [], ◌∷◌, ◌≡◌, refl, ◌∙◌, ◌==◌,
  string_eq, if◌then◌else◌,
}
use machine_api_provider_nvi.Api.Types.{
  NicoMachineProviderStatus, Condition, ConditionStatus, condition_true, condition_false,
}
use machine_api_provider_nvi.Api.Sdk.{
  InstanceStatus, pending, provisioning, configuring, ready, updating, rebooting, terminating,
  error, other,
}
use machine_api_provider_nvi.Actuator.World.{Env}
use machine_api_provider_nvi.Actuator.Conditions.{
  set_condition, set_instance_state_conditions, new_condition, first_is_false, is_condition_false,
  is_false,
}

-- The first condition of a type: its status, reason and message.
unfoldable pub find_condition :
    String → List Condition → Option (ConditionStatus × (String × String))
find_condition type [] = none
find_condition type (c ∷ cs) =
    if c.condition_type == type
    then some (c.status, (c.reason, c.message))
    else find_condition type cs

-- What SetStatusCondition documents: the condition of the type takes the new status, reason and
-- message, and the conditions of the other types stay.
pub record SetsConditions (set : ℕ → List Condition → Condition → List Condition) : Type 0 where
  pub own :
      (now : ℕ) (cs : List Condition) (c : Condition)
      → find_condition c.condition_type (set now cs c) ≡ some (c.status, (c.reason, c.message))
  pub others :
      (now : ℕ) (cs : List Condition) (c : Condition) (type : String)
      → (type == c.condition_type) ≡ false
      → find_condition type (set now cs c) ≡ find_condition type cs

-- The status of the first condition of a type.
abbrev pub status_of : String → NicoMachineProviderStatus → Option ConditionStatus
status_of type s = maybe (find_condition type s.conditions) none (λ found. some found.0)

module _ (env : Env) (sets : SetsConditions env.set_status_condition) (now : ℕ) where
  pub set_condition-own :
      (type : String) (status : ConditionStatus) (reason message : String)
      (s : NicoMachineProviderStatus)
      → find_condition type (set_condition env now type status reason message s).conditions
        ≡ some (status, (reason, message))
  unfolding set_condition
  set_condition-own type status reason message s =
      sets.own now s.conditions (new_condition type status reason message)

  pub set_condition-others :
      (type : String) (status : ConditionStatus) (reason message : String)
      (s : NicoMachineProviderStatus) (other_type : String)
      → (other_type == type) ≡ false
      → find_condition other_type (set_condition env now type status reason message s).conditions
        ≡ find_condition other_type s.conditions
  unfolding set_condition
  set_condition-others type status reason message s other_type h =
      sets.others now s.conditions (new_condition type status reason message) other_type h

  status_of-own :
      (type : String) (status : ConditionStatus) (reason message : String)
      (s : NicoMachineProviderStatus)
      → status_of type (set_condition env now type status reason message s) ≡ some status
  status_of-own type status reason message s =
      rw (set_condition-own type status reason message s) refl

  status_of-others :
      (type : String) (status : ConditionStatus) (reason message : String)
      (s : NicoMachineProviderStatus) (other_type : String)
      → (other_type == type) ≡ false
      → status_of other_type (set_condition env now type status reason message s)
        ≡ status_of other_type s
  status_of-others type status reason message s other_type h =
      rw (set_condition-others type status reason message s other_type h) refl

abbrev pub ready_status : InstanceStatus → ConditionStatus
ready_status ready = condition_true
ready_status _ = condition_false

-- If SetStatusCondition does what it documents, then whatever the state of the instance,
-- InstanceReady becomes true if the state is Ready and false otherwise.
pub set_instance_state_conditions-ready :
    (env : Env) (now : ℕ) (state : InstanceStatus) (s : NicoMachineProviderStatus)
    → SetsConditions env.set_status_condition
    → status_of "InstanceReady" (set_instance_state_conditions env now state s)
      ≡ some (ready_status state)
unfolding set_instance_state_conditions
set_instance_state_conditions-ready env now pending s k = status_of-own env k now _ _ _ _ _
set_instance_state_conditions-ready env now provisioning s k = status_of-own env k now _ _ _ _ _
set_instance_state_conditions-ready env now configuring s k = status_of-own env k now _ _ _ _ _
set_instance_state_conditions-ready env now ready s k = status_of-own env k now _ _ _ _ _
set_instance_state_conditions-ready env now updating s k = status_of-own env k now _ _ _ _ _
set_instance_state_conditions-ready env now rebooting s k = status_of-own env k now _ _ _ _ _
set_instance_state_conditions-ready env now terminating s k = status_of-own env k now _ _ _ _ _
set_instance_state_conditions-ready env now error s k = status_of-own env k now _ _ _ _ _
set_instance_state_conditions-ready env now (other text) s k = status_of-own env k now _ _ _ _ _

-- If SetStatusCondition does what it documents, the status of an instance that was in the state
-- Error and is Ready next has both InstanceReady and InstanceError true.
pub set_instance_state_conditions-error_stays :
    (env : Env) (now later : ℕ) (s : NicoMachineProviderStatus)
    → SetsConditions env.set_status_condition
    → let s' =
        set_instance_state_conditions env later ready
          (set_instance_state_conditions env now error s) in
      (status_of "InstanceError" s' ≡ some condition_true)
      × (status_of "InstanceReady" s' ≡ some condition_true)
unfolding set_instance_state_conditions
set_instance_state_conditions-error_stays env now later s k = (
  status_of-others env k later _ _ _ _ _ "InstanceError" refl
      ∙ status_of-others env k later _ _ _ _ _ "InstanceError" refl
      ∙ status_of-others env k now _ _ _ _ _ "InstanceError" refl
      ∙ status_of-own env k now _ _ _ _ _,
  status_of-own env k later _ _ _ _ _,
)

false_if :
    (b : Bool) (c : Condition) (rest : Bool) (found : Option (ConditionStatus × (String × String)))
    → rest ≡ maybe found false (λ f. is_false f.0)
    → (if b then is_false c.status else rest)
      ≡ maybe
          (if b then some (c.status, (c.reason, c.message)) else found)
          false
          (λ f. is_false f.0)
false_if true c rest found e = refl
false_if false c rest found e = e

first_is_false-find :
    (type : String) (cs : List Condition)
    → first_is_false type cs ≡ maybe (find_condition type cs) false (λ found. is_false found.0)
unfolding first_is_false find_condition
first_is_false-find type [] = refl
first_is_false-find type (c ∷ cs) =
    false_if (c.condition_type == type) c _ _ (first_is_false-find type cs)

-- A status is false exactly if the first condition of the type is.
is_condition_false-find :
    (type : String) (s : NicoMachineProviderStatus)
    → is_condition_false type s
      ≡ maybe (find_condition type s.conditions) false (λ found. is_false found.0)
unfolding is_condition_false
is_condition_false-find type s = first_is_false-find type s.conditions
