-- ===== src/Actuator/Conditions/Stamps.antt =====
-- The time from which a condition holds, and what keeps it.
use machine_api_provider_nvi.Base.{
  ℕ, String, false, not, ◌&&◌, Option, none, some, List, [], ◌∷◌, ◌≡◌, ◌∙◌, eqb, ◌==◌, string_eq,
  if◌then◌else◌,
}
use machine_api_provider_nvi.Api.Types.{NicoMachineProviderStatus, Condition}
use machine_api_provider_nvi.Api.Sdk.{
  InstanceStatus, pending, provisioning, configuring, ready, updating, rebooting, terminating,
  error, other,
}
use machine_api_provider_nvi.Actuator.World.{Env}
use machine_api_provider_nvi.Actuator.Conditions.{
  set_condition, set_instance_state_conditions, cond_instance_provisioned,
}
use machine_api_provider_nvi.Actuator.Conditions.Laws.{find_condition}

-- The time of the first condition of a type that has one.
unfoldable pub stamp : String → List Condition → Option ℕ
stamp type [] = none
stamp type (c ∷ cs) =
    if c.condition_type == type && not (eqb c.last_transition_time 0)
    then some c.last_transition_time
    else stamp type cs

-- What SetStatusCondition documents of the times: a condition that is new, without a time of its
-- own, holds from now on; the times of the other types stay.
pub record StampsConditions (set : ℕ → List Condition → Condition → List Condition) : Type 0 where
  pub own_new :
      (now : ℕ) (cs : List Condition) (c : Condition)
      → eqb now 0 ≡ false
      → c.last_transition_time ≡ 0
      → find_condition c.condition_type cs ≡ none
      → stamp c.condition_type (set now cs c) ≡ some now
  pub others :
      (now : ℕ) (cs : List Condition) (c : Condition) (type : String)
      → (type == c.condition_type) ≡ false
      → stamp type (set now cs c) ≡ stamp type cs

-- A property of conditions that no condition of another type touches.
pub record Spared (env : Env) (type : String) (P : List Condition → Type 0) : Type 0 where
  pub kept :
      (now : ℕ) (cs : List Condition) (c : Condition)
      → (type == c.condition_type) ≡ false
      → P cs
      → P (env.set_status_condition now cs c)

-- The instance is provisioned since a time.
pub record Since (t : ℕ) (cs : List Condition) : Type 0 where
  pub at : stamp cond_instance_provisioned cs ≡ some t

module _ (env : Env) (stamps : StampsConditions env.set_status_condition) {t : ℕ} where
  pub Since-set :
      (now : ℕ) (cs : List Condition) (c : Condition)
      → (cond_instance_provisioned == c.condition_type) ≡ false
      → Since t cs
      → Since t (env.set_status_condition now cs c)
  Since-set now cs c e h = record { at = stamps.others now cs c cond_instance_provisioned e ∙ h.at }

  -- No state of the instance touches it.
  pub set_instance_state_conditions-Since :
      (now : ℕ) (state : InstanceStatus) (s : NicoMachineProviderStatus)
      → Since t s.conditions
      → Since t (set_instance_state_conditions env now state s).conditions
  unfolding set_instance_state_conditions set_condition
  set_instance_state_conditions-Since now pending s h = search Since-set depth 8
  set_instance_state_conditions-Since now provisioning s h = search Since-set depth 8
  set_instance_state_conditions-Since now configuring s h = search Since-set depth 8
  set_instance_state_conditions-Since now ready s h = search Since-set depth 8
  set_instance_state_conditions-Since now updating s h = search Since-set depth 8
  set_instance_state_conditions-Since now rebooting s h = search Since-set depth 8
  set_instance_state_conditions-Since now terminating s h = search Since-set depth 8
  set_instance_state_conditions-Since now error s h = search Since-set depth 8
  set_instance_state_conditions-Since now (other text) s h = search Since-set depth 8

  pub Since-Spared : Spared env cond_instance_provisioned (Since t)
  Since-Spared = record { kept = Since-set }
