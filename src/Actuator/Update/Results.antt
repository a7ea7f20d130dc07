-- ===== src/Actuator/Update/Results.antt =====
-- The first step of an update: the status takes the state of the instance.
use machine_api_provider_nvi.Base.{ℕ, String, Option, none, some, ◌≡◌, refl}
use machine_api_provider_nvi.Api.Types.{NicoMachineProviderStatus, ConditionStatus}
use machine_api_provider_nvi.Api.Sdk.{
  InstanceStatus, pending, provisioning, configuring, ready, updating, rebooting, terminating,
  error, other,
}
use machine_api_provider_nvi.Actuator.World.{Env}
use machine_api_provider_nvi.Actuator.World.Results.{Gives, Gives-pure, Gives-bind}
use machine_api_provider_nvi.Actuator.Conditions.{set_condition, set_instance_state_conditions}
use machine_api_provider_nvi.Actuator.Monitor.Results.{SameInstance, SameInstance-refl}
use machine_api_provider_nvi.Actuator.Create.{state_text}
use machine_api_provider_nvi.Actuator.Update.{or_old, track_state}

set_condition-SameInstance :
    (env : Env) (now : ℕ) (type : String) (status : ConditionStatus) (reason message : String)
    (s s' : NicoMachineProviderStatus)
    → SameInstance s s'
    → SameInstance s (set_condition env now type status reason message s')
unfolding set_condition
set_condition-SameInstance env now type status reason message s s' h = record {
  same_id = h.same_id;
  same_machine = h.same_machine;
  same_state = h.same_state;
}

set_instance_state_conditions-SameInstance :
    (env : Env) (now : ℕ) (state : InstanceStatus) (s : NicoMachineProviderStatus)
    → SameInstance s (set_instance_state_conditions env now state s)
unfolding set_instance_state_conditions
set_instance_state_conditions-SameInstance env now pending s =
    search (set_condition-SameInstance, SameInstance-refl) depth 6
set_instance_state_conditions-SameInstance env now provisioning s =
    search (set_condition-SameInstance, SameInstance-refl) depth 6
set_instance_state_conditions-SameInstance env now configuring s =
    search (set_condition-SameInstance, SameInstance-refl) depth 6
set_instance_state_conditions-SameInstance env now ready s =
    search (set_condition-SameInstance, SameInstance-refl) depth 6
set_instance_state_conditions-SameInstance env now updating s =
    search (set_condition-SameInstance, SameInstance-refl) depth 6
set_instance_state_conditions-SameInstance env now rebooting s =
    search (set_condition-SameInstance, SameInstance-refl) depth 6
set_instance_state_conditions-SameInstance env now terminating s =
    search (set_condition-SameInstance, SameInstance-refl) depth 6
set_instance_state_conditions-SameInstance env now error s =
    search (set_condition-SameInstance, SameInstance-refl) depth 6
set_instance_state_conditions-SameInstance env now (other text) s =
    search (set_condition-SameInstance, SameInstance-refl) depth 6

module _ (env : Env) where
  -- The status after track_state.
  pub record Tracked (o : Option InstanceStatus) (old new : NicoMachineProviderStatus)
      : Type 0 where
    pub id_kept : new.instance_id ≡ old.instance_id
    pub machine_kept : new.machine_id ≡ old.machine_id
    pub state : new.instance_state ≡ or_old (state_text o) old.instance_state

  pub track_state-Gives :
      (o : Option InstanceStatus) (old : NicoMachineProviderStatus)
      → Gives (Tracked o old) (track_state env o old)
  unfolding track_state
  track_state-Gives none old =
      Gives-pure old (record { id_kept = refl; machine_kept = refl; state = refl })
  track_state-Gives (some state) old = Gives-bind _ _ λ history. Gives-bind _ _ λ _.
      let same =
        set_instance_state_conditions-SameInstance env (env.now history) state
          (record old { instance_state = state_text (some state) }) in
      Gives-pure _ (record {
        id_kept = same.same_id;
        machine_kept = same.same_machine;
        state = same.same_state;
      })
