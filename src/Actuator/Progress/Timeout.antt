-- ===== src/Actuator/Progress/Timeout.antt =====
-- When the provisioning timeout marks a machine as failed.
use machine_api_provider_nvi.Base.{
  ℕ, ◌-◌, String, ◌<>◌, Bool, true, false, not, ◌&&◌, Option, none, some, maybe, List, [], ◌∷◌, ◌≡◌,
  refl, ap, sym, ◌∙◌, eqb, ltb, ◌==◌, string_eq, arith, if◌then◌else◌,
}
use machine_api_provider_nvi.Api.Errors.{ok}
use machine_api_provider_nvi.Api.Types.{NicoMachineProviderStatus, Condition, condition_false}
use machine_api_provider_nvi.Api.Sdk.{
  Instance, InstanceStatus, pending, provisioning, configuring, ready, updating, rebooting,
  terminating, error, other, status_text, MachineHealthProbeAlert,
}
use machine_api_provider_nvi.Actuator.World.{Env, World, NicoClient, TypedMachine, Object, typed}
use machine_api_provider_nvi.Actuator.World.Monad.{
  M, ◌>>=◌, pure, emit, get_memory, set_memory, get_history,
}
use machine_api_provider_nvi.Actuator.Conditions.{
  set_condition, set_instance_state_conditions, cond_instance_provisioned,
}
use machine_api_provider_nvi.Actuator.Conditions.Laws.{
  SetsConditions, find_condition, set_condition-own,
}
use machine_api_provider_nvi.Actuator.Conditions.Stamps.{
  stamp, StampsConditions, Since, Since-set, Since-Spared, set_instance_state_conditions-Since,
}
use machine_api_provider_nvi.Actuator.Monitor.{apply_alerts}
use machine_api_provider_nvi.Actuator.Monitor.Stamps.{apply_alerts-spared}
use machine_api_provider_nvi.Actuator.PreFlight.{set_failure}
use machine_api_provider_nvi.Actuator.PreFlight.Escalation.{failure_reason}
use machine_api_provider_nvi.Actuator.Create.{created_status}
use machine_api_provider_nvi.Actuator.Progress.{
  is_past, is_waiting, has_timed_out, time_out, check_waiting, check_provisioning_timeout,
}

-- What Update does to the conditions at a time: the state of the instance, the alerts on its
-- machine, and the mark of a timeout.
pub data Step : Type 0 where
  became : InstanceStatus → Step
  alerted : String → List MachineHealthProbeAlert → Step
  marked : String → Step

-- The states that end in a ready instance.
abbrev pub is_underway : InstanceStatus → Bool
is_underway pending = true
is_underway provisioning = true
is_underway configuring = true
is_underway _ = false

module _ (env : Env) where
  is_waiting-underway : (state : InstanceStatus) → is_waiting env state ≡ is_underway state
  is_waiting-underway pending = refl
  is_waiting-underway provisioning = refl
  is_waiting-underway configuring = refl
  is_waiting-underway ready = refl
  is_waiting-underway updating = refl
  is_waiting-underway rebooting = refl
  is_waiting-underway terminating = refl
  is_waiting-underway error = refl
  is_waiting-underway (other text) = refl

  -- The status after one step.
  abbrev pub stepped : ℕ → Step → NicoMachineProviderStatus → NicoMachineProviderStatus
  stepped now (became state) s = set_instance_state_conditions env now state s
  stepped now (alerted text alerts) s = apply_alerts env now text alerts s
  stepped now (marked text) s =
      set_condition env now "InstanceReady" condition_false "ProvisioningTimeout" text s

  unfoldable pub after_steps :
      List (ℕ × Step) → NicoMachineProviderStatus → NicoMachineProviderStatus
  after_steps [] s = s
  after_steps ((now, step) ∷ steps) s = after_steps steps (stepped now step s)

  has_timed_out-stamp :
      (now : ℕ) (cs : List Condition)
      → has_timed_out env now cs
        ≡ maybe
            (stamp cond_instance_provisioned cs)
            false
            (λ t. is_past now t env.provisioning_timeout)
  unfolding has_timed_out stamp
  has_timed_out-stamp now [] = refl
  has_timed_out-stamp now (c ∷ cs) =
      at_first (c.condition_type == cond_instance_provisioned && not (eqb c.last_transition_time 0))
        _ _ _ (has_timed_out-stamp now cs)
    where
      at_first :
          (b : Bool) (t : ℕ) (rest : Bool) (found : Option ℕ)
          → rest ≡ maybe found false (λ t. is_past now t env.provisioning_timeout)
          → (if b then is_past now t env.provisioning_timeout else rest)
            ≡ maybe
                (if b then some t else found)
                false
                (λ t. is_past now t env.provisioning_timeout)
      at_first true t rest found e = refl
      at_first false t rest found e = e

  module _ (stamps : StampsConditions env.set_status_condition) {t : ℕ} where
    stepped-Since :
        (now : ℕ) (step : Step) (s : NicoMachineProviderStatus)
        → Since t s.conditions
        → Since t (stepped now step s).conditions
    unfolding set_condition
    stepped-Since now (became state) s h =
        set_instance_state_conditions-Since env stamps now state s h
    stepped-Since now (alerted text alerts) s h =
        apply_alerts-spared env (Since-Spared env stamps) refl refl now text alerts s h
    stepped-Since now (marked text) s h = Since-set env stamps now s.conditions _ refl h

    after_steps-Since :
        (steps : List (ℕ × Step)) (s : NicoMachineProviderStatus)
        → Since t s.conditions
        → Since t (after_steps steps s).conditions
    unfolding after_steps
    after_steps-Since [] s h = h
    after_steps-Since ((now, step) ∷ steps) s h =
        after_steps-Since steps (stepped now step s) (stepped-Since now step s h)

  created_status-Since :
      StampsConditions env.set_status_condition
      → (client : NicoClient) (org : String) (t : ℕ) (id : String) (inst : Instance)
      → eqb t 0 ≡ false
      → Since t (created_status env client org t id inst).conditions
  unfolding created_status set_condition find_condition
  created_status-Since stamps client org t id inst h = record {
    at = stamps.own_new t [] _ h refl refl;
  }

  -- What the check does to a typed Machine: it fails and InstanceReady is false, for this reason.
  pub record TimesOut (s : NicoMachineProviderStatus) (inst : Instance) (w : World) : Type 0 where
    pub status : NicoMachineProviderStatus
    pub message : String
    pub returned : (check_provisioning_timeout env inst s w).0 ≡ ok status
    pub failed :
        failure_reason (check_provisioning_timeout env inst s w).1.object
        ≡ some "ProvisioningTimeout"
    pub not_ready :
        find_condition "InstanceReady" status.conditions
        ≡ some (condition_false, ("ProvisioningTimeout", message))

  abbrev limit : String
  limit = env.format_duration env.provisioning_timeout

  time_out-status :
      (s : NicoMachineProviderStatus) (state : InstanceStatus) (w : World)
      → (time_out env state s w).0
        ≡ ok (
            stepped
              (env.now w.history)
              (marked ("Instance has not reached Ready state after " <> limit))
              s)
  unfolding time_out ◌>>=◌ pure emit get_memory set_memory get_history
  time_out-status s state w = ground arith

  failure_reason-set_failure :
      (reason message : String) (o : Object) (m : TypedMachine)
      → o.kind ≡ typed m
      → failure_reason (set_failure reason message o) ≡ some reason
  failure_reason-set_failure reason message o m h = rw h refl

  time_out-failure_reason :
      (s : NicoMachineProviderStatus) (state : InstanceStatus) (w : World) (m : TypedMachine)
      → w.object.kind ≡ typed m
      → failure_reason (time_out env state s w).1.object ≡ some "ProvisioningTimeout"
  unfolding time_out ◌>>=◌ pure emit get_memory set_memory get_history
  time_out-failure_reason s state w m h = ground (
    arith,
    failure_reason-set_failure "ProvisioningTimeout"
        ("Instance stuck in " <> (status_text state <> (" state for more than " <> limit))) w.object
        m h,
  )

  time_out-TimesOut :
      SetsConditions env.set_status_condition
      → (s : NicoMachineProviderStatus) (inst : Instance) (state : InstanceStatus) (w : World)
        (m : TypedMachine)
      → w.object.kind ≡ typed m
      → check_provisioning_timeout env inst s w ≡ time_out env state s w
      → TimesOut s inst w
  time_out-TimesOut sets s inst state w m h e = record {
    status =
        stepped (env.now w.history)
          (marked ("Instance has not reached Ready state after " <> limit)) s;
    message = "Instance has not reached Ready state after " <> limit;
    returned = ap (λ r. r.0) e ∙ time_out-status s state w;
    failed = ap (λ r. failure_reason r.1.object) e ∙ time_out-failure_reason s state w m h;
    not_ready = set_condition-own env sets (env.now w.history) _ _ _ _ s;
  }

  -- The instance waits, and more time than the limit has passed since a time.
  abbrev pub is_late : InstanceStatus → ℕ → World → Bool
  is_late state t w = is_underway state && ltb env.provisioning_timeout (env.now w.history - t)

  check_waiting-some :
      (o : Option InstanceStatus) (s : NicoMachineProviderStatus) (state : InstanceStatus)
      → o ≡ some state
      → maybe o (pure s) (check_waiting env s) ≡ check_waiting env s state
  check_waiting-some none s state h = absurd (grind (arith, h))
  check_waiting-some (some x) s state h = ap (check_waiting env s) (grind (arith, h))

  if_run :
      {A : Type 0} (b b' : Bool) (m n : M A) (w : World)
      → b ≡ b'
      → (if b then m else n) w ≡ (if b' then m w else n w)
  if_run true b' m n w e = rw (sym e) refl
  if_run false b' m n w e = rw (sym e) refl

  -- The check, by the time from which the instance is provisioned.
  check-Since :
      (s : NicoMachineProviderStatus) (inst : Instance) (state : InstanceStatus) (w : World) (t : ℕ)
      → Since t s.conditions
      → inst.status ≡ some state
      → check_provisioning_timeout env inst s w
        ≡ (if is_late state t w then time_out env state s w else (ok s, w))
  unfolding check_provisioning_timeout check_waiting ◌>>=◌ pure get_history
  check-Since s inst state w t since h =
      let now = env.now w.history in
      let late =
        has_timed_out-stamp now s.conditions
        ∙ ap (λ o. maybe o false (λ t. is_past now t env.provisioning_timeout)) since.at in
      ap (λ m. m w) (check_waiting-some inst.status s state h)
      ∙ if_run _ _ (time_out env state s) (pure s) w (
          ap (λ b. is_waiting env state && b) late
          ∙ ap (λ b. b && is_past now t env.provisioning_timeout) (is_waiting-underway state))

  -- If SetStatusCondition does what it documents: for a typed Machine whose instance was created at
  -- a time that is not zero, and whose status has followed any states of the instance, alerts and
  -- earlier timeouts since, in any order and at any times, the check of the provisioning timeout
  -- marks the Machine as failed and InstanceReady as false if the instance is Pending, Provisioning
  -- or Configuring and more time than the limit has passed since the creation; otherwise it changes
  -- nothing.
  pub check_provisioning_timeout-after_steps :
      SetsConditions env.set_status_condition
      → StampsConditions env.set_status_condition
      → (client : NicoClient) (org : String) (t : ℕ) (id : String) (created : Instance)
        (steps : List (ℕ × Step)) (inst : Instance) (state : InstanceStatus) (w : World)
        (m : TypedMachine)
      → eqb t 0 ≡ false
      → inst.status ≡ some state
      → w.object.kind ≡ typed m
      → let s = after_steps steps (created_status env client org t id created) in
        (is_late state t w ≡ true → TimesOut s inst w)
        × (is_late state t w ≡ false → check_provisioning_timeout env inst s w ≡ (ok s, w))
  check_provisioning_timeout-after_steps sets stamps client org t id created steps inst state w m n
        h k =
      let s = after_steps steps (created_status env client org t id created) in
      let since =
        after_steps-Since stamps steps _ (created_status-Since stamps client org t id created n) in
      let check = check-Since s inst state w t since h in
      (
        (λ late.
            time_out-TimesOut sets s inst state w m k
              (check ∙ ap (λ b. if b then time_out env state s w else (ok s, w)) late)),
        (λ early. check ∙ ap (λ b. if b then time_out env state s w else (ok s, w)) early),
      )
