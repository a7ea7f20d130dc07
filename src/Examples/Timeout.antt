-- ===== src/Examples/Timeout.antt =====
-- SetStatusCondition with its times, and a machine whose instance does not become ready in time.
use machine_api_provider_nvi.Base.{
  ℕ, ◌+◌, ◌*◌, String, Bool, true, false, none, some, List, [], ◌∷◌, ◌≡◌, refl, eqb, ◌==◌,
  string_eq, arith, if◌then◌else◌, eq_iff,
}
use machine_api_provider_nvi.Api.Errors.{ok}
use machine_api_provider_nvi.Api.Types.{
  Condition, ConditionStatus, condition_true, condition_false, condition_unknown,
}
use machine_api_provider_nvi.Api.Sdk.{Instance, provisioning, configuring}
use machine_api_provider_nvi.Actuator.World.{Env, TypedMachine, injected}
use machine_api_provider_nvi.Actuator.Conditions.Laws.{SetsConditions, find_condition}
use machine_api_provider_nvi.Actuator.Conditions.Stamps.{stamp, StampsConditions}
use machine_api_provider_nvi.Actuator.Create.{created_status}
use machine_api_provider_nvi.Actuator.Progress.{check_provisioning_timeout}
use machine_api_provider_nvi.Actuator.Progress.Timeout.{
  Step, became, alerted, after_steps, TimesOut, is_late, check_provisioning_timeout-after_steps,
}
use machine_api_provider_nvi.Examples.Sample.{env, machine, instance_of, start}

same_status : ConditionStatus → ConditionStatus → Bool
same_status condition_true condition_true = true
same_status condition_false condition_false = true
same_status condition_unknown condition_unknown = true
same_status _ _ = false

-- A condition that holds from a time on, if it has no time of its own.
abbrev stamped : ℕ → Condition → Condition
stamped now c = if eqb c.last_transition_time 0 then record c { last_transition_time = now } else c

-- The condition that takes the place of another: a time changes with the status only.
abbrev replaced : ℕ → Condition → Condition → Condition
replaced now d c =
    if same_status d.status c.status
    then record c { last_transition_time = d.last_transition_time }
    else stamped now c

unfoldable pub transition : ℕ → List Condition → Condition → List Condition
unfolding same_status
transition now [] c = stamped now c ∷ []
transition now (d ∷ ds) c =
    let rest = transition now ds c in
    if d.condition_type == c.condition_type then replaced now d c ∷ ds else d ∷ rest

transition-own :
    (now : ℕ) (cs : List Condition) (c : Condition)
    → find_condition c.condition_type (transition now cs c) ≡ some (c.status, (c.reason, c.message))
unfolding transition find_condition
transition-own now [] c = ground (arith, eq_iff c.condition_type c.condition_type)
transition-own now (d ∷ ds) c =
    ground (arith, eq_iff c.condition_type c.condition_type, transition-own now ds c)

transition-others :
    (now : ℕ) (cs : List Condition) (c : Condition) (type : String)
    → (type == c.condition_type) ≡ false
    → find_condition type (transition now cs c) ≡ find_condition type cs
unfolding transition find_condition
transition-others now [] c type h =
    ground (arith, h, eq_iff type c.condition_type, eq_iff c.condition_type type)
transition-others now (d ∷ ds) c type h = ground (
  arith,
  h,
  eq_iff type c.condition_type,
  eq_iff c.condition_type type,
  eq_iff d.condition_type type,
  eq_iff d.condition_type c.condition_type,
  transition-others now ds c type h,
)

stamp-transition-new :
    (now : ℕ) (cs : List Condition) (c : Condition)
    → eqb now 0 ≡ false
    → c.last_transition_time ≡ 0
    → find_condition c.condition_type cs ≡ none
    → stamp c.condition_type (transition now cs c) ≡ some now
unfolding transition find_condition stamp
stamp-transition-new now [] c n z h = ground (arith, n, z, eq_iff c.condition_type c.condition_type)
stamp-transition-new now (d ∷ ds) c n z h =
    ground
      (arith, n, z, h, eq_iff d.condition_type c.condition_type, stamp-transition-new now ds c n z)

stamp-transition-others :
    (now : ℕ) (cs : List Condition) (c : Condition) (type : String)
    → (type == c.condition_type) ≡ false
    → stamp type (transition now cs c) ≡ stamp type cs
unfolding transition stamp
stamp-transition-others now [] c type h =
    ground (arith, h, eq_iff type c.condition_type, eq_iff c.condition_type type)
stamp-transition-others now (d ∷ ds) c type h = ground (
  arith,
  h,
  eq_iff type c.condition_type,
  eq_iff c.condition_type type,
  eq_iff d.condition_type type,
  eq_iff d.condition_type c.condition_type,
  stamp-transition-others now ds c type h,
)

pub transition-SetsConditions : SetsConditions transition
transition-SetsConditions = record {
  own = λ now cs c. transition-own now cs c;
  others = λ now cs c type h. transition-others now cs c type h;
}

transition-StampsConditions : StampsConditions transition
transition-StampsConditions = record {
  own_new = λ now cs c n z h. stamp-transition-new now cs c n z h;
  others = λ now cs c type h. stamp-transition-others now cs c type h;
}

-- Half an hour and a nanosecond after the creation, with a limit of half an hour.
abbrev late_env : Env
late_env =
    let e = env (machine 0 none) in
    record e { set_status_condition = transition; now = λ h. 1000 + 1800 * 1000000000 + 1 }

abbrev waiting : Instance
waiting = record (instance_of "uuu") { status = some configuring }

abbrev machine_content : TypedMachine
machine_content = record {
  provider_spec_value = some "spec";
  provider_status = none;
  provider_id = none;
  error_reason = none;
  error_message = none;
}

abbrev history_since : List (ℕ × Step)
history_since =
    (2000, became provisioning)
    ∷ (2000, alerted "No health alerts" [])
    ∷ (3000, became configuring)
    ∷ []

check_provisioning_timeout-after_steps_example :
    let s =
      after_steps late_env history_since
        (created_status late_env injected "org" 1000 "uuu" (instance_of "uuu")) in
    let w = start (machine 0 none) in
    (is_late late_env configuring 1000 w ≡ true → TimesOut late_env s waiting w)
    × (is_late late_env configuring 1000 w ≡ false
        → check_provisioning_timeout late_env waiting s w ≡ (ok s, w))
check_provisioning_timeout-after_steps_example =
    check_provisioning_timeout-after_steps late_env transition-SetsConditions
      transition-StampsConditions injected "org" 1000 "uuu" (instance_of "uuu") history_since
      waiting configuring (start (machine 0 none)) machine_content refl refl refl
