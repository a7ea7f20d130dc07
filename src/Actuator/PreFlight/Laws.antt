-- ===== src/Actuator/PreFlight/Laws.antt =====
-- The count of blocked attempts, and what a passed check means.
use machine_api_provider_nvi.Base.{
  ℕ, ◌≤◌, String, ◌<>◌, Bool, true, false, ◌&&◌, Option, none, some, List, [], ◌∷◌, ◌≡◌, refl, ap,
  ◌∙◌, arith, ◌==◌, string_eq, maybe, if◌then◌else◌,
}
use machine_api_provider_nvi.Base.Decimal.{itoa}
use machine_api_provider_nvi.Base.Text.{strip_prefix-append}
use machine_api_provider_nvi.Base.Int.{
  ℤ, pos, max_int, increment, int_text, scan_int, scan_int-itoa,
}
use machine_api_provider_nvi.Api.Errors.{GoError, ok}
use machine_api_provider_nvi.Api.Types.{
  NicoMachineProviderSpec, NicoMachineProviderStatus, Condition, ConditionStatus, condition_true,
  condition_false,
}
use machine_api_provider_nvi.Actuator.World.{Env, World, NicoClient}
use machine_api_provider_nvi.Actuator.World.Growth.{Returns, Returns-bind, Returns-pure, Answered}
use machine_api_provider_nvi.Actuator.Conditions.{is_true, cond_machine_healthy}
use machine_api_provider_nvi.Actuator.Conditions.Laws.{
  SetsConditions, find_condition, set_condition-own, set_condition-others,
}
use machine_api_provider_nvi.Actuator.Health.{check_critical_faults, check_machine_validation}
use machine_api_provider_nvi.Actuator.PreFlight.{
  fault_prefix, scanned, read_attempt, next_attempt, blocked_status, after_block, block_creation,
  block_if, after_faults, check_pre_flight_health,
}

read_attempt-text : (n : ℕ) → n ≤ max_int → read_attempt (fault_prefix <> int_text (pos n)) ≡ pos n
unfolding read_attempt scanned int_text
read_attempt-text n h =
    ap (λ o. elim o [ none ↦ pos 1 | some rest ↦ scanned (scan_int rest) ])
      (strip_prefix-append fault_prefix (itoa n))
    ∙ ap scanned (scan_int-itoa n h)

attempt_if :
    (b : Bool) (c : Condition) (rest : ℤ) (other : Option (ConditionStatus × (String × String)))
    (reason message : String)
    → (other ≡ some (condition_true, (reason, message)) → rest ≡ increment (read_attempt reason))
    → (if b then some (c.status, (c.reason, c.message)) else other)
      ≡ some (condition_true, (reason, message))
    → (if b && is_true c.status then increment (read_attempt c.reason) else rest)
      ≡ increment (read_attempt reason)
attempt_if true c rest other reason message k h =
    let status = ap (λ o. maybe o condition_false (λ f. f.0)) h in
    let same_reason = ap (λ o. maybe o "" (λ f. f.1.0)) h in rw (status, same_reason) refl
attempt_if false c rest other reason message k h = k h

next_attempt-find :
    (cs : List Condition) (reason message : String)
    → find_condition "FaultBlockedCreation" cs ≡ some (condition_true, (reason, message))
    → next_attempt cs ≡ increment (read_attempt reason)
unfolding next_attempt find_condition
next_attempt-find [] reason message h = absurd (grind (arith, h))
next_attempt-find (c ∷ cs) reason message h =
    attempt_if (c.condition_type == "FaultBlockedCreation") c _ _ reason message
      (next_attempt-find cs reason message) h

-- If SetStatusCondition does what it documents, the count of attempts, up to the largest `int`,
-- that a blocked creation puts into the conditions is read back by the next check, which counts one
-- more.
pub next_attempt-blocked_status :
    (env : Env) (now n : ℕ) (message : String) (s : NicoMachineProviderStatus)
    → SetsConditions env.set_status_condition
    → n ≤ max_int
    → next_attempt (blocked_status env now (pos n) message s).conditions ≡ increment (pos n)
unfolding blocked_status
next_attempt-blocked_status env now n message s sets h =
    next_attempt-find _ _ _ (
      set_condition-others env sets now cond_machine_healthy condition_false _ _ _
        "FaultBlockedCreation" refl
      ∙ set_condition-own env sets now _ _ _ _ s)
    ∙ ap increment (read_attempt-text n h)

module _ (env : Env) where
  not-Returns-after_block :
      (machine_id : String) (count : ℤ) (message : String) (e : Option GoError) (w w' : World)
      → ¬ Returns (after_block env machine_id count message e) w none w'
  unfolding after_block
  not-Returns-after_block machine_id count message (some e) w w' h =
      let (a, b) = Returns-pure _ _ w w' h in grind (arith, a)
  not-Returns-after_block machine_id count message none w w' h =
      let p = Returns-bind _ _ w w' none h in
      let (a, b) = Returns-pure _ _ p.state w' p.second in grind (arith, a)

  -- A block never lets the creation go on.
  not-Returns-block_creation :
      (machine_id message : String) (w w' : World)
      → ¬ Returns (block_creation env machine_id message) w none w'
  unfolding block_creation
  not-Returns-block_creation machine_id message w w' h =
      let a = Returns-bind _ _ w w' none h in
      let b = Returns-bind _ _ a.state w' none a.second in
      let c = Returns-bind _ _ b.state w' none b.second in
      let d = Returns-bind _ _ c.state w' none c.second in
      let e = Returns-bind _ _ d.state w' none d.second in
      not-Returns-after_block machine_id _ message e.value e.state w' e.second

  module _ (client : NicoClient) (org : String) where
    block_if-none :
        (machine_id : String) (o : Option String) (w w' : World)
        → Returns (block_if env machine_id o) w none w'
        → o ≡ none
    unfolding block_if
    block_if-none machine_id none w w' h = refl
    block_if-none machine_id (some message) w w' h =
        absurd (not-Returns-block_creation machine_id message w w' h)

    after_faults-none :
        (machine_id : String) (o : Option String) (w w' : World)
        → Returns (after_faults env client org machine_id o) w none w'
        → (o ≡ none) × Answered (check_machine_validation env client org machine_id) none
    unfolding after_faults
    after_faults-none machine_id (some message) w w' h =
        absurd (not-Returns-block_creation machine_id message w w' h)
    after_faults-none machine_id none w w' h =
        let p = Returns-bind _ _ w w' none h in
        let e = block_if-none machine_id p.value p.state w' p.second in
        (
          refl,
          record { before = w; after = p.state; answer = p.first ∙ (λ i. (ok (e i), p.state)) },
        )

-- If the pre-flight health check passes from some state, the check for critical faults answered
-- that there are none, and the check of the validation runs answered that there is no failure.
pub check_pre_flight_health-Answered :
    (env : Env) (client : NicoClient) (org : String) (spec : NicoMachineProviderSpec)
    → Answered (check_pre_flight_health env client org spec) none
    → Answered (check_critical_faults env client org spec.machine_id) none
      × Answered (check_machine_validation env client org spec.machine_id) none
unfolding check_pre_flight_health
check_pre_flight_health-Answered env client org spec a =
    let p = Returns-bind _ _ a.before a.after none a.answer in
    let (e, valid) =
      after_faults-none env client org spec.machine_id p.value p.state a.after p.second in
    (
      record { before = a.before; after = p.state; answer = p.first ∙ (λ i. (ok (e i), p.state)) },
      valid,
    )
