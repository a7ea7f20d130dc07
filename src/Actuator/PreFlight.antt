-- ===== src/Actuator/PreFlight.antt =====
-- checkPreFlightHealth of pkg/actuators/machine/actuator.go, with its count of blocked attempts,
-- which is kept in the reason of a condition. Its pair (bool, error) is the error of a block.
pub mod Effects
pub mod Laws
pub mod Escalation
use machine_api_provider_nvi.Base.{
  ℕ, String, ◌<>◌, Bool, true, false, ◌&&◌, Option, none, some, List, [], ◌∷◌, ◌==◌, string_eq,
  if◌then◌else◌,
}
use machine_api_provider_nvi.Base.Decimal.{itoa}
use machine_api_provider_nvi.Base.Int.{ℤ, pos, increment, at_least, int_text, scan_int}
use machine_api_provider_nvi.Base.Text.{strip_prefix}
use machine_api_provider_nvi.Api.Errors.{GoError, errorf, wrapf, Outcome, ok, err, panic}
use machine_api_provider_nvi.Api.Types.{
  NicoMachineProviderSpec, NicoMachineProviderStatus, Condition, condition_true, condition_false,
}
use machine_api_provider_nvi.Actuator.World.{
  Env, World, NicoClient, Object, Kind, typed, unstructured, unsupported, not_client_object,
  warning,
}
use machine_api_provider_nvi.Actuator.World.Monad.{
  M, ◌>>=◌, ◌>>◌, pure, attempt, eventf, get_memory, set_memory, get_history,
}
use machine_api_provider_nvi.Actuator.Conditions.{is_true, set_condition, cond_machine_healthy}
use machine_api_provider_nvi.Actuator.Provider.{get_provider_status, set_provider_status}
use machine_api_provider_nvi.Actuator.Health.{check_critical_faults, check_machine_validation}

abbrev pub fault_prefix : String
fault_prefix = "FaultBlocked_"

-- `fmt.Sscanf(reason, "FaultBlocked_%d", &attempt)` with `attempt` 1 before.
scanned : Option ℤ → ℤ
scanned none = pos 1
scanned (some z) = z

read_attempt : String → ℤ
unfolding scanned
read_attempt reason = elim (strip_prefix fault_prefix reason) [
  | none ↦ pos 1
  | some rest ↦ scanned (scan_int rest)
]

-- The attempt that the conditions make this one: one more than the last block's.
unfoldable pub next_attempt : List Condition → ℤ
unfolding read_attempt
next_attempt [] = pos 1
next_attempt (c ∷ cs) =
    if c.condition_type == "FaultBlockedCreation" && is_true c.status
    then increment (read_attempt c.reason)
    else next_attempt cs

-- A failed read gives a nil status, which the loop over its conditions dereferences.
abbrev or_crash : {A : Type 0} → Outcome A → Outcome A
or_crash (ok a) = ok a
or_crash (err e) = panic
or_crash panic = panic

unfoldable pub must : {A : Type 0} → M A → M A
must m w = let (r, w') = m w in (or_crash r, w')

-- The failure set on a typed Machine.
abbrev pub set_failure : String → String → Object → Object
set_failure reason message o = elim o.kind [
  | typed m ↦ record o {
    kind = typed (record m { error_reason = some reason; error_message = some message });
  }
  | unstructured content ↦ o
  | unsupported ↦ o
  | not_client_object ↦ o
]

module _ (env : Env) where
  -- The status of a block: the count in one condition, the fault in the other.
  unfoldable pub blocked_status :
      ℕ → ℤ → String → NicoMachineProviderStatus → NicoMachineProviderStatus
  blocked_status now count message s =
      set_condition env now cond_machine_healthy condition_false "CriticalFault" message (
        set_condition env now "FaultBlockedCreation" condition_true (fault_prefix <> int_text count)
          ("Attempt "
            <> (int_text count
                <> (" of " <> (itoa env.max_fault_blocked_attempts <> (": " <> message)))))
          s)

  pub escalated : String → ℤ → String → Object → Object
  escalated machine_id count message o =
      if at_least count env.max_fault_blocked_attempts
      then set_failure "PreFlightHealthCheckFailed"
          ("Machine "
            <> (machine_id
                <> (" has persistent critical faults after "
                    <> (int_text count <> (" attempts: " <> message)))))
          o
      else o

  -- What follows the failed write of the status, or the written one.
  after_block : String → ℤ → String → Option GoError → M (Option GoError)
  after_block machine_id count message (some e) =
      pure (some (wrapf "failed to update provider status: %w" [] e))
  after_block machine_id count message none = do
    let most = itoa env.max_fault_blocked_attempts
    eventf env warning "FaultBlockedCreation" "Instance creation blocked: %s (attempt %d/%d)"
        (message ∷ int_text count ∷ most ∷ []) none
    pure (
        some (
          errorf "instance creation blocked by critical health faults on machine %s (attempt %d/%d)"
            (machine_id ∷ int_text count ∷ most ∷ [])))

  unfoldable pub block_creation : String → String → M (Option GoError)
  unfolding escalated after_block
  block_creation machine_id message = do
    o ← get_memory
    status ← must (get_provider_status env o)
    history ← get_history
    let count = next_attempt status.conditions
    set_memory (escalated machine_id count message o)
    failed ←
        attempt (set_provider_status env (blocked_status (env.now history) count message status))
    after_block machine_id count message failed

  block_if : String → Option String → M (Option GoError)
  block_if machine_id none = pure none
  block_if machine_id (some message) = block_creation machine_id message

  module _ (client : NicoClient) (org : String) where
    after_faults : String → Option String → M (Option GoError)
    after_faults machine_id (some message) = block_creation machine_id message
    after_faults machine_id none = do
      failure ← check_machine_validation env client org machine_id
      block_if machine_id failure

    unfoldable pub check_pre_flight_health : NicoMachineProviderSpec → M (Option GoError)
    unfolding after_faults block_if
    check_pre_flight_health spec = do
      faults ← check_critical_faults env client org spec.machine_id
      after_faults spec.machine_id faults
