-- ===== src/Actuator/PreFlight/Escalation.antt =====
-- When blocked creations in a row make the Machine fail.
use machine_api_provider_nvi.Base.{
  ℕ, suc, ◌+◌, ◌≤◌, ◌<◌, String, Option, none, some, Bool-cases, inl, inr, List, [], ◌∷◌, ◌≡◌, refl,
  ap, ◌∙◌, arith, leb, length, if◌then◌else◌,
}
use machine_api_provider_nvi.Base.Int.{pos, max_int, increment}
use machine_api_provider_nvi.Api.Types.{NicoMachineProviderStatus}
use machine_api_provider_nvi.Actuator.World.{
  Env, Object, TypedMachine, typed, unstructured, unsupported, not_client_object,
}
use machine_api_provider_nvi.Actuator.Conditions.Laws.{SetsConditions}
use machine_api_provider_nvi.Actuator.PreFlight.{next_attempt, blocked_status, escalated}
use machine_api_provider_nvi.Actuator.PreFlight.Laws.{next_attempt-blocked_status}

increment-small : (n : ℕ) → n < max_int → increment (pos n) ≡ pos (suc n)
unfolding increment
increment-small n h = ground (arith, h)

-- The failure on a typed Machine.
abbrev pub failure_reason : Object → Option String
failure_reason o = elim o.kind [
  | typed m ↦ m.error_reason
  | unstructured content ↦ none
  | unsupported ↦ none
  | not_client_object ↦ none
]

module _ (env : Env) where
  -- The status after blocks in a row, each at a time and with a message.
  unfoldable pub after_blocks :
      List (ℕ × String) → NicoMachineProviderStatus → NicoMachineProviderStatus
  after_blocks [] s = s
  after_blocks ((now, message) ∷ blocks) s =
      after_blocks blocks (blocked_status env now (next_attempt s.conditions) message s)

  next_attempt-after_blocks :
      (blocks : List (ℕ × String)) (s : NicoMachineProviderStatus) (n : ℕ)
      → SetsConditions env.set_status_condition
      → next_attempt s.conditions ≡ pos n
      → n + length blocks ≤ max_int
      → next_attempt (after_blocks blocks s).conditions ≡ pos (n + length blocks)
  unfolding after_blocks increment
  next_attempt-after_blocks [] s n sets e h = e ∙ ap pos (omega arith)
  next_attempt-after_blocks ((now, message) ∷ blocks) s n sets e h =
      let s' = blocked_status env now (next_attempt s.conditions) message s in
      let counted =
        ap (λ z. next_attempt (blocked_status env now z message s).conditions) e
        ∙ next_attempt-blocked_status env now n message s sets (omega (arith, h)) in
      next_attempt-after_blocks blocks s' (suc n) sets
        (counted ∙ increment-small n (omega (arith, h))) (omega (arith, h))
      ∙ ap pos (omega arith)

  failure_reason-escalated :
      (machine_id : String) (count : ℕ) (message : String) (o : Object) (m : TypedMachine)
      → o.kind ≡ typed m
      → failure_reason (escalated env machine_id (pos count) message o) ≡ (
          if leb env.max_fault_blocked_attempts count
          then some "PreFlightHealthCheckFailed"
          else failure_reason o)
  unfolding escalated
  failure_reason-escalated machine_id count message o m e =
      elim (Bool-cases (leb env.max_fault_blocked_attempts count)) [
        | inl y ↦ rw y (rw e refl)
        | inr n ↦ rw n refl
      ]

  -- If SetStatusCondition does what it documents, then after any number of blocked creations in a
  -- row, from a status without such a block and below the largest `int`, the next block makes a
  -- typed Machine fail with PreFlightHealthCheckFailed if it is at least the attempt of the
  -- configured maximum, and leaves its failure reason as it is otherwise.
  pub failure_reason-after_blocks :
      (blocks : List (ℕ × String)) (s : NicoMachineProviderStatus) (machine_id message : String)
      (o : Object) (m : TypedMachine)
      → SetsConditions env.set_status_condition
      → next_attempt s.conditions ≡ pos 1
      → 1 + length blocks ≤ max_int
      → o.kind ≡ typed m
      → failure_reason
          (escalated env machine_id (next_attempt (after_blocks blocks s).conditions) message o)
        ≡ (if leb env.max_fault_blocked_attempts (1 + length blocks)
            then some "PreFlightHealthCheckFailed"
            else failure_reason o)
  failure_reason-after_blocks blocks s machine_id message o m sets e h k =
      ap (λ count. failure_reason (escalated env machine_id count message o))
        (next_attempt-after_blocks blocks s 1 sets e h)
      ∙ failure_reason-escalated machine_id (1 + length blocks) message o m k
