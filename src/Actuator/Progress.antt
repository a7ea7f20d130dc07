-- ===== src/Actuator/Progress.antt =====
-- checkStatusHistory, emitMachineStatusHistory and checkProvisioningTimeout of
-- pkg/actuators/machine/actuator.go: what is reported of an instance that is not ready.
pub mod Effects
pub mod Timeout
pub mod Results
pub mod Ready
use machine_api_provider_nvi.Base.{
  maybe, ℕ, ◌-◌, ◌*◌, ◌^◌, String, ◌<>◌, Bool, true, false, not, ◌&&◌, ◌||◌, Option, none, some,
  List, [], ◌∷◌, eqb, ltb, ◌==◌, string_eq, nat_eq, is_set, is_nil, is_some, if◌then◌else◌,
}
use machine_api_provider_nvi.Api.Types.{NicoMachineProviderStatus, Condition, condition_false}
use machine_api_provider_nvi.Api.Sdk.{
  InstanceStatus, pending, provisioning, configuring, ready, updating, rebooting, terminating,
  error, other, status_text, Instance, StatusDetail, Reply,
}
use machine_api_provider_nvi.Actuator.World.{Env, Effect, NicoClient, event, warning}
use machine_api_provider_nvi.Actuator.World.Monad.{
  M, ◌>>=◌, ◌>>◌, pure, deref, emit, when, eventf, get_memory, set_memory, get_history,
}
use machine_api_provider_nvi.Actuator.World.Calls
use machine_api_provider_nvi.Actuator.Conditions.{set_condition, cond_instance_provisioned}
use machine_api_provider_nvi.Actuator.PreFlight.{set_failure}
use machine_api_provider_nvi.Actuator.Health.{is_status_ok}

-- 5 * time.Minute
abbrev pub provisioning_stuck_threshold : ℕ
provisioning_stuck_threshold = 300 * 10 ^ 9

-- The zero value of a missing text.
abbrev pub text_or : String → Option String → String
text_or d none = d
text_or d (some s) = s

-- `time.Since(t) > d`; a time in the future has not passed.
abbrev pub is_past : ℕ → ℕ → ℕ → Bool
is_past now t d = ltb d (now - t)

module _ (env : Env) where
  abbrev entry_time : Option ℕ → String
  entry_time none = ""
  entry_time (some t) = env.format_time t

  -- One entry of the instance's history, and one of the machine's.
  entry_event : StatusDetail → Effect
  entry_event entry =
      let status = text_or "unknown" entry.status in
      let message = text_or "" entry.message in
      let time = entry_time entry.created in
      if is_set message
      then event warning "StatusHistory" "[%s] %s: %s" (time ∷ status ∷ message ∷ []) none
      else event warning "StatusHistory" "[%s] %s" (time ∷ status ∷ []) none

  machine_entry_event : String → StatusDetail → Effect
  machine_entry_event machine_id entry =
      let status = text_or "unknown" entry.status in
      let message = text_or "" entry.message in
      let time = entry_time entry.created in
      if is_set message
      then event warning "MachineStatusHistory" "[%s] machine %s: %s: %s"
          (time ∷ machine_id ∷ status ∷ message ∷ []) none
      else event warning "MachineStatusHistory" "[%s] machine %s: %s"
          (time ∷ machine_id ∷ status ∷ []) none

  emit_all : (StatusDetail → Effect) → List StatusDetail → M (Unit {0})
  emit_all f [] = pure tt
  emit_all f (entry ∷ entries) = do emit (f entry); emit_all f entries

  -- The loop that looks for the first Provisioning entry with a time.
  unfoldable pub is_stuck : ℕ → List StatusDetail → Bool
  is_stuck now [] = false
  is_stuck now (entry ∷ entries) = elim entry.created [
    | none ↦ is_stuck now entries
    | some t ↦
        if is_some entry.status && text_or "" entry.status == status_text provisioning
        then is_past now t provisioning_stuck_threshold
        else is_stuck now entries
  ]

  module _ (client : NicoClient) (org : String) where
    unfoldable pub emit_machine_status_history : String → M (Unit {0})
    unfolding emit_all machine_entry_event
    emit_machine_status_history machine_id = when env.has_recorder (do
      reply ← Calls.get_machine_status_history env client org machine_id
      when (is_status_ok reply && not (is_nil reply.value))
          (emit_all (machine_entry_event machine_id) reply.value))

    -- The physical machine's history, if a machine is assigned.
    machine_history : Option String → M (Unit {0})
    machine_history none = pure tt
    machine_history (some machine_id) =
        when (is_set machine_id) (emit_machine_status_history machine_id)

    report_stuck : Instance → List StatusDetail → M (Unit {0})
    report_stuck inst entries = do
      emit (
          event warning "ProvisioningStuck"
            "Instance has been in Provisioning state for more than %s"
            (env.format_duration provisioning_stuck_threshold ∷ []) none)
      machine_history inst.machine_id
      emit_all entry_event entries

    -- What follows the history that was fetched, for an instance in error or in provisioning.
    report_entries : Bool → Instance → List StatusDetail → M (Unit {0})
    report_entries true inst entries = do
      history ← get_history
      when (is_stuck (env.now history) entries) (report_stuck inst entries)
    report_entries false inst entries = emit_all entry_event entries

    fetch_status_history : Bool → Instance → M (Unit {0})
    fetch_status_history is_provisioning inst = do
      id ← deref inst.id
      reply ← Calls.get_instance_status_history env client org id
      when (is_status_ok reply && not (is_nil reply.value))
          (report_entries is_provisioning inst reply.value)

    status_history_of : Option InstanceStatus → Instance → M (Unit {0})
    status_history_of (some error) inst = fetch_status_history false inst
    status_history_of (some provisioning) inst = fetch_status_history true inst
    status_history_of _ inst = pure tt

    unfoldable pub check_status_history : Instance → M (Unit {0})
    unfolding status_history_of fetch_status_history report_entries report_stuck machine_history
        emit_all entry_event
    check_status_history inst = when env.has_recorder (status_history_of inst.status inst)

  -- The states that the timeout is checked in.
  abbrev pub is_waiting : InstanceStatus → Bool
  is_waiting pending = true
  is_waiting provisioning = true
  is_waiting configuring = true
  is_waiting _ = false

  -- The first InstanceProvisioned condition with a time has timed out.
  unfoldable pub has_timed_out : ℕ → List Condition → Bool
  has_timed_out now [] = false
  has_timed_out now (c ∷ cs) =
      if c.condition_type == cond_instance_provisioned && not (eqb c.last_transition_time 0)
      then is_past now c.last_transition_time env.provisioning_timeout
      else has_timed_out now cs

  time_out : InstanceStatus → NicoMachineProviderStatus → M NicoMachineProviderStatus
  time_out status s = do
    let limit = env.format_duration env.provisioning_timeout
    o ← get_memory
    history ← get_history
    set_memory (
        set_failure "ProvisioningTimeout"
          ("Instance stuck in " <> (status_text status <> (" state for more than " <> limit))) o)
    eventf env warning "ProvisioningTimeout"
        "Instance has not reached Ready state after %s, setting FailureReason" (limit ∷ []) none
    pure (
        set_condition env (env.now history) "InstanceReady" condition_false "ProvisioningTimeout"
          ("Instance has not reached Ready state after " <> limit) s)

  check_waiting : NicoMachineProviderStatus → InstanceStatus → M NicoMachineProviderStatus
  check_waiting s status = do
    history ← get_history
    if is_waiting status && has_timed_out (env.now history) s.conditions
        then time_out status s
        else pure s

  unfoldable pub check_provisioning_timeout :
      Instance → NicoMachineProviderStatus → M NicoMachineProviderStatus
  unfolding time_out check_waiting
  check_provisioning_timeout inst s = maybe inst.status (pure s) (check_waiting s)
