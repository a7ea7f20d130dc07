-- ===== src/Actuator/Progress/Effects.antt =====
-- Reporting on an instance that is not ready reads and records events.
use machine_api_provider_nvi.Base.{
  String, Bool, true, Option, none, some, List, [], ◌∷◌, ◌≡◌, arith,
}
use machine_api_provider_nvi.Api.Types.{NicoMachineProviderStatus}
use machine_api_provider_nvi.Api.Sdk.{InstanceStatus, provisioning, error, Instance, StatusDetail}
use machine_api_provider_nvi.Actuator.World.{Env, NicoClient, Effect}
use machine_api_provider_nvi.Actuator.World.Calls.{
  get_instance_status_history, get_machine_status_history,
}
use machine_api_provider_nvi.Actuator.World.Effects.{
  EffectKind, reading, note, kind_of, Emits, emits_rules,
}
use machine_api_provider_nvi.Actuator.Progress.{
  entry_event, machine_entry_event, emit_all, emit_machine_status_history, machine_history,
  report_stuck, report_entries, fetch_status_history, status_history_of, check_status_history,
  time_out, check_waiting, check_provisioning_timeout,
}

entry_event-note : (env : Env) (entry : StatusDetail) → kind_of (entry_event env entry) ≡ note
unfolding entry_event
entry_event-note env entry = ground arith

machine_entry_event-note :
    (env : Env) (id : String) (entry : StatusDetail)
    → kind_of (machine_entry_event env id entry) ≡ note
unfolding machine_entry_event
machine_entry_event-note env id entry = ground arith

module _ (env : Env) (client : NicoClient) (org : String) {p : EffectKind → Bool}
    (reads : p reading ≡ true) (notes : p note ≡ true) where
  emit_all-Emits :
      (f : StatusDetail → Effect) (entries : List StatusDetail)
      → ((entry : StatusDetail) → kind_of (f entry) ≡ note)
      → Emits p (emit_all env f entries)
  unfolding emit_all
  emit_all-Emits f [] h = search emits_rules
  emit_all-Emits f (entry ∷ entries) h =
      let rest = emit_all-Emits f entries h in
      let first : p (kind_of (f entry)) ≡ true = rw (h entry) notes in search emits_rules depth 8

  emit_machine_status_history-Emits :
      (id : String) → Emits p (emit_machine_status_history env client org id)
  unfolding emit_machine_status_history get_machine_status_history
  emit_machine_status_history-Emits id =
      search (emits_rules, emit_all-Emits, machine_entry_event-note) depth 12

  machine_history-Emits : (o : Option String) → Emits p (machine_history env client org o)
  unfolding machine_history
  machine_history-Emits none = search emits_rules
  machine_history-Emits (some id) = search (emits_rules, emit_machine_status_history-Emits)

  report_entries-Emits :
      (b : Bool) (inst : Instance) (entries : List StatusDetail)
      → Emits p (report_entries env client org b inst entries)
  unfolding report_entries report_stuck
  report_entries-Emits true inst entries =
      search (emits_rules, emit_all-Emits, entry_event-note, machine_history-Emits) depth 16
  report_entries-Emits _ inst entries = search (emits_rules, emit_all-Emits, entry_event-note)

  fetch_status_history-Emits :
      (b : Bool) (inst : Instance) → Emits p (fetch_status_history env client org b inst)
  unfolding fetch_status_history get_instance_status_history
  fetch_status_history-Emits b inst = search (emits_rules, report_entries-Emits) depth 12

  status_history_of-Emits :
      (o : Option InstanceStatus) (inst : Instance)
      → Emits p (status_history_of env client org o inst)
  unfolding status_history_of
  status_history_of-Emits none inst = search emits_rules
  status_history_of-Emits (some error) inst = fetch_status_history-Emits _ inst
  status_history_of-Emits (some provisioning) inst = fetch_status_history-Emits _ inst
  status_history_of-Emits (some _) inst = search emits_rules

  pub check_status_history-Emits :
      (inst : Instance) → Emits p (check_status_history env client org inst)
  unfolding check_status_history
  check_status_history-Emits inst = search (emits_rules, status_history_of-Emits)

  pub check_provisioning_timeout-Emits :
      (inst : Instance) (s : NicoMachineProviderStatus)
      → Emits p (check_provisioning_timeout env inst s)
  unfolding check_provisioning_timeout check_waiting time_out
  check_provisioning_timeout-Emits inst s = search emits_rules depth 20
