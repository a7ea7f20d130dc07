-- ===== src/Actuator/Monitor/Results.antt =====
-- The health of a machine leaves the instance of a status as it is.
use machine_api_provider_nvi.Base.{
  ℕ, String, Bool, true, false, Option, none, some, List, [], ◌∷◌, ◌≡◌, ◌∙◌, refl, is_empty,
  if◌then◌else◌,
}
use machine_api_provider_nvi.Api.Types.{NicoMachineProviderStatus}
use machine_api_provider_nvi.Api.Sdk.{Instance, Machine, MachineHealthProbeAlert}
use machine_api_provider_nvi.Actuator.World.{Env, NicoClient}
use machine_api_provider_nvi.Actuator.World.Results.{
  Gives, Gives-pure, Gives-if, Gives-bind, Gives-after, Gives-maybe,
}
use machine_api_provider_nvi.Actuator.Conditions.{set_condition}
use machine_api_provider_nvi.Actuator.Monitor.{
  set_severity, set_remediation, apply_alerts, report_status, update_machine_health_from_reports,
  health_status, update_machine_health_from_jsonb, after_reports, update_assigned,
  update_machine_health,
}

-- Two statuses of the same instance, in the same state, on the same machine.
pub record SameInstance (s s' : NicoMachineProviderStatus) : Type 0 where
  pub same_id : s'.instance_id ≡ s.instance_id
  pub same_machine : s'.machine_id ≡ s.machine_id
  pub same_state : s'.instance_state ≡ s.instance_state

pub SameInstance-refl : (s : NicoMachineProviderStatus) → SameInstance s s
SameInstance-refl s = record { same_id = refl; same_machine = refl; same_state = refl }

module _ (env : Env) (now : ℕ) where
  set_severity-SameInstance :
      (critical warning : List MachineHealthProbeAlert) (total : ℕ) (s : NicoMachineProviderStatus)
      → SameInstance s (set_severity env now critical warning total s)
  unfolding set_severity set_condition
  set_severity-SameInstance (alert ∷ critical) warning total s = record {
    same_id = refl;
    same_machine = refl;
    same_state = refl;
  }
  set_severity-SameInstance [] [] total s = SameInstance-refl s
  set_severity-SameInstance [] (alert ∷ warning) total s = record {
    same_id = refl;
    same_machine = refl;
    same_state = refl;
  }

  set_remediation-SameInstance :
      (b : Bool) (s s' : NicoMachineProviderStatus)
      → SameInstance s s'
      → SameInstance s (set_remediation env now b s')
  unfolding set_remediation set_condition
  set_remediation-SameInstance true s s' h = record {
    same_id = h.same_id;
    same_machine = h.same_machine;
    same_state = h.same_state;
  }
  set_remediation-SameInstance false s s' h = record {
    same_id = h.same_id;
    same_machine = h.same_machine;
    same_state = h.same_state;
  }

  apply_alerts-SameInstance :
      (text : String) (alerts : List MachineHealthProbeAlert) (s : NicoMachineProviderStatus)
      → SameInstance s (apply_alerts env now text alerts s)
  unfolding apply_alerts set_condition
  apply_alerts-SameInstance text [] s =
      set_remediation-SameInstance false s _
        (record { same_id = refl; same_machine = refl; same_state = refl })
  apply_alerts-SameInstance text (alert ∷ alerts) s =
      set_remediation-SameInstance _ s _ (set_severity-SameInstance _ _ _ s)

-- A property of statuses that every list of alerts keeps.
pub record AlertsKeep (env : Env) (P : NicoMachineProviderStatus → Type 0) : Type 0 where
  pub kept :
      (now : ℕ) (text : String) (alerts : List MachineHealthProbeAlert)
      (s : NicoMachineProviderStatus)
      → P s
      → P (apply_alerts env now text alerts s)

pub SameInstance-AlertsKeep :
    (env : Env) (s : NicoMachineProviderStatus) → AlertsKeep env (SameInstance s)
SameInstance-AlertsKeep env s = record {
  kept = λ now text alerts s' h.
      let k = apply_alerts-SameInstance env now text alerts s' in
      record {
        same_id = k.same_id ∙ h.same_id;
        same_machine = k.same_machine ∙ h.same_machine;
        same_state = k.same_state ∙ h.same_state;
      };
}

module _ (env : Env) {P : NicoMachineProviderStatus → Type 0} (alerts : AlertsKeep env P)
    (client : NicoClient) (org : String) where
  health_status-kept :
      (now : ℕ) (m : Option Machine) (s : NicoMachineProviderStatus)
      → P s
      → P (health_status env client org now m s)
  unfolding health_status
  health_status-kept now none s h = h
  health_status-kept now (some m) s h =
      elim m.health
        as (λ x. P (elim x [
          | none ↦ s
          | some health ↦ apply_alerts env now "Machine has no health alerts" health.alerts s
        ])) [ none ↦ h | some health ↦ alerts.kept now _ health.alerts s h ]

  -- The status of the reports, if there is one.
  abbrev Reported : Option NicoMachineProviderStatus → Type 0
  Reported none = Unit {0}
  Reported (some s) = P s

  report_status-Gives :
      (id : String) (found : List MachineHealthProbeAlert) (s : NicoMachineProviderStatus)
      (was_unhealthy : Bool)
      → P s
      → Gives Reported (report_status env client org id found s was_unhealthy)
  unfolding report_status
  report_status-Gives id found s was_unhealthy h =
      Gives-bind _ _
        λ history. Gives-bind _ _ λ _. Gives-pure _ (alerts.kept (env.now history) _ found s h)

  update_machine_health_from_reports-Gives :
      (id : String) (s : NicoMachineProviderStatus) (was_unhealthy : Bool)
      → P s
      → Gives Reported (update_machine_health_from_reports env client org id s was_unhealthy)
  unfolding update_machine_health_from_reports
  update_machine_health_from_reports-Gives id s was_unhealthy h =
      Gives-bind _ _
        λ reports. Gives-if _ _ _ (report_status-Gives id _ s was_unhealthy h) (Gives-pure none tt)

  if-kept : (b : Bool) (s s' : NicoMachineProviderStatus) → P s' → P s → P (if b then s' else s)
  if-kept true s s' h k = h
  if-kept false s s' h k = k

  after_reports-Gives :
      (id : String) (s : NicoMachineProviderStatus) (o : Option NicoMachineProviderStatus)
      → P s
      → Reported o
      → Gives P (after_reports env client org id s o)
  unfolding after_reports update_machine_health_from_jsonb
  after_reports-Gives id s none h r = Gives-bind _ _ λ reply.
      Gives-bind _ _
        λ history. Gives-pure _ (if-kept _ s _ (health_status-kept _ reply.value s h) h)
  after_reports-Gives id s (some s') h r = Gives-pure s' r

  update_assigned-Gives :
      (id : String) (s : NicoMachineProviderStatus)
      → P s
      → Gives P (update_assigned env client org id s)
  unfolding update_assigned
  update_assigned-Gives id s h =
      Gives-after _ _ (update_machine_health_from_reports-Gives id s _ h) λ reported r.
        Gives-after _ _ (after_reports-Gives id s reported h r)
          λ s' h'. Gives-bind _ _ λ _. Gives-pure s' h'

  -- The health update keeps such a property.
  pub update_machine_health-Gives :
      (inst : Instance) (s : NicoMachineProviderStatus)
      → P s
      → Gives P (update_machine_health env client org inst s)
  unfolding update_machine_health
  update_machine_health-Gives inst s h =
      Gives-maybe inst.machine_id _ _ (Gives-pure s h)
        λ id. Gives-if (is_empty id) _ _ (Gives-pure s h) (update_assigned-Gives id s h)
