-- ===== src/Actuator/Update/Tracked.antt =====
-- What an update makes of a status, for an instance that the API gave.
use machine_api_provider_nvi.Base.{String, Option, none, some, ◌≡◌, refl, ap, ◌∙◌, sym, subst}
use machine_api_provider_nvi.Api.Types.{NicoMachineProviderSpec, NicoMachineProviderStatus}
use machine_api_provider_nvi.Api.Sdk.{Instance, InstanceStatus}
use machine_api_provider_nvi.Actuator.World.{Env, World, NicoClient}
use machine_api_provider_nvi.Actuator.World.Growth.{
  Returns, Returns-bind, Returns-wrapping, Answered,
}
use machine_api_provider_nvi.Actuator.World.Results.{Gives, Gives-Answered, Gives-pure, Gives-bind}
use machine_api_provider_nvi.Actuator.Provider.Stored.{
  Holds, KeepsStatus, set_provider_status-Holds,
}
use machine_api_provider_nvi.Actuator.Conditions.Laws.{
  SetsConditions, set_instance_state_conditions-ready, ready_status,
}
use machine_api_provider_nvi.Actuator.Monitor.{update_machine_health}
use machine_api_provider_nvi.Actuator.Monitor.Results.{
  SameInstance-refl, SameInstance-AlertsKeep, update_machine_health-Gives,
}
use machine_api_provider_nvi.Actuator.Progress.{check_provisioning_timeout}
use machine_api_provider_nvi.Actuator.Progress.Results.{check_provisioning_timeout-Gives}
use machine_api_provider_nvi.Actuator.Progress.Ready.{
  ReadyOf, ReadyIs, ReadyIs-AlertsKeep, check_provisioning_timeout-ReadyOf,
}
use machine_api_provider_nvi.Actuator.Create.{addresses_of, state_text}
use machine_api_provider_nvi.Actuator.Update.Results.{track_state-Gives}
use machine_api_provider_nvi.Actuator.Update.{or_old, track_state, track_instance}

-- The status has what the instance has, and what the old status had where the instance has nothing.
pub record Follows (inst : Instance) (old new : NicoMachineProviderStatus) : Type 0 where
  pub id_kept : new.instance_id ≡ old.instance_id
  pub machine : new.machine_id ≡ or_old inst.machine_id old.machine_id
  pub state : new.instance_state ≡ or_old (state_text inst.status) old.instance_state
  pub reached : new.addresses ≡ addresses_of inst.interfaces

module _ (env : Env) (client : NicoClient) (org : String) where
  -- The statuses that the steps of the update gave, the last of which is stored.
  pub record Parts (old : NicoMachineProviderStatus) (inst : Instance) (w' : World) : Type 0 where
    pub tracked : NicoMachineProviderStatus
    pub healthy : NicoMachineProviderStatus
    pub timed : NicoMachineProviderStatus
    pub by_state : Answered (track_state env inst.status old) tracked
    pub by_health :
        Answered
          (update_machine_health env client org inst
            (record tracked { machine_id = or_old inst.machine_id tracked.machine_id }))
          healthy
    pub by_time : Answered (check_provisioning_timeout env inst healthy) timed
    pub stored :
        Holds env.json w'.object.kind (record timed { addresses = addresses_of inst.interfaces })

  pub track_instance-Parts :
      KeepsStatus env
      → (spec : NicoMachineProviderSpec) (old : NicoMachineProviderStatus) (inst : Instance)
        (w w' : World) (u : Unit {0})
      → Returns (track_instance env client org spec old inst) w u w'
      → Parts old inst w'
  unfolding track_instance
  track_instance-Parts keeps spec old inst w w' u h =
      let a = Returns-bind _ _ w w' u h in
      let b = Returns-bind _ _ a.state w' u a.second in
      let c = Returns-bind _ _ b.state w' u b.second in
      let d = Returns-bind _ _ c.state w' u c.second in
      let e = Returns-bind _ _ d.state w' u d.second in
      let new = record e.value { addresses = addresses_of inst.interfaces } in
      record {
        tracked = a.value;
        healthy = c.value;
        timed = e.value;
        by_state = record { before = w; after = a.state; answer = a.first };
        by_health = record { before = b.state; after = c.state; answer = c.first };
        by_time = record { before = d.state; after = e.state; answer = e.first };
        stored =
            set_provider_status-Holds env keeps new e.state w' u
              (Returns-wrapping _ _ e.state w' u e.second);
      }

  module _ {old : NicoMachineProviderStatus} {inst : Instance} {w' : World}
      (p : Parts old inst w') where
    abbrev pub new_status : NicoMachineProviderStatus
    new_status = record p.timed { addresses = addresses_of inst.interfaces }

    abbrev assigned : NicoMachineProviderStatus
    assigned = record p.tracked { machine_id = or_old inst.machine_id p.tracked.machine_id }

    pub Parts-Follows : Follows inst old new_status
    Parts-Follows =
        let tracked = Gives-Answered (track_state-Gives env inst.status old) p.by_state in
        let healthy =
          Gives-Answered
            (update_machine_health-Gives env (SameInstance-AlertsKeep env assigned) client org inst
              assigned (SameInstance-refl assigned))
            p.by_health in
        let timed =
          Gives-Answered (check_provisioning_timeout-Gives env p.healthy inst) p.by_time in
        record {
          id_kept = timed.same_id ∙ healthy.same_id ∙ tracked.id_kept;
          machine =
              timed.same_machine
              ∙ healthy.same_machine
              ∙ ap (or_old inst.machine_id) tracked.machine_kept;
          state = timed.same_state ∙ healthy.same_state ∙ tracked.state;
          reached = refl;
        }

    module _ (sets : SetsConditions env.set_status_condition) where
      track_state-ReadyOf :
          (o : Option InstanceStatus) (s : NicoMachineProviderStatus)
          → Gives (ReadyOf o) (track_state env o s)
      unfolding track_state
      track_state-ReadyOf none s = Gives-pure s tt
      track_state-ReadyOf (some state) s = Gives-bind _ _ λ history. Gives-bind _ _ λ _.
          Gives-pure _
            (record { at = set_instance_state_conditions-ready env (env.now history) state _ sets })

      health-ReadyOf :
          (o : Option InstanceStatus) (s : NicoMachineProviderStatus)
          → ReadyOf o s
          → Gives (ReadyOf o) (update_machine_health env client org inst s)
      health-ReadyOf none s h = record { at = λ w w' a r. tt }
      health-ReadyOf (some state) s h =
          update_machine_health-Gives env (ReadyIs-AlertsKeep env sets (ready_status state)) client
            org inst s h

      same-ReadyOf :
          (o : Option InstanceStatus) (s s' : NicoMachineProviderStatus)
          → s'.conditions ≡ s.conditions
          → ReadyOf o s
          → ReadyOf o s'
      same-ReadyOf none s s' e h = tt
      same-ReadyOf (some state) s s' e h = subst (ReadyIs (ready_status state)) (sym e) h

      pub Parts-ReadyOf : ReadyOf inst.status new_status
      Parts-ReadyOf =
          let tracked = Gives-Answered (track_state-ReadyOf inst.status old) p.by_state in
          let healthy =
            Gives-Answered
              (health-ReadyOf inst.status assigned
                (same-ReadyOf inst.status p.tracked assigned refl tracked))
              p.by_health in
          let timed =
            Gives-Answered (check_provisioning_timeout-ReadyOf env sets p.healthy inst healthy)
              p.by_time in
          same-ReadyOf inst.status p.timed new_status refl timed
