-- ===== src/Actuator/Update/Laws.antt =====
-- What an update of a machine leaves alone.
use machine_api_provider_nvi.Base.{◌≡◌}
use machine_api_provider_nvi.Actuator.World.{Env, World}
use machine_api_provider_nvi.Actuator.World.Counts.{
  tally, tally-Emits, is_creation, is_deletion, other_effects, other_effects-is_creation,
  other_effects-is_deletion,
}
use machine_api_provider_nvi.Actuator.World.Effects.{Emits, emits_rules}
use machine_api_provider_nvi.Actuator.Update.{update}
use machine_api_provider_nvi.Actuator.Update.Effects.{update-Emits}

update-other : (env : Env) → Emits other_effects (update env)
update-other env = search (emits_rules, update-Emits) depth 8

-- Update sends no request for a new instance and none to delete one, whatever the servers answer.
update-tally :
    (env : Env) (w : World)
    → (tally is_creation (update env w).1.history ≡ tally is_creation w.history)
      × (tally is_deletion (update env w).1.history ≡ tally is_deletion w.history)
update-tally env w = (
  tally-Emits other_effects-is_creation (update-other env) w,
  tally-Emits other_effects-is_deletion (update-other env) w,
)
