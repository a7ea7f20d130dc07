-- ===== src/Actuator/Exists/Effects.antt =====
-- Asking for the instance only reads.
use machine_api_provider_nvi.Base.{String, Bool, true, Option, none, some, ◌≡◌}
use machine_api_provider_nvi.Api.Sdk.{Instance, Reply}
use machine_api_provider_nvi.Actuator.World.{Env, Object}
use machine_api_provider_nvi.Actuator.World.Calls.{get_instance}
use machine_api_provider_nvi.Actuator.World.Effects.{EffectKind, reading, Emits, emits_rules}
use machine_api_provider_nvi.Actuator.Provider.Effects.{
  get_provider_spec-Emits, get_provider_status-Emits, get_nico_client-Emits,
}
use machine_api_provider_nvi.Actuator.Create.{require_client_object}
use machine_api_provider_nvi.Actuator.Exists.{instance_exists, exists_known, exists}

module _ (env : Env) {p : EffectKind → Bool} (reads : p reading ≡ true) where
  instance_exists-Emits : (reply : Reply (Option Instance)) → Emits p (instance_exists reply)
  unfolding instance_exists
  instance_exists-Emits reply = search emits_rules depth 8

  exists_known-Emits : (o : Object) (id : Option String) → Emits p (exists_known env o id)
  unfolding exists_known get_instance
  exists_known-Emits o none = search emits_rules
  exists_known-Emits o (some id) =
      search (emits_rules, get_provider_spec-Emits, get_nico_client-Emits, instance_exists-Emits)
        depth 16

  pub exists-Emits : Emits p (exists env)
  unfolding exists require_client_object
  exists-Emits = search (emits_rules, get_provider_status-Emits, exists_known-Emits) depth 16
