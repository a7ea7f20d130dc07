-- ===== src/Actuator/Exists/Memory.antt =====
-- Asking for the instance leaves the object in memory.
use machine_api_provider_nvi.Base.{String, Option, none, some}
use machine_api_provider_nvi.Api.Sdk.{Instance, Reply}
use machine_api_provider_nvi.Actuator.World.{Env, Object}
use machine_api_provider_nvi.Actuator.World.Calls.{get_instance}
use machine_api_provider_nvi.Actuator.World.Memory.{KeepsObject, memory_rules}
use machine_api_provider_nvi.Actuator.Provider.Memory.{
  get_provider_spec-KeepsObject, get_provider_status-KeepsObject, get_nico_client-KeepsObject,
}
use machine_api_provider_nvi.Actuator.Create.{require_client_object}
use machine_api_provider_nvi.Actuator.Exists.{instance_exists, exists_known, exists}

module _ (env : Env) where
  instance_exists-KeepsObject :
      (reply : Reply (Option Instance)) → KeepsObject (instance_exists reply)
  unfolding instance_exists
  instance_exists-KeepsObject reply = search memory_rules depth 8

  exists_known-KeepsObject : (o : Object) (id : Option String) → KeepsObject (exists_known env o id)
  unfolding exists_known get_instance
  exists_known-KeepsObject o none = search memory_rules
  exists_known-KeepsObject o (some id) =
      search
        (
          memory_rules, get_provider_spec-KeepsObject, get_nico_client-KeepsObject,
          instance_exists-KeepsObject,
        )
        depth 16

  pub exists-KeepsObject : KeepsObject (exists env)
  unfolding exists require_client_object
  exists-KeepsObject =
      search (memory_rules, get_provider_status-KeepsObject, exists_known-KeepsObject) depth 16
