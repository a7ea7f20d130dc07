-- ===== src/Actuator/Exists.antt =====
-- Exists of pkg/actuators/machine/actuator.go.
pub mod Effects
pub mod Memory
pub mod Laws
pub mod Created
use machine_api_provider_nvi.Base.{
  maybe, String, Bool, true, false, Option, none, some, [], is_some, if◌then◌else◌,
}
use machine_api_provider_nvi.Api.Errors.{wrapf, external}
use machine_api_provider_nvi.Api.Types.{NicoMachineProviderSpec}
use machine_api_provider_nvi.Api.Sdk.{Instance, Reply}
use machine_api_provider_nvi.Actuator.World.{Env, Object}
use machine_api_provider_nvi.Actuator.World.Monad.{M, ◌>>=◌, pure, fail, wrapping}
use machine_api_provider_nvi.Actuator.World.Calls
use machine_api_provider_nvi.Actuator.Provider.{
  get_provider_spec, get_provider_status, get_nico_client,
}
use machine_api_provider_nvi.Actuator.Health.{has_code}
use machine_api_provider_nvi.Actuator.Create.{require_client_object}

-- What an answer says: a 404 is no instance, any other error is one.
unfoldable pub instance_exists : Reply (Option Instance) → M Bool
instance_exists reply = maybe reply.failure (pure (is_some reply.value)) (λ e.
    if has_code 404 reply.http
    then pure false
    else fail (wrapf "failed to check instance existence: %w" [] (external e)))

module _ (env : Env) where
  exists_known : Object → Option String → M Bool
  exists_known o none = pure false
  exists_known o (some id) = do
    spec ← wrapping "failed to get provider spec: %w" (get_provider_spec env o)
    (client, org) ← wrapping "failed to create NICo client: %w" (get_nico_client env spec)
    reply ← Calls.get_instance env client org id
    instance_exists reply

  unfoldable pub exists : M Bool
  unfolding exists_known
  exists = do
    o ← require_client_object env
    status ← wrapping "failed to get provider status: %w" (get_provider_status env o)
    exists_known o status.instance_id
