-- ===== src/Actuator/Delete/Laws.antt =====
-- A deletion asks for the deletion of one instance at most.
use machine_api_provider_nvi.Base.{
  String, true, ◌||◌, Option, none, some, ◌≡◌, ◌≢◌, ◌↔◌, ◌⊎◌, refl, arith,
}
use machine_api_provider_nvi.Api.Errors.{ok}
use machine_api_provider_nvi.Api.Sdk.{Reply}
use machine_api_provider_nvi.Api.Types.{NicoMachineProviderSpec, NicoMachineProviderStatus}
use machine_api_provider_nvi.Actuator.World.{Env, World, NicoClient, Object}
use machine_api_provider_nvi.Actuator.World.Monad.{◌>>=◌, deref, fail, pure, emit}
use machine_api_provider_nvi.Actuator.Health.{has_code}
use machine_api_provider_nvi.Actuator.World.Calls
use machine_api_provider_nvi.Actuator.World.Effects.{emits_rules, Emits-wrapping}
use machine_api_provider_nvi.Actuator.World.Counts.{
  AddsAtMost, AddsAtMost-of_Emits, AddsAtMost-request, AddsAtMost-bind, AddsAtMost-after,
  is_deletion, other_effects-is_deletion,
}
use machine_api_provider_nvi.Actuator.Provider.Effects.{
  get_provider_spec-Emits, get_provider_status-Emits, get_nico_client-Emits,
}
use machine_api_provider_nvi.Actuator.Create.Effects.{require_client_object-Emits}
use machine_api_provider_nvi.Actuator.Delete.{
  handle_deleted, delete_failed, delete_code, delete_answered, delete_instance, delete_known,
  delete,
}
use machine_api_provider_nvi.Actuator.Delete.Effects.{remediate-Emits, handle_deleted-Emits}

module _ (env : Env) where
  delete_instance-AddsAtMost :
      (client : NicoClient) (org : String) (o : Object) (s : NicoMachineProviderStatus)
      (id : String)
      → AddsAtMost 1 is_deletion (delete_instance env client org o s id)
  unfolding delete_instance Calls.delete_instance
  delete_instance-AddsAtMost client org o s id =
      AddsAtMost-after 1 _ _ other_effects-is_deletion
        (remediate-Emits env refl refl refl client org o s)
        λ req. AddsAtMost-bind 1 0 _ _ (AddsAtMost-request _ _) λ reply.
          AddsAtMost-of_Emits 0 other_effects-is_deletion
            (search (emits_rules, handle_deleted-Emits) depth 12)

  delete_known-AddsAtMost :
      (o : Object) (spec : NicoMachineProviderSpec) (s : NicoMachineProviderStatus)
      (id : Option String)
      → AddsAtMost 1 is_deletion (delete_known env o spec s id)
  unfolding delete_known
  delete_known-AddsAtMost o spec s none =
      AddsAtMost-of_Emits 1 other_effects-is_deletion (search emits_rules)
  delete_known-AddsAtMost o spec s (some id) =
      AddsAtMost-after 1 _ _ other_effects-is_deletion
        (Emits-wrapping _ _ (get_nico_client-Emits env refl spec))
        λ (client, org). delete_instance-AddsAtMost client org o s id

  pub delete-AddsAtMost : AddsAtMost 1 is_deletion (delete env)
  unfolding delete
  delete-AddsAtMost =
      let d = other_effects-is_deletion in
      AddsAtMost-after 1 _ _ d (require_client_object-Emits env refl refl refl) λ o.
        AddsAtMost-after 1 _ _ d (Emits-wrapping _ _ (get_provider_spec-Emits env o)) λ spec.
          AddsAtMost-after 1 _ _ d (Emits-wrapping _ _ (get_provider_status-Emits env o))
            λ s. delete_known-AddsAtMost o spec s s.instance_id

-- The answer to a deletion counts as a success exactly if there is no error and the status is 200,
-- 202, 204 or 404, or if there is an error and the status is 404.
pub handle_deleted-outcome :
    (env : Env) (client : NicoClient) (org id : String) (reply : Reply (Unit {0})) (w : World)
    → ((handle_deleted env client org id reply w).0 ≡ ok tt)
      ↔ ((reply.failure ≡ none)
          × (has_code 200 reply.http
                || has_code 202 reply.http
                || has_code 204 reply.http
                || has_code 404 reply.http
              ≡ true))
        ⊎ ((reply.failure ≢ none) × (has_code 404 reply.http ≡ true))
unfolding handle_deleted delete_failed delete_code delete_answered ◌>>=◌ deref fail pure emit
handle_deleted-outcome env client org id reply w = ground arith
