-- ===== src/Actuator/Create/Laws.antt =====
-- A creation asks for one instance at most.
use machine_api_provider_nvi.Base.{String, refl}
use machine_api_provider_nvi.Api.Types.{NicoMachineProviderSpec}
use machine_api_provider_nvi.Actuator.World.{Env, NicoClient}
use machine_api_provider_nvi.Actuator.World.Calls.{create_instance}
use machine_api_provider_nvi.Actuator.World.Effects.{emits_rules, Emits-wrapping}
use machine_api_provider_nvi.Actuator.World.Counts.{
  AddsAtMost, AddsAtMost-of_Emits, AddsAtMost-request, AddsAtMost-bind, AddsAtMost-after,
  is_creation, other_effects-is_creation,
}
use machine_api_provider_nvi.Actuator.Provider.Effects.{
  get_provider_spec-Emits, get_nico_client-Emits,
}
use machine_api_provider_nvi.Actuator.Create.{request_instance, create_checked, create}
use machine_api_provider_nvi.Actuator.Create.Effects.{
  require_targeting-Emits, require_health-Emits, handle_created-Emits, require_valid-Emits,
  require_client_object-Emits,
}

request_instance-AddsAtMost :
    (env : Env) (client : NicoClient) (org name : String) (spec : NicoMachineProviderSpec)
    → AddsAtMost 1 is_creation (request_instance env client org name spec)
unfolding request_instance create_instance
request_instance-AddsAtMost env client org name spec =
    AddsAtMost-bind 1 0 _ _ (AddsAtMost-request _ _) λ reply.
      AddsAtMost-of_Emits 0 other_effects-is_creation
        (search (emits_rules, handle_created-Emits) depth 8)

create_checked-AddsAtMost :
    (env : Env) (client : NicoClient) (org name : String) (spec : NicoMachineProviderSpec)
    → AddsAtMost 1 is_creation (create_checked env client org name spec)
unfolding create_checked
create_checked-AddsAtMost env client org name spec =
    AddsAtMost-after 1 _ _ other_effects-is_creation
      (require_targeting-Emits env refl refl refl client org spec)
      λ _.
        AddsAtMost-after 1 _ _ other_effects-is_creation
          (require_health-Emits env refl refl refl client org spec)
          λ _. request_instance-AddsAtMost env client org name spec

pub create-AddsAtMost : (env : Env) → AddsAtMost 1 is_creation (create env)
unfolding create
create-AddsAtMost env =
    let d = other_effects-is_creation in
    AddsAtMost-after 1 _ _ d (require_client_object-Emits env refl refl refl) λ o.
      AddsAtMost-after 1 _ _ d (Emits-wrapping _ _ (get_provider_spec-Emits env o)) λ spec.
        AddsAtMost-after 1 _ _ d (require_valid-Emits env refl refl refl spec) λ _.
          AddsAtMost-after 1 _ _ d (Emits-wrapping _ _ (get_nico_client-Emits env refl spec))
            λ (client, org). create_checked-AddsAtMost env client org o.name spec
