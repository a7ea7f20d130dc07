-- ===== src/Actuator/Create/Effects.antt =====
-- What a creation does besides its one request.
use machine_api_provider_nvi.Base.{String, Bool, true, Option, none, some, ◌≡◌}
use machine_api_provider_nvi.Api.Errors.{GoError}
use machine_api_provider_nvi.Api.Types.{NicoMachineProviderSpec}
use machine_api_provider_nvi.Api.Sdk.{HttpResponse, Instance, Reply}
use machine_api_provider_nvi.Actuator.World.{Env, NicoClient}
use machine_api_provider_nvi.Actuator.World.Calls.{create_instance, update_instance}
use machine_api_provider_nvi.Actuator.World.Effects.{
  EffectKind, creation, deployment, reading, object_write, status_write, note, Emits, emits_rules,
}
use machine_api_provider_nvi.Actuator.Provider.Effects.{
  get_provider_spec-Emits, set_provider_status-Emits, set_provider_id-Emits, get_nico_client-Emits,
}
use machine_api_provider_nvi.Actuator.Health.Effects.{has_targeted_instance_creation-Emits}
use machine_api_provider_nvi.Actuator.PreFlight.Effects.{check_pre_flight_health-Emits}
use machine_api_provider_nvi.Actuator.Create.{
  handle_create_error, deploy_failed, deploy_dpu_extension_services, record_instance, no_data,
  handle_created, request_instance, require_targeting, require_health, fail_if, require_valid,
  invalid_spec, require_client_object, create_checked, create,
}

module _ (env : Env) {p : EffectKind → Bool} (reads : p reading ≡ true)
    (writes : p status_write ≡ true) (notes : p note ≡ true) where
  pub handle_create_error-Emits :
      (A : Type 0) (http : Option HttpResponse) (e : GoError)
      → Emits p (handle_create_error env {A = A} http e)
  unfolding handle_create_error
  handle_create_error-Emits A http e = search emits_rules depth 12

  module _ (client : NicoClient) (org : String) where
    fail_if-Emits : (o : Option GoError) → Emits p (fail_if env client org o)
    unfolding fail_if
    fail_if-Emits none = search emits_rules
    fail_if-Emits (some e) = search emits_rules

    pub require_targeting-Emits :
        (spec : NicoMachineProviderSpec) → Emits p (require_targeting env client org spec)
    unfolding require_targeting
    require_targeting-Emits spec =
        search (emits_rules, has_targeted_instance_creation-Emits) depth 12

    pub require_health-Emits :
        (spec : NicoMachineProviderSpec) → Emits p (require_health env client org spec)
    unfolding require_health
    require_health-Emits spec =
        search (emits_rules, check_pre_flight_health-Emits, fail_if-Emits) depth 12

    module _ (deploys : p deployment ≡ true) (objects : p object_write ≡ true) where
      deploy_dpu_extension_services-Emits :
          (id : String) (spec : NicoMachineProviderSpec)
          → Emits p (deploy_dpu_extension_services env client org id spec)
      unfolding deploy_dpu_extension_services deploy_failed update_instance
      deploy_dpu_extension_services-Emits id spec = search emits_rules depth 16

      record_instance-Emits :
          (spec : NicoMachineProviderSpec) (inst : Instance)
          → Emits p (record_instance env client org spec inst)
      unfolding record_instance
      record_instance-Emits spec inst =
          search
            (
              emits_rules, set_provider_status-Emits, set_provider_id-Emits,
              deploy_dpu_extension_services-Emits,
            )
            depth 20

      pub handle_created-Emits :
          (spec : NicoMachineProviderSpec) (reply : Reply (Option Instance))
          → Emits p (handle_created env client org spec reply)
      unfolding handle_created no_data
      handle_created-Emits spec reply =
          search (emits_rules, handle_create_error-Emits, record_instance-Emits) depth 12

  pub require_valid-Emits : (spec : NicoMachineProviderSpec) → Emits p (require_valid env spec)
  unfolding require_valid invalid_spec
  require_valid-Emits spec = search emits_rules depth 12

  pub require_client_object-Emits : Emits p (require_client_object env)
  unfolding require_client_object
  require_client_object-Emits = search emits_rules depth 8

  -- All that a creation does, in the kinds of its effects.
  module _ (creates : p creation ≡ true) (deploys : p deployment ≡ true)
      (objects : p object_write ≡ true) where
    create_checked-Emits :
        (client : NicoClient) (org name : String) (spec : NicoMachineProviderSpec)
        → Emits p (create_checked env client org name spec)
    unfolding create_checked request_instance create_instance
    create_checked-Emits client org name spec =
        search (emits_rules, require_targeting-Emits, require_health-Emits, handle_created-Emits)
          depth 16

    pub create-Emits : Emits p (create env)
    unfolding create
    create-Emits =
        search
          (
            emits_rules, require_client_object-Emits, get_provider_spec-Emits, require_valid-Emits,
            get_nico_client-Emits, create_checked-Emits,
          )
          depth 16
