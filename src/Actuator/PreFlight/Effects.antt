-- ===== src/Actuator/PreFlight/Effects.antt =====
-- The check before a creation reads, writes the status, and records events.
use machine_api_provider_nvi.Base.{String, Bool, true, Option, none, some, ◌≡◌}
use machine_api_provider_nvi.Base.Int.{ℤ}
use machine_api_provider_nvi.Api.Errors.{GoError}
use machine_api_provider_nvi.Api.Types.{NicoMachineProviderSpec}
use machine_api_provider_nvi.Actuator.World.{Env, NicoClient}
use machine_api_provider_nvi.Actuator.World.Monad.{M}
use machine_api_provider_nvi.Actuator.World.Effects.{
  EffectKind, reading, status_write, note, Emits, emits_rules,
}
use machine_api_provider_nvi.Actuator.Provider.Effects.{
  get_provider_status-Emits, set_provider_status-Emits,
}
use machine_api_provider_nvi.Actuator.Health.Effects.{
  check_critical_faults-Emits, check_machine_validation-Emits,
}
use machine_api_provider_nvi.Actuator.PreFlight.{
  must, after_block, block_creation, block_if, after_faults, check_pre_flight_health,
}

Emits-must : {p : EffectKind → Bool} {A : Type 0} (m : M A) → Emits p m → Emits p (must m)
unfolding must
Emits-must m k = record { at = λ w. k.at w }

module _ (env : Env) {p : EffectKind → Bool} (reads : p reading ≡ true)
    (writes : p status_write ≡ true) (notes : p note ≡ true) where
  after_block-Emits :
      (id : String) (n : ℤ) (message : String) (e : Option GoError)
      → Emits p (after_block env id n message e)
  unfolding after_block
  after_block-Emits id n message none = search emits_rules depth 8
  after_block-Emits id n message (some e) = search emits_rules

  block_creation-Emits : (id message : String) → Emits p (block_creation env id message)
  unfolding block_creation
  block_creation-Emits id message =
      search
        (
          emits_rules, Emits-must, get_provider_status-Emits, set_provider_status-Emits,
          after_block-Emits,
        )
        depth 16

  block_if-Emits : (id : String) (o : Option String) → Emits p (block_if env id o)
  unfolding block_if
  block_if-Emits id none = search emits_rules
  block_if-Emits id (some message) = block_creation-Emits id message

  module _ (client : NicoClient) (org : String) where
    after_faults-Emits :
        (id : String) (o : Option String) → Emits p (after_faults env client org id o)
    unfolding after_faults
    after_faults-Emits id (some message) = block_creation-Emits id message
    after_faults-Emits id none =
        search (emits_rules, check_machine_validation-Emits, block_if-Emits) depth 8

    pub check_pre_flight_health-Emits :
        (spec : NicoMachineProviderSpec) → Emits p (check_pre_flight_health env client org spec)
    unfolding check_pre_flight_health
    check_pre_flight_health-Emits spec =
        search (emits_rules, check_critical_faults-Emits, after_faults-Emits) depth 8
