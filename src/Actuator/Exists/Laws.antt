-- ===== src/Actuator/Exists/Laws.antt =====
-- What Exists and Update may do, and what the answer of the API to Exists means.
use machine_api_provider_nvi.Base.{
  Bool, true, false, Option, none, some, ◌≡◌, ◌≢◌, ◌⊎◌, inl, inr, refl, arith, is_some, maybe,
  String, if◌then◌else◌,
}
use machine_api_provider_nvi.Api.Errors.{GoError}
use machine_api_provider_nvi.Api.Sdk.{Instance, Reply}
use machine_api_provider_nvi.Actuator.World.{Env, World}
use machine_api_provider_nvi.Actuator.World.Monad.{pure, fail}
use machine_api_provider_nvi.Actuator.World.Effects.{EffectKind, reading, Adds}
use machine_api_provider_nvi.Actuator.World.Growth.{Returns, Returns-pure, not-Returns-fail}
use machine_api_provider_nvi.Actuator.Health.{has_code}
use machine_api_provider_nvi.Actuator.Exists.{instance_exists, exists}
use machine_api_provider_nvi.Actuator.Exists.Effects.{exists-Emits}

abbrev is_reading : EffectKind → Bool
is_reading reading = true
is_reading _ = false

-- All effects of Exists are reads of the NICo API or of a secret, whatever its outcome.
exists-reads : (env : Env) (w : World) → Adds is_reading w.history (exists env w).1.history
exists-reads env w = (exists-Emits env refl).at w

code_of_absent :
    (b : Bool) (e : GoError) (w w' : World)
    → Returns (if b then pure false else fail e) w false w'
    → b ≡ true
code_of_absent true e w w' h = refl
code_of_absent false e w w' h = absurd (not-Returns-fail e false w w' h)

absent_by :
    (failure : Option String) (value : Option Instance) (b : Bool) (e : String → GoError)
    (w w' : World)
    → Returns
        (maybe failure (pure (is_some value)) (λ m. if b then pure false else fail (e m)))
        w
        false
        w'
    → ((failure ≢ none) × (b ≡ true)) ⊎ ((failure ≡ none) × (value ≡ none))
absent_by none none b e w w' h = inr (refl, refl)
absent_by none (some inst) b e w w' h =
    let (same, _) = Returns-pure _ _ w w' h in absurd (grind (arith, same))
absent_by (some m) value b e w w' h =
    inl ((λ same. grind (arith, same)), code_of_absent b (e m) w w' h)

-- If the answer of the API makes Exists say that there is no instance, it is an error with the
-- status 404, or it has no error and no data.
pub instance_exists-absent :
    (reply : Reply (Option Instance)) (w w' : World)
    → Returns (instance_exists reply) w false w'
    → ((reply.failure ≢ none) × (has_code 404 reply.http ≡ true))
      ⊎ ((reply.failure ≡ none) × (reply.value ≡ none))
unfolding instance_exists
instance_exists-absent reply w w' h =
    absent_by reply.failure reply.value (has_code 404 reply.http) _ w w' h
