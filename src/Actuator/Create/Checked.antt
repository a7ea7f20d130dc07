-- ===== src/Actuator/Create/Checked.antt =====
-- What Create has made sure of before it asks for an instance.
use machine_api_provider_nvi.Base.{
  String, suc, ◌∷◌, ap, subst, Bool, true, false, not, ◌&&◌, Option, none, some, ◌≡◌, ◌≢◌, refl,
  ◌∙◌, sym, arith, is_set, if◌then◌else◌, maybe,
}
use machine_api_provider_nvi.Api.Errors.{GoError, ok}
use machine_api_provider_nvi.Api.Types.{NicoMachineProviderSpec}
use machine_api_provider_nvi.Actuator.World.{Env, World, History, NicoClient, Object, api, ApiCall}
use machine_api_provider_nvi.Actuator.World.Monad.{M, wrapping, ◌>>=◌, ◌>>◌, emit, pure, fail, when}
use machine_api_provider_nvi.Actuator.World.Calls.{request, create_instance}
use machine_api_provider_nvi.Actuator.World.Effects.{
  Emits, Adds, Adds-trans, same, more, Emits-wrapping,
}
use machine_api_provider_nvi.Actuator.World.Counts.{
  tally, tally-Emits, is_creation, other_effects, other_effects-is_creation,
}
use machine_api_provider_nvi.Actuator.World.Growth.{
  Returns, Grows, Grows-bind, bind-Returns, Returns-wrapping, Returns-bind, not-Returns-fail,
  Returns-pure, Returns-get_memory, Returns-when,
}
use machine_api_provider_nvi.Actuator.Provider.{get_provider_spec, get_nico_client}
use machine_api_provider_nvi.Actuator.Provider.Effects.{
  get_provider_spec-Emits, get_nico_client-Emits,
}
use machine_api_provider_nvi.Actuator.Health.{has_targeted_instance_creation}
use machine_api_provider_nvi.Actuator.PreFlight.{check_pre_flight_health}
use machine_api_provider_nvi.Actuator.Request.{validate_provider_spec, build_instance_request}
use machine_api_provider_nvi.Actuator.Request.Laws.{validate_provider_spec-IsWellFormed}
use machine_api_provider_nvi.Webhook.Fields.{IsWellFormed}
use machine_api_provider_nvi.Actuator.Create.{
  require_client_object, require_valid, invalid_spec, require_targeting, require_health, fail_if,
  request_instance, create_checked, create,
}
use machine_api_provider_nvi.Actuator.Create.Effects.{
  require_targeting-Emits, require_health-Emits, require_valid-Emits, require_client_object-Emits,
  handle_created-Emits,
}

module _ (env : Env) (client : NicoClient) (org name : String)
    (spec : NicoMachineProviderSpec) where
  -- What was asked, each in the state that the last left, before the one request for an instance
  -- that was then sent on the way from `w` to the history `after`.
  pub record IsChecked (w : World) (after : History) : Type 0 where
    pub targeting_after : World
    pub sending : World
    pub targeting :
        is_set spec.machine_id ≡ true
        → Returns
            (has_targeted_instance_creation env client org spec.site_id)
            w
            true
            targeting_after
    pub healthy :
        is_set spec.machine_id ≡ true
        → spec.allow_unhealthy_machine ≡ false
        → Returns (check_pre_flight_health env client org spec) targeting_after none sending
    pub sent :
        Adds
          (λ k. true)
          (api client org (ApiCall.create_instance (build_instance_request name spec))
            ∷ sending.history)
          after
    pub first : tally is_creation sending.history ≡ tally is_creation w.history
    pub only : tally is_creation after ≡ suc (tally is_creation sending.history)

-- The spec that Create read, the client that it made for it, and what it checked with them.
pub record IsCleared (env : Env) (o : Object) (w : World) (after : History) : Type 0 where
  pub spec : NicoMachineProviderSpec
  pub client : NicoClient
  pub org : String
  pub spec_after : World
  pub client_after : World
  pub given : Returns (get_provider_spec env o) w spec spec_after
  pub well_formed : IsWellFormed spec
  pub connected : Returns (get_nico_client env spec) spec_after (client, org) client_after
  pub checked : IsChecked env client org o.name spec client_after after
  pub none_before : tally is_creation client_after.history ≡ tally is_creation w.history

tally-through :
    {A : Type 0} (m : M A) (w w' : World) (a : A)
    → Emits other_effects m
    → Returns m w a w'
    → tally is_creation w'.history ≡ tally is_creation w.history
tally-through m w w' a k h =
    ap (λ r. tally is_creation r.1.history) (sym h) ∙ tally-Emits other_effects-is_creation k w

object_if-eq :
    (b : Bool) (o o' : Object) (e : GoError) (w w' : World)
    → Returns (if b then pure o else fail e) w o' w'
    → (o ≡ o') × (w ≡ w')
object_if-eq true o o' e w w' h = Returns-pure o o' w w' h
object_if-eq false o o' e w w' h = absurd (not-Returns-fail e o' w w' h)

pub require_client_object-eq :
    (env : Env) (w w' : World) (o : Object)
    → Returns (require_client_object env) w o w'
    → (w.object ≡ o) × (w ≡ w')
unfolding require_client_object
require_client_object-eq env w w' o h =
    let p = Returns-bind _ _ w w' o h in
    let (same_object, same_world) = Returns-get_memory p.value w p.state p.first in
    let (same_object', same_world') = object_if-eq _ p.value o _ p.state w' p.second in
    (same_object ∙ same_object', same_world ∙ same_world')

module _ (env : Env) (spec : NicoMachineProviderSpec) where
  not-Returns-invalid_spec :
      (e : GoError) (w w' : World) (u : Unit {0}) → ¬ Returns (invalid_spec env e) w u w'
  unfolding invalid_spec
  not-Returns-invalid_spec e w w' u h =
      let p = Returns-bind _ _ w w' u h in not-Returns-fail _ u p.state w' p.second

  none_of_Returns :
      (o : Option GoError) (w w' : World) (u : Unit {0})
      → Returns (maybe o (pure tt) (invalid_spec env)) w u w'
      → (o ≡ none) × (w ≡ w')
  none_of_Returns none w w' u h = let (_, kept) = Returns-pure tt u w w' h in (refl, kept)
  none_of_Returns (some e) w w' u h = absurd (not-Returns-invalid_spec e w w' u h)

  require_valid-none :
      (w w' : World) (u : Unit {0})
      → Returns (require_valid env spec) w u w'
      → (validate_provider_spec spec ≡ none) × (w ≡ w')
  unfolding require_valid
  require_valid-none w w' u h = none_of_Returns (validate_provider_spec spec) w w' u h

  module _ (client : NicoClient) (org : String) where
    Returns-when-not :
        (b : Bool) (e : GoError) (w w' : World) (u : Unit {0})
        → Returns (when (not b) (fail e)) w u w'
        → (b ≡ true) × (w ≡ w')
    Returns-when-not true e w w' u h = let (_, kept) = Returns-pure tt u w w' h in (refl, kept)
    Returns-when-not false e w w' u h = absurd (not-Returns-fail e u w w' h)

    require_targeting-Returns :
        (w w' : World) (u : Unit {0})
        → Returns (require_targeting env client org spec) w u w'
        → is_set spec.machine_id ≡ true
        → Returns (has_targeted_instance_creation env client org spec.site_id) w true w'
    unfolding require_targeting
    require_targeting-Returns w w' u h set =
        let p = Returns-bind _ _ w w' u (Returns-when _ _ w w' u set h) in
        let (allowed, kept) = Returns-when-not p.value _ p.state w' u p.second in
        p.first ∙ (λ i. (ok (allowed i), kept i))

    fail_if-none :
        (o : Option GoError) (w w' : World) (u : Unit {0})
        → Returns (fail_if env client org o) w u w'
        → (o ≡ none) × (w ≡ w')
    unfolding fail_if
    fail_if-none none w w' u h = let (_, kept) = Returns-pure tt u w w' h in (refl, kept)
    fail_if-none (some e) w w' u h = absurd (not-Returns-fail e u w w' h)

    require_health-Returns :
        (w w' : World) (u : Unit {0})
        → Returns (require_health env client org spec) w u w'
        → is_set spec.machine_id ≡ true
        → spec.allow_unhealthy_machine ≡ false
        → Returns (check_pre_flight_health env client org spec) w none w'
    unfolding require_health
    require_health-Returns w w' u h set unhealthy =
        let p = Returns-bind _ _ w w' u (
          Returns-when (is_set spec.machine_id && not spec.allow_unhealthy_machine) _ w w' u
            (ground (arith, set, unhealthy)) h) in
        let (passed, kept) = fail_if-none p.value p.state w' u p.second in
        p.first ∙ (λ i. (ok (passed i), kept i))

    -- Whatever its answer, the request stands in the history, and is the only one that is added.
    request_instance-sent :
        (name : String) (w : World)
        → Adds
            (λ k. true)
            (api client org (ApiCall.create_instance (build_instance_request name spec))
              ∷ w.history)
            (request_instance env client org name spec w).1.history
    unfolding request_instance create_instance request emit ◌>>=◌
    request_instance-sent name w =
        Adds-trans (more refl same)
          ((handle_created-Emits env refl refl refl client org refl refl spec _).at _)

    request_instance-only :
        (name : String) (w : World)
        → tally is_creation (request_instance env client org name spec w).1.history
          ≡ suc (tally is_creation w.history)
    unfolding request_instance create_instance request emit ◌>>=◌
    request_instance-only name w =
        tally-Emits other_effects-is_creation
          (handle_created-Emits env refl refl refl client org refl refl spec _) _

    create_checked-IsChecked :
        (name : String) (w : World)
        → Grows is_creation (create_checked env client org name spec) w
        → IsChecked env client org name spec w (create_checked env client org name spec w).1.history
    unfolding create_checked
    create_checked-IsChecked name w g =
        let d = other_effects-is_creation in
        let kt = require_targeting-Emits env refl refl refl client org spec in
        let t = Grows-bind _ _ w d kt g in
        let kh = require_health-Emits env refl refl refl client org spec in
        let h = Grows-bind _ _ t.state d kh t.grown in
        let run =
          bind-Returns _ _ w t.state t.value t.returned
          ∙ bind-Returns _ _ t.state h.state h.value h.returned in
        subst (λ r. IsChecked env client org name spec w r.1.history) (sym run)
          (record {
            targeting_after = t.state;
            sending = h.state;
            targeting = require_targeting-Returns w t.state t.value t.returned;
            healthy = require_health-Returns t.state h.state h.value h.returned;
            sent = request_instance-sent name h.state;
            first =
                tally-through _ t.state h.state h.value kh h.returned
                ∙ tally-through _ w t.state t.value kt t.returned;
            only = request_instance-only name h.state;
          })

-- What follows the look at the object.
abbrev create_object : Env → Object → M (Unit {0})
create_object env o = do
  spec ← wrapping "failed to get provider spec: %w" (get_provider_spec env o)
  require_valid env spec
  (client, org) ← wrapping "failed to create NICo client: %w" (get_nico_client env spec)
  create_checked env client org o.name spec

create_object-IsCleared :
    (env : Env) (o : Object) (w : World)
    → Grows is_creation (create_object env o) w
    → IsCleared env o w (create_object env o w).1.history
create_object-IsCleared env o w g =
    let d = other_effects-is_creation in
    let kb = Emits-wrapping _ _ (get_provider_spec-Emits env o) in
    let b = Grows-bind _ _ w d kb g in
    let kc = require_valid-Emits env refl refl refl b.value in
    let c = Grows-bind _ _ b.state d kc b.grown in
    let ke = Emits-wrapping _ _ (get_nico_client-Emits env refl b.value) in
    let e = Grows-bind _ _ c.state d ke c.grown in
    let (valid, passed) = require_valid-none env b.value b.state c.state c.value c.returned in
    let run =
      bind-Returns _ _ w b.state b.value b.returned
      ∙ bind-Returns _ _ b.state c.state c.value c.returned
      ∙ bind-Returns _ _ c.state e.state e.value e.returned in
    subst (λ r. IsCleared env o w r.1.history) (sym run)
      (record {
        spec = b.value;
        client = e.value.0;
        org = e.value.1;
        spec_after = b.state;
        client_after = e.state;
        given = Returns-wrapping _ _ w b.state b.value b.returned;
        well_formed = (validate_provider_spec-IsWellFormed b.value).0 valid;
        connected =
            ap (get_nico_client env b.value) passed
            ∙ Returns-wrapping _ _ c.state e.state e.value e.returned;
        checked = create_checked-IsChecked env b.value e.value.0 e.value.1 o.name e.state e.grown;
        none_before =
            tally-through _ c.state e.state e.value ke e.returned
            ∙ tally-through _ b.state c.state c.value kc c.returned
            ∙ tally-through _ w b.state b.value kb b.returned;
      })

-- Whenever Create adds a request for an instance to the history, it adds one only: the request that
-- is built from the object's name and spec, through the client and for the organisation that
-- getNicoClient gave for this spec. Before, in this order and each in the state that the last left:
-- the spec was read from the machine object, and is well-formed; the client was made; if the spec
-- names a machine, the tenant was found to have targeted creation at the spec's site; and if the
-- spec names a machine and does not allow an unhealthy one, the pre-flight health check passed.
pub create-IsCleared :
    (env : Env) (w : World)
    → tally is_creation (create env w).1.history ≢ tally is_creation w.history
    → IsCleared env w.object w (create env w).1.history
unfolding create
create-IsCleared env w g =
    let d = other_effects-is_creation in
    let ka = require_client_object-Emits env refl refl refl in
    let a = Grows-bind _ _ w d ka g in
    let ra = bind-Returns _ _ w a.state a.value a.returned in
    let (same_object, same_world) = require_client_object-eq env w a.state a.value a.returned in
    let after = (create_object env a.value a.state).1.history in
    subst (λ r. IsCleared env w.object w r.1.history) (sym ra)
      (subst (λ v. IsCleared env w.object v after) (sym same_world)
        (subst (λ o. IsCleared env o a.state after) (sym same_object)
          (create_object-IsCleared env a.value a.state a.grown)))
