-- ===== src/Actuator/Exists/Created.antt =====
-- What Exists asks for after a creation.
use machine_api_provider_nvi.Base.{
  String, Bool, true, false, Option, if◌then◌else◌, maybe, is_some, none, some, ◌∷◌, ◌≡◌, subst, ap,
  sym, ◌∙◌, refl,
}
use machine_api_provider_nvi.Api.Errors.{GoError}
use machine_api_provider_nvi.Api.Sdk.{Instance, Reply}
use machine_api_provider_nvi.Actuator.World.{Env, World, History, Object, NicoClient, api, ApiCall}
use machine_api_provider_nvi.Actuator.World.Monad.{pure, fail}
use machine_api_provider_nvi.Actuator.World.Calls.{get_instance}
use machine_api_provider_nvi.Actuator.World.Effects.{Adds, Adds-trans, Emits-wrapping}
use machine_api_provider_nvi.Actuator.Provider.Effects.{
  get_provider_spec-Emits, get_provider_status-Emits, get_nico_client-Emits,
}
use machine_api_provider_nvi.Actuator.Create.Effects.{require_client_object-Emits}
use machine_api_provider_nvi.Actuator.World.Growth.{
  Adds-Returns, ok-injective, Returns, Returns-bind, Returns-wrapping, Returns-pure,
  not-Returns-fail,
}
use machine_api_provider_nvi.Actuator.Provider.Stored.Reads.{get_provider_status-Holds}
use machine_api_provider_nvi.Actuator.Provider.Stored.{KeepsStatus, Holds-same}
use machine_api_provider_nvi.Actuator.Health.{has_code}
use machine_api_provider_nvi.Actuator.Create.Checked.{require_client_object-eq}
use machine_api_provider_nvi.Actuator.Create.{create}
use machine_api_provider_nvi.Actuator.Create.Stored.{HoldsId, HoldsId-same, Creates, create-Creates}
use machine_api_provider_nvi.Actuator.Update.Evolves.{Evolves, Evolves-HoldsId}
use machine_api_provider_nvi.Actuator.Exists.{instance_exists, exists_known, exists}

-- Exists, from the history `start` on, sent a request for the instance of this ID as its last effect,
-- and its result is what the answer says.
pub record AsksFor (env : Env) (id : String) (b : Bool) (start : History) (w' : World)
    : Type 0 where
  pub client : NicoClient
  pub org : String
  pub before : History
  pub since : Adds (λ k. true) start before
  pub sent : w'.history ≡ api client org (ApiCall.get_instance id) ∷ before
  pub judged : Returns (instance_exists ((env.nico client).get_instance before org id)) w' b w'

if-state :
    (c b b' : Bool) (e : GoError) (w w' : World)
    → Returns (if c then pure b else fail e) w b' w'
    → w ≡ w'
if-state true b b' e w w' h = let (_, same) = Returns-pure b b' w w' h in same
if-state false b b' e w w' h = absurd (not-Returns-fail e b' w w' h)

maybe-state :
    (failure : Option String) (found c : Bool) (e : String → GoError) (w w' : World) (b : Bool)
    → Returns (maybe failure (pure found) (λ m. if c then pure false else fail (e m))) w b w'
    → w ≡ w'
maybe-state none found c e w w' b h = let (_, same) = Returns-pure found b w w' h in same
maybe-state (some m) found c e w w' b h = if-state c false b (e m) w w' h

instance_exists-state :
    (reply : Reply (Option Instance)) (w w' : World) (b : Bool)
    → Returns (instance_exists reply) w b w'
    → w ≡ w'
unfolding instance_exists
instance_exists-state reply w w' b h =
    maybe-state reply.failure (is_some reply.value) (has_code 404 reply.http) _ w w' b h

module _ (env : Env) where
  exists_known-AsksFor :
      (o : Object) (id : String) (w w' : World) (b : Bool)
      → Returns (exists_known env o (some id)) w b w'
      → AsksFor env id b w.history w'
  unfolding exists_known get_instance
  exists_known-AsksFor o id w w' b h =
      let a = Returns-bind _ _ w w' b h in
      let c = Returns-bind _ _ a.state w' b a.second in
      let (client, org) = c.value in
      let d = Returns-bind _ _ c.state w' b c.second in
      let asked = (env.nico client).get_instance c.state.history org id in
      let answered = ok-injective asked d.value (ap (λ r. r.0) d.first) in
      let kept = sym (instance_exists-state d.value d.state w' b d.second) in
      record {
        client = client;
        org = org;
        before = c.state.history;
        since =
            Adds-trans
              (Adds-Returns _ w a.state a.value a.first
                (Emits-wrapping _ _ (get_provider_spec-Emits env o)))
              (Adds-Returns _ a.state c.state c.value c.first
                (Emits-wrapping _ _ (get_nico_client-Emits env refl a.value)));
        sent = ap (λ x. x.history) kept ∙ sym (ap (λ r. r.1.history) d.first);
        judged = (λ i. instance_exists (answered i) (kept i)) ∙ d.second;
      }

  pub exists-AsksFor :
      KeepsStatus env
      → (id : String) (w w' : World) (b : Bool) → HoldsId env w.object id
      → Returns (exists env) w b w'
      → AsksFor env id b w.history w'
  unfolding exists
  exists-AsksFor keeps id w w' b holds h =
      let a = Returns-bind _ _ w w' b h in
      let c = Returns-bind _ _ a.state w' b a.second in
      let (same, _) = require_client_object-eq env w a.state a.value a.first in
      let read =
        get_provider_status-Holds env holds.status a.value a.state c.state c.value
          (Holds-same env.json w.object a.value holds.status (sym same) holds.holds)
          (Returns-wrapping _ _ a.state c.state c.value c.first) in
      let known = ap (λ s. s.instance_id) read ∙ holds.has_id in
      let k =
        exists_known-AsksFor a.value id c.state w' b
          (subst (λ k. Returns (exists_known env a.value k) c.state b w') known c.second) in
      let looked =
        Adds-Returns _ w a.state a.value a.first (require_client_object-Emits env refl refl refl) in
      let got =
        Adds-Returns _ a.state c.state c.value c.first
          (Emits-wrapping _ _ (get_provider_status-Emits env a.value)) in
      record {
        client = k.client;
        org = k.org;
        before = k.before;
        since = Adds-trans looked (Adds-trans got k.since);
        sent = k.sent;
        judged = k.judged;
      }

-- If encoding/json reads back a status but for the times of its conditions and its labels, and the
-- API server keeps the status: after a Create that succeeded, and any number of Updates that
-- succeeded, each from an object of the content that the call before it left, an Exists of an
-- object of the content that is left, at any time, that returns has asked the API for the very
-- instance that the answer to the creation named, and its result is what this answer means.
pub create-exists :
    (env : Env)
    → KeepsStatus env
    → (w w₁ w₂ w' : World) (u : Unit {0}) (b : Bool) (o : Object) (h : History)
    → Returns (create env) w u w₁
    → Evolves env w₁ w₂
    → o.kind ≡ w₂.object.kind
    → Returns (exists env) (record { object = o; history = h }) b w'
    → (c : Creates env w₁) × AsksFor env c.id b h w'
create-exists env keeps w w₁ w₂ w' u b o h returned life k asked =
    let c = create-Creates env keeps w w₁ u returned in
    let holds =
      HoldsId-same env o w₂.object c.id k (Evolves-HoldsId env keeps c.id w₁ w₂ life c.stored) in
    (c, exists-AsksFor env keeps c.id (record { object = o; history = h }) w' b holds asked)
