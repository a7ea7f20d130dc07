-- ===== src/Actuator/Delete/Created.antt =====
-- What Delete asks for after a creation.
use machine_api_provider_nvi.Base.{
  String, true, ◌||◌, Option, none, some, [], ◌∷◌, ◌≡◌, refl, ◌≢◌, ◌⊎◌, subst, ap, sym, ◌∙◌,
}
use machine_api_provider_nvi.Api.Sdk.{InstanceDeleteRequest, Reply}
use machine_api_provider_nvi.Api.Types.{NicoMachineProviderSpec, NicoMachineProviderStatus}
use machine_api_provider_nvi.Actuator.World.{
  Env, World, History, Object, NicoClient, api, ApiCall, api_latency, managed_dec, normal,
}
use machine_api_provider_nvi.Actuator.World.Monad.{M, ◌>>◌, count, eventf}
use machine_api_provider_nvi.Actuator.World.Calls
use machine_api_provider_nvi.Actuator.World.Effects.{
  Adds, Adds-trans, Emits-wrapping, same, Emits, emits_rules,
}
use machine_api_provider_nvi.Actuator.Provider.Effects.{
  get_provider_spec-Emits, get_provider_status-Emits, get_nico_client-Emits,
}
use machine_api_provider_nvi.Actuator.Create.Effects.{require_client_object-Emits}
use machine_api_provider_nvi.Actuator.World.Growth.{
  Adds-Returns, ok-injective, Returns, Returns-bind, Returns-wrapping,
}
use machine_api_provider_nvi.Actuator.Provider.Stored.Reads.{get_provider_status-Holds}
use machine_api_provider_nvi.Actuator.Provider.Stored.{Holds-same, KeepsStatus}
use machine_api_provider_nvi.Actuator.Health.{has_code}
use machine_api_provider_nvi.Actuator.Create.{create}
use machine_api_provider_nvi.Actuator.Create.Checked.{require_client_object-eq}
use machine_api_provider_nvi.Actuator.Create.Stored.{HoldsId, HoldsId-same, Creates, create-Creates}
use machine_api_provider_nvi.Actuator.Update.Evolves.{Evolves, Evolves-HoldsId}
use machine_api_provider_nvi.Actuator.Delete.{handle_deleted, delete_instance, delete_known, delete}
use machine_api_provider_nvi.Actuator.Delete.Effects.{remediate-Emits, handle_deleted-Emits}
use machine_api_provider_nvi.Actuator.Delete.Laws.{handle_deleted-outcome}

-- The answer to a deletion says that the instance is deleted, or gone.
abbrev pub IsAccepted : Reply (Unit {0}) → Type 0
IsAccepted reply =
    ((reply.failure ≡ none)
      × (has_code 200 reply.http
            || has_code 202 reply.http
            || has_code 204 reply.http
            || has_code 404 reply.http
          ≡ true))
    ⊎ ((reply.failure ≢ none) × (has_code 404 reply.http ≡ true))

-- From the history `start` on, Delete sent a request to delete the instance of this ID, and it was
-- accepted.
pub record Deletes (env : Env) (id : String) (start : History) (w' : World) : Type 0 where
  pub client : NicoClient
  pub org : String
  pub req : Option InstanceDeleteRequest
  pub before : History
  pub since : Adds (λ k. true) start before
  pub sent : Adds (λ k. true) (api client org (ApiCall.delete_instance id req) ∷ before) w'.history
  pub accepted : IsAccepted ((env.nico client).delete_instance before org id req)

module _ (env : Env) where
  Deletes-after :
      (id : String) (start start' : History) (w' : World)
      → Adds (λ k. true) start start'
      → Deletes env id start' w'
      → Deletes env id start w'
  Deletes-after id start start' w' a d = record {
    client = d.client;
    org = d.org;
    req = d.req;
    before = d.before;
    since = Adds-trans a d.since;
    sent = d.sent;
    accepted = d.accepted;
  }

  module _ (client : NicoClient) (org : String) where
    abbrev finish : String → Reply (Unit {0}) → M (Unit {0})
    finish id reply = do
      count (api_latency "DeleteInstance")
      handle_deleted env client org id reply
      count managed_dec
      eventf env normal "Deleted" "Deleted instance %s" (id ∷ []) none

    finish-Emits : (id : String) (reply : Reply (Unit {0})) → Emits (λ k. true) (finish id reply)
    finish-Emits id reply = search (emits_rules, handle_deleted-Emits) depth 16

    delete_instance-Deletes :
        (o : Object) (status : NicoMachineProviderStatus) (id : String) (w w' : World)
        (u : Unit {0})
        → Returns (delete_instance env client org o status id) w u w'
        → Deletes env id w.history w'
    unfolding delete_instance Calls.delete_instance
    delete_instance-Deletes o status id w w' u h =
        let a = Returns-bind _ _ w w' u h in
        let b = Returns-bind _ _ a.state w' u a.second in
        let c = Returns-bind _ _ b.state w' u b.second in
        let d = Returns-bind _ _ c.state w' u c.second in
        let reply = (env.nico client).delete_instance a.state.history org id a.value in
        let answered = ok-injective reply b.value (ap (λ r. r.0) b.first) in
        let call = api client org (ApiCall.delete_instance id a.value) in
        let called =
          subst (λ h. Adds (λ k. true) (call ∷ a.state.history) h) (ap (λ r. r.1.history) b.first)
            same in
        record {
          client = client;
          org = org;
          req = a.value;
          before = a.state.history;
          since =
              Adds-Returns _ w a.state a.value a.first
                (remediate-Emits env refl refl refl client org o status);
          sent =
              Adds-trans called
                (Adds-Returns (finish id b.value) b.state w' u b.second (finish-Emits id b.value));
          accepted = subst IsAccepted (sym answered) (
              (handle_deleted-outcome env client org id b.value c.state).0 (ap (λ r. r.0) d.first));
        }

  delete_known-Deletes :
      (o : Object) (spec : NicoMachineProviderSpec) (status : NicoMachineProviderStatus)
      (id : String) (w w' : World) (u : Unit {0})
      → Returns (delete_known env o spec status (some id)) w u w'
      → Deletes env id w.history w'
  unfolding delete_known
  delete_known-Deletes o spec status id w w' u h =
      let a = Returns-bind _ _ w w' u h in
      Deletes-after id w.history a.state.history w'
        (Adds-Returns _ w a.state a.value a.first
          (Emits-wrapping _ _ (get_nico_client-Emits env refl spec)))
        (delete_instance-Deletes a.value.0 a.value.1 o status id a.state w' u a.second)

  delete-Deletes :
      KeepsStatus env
      → (id : String) (w w' : World) (u : Unit {0}) → HoldsId env w.object id
      → Returns (delete env) w u w'
      → Deletes env id w.history w'
  unfolding delete
  delete-Deletes keeps id w w' u holds h =
      let a = Returns-bind _ _ w w' u h in
      let b = Returns-bind _ _ a.state w' u a.second in
      let c = Returns-bind _ _ b.state w' u b.second in
      let (same_object, _) = require_client_object-eq env w a.state a.value a.first in
      let read =
        get_provider_status-Holds env holds.status a.value b.state c.state c.value
          (Holds-same env.json w.object a.value holds.status (sym same_object) holds.holds)
          (Returns-wrapping _ _ b.state c.state c.value c.first) in
      let known = ap (λ s. s.instance_id) read ∙ holds.has_id in
      let begun =
        Adds-trans
          (Adds-Returns _ w a.state a.value a.first
            (require_client_object-Emits env refl refl refl))
          (Adds-trans
            (Adds-Returns _ a.state b.state b.value b.first
              (Emits-wrapping _ _ (get_provider_spec-Emits env a.value)))
            (Adds-Returns _ b.state c.state c.value c.first
              (Emits-wrapping _ _ (get_provider_status-Emits env a.value)))) in
      Deletes-after id w.history c.state.history w' begun (
        delete_known-Deletes a.value b.value c.value id c.state w' u (
          subst (λ k. Returns (delete_known env a.value b.value c.value k) c.state u w') known
            c.second))

-- If encoding/json reads back a status but for the times of its conditions and its labels, and the
-- API server keeps the status: after a Create that succeeded, and any number of Updates that
-- succeeded, each from an object of the content that the call before it left, a Delete of an object
-- of the content that is left, at any time, that succeeds has asked the API to delete the very
-- instance that the answer to the creation named, and the answer was a success or a 404.
pub create-delete :
    (env : Env)
    → KeepsStatus env
    → (w w₁ w₂ w' : World) (u u' : Unit {0}) (o : Object) (h : History)
    → Returns (create env) w u w₁
    → Evolves env w₁ w₂
    → o.kind ≡ w₂.object.kind
    → Returns (delete env) (record { object = o; history = h }) u' w'
    → (c : Creates env w₁) × Deletes env c.id h w'
create-delete env keeps w w₁ w₂ w' u u' o h returned life k deleted =
    let c = create-Creates env keeps w w₁ u returned in
    let holds =
      HoldsId-same env o w₂.object c.id k (Evolves-HoldsId env keeps c.id w₁ w₂ life c.stored) in
    (c, delete-Deletes env keeps c.id (record { object = o; history = h }) w' u' holds deleted)
