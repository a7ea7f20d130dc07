-- ===== src/Actuator/Update/Followed.antt =====
-- After an update the stored status follows the instance.
use machine_api_provider_nvi.Base.{true, String, Option, none, some, ◌∷◌, ◌≡◌, refl, ap, ◌∙◌}
use machine_api_provider_nvi.Api.Types.{NicoMachineProviderSpec, NicoMachineProviderStatus}
use machine_api_provider_nvi.Api.Sdk.{Instance, HttpResponse, Reply}
use machine_api_provider_nvi.Actuator.World.{
  Env, World, History, NicoClient, api, ApiCall, metric, api_latency,
}
use machine_api_provider_nvi.Actuator.World.Monad.{◌>>=◌, emit}
use machine_api_provider_nvi.Actuator.World.Calls
use machine_api_provider_nvi.Actuator.World.Effects.{
  Adds, Adds-trans, same, more, Emits, Emits-wrapping, emits_rules,
}
use machine_api_provider_nvi.Actuator.Provider.Effects.{
  get_provider_spec-Emits, get_provider_status-Emits, get_nico_client-Emits,
}
use machine_api_provider_nvi.Actuator.Create.Effects.{require_client_object-Emits}
use machine_api_provider_nvi.Actuator.Update.Effects.{track_instance-Emits}
use machine_api_provider_nvi.Actuator.World.Growth.{
  Adds-Returns, Returns, Returns-bind, Returns-wrapping, Answered, not-Returns-fail,
}
use machine_api_provider_nvi.Actuator.Provider.{get_provider_status}
use machine_api_provider_nvi.Actuator.Provider.Stored.{Holds, KeepsStatus}
use machine_api_provider_nvi.Actuator.Conditions.Laws.{SetsConditions}
use machine_api_provider_nvi.Actuator.Progress.Ready.{ReadyOf}
use machine_api_provider_nvi.Actuator.Create.Checked.{require_client_object-eq}
use machine_api_provider_nvi.Actuator.Update.{
  handle_instance, no_data, update_instance_status, update_known, update,
}
use machine_api_provider_nvi.Actuator.Update.Tracked.{
  Follows, Parts, track_instance-Parts, new_status, Parts-Follows, Parts-ReadyOf,
}

module _ (env : Env) where
  module _ (keeps : KeepsStatus env) (client : NicoClient) (org : String) where
    handle_instance-Parts :
        (spec : NicoMachineProviderSpec) (old : NicoMachineProviderStatus)
        (http : Option HttpResponse) (failure : Option String) (value : Option Instance)
        (w w' : World) (u : Unit {0})
        → Returns
            (handle_instance env client org spec old
              (record { value = value; http = http; failure = failure }))
            w
            u
            w'
        → (failure ≡ none)
          × ((inst : Instance) × (value ≡ some inst) × Parts env client org old inst w')
    unfolding handle_instance no_data
    handle_instance-Parts spec old http (some e) value w w' u h =
        absurd (not-Returns-fail _ u w w' h)
    handle_instance-Parts spec old http none none w w' u h =
        let a = Returns-bind _ _ w w' u h in absurd (not-Returns-fail _ u a.state w' a.second)
    handle_instance-Parts spec old http none (some inst) w w' u h =
        (refl, (inst, refl, track_instance-Parts env client org keeps spec old inst w w' u h))

  handle_instance-Emits :
      (client : NicoClient) (org : String) (spec : NicoMachineProviderSpec)
      (old : NicoMachineProviderStatus) (reply : Reply (Option Instance))
      → Emits (λ k. true) (handle_instance env client org spec old reply)
  unfolding handle_instance no_data
  handle_instance-Emits client org spec old reply =
      search (emits_rules, track_instance-Emits) depth 20

  -- What an update of an instance of a known ID leaves.
  record FollowedId (old : NicoMachineProviderStatus) (id : String) (w w' : World) : Type 0 where
    client : NicoClient
    org : String
    asked_at : History
    inst : Instance
    since : Adds (λ k. true) w.history asked_at
    asked : Adds (λ k. true) (api client org (ApiCall.get_instance id) ∷ asked_at) w'.history
    succeeded : ((env.nico client).get_instance asked_at org id).failure ≡ none
    given : ((env.nico client).get_instance asked_at org id).value ≡ some inst
    parts : Parts env client org old inst w'

  FollowedId-after :
      (old : NicoMachineProviderStatus) (id : String) (w₀ w w' : World)
      → Adds (λ k. true) w₀.history w.history
      → FollowedId old id w w'
      → FollowedId old id w₀ w'
  FollowedId-after old id w₀ w w' a f = record {
    client = f.client;
    org = f.org;
    asked_at = f.asked_at;
    since = Adds-trans a f.since;
    asked = f.asked;
    inst = f.inst;
    succeeded = f.succeeded;
    given = f.given;
    parts = f.parts;
  }

  -- The object had a status with an instance ID; the update sent the API a request for this
  -- instance, which gave it; and the object now holds a status that follows the instance.
  pub record Followed (w w' : World) : Type 0 where
    pub old : NicoMachineProviderStatus
    pub id : String
    pub client : NicoClient
    pub org : String
    pub asked_at : History
    pub inst : Instance
    pub new : NicoMachineProviderStatus
    pub read : Answered (get_provider_status env w.object) old
    pub known : old.instance_id ≡ some id
    pub since : Adds (λ k. true) w.history asked_at
    pub asked : Adds (λ k. true) (api client org (ApiCall.get_instance id) ∷ asked_at) w'.history
    pub succeeded : ((env.nico client).get_instance asked_at org id).failure ≡ none
    pub given : ((env.nico client).get_instance asked_at org id).value ≡ some inst
    pub follows : Follows inst old new
    pub stored : Holds env.json w'.object.kind new

  update_instance_status-FollowedId :
      KeepsStatus env
      → (client : NicoClient) (org : String) (spec : NicoMachineProviderSpec)
        (old : NicoMachineProviderStatus) (id : String) (w w' : World) (u : Unit {0})
      → Returns (update_instance_status env client org spec old id) w u w'
      → FollowedId old id w w'
  unfolding update_instance_status Calls.get_instance emit ◌>>=◌
  update_instance_status-FollowedId keeps client org spec old id w w' u h =
      let reply = (env.nico client).get_instance w.history org id in
      let asked = api client org (ApiCall.get_instance id) ∷ w.history in
      let counted = record w { history = metric (api_latency "GetInstance") ∷ asked } in
      let (succeeded, (inst, given, parts)) =
        handle_instance-Parts keeps client org spec old reply.http reply.failure reply.value counted
          w' u h in
      record {
        client = client;
        org = org;
        asked_at = w.history;
        since = same;
        asked =
            Adds-trans (more refl same)
              (Adds-Returns _ counted w' u h (handle_instance-Emits client org spec old reply));
        inst = inst;
        succeeded = succeeded;
        given = given;
        parts = parts;
      }

  update_known-FollowedId :
      KeepsStatus env
      → (spec : NicoMachineProviderSpec) (old : NicoMachineProviderStatus) (o : Option String)
        (w w' : World) (u : Unit {0})
      → Returns (update_known env spec old o) w u w'
      → (id : String) × (o ≡ some id) × FollowedId old id w w'
  unfolding update_known
  update_known-FollowedId keeps spec old none w w' u h = absurd (not-Returns-fail _ u w w' h)
  update_known-FollowedId keeps spec old (some id) w w' u h =
      let a = Returns-bind _ _ w w' u h in
      (
        id,
        refl,
        FollowedId-after old id w a.state w'
            (Adds-Returns _ w a.state a.value a.first
              (Emits-wrapping _ _ (get_nico_client-Emits env refl spec)))
            (update_instance_status-FollowedId keeps a.value.0 a.value.1 spec old id a.state w' u
              a.second),
      )

  -- What an update leaves, with the object that it read.
  record FollowedObject (w w' : World) : Type 0 where
    old : NicoMachineProviderStatus
    id : String
    read : Answered (get_provider_status env w.object) old
    known : old.instance_id ≡ some id
    left : FollowedId old id w w'

  update-FollowedObject :
      KeepsStatus env
      → (w w' : World) (u : Unit {0}) → Returns (update env) w u w'
      → FollowedObject w w'
  unfolding update
  update-FollowedObject keeps w w' u h =
      let a = Returns-bind _ _ w w' u h in
      let b = Returns-bind _ _ a.state w' u a.second in
      let c = Returns-bind _ _ b.state w' u b.second in
      let (same_object, _) = require_client_object-eq env w a.state a.value a.first in
      let (id, known, f) =
        update_known-FollowedId keeps b.value c.value c.value.instance_id c.state w' u c.second in
      let read = Returns-wrapping _ _ b.state c.state c.value c.first in
      let begun =
        Adds-trans
          (Adds-Returns _ w a.state a.value a.first
            (require_client_object-Emits env refl refl refl))
          (Adds-trans
            (Adds-Returns _ a.state b.state b.value b.first
              (Emits-wrapping _ _ (get_provider_spec-Emits env a.value)))
            (Adds-Returns _ b.state c.state c.value c.first
              (Emits-wrapping _ _ (get_provider_status-Emits env a.value)))) in
      record {
        old = c.value;
        id = id;
        read = record {
          before = b.state;
          after = c.state;
          answer = ap (λ o. get_provider_status env o b.state) same_object ∙ read;
        };
        known = known;
        left = FollowedId-after c.value id w c.state w' begun f;
      }

  abbrev followed : {w w' : World} → FollowedObject w w' → Followed w w'
  followed {w} {w'} f = record {
    old = f.old;
    id = f.id;
    client = f.left.client;
    org = f.left.org;
    asked_at = f.left.asked_at;
    since = f.left.since;
    asked = f.left.asked;
    inst = f.left.inst;
    new = new_status env f.left.client f.left.org f.left.parts;
    read = f.read;
    known = f.known;
    succeeded = f.left.succeeded;
    given = f.left.given;
    follows = Parts-Follows env f.left.client f.left.org f.left.parts;
    stored = f.left.parts.stored;
  }

  pub update-Followed :
      KeepsStatus env → (w w' : World) (u : Unit {0}) → Returns (update env) w u w' → Followed w w'
  update-Followed keeps w w' u h = followed (update-FollowedObject keeps w w' u h)

  -- If encoding/json reads back a status but for the times of its conditions and its labels, and
  -- the API server keeps the status, and SetStatusCondition does what it documents: when an Update
  -- succeeds, the object had a status with an instance ID, the API was asked for this instance and
  -- gave one without an error, and the object now holds a status with the same instance ID, the
  -- addresses of the interfaces of the instance, and its machine and its state, or those of the old
  -- status where the instance has none. If the instance has a state, the condition InstanceReady of
  -- this status is true if the state is Ready, and false if it is another, whatever the health
  -- alerts and the check of the timeout did to the conditions.
  pub update-FollowedReady :
      KeepsStatus env
      → SetsConditions env.set_status_condition
      → (w w' : World) (u : Unit {0}) → Returns (update env) w u w'
      → (f : Followed w w') × ReadyOf f.inst.status f.new
  update-FollowedReady keeps sets w w' u h =
      let f = update-FollowedObject keeps w w' u h in
      (followed f, Parts-ReadyOf env f.left.client f.left.org f.left.parts sets)
