-- ===== src/Actuator/Create/Stored.antt =====
-- What a creation leaves behind: the ID of its instance, by which the next calls ask for it.
use machine_api_provider_nvi.Base.{
  String, true, [], ◌∷◌, Option, none, some, ◌≡◌, refl, ap, sym, subst, not, is_nil,
}
use machine_api_provider_nvi.Api.Types.{NicoMachineProviderSpec, NicoMachineProviderStatus}
use machine_api_provider_nvi.Api.Sdk.{Instance, InstanceCreateRequest, HttpResponse}
use machine_api_provider_nvi.Actuator.World.{
  Env, World, History, Object, NicoClient, api, ApiCall, metric, managed_inc, api_latency, normal,
}
use machine_api_provider_nvi.Actuator.World.Calls.{request, create_instance, update_instance}
use machine_api_provider_nvi.Actuator.World.Monad.{M, ◌>>=◌, ◌>>◌, emit, when, count, eventf}
use machine_api_provider_nvi.Actuator.World.Growth.{
  Adds-Returns, Returns, Returns-bind, Returns-wrapping, Returns-deref, Returns-lift,
  not-Returns-fail,
}
use machine_api_provider_nvi.Actuator.World.Memory.{KeepsObject, Returns-object, memory_rules}
use machine_api_provider_nvi.Actuator.World.Effects.{Adds, Adds-trans, same, more}
use machine_api_provider_nvi.Actuator.Request.{build_instance_request}
use machine_api_provider_nvi.Actuator.Conditions.{set_condition}
use machine_api_provider_nvi.Actuator.Provider.Stored.{
  Holds, Holds-same, KeepsStatus, IsWritten, set_provider_status-Holds,
  set_provider_status-IsWritten, set_provider_id-Holds,
}
use machine_api_provider_nvi.Actuator.Create.Effects.{handle_created-Emits}
use machine_api_provider_nvi.Actuator.Create.{
  deploy_failed, deploy_dpu_extension_services, record_instance, created_status,
  handle_create_error, no_data, handle_created, request_instance, create_checked, create,
}

-- An object that holds a status with this instance ID.
pub record HoldsId (env : Env) (o : Object) (id : String) : Type 0 where
  pub status : NicoMachineProviderStatus
  pub holds : Holds env.json o.kind status
  pub has_id : status.instance_id ≡ some id

pub HoldsId-same :
    (env : Env) (o o' : Object) (id : String)
    → o.kind ≡ o'.kind
    → HoldsId env o' id
    → HoldsId env o id
HoldsId-same env o o' id e h = record {
  status = h.status;
  holds = subst (λ k. Holds env.json k h.status) (sym e) h.holds;
  has_id = h.has_id;
}

module _ (env : Env) (client : NicoClient) (org : String) where
  deploy_dpu_extension_services-KeepsObject :
      (id : String) (spec : NicoMachineProviderSpec)
      → KeepsObject (deploy_dpu_extension_services env client org id spec)
  unfolding deploy_dpu_extension_services deploy_failed update_instance
  deploy_dpu_extension_services-KeepsObject id spec = search memory_rules depth 16

  abbrev finish : String → NicoMachineProviderSpec → M (Unit {0})
  finish id spec = do
    when (not (is_nil spec.dpu_extension_services))
        (deploy_dpu_extension_services env client org id spec)
    count managed_inc
    eventf env normal "Created" "Created instance %s" (id ∷ []) none

  finish-KeepsObject : (id : String) (spec : NicoMachineProviderSpec) → KeepsObject (finish id spec)
  finish-KeepsObject id spec =
      search (memory_rules, deploy_dpu_extension_services-KeepsObject) depth 12

  record_instance-HoldsId :
      KeepsStatus env
      → (spec : NicoMachineProviderSpec) (inst : Instance) (w w' : World) (u : Unit {0})
      → Returns (record_instance env client org spec inst) w u w'
      → (id : String) × (inst.id ≡ some id) × HoldsId env w'.object id
  unfolding record_instance created_status set_condition
  record_instance-HoldsId keeps spec inst w w' u h =
      let a = Returns-bind _ _ w w' u h in
      let b = Returns-bind _ _ a.state w' u a.second in
      let c = Returns-bind _ _ b.state w' u b.second in
      let d = Returns-bind _ _ c.state w' u c.second in
      let e = Returns-bind _ _ d.state w' u d.second in
      let (has_id, _) = Returns-deref inst.id a.value w a.state a.first in
      let status = created_status env client org (env.now b.value) a.value inst in
      let stored : Holds env.json c.state.object.kind status =
        set_provider_status-Holds env keeps status b.state c.state c.value
          (Returns-wrapping _ _ b.state c.state c.value c.first) in
      let written =
        set_provider_status-IsWritten env status b.state c.state c.value
          (Returns-wrapping _ _ b.state c.state c.value c.first) in
      let (_, parsed) =
        Returns-lift _ d.value c.state d.state
          (Returns-wrapping _ _ c.state d.state d.value d.first) in
      let parsed_object = ap (λ x. x.object) (sym parsed) in
      let kept : Holds env.json e.state.object.kind status =
        set_provider_id-Holds env keeps status _ d.state e.state e.value
          (Returns-wrapping _ _ d.state e.state e.value e.first)
          (subst (λ v. IsWritten env v.object v.history) parsed written)
          (Holds-same env.json c.state.object d.state.object status parsed_object stored) in
      let rest =
        Returns-object (finish a.value spec) e.state w' u e.second
          (finish-KeepsObject a.value spec) in
      (
        a.value,
        has_id,
        record {
          status = status;
          holds = Holds-same env.json e.state.object w'.object status rest kept;
          has_id = has_id;
        },
      )

-- An operation asked for an instance; the answer gave it an ID, which the object now holds.
pub record Creates (env : Env) (w' : World) : Type 0 where
  pub client : NicoClient
  pub org : String
  pub req : InstanceCreateRequest
  pub before : History
  pub inst : Instance
  pub id : String
  pub sent : Adds (λ k. true) (api client org (ApiCall.create_instance req) ∷ before) w'.history
  pub succeeded : ((env.nico client).create_instance before org req).failure ≡ none
  pub created : ((env.nico client).create_instance before org req).value ≡ some inst
  pub named : inst.id ≡ some id
  pub stored : HoldsId env w'.object id

module _ (env : Env) (keeps : KeepsStatus env) (client : NicoClient) (org : String) where
  handle_created-Recorded :
      (spec : NicoMachineProviderSpec) (http : Option HttpResponse) (failure : Option String)
      (value : Option Instance) (w w' : World) (u : Unit {0})
      → Returns
          (handle_created env client org spec
            (record { value = value; http = http; failure = failure }))
          w
          u
          w'
      → (failure ≡ none)
        × ((inst : Instance) × (value ≡ some inst)
            × ((id : String) × (inst.id ≡ some id) × HoldsId env w'.object id))
  unfolding handle_created no_data handle_create_error
  handle_created-Recorded spec http (some e) value w w' u h =
      let a = Returns-bind _ _ w w' u h in
      let b = Returns-bind _ _ a.state w' u a.second in
      absurd (not-Returns-fail _ u b.state w' b.second)
  handle_created-Recorded spec http none none w w' u h =
      let a = Returns-bind _ _ w w' u h in
      let b = Returns-bind _ _ a.state w' u a.second in
      absurd (not-Returns-fail _ u b.state w' b.second)
  handle_created-Recorded spec http none (some inst) w w' u h =
      (refl, (inst, refl, record_instance-HoldsId env client org keeps spec inst w w' u h))

  request_instance-Creates :
      (name : String) (spec : NicoMachineProviderSpec) (w w' : World) (u : Unit {0})
      → Returns (request_instance env client org name spec) w u w'
      → Creates env w'
  unfolding request_instance create_instance request emit ◌>>=◌
  request_instance-Creates name spec w w' u h =
      let req = build_instance_request name spec in
      let reply = (env.nico client).create_instance w.history org req in
      let sent =
        metric (api_latency "CreateInstance")
        ∷ api client org (ApiCall.create_instance req)
        ∷ w.history in
      let asked = record w { history = sent } in
      let (succeeded, (inst, created, (id, named, stored))) =
        handle_created-Recorded spec reply.http reply.failure reply.value asked w' u h in
      record {
        client = client;
        org = org;
        req = req;
        before = w.history;
        inst = inst;
        id = id;
        sent = Adds-trans (more refl same) (
            Adds-Returns _ asked w' u h
              (handle_created-Emits env refl refl refl client org refl refl spec reply));
        succeeded = succeeded;
        created = created;
        named = named;
        stored = stored;
      }

-- If encoding/json reads back a status but for the times of its conditions and its labels, and the
-- API server keeps the status, a Create that succeeds sent a request for an instance, the answer
-- named one, and the object holds its ID.
pub create-Creates :
    (env : Env)
    → KeepsStatus env
    → (w w' : World) (u : Unit {0}) → Returns (create env) w u w'
    → Creates env w'
unfolding create create_checked
create-Creates env keeps w w' u h =
    let a = Returns-bind _ _ w w' u h in
    let b = Returns-bind _ _ a.state w' u a.second in
    let c = Returns-bind _ _ b.state w' u b.second in
    let d = Returns-bind _ _ c.state w' u c.second in
    let (client, org) = d.value in
    let e = Returns-bind _ _ d.state w' u d.second in
    let f = Returns-bind _ _ e.state w' u e.second in
    request_instance-Creates env keeps client org a.value.name b.value f.state w' u f.second
