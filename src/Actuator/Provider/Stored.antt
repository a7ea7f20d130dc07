-- ===== src/Actuator/Provider/Stored.antt =====
-- The provider status that a machine object holds, and what keeps it.
pub mod Reads
use machine_api_provider_nvi.Base.{
  maybe, String, Option, [], map, none, some, ◌≡◌, ◌∷◌, refl, arith, ap, subst, ◌∙◌, sym,
}
use machine_api_provider_nvi.Api.Errors.{done}
use machine_api_provider_nvi.Api.Types.{NicoMachineProviderStatus, Condition}
use machine_api_provider_nvi.Actuator.World.{
  Effect, Env, World, History, Object, Kind, typed, unstructured, unsupported, not_client_object,
  Nested, nested_error, nested_missing, nested_field, Json,
}
use machine_api_provider_nvi.Actuator.World.Monad.{◌>>=◌, get_memory, set_memory}
use machine_api_provider_nvi.Actuator.World.Calls.{update_object, update_status}
use machine_api_provider_nvi.Actuator.World.Growth.{
  Returns, Returns-bind, Returns-wrapping, Returns-lift, Returns-update_with,
  Returns-update_with-history, not-Returns-fail,
}
use machine_api_provider_nvi.Actuator.Provider.{
  unmarshal_status, status_of_typed, status_of_nested, status_of_kind, get_provider_status,
  send_status, store_status, set_provider_status, send_object, store_id, set_provider_id,
  unsupported_type,
}

-- The provider status of an object's content, as JSON.
abbrev pub stored_status : Json → Kind → Nested
stored_status json (typed m) =
    maybe m.provider_status nested_missing (λ raw. nested_field (done raw))
stored_status json (unstructured content) = json.nested_status content
stored_status json unsupported = nested_missing
stored_status json not_client_object = nested_missing

-- What encoding/json reads back of a status as it was written: all but the times of the conditions,
-- of which the JSON has whole seconds, and the map of labels, which it may list in another order.
abbrev pub forget_time : Condition → Condition
forget_time c = record c { last_transition_time = 0 }

abbrev pub kept : NicoMachineProviderStatus → NicoMachineProviderStatus
kept s = record s { conditions = map forget_time s.conditions; health_labels = [] }

-- An object of this content holds a provider status, which encoding/json reads back but for that.
pub record Holds (json : Json) (k : Kind) (s : NicoMachineProviderStatus) : Type 0 where
  pub raw : String
  pub read : NicoMachineProviderStatus
  pub is_stored : stored_status json k ≡ nested_field (done raw)
  pub is_read : json.unmarshal_status raw ≡ done read
  pub same : kept read ≡ kept s

pub Holds-same :
    (json : Json) (o o' : Object) (s : NicoMachineProviderStatus)
    → o' ≡ o
    → Holds json o.kind s
    → Holds json o'.kind s
Holds-same json o o' s e holds = subst (λ x. Holds json x.kind s) (sym e) holds

-- The last effect of the history is an accepted write of the status, and the object is the one that
-- it left, but for its content, which has the same status.
pub record IsWritten (env : Env) (o : Object) (h : History) : Type 0 where
  pub before : History
  pub sent : Object
  pub just : Effect.update_status sent ∷ before ≡ h
  pub fine : (env.kube.update_status before sent).1 ≡ none
  pub others :
      record o { kind = (env.kube.update_status before sent).0.kind }
      ≡ (env.kube.update_status before sent).0
  pub same_status :
      stored_status env.json o.kind
      ≡ stored_status env.json (env.kube.update_status before sent).0.kind

-- encoding/json reads back a status that it wrote, but for the times of the conditions and the order
-- of the labels, also through an unstructured object; and a provider ID leaves the status as it is.
-- An accepted write of the status gives an object that holds the status which was sent. A write of
-- the object itself does not store the status that is sent: the server keeps its own. But it accepts
-- the write only of the object that it has, by its resource version; so if this is the one that a
-- write of the status has just left, the answer holds that status.
pub record KeepsStatus (env : Env) : Type 0 where
  pub read_back :
      (s : NicoMachineProviderStatus) (raw : String)
      → env.json.marshal_status s ≡ done raw
      → (s' : NicoMachineProviderStatus) × (env.json.unmarshal_status raw ≡ done s')
        × (kept s' ≡ kept s)
  pub nest_back :
      (raw status_map content content' : String)
      → env.json.unmarshal_map raw ≡ done status_map
      → env.json.set_nested_status content status_map ≡ done content'
      → (raw' : String) × (env.json.nested_status content' ≡ nested_field (done raw'))
        × (env.json.unmarshal_status raw' ≡ env.json.unmarshal_status raw)
  pub nest_id :
      (content id content' : String)
      → env.json.set_nested_provider_id content id ≡ done content'
      → env.json.nested_status content' ≡ env.json.nested_status content
  pub status_kept :
      (h : History) (o : Object) (s : NicoMachineProviderStatus)
      → (env.kube.update_status h o).1 ≡ none
      → Holds env.json o.kind s
      → Holds env.json (env.kube.update_status h o).0.kind s
  pub object_kept :
      (h : History) (o : Object) (s : NicoMachineProviderStatus)
      → IsWritten env o h
      → (env.kube.update_object h o).1 ≡ none
      → Holds env.json o.kind s
      → Holds env.json (env.kube.update_object h o).0.kind s

module _ (env : Env) where
  send_status-IsWritten :
      (o : Object) (w w' : World) (u : Unit {0})
      → Returns (send_status env o) w u w'
      → IsWritten env w'.object w'.history
  unfolding send_status
  send_status-IsWritten o w w' u h =
      let p = Returns-bind _ _ w w' u h in
      let sent = Returns-wrapping _ (update_status env o) p.state w' u p.second in
      let (fine, same) =
        Returns-update_with _ (λ h. env.kube.update_status h o) p.state w' u sent in
      let left = (env.kube.update_status p.state.history o).0 in
      record {
        before = p.state.history;
        sent = o;
        just = Returns-update_with-history _ (λ h. env.kube.update_status h o) p.state w' u sent;
        fine = fine;
        others = ap {A = Object} (λ x. record x { kind = left.kind }) (sym same);
        same_status = ap (λ x. stored_status env.json x.kind) (sym same);
      }

  store_status-IsWritten :
      (o : Object) (raw : String) (k : Kind) (w w' : World) (u : Unit {0})
      → Returns (store_status env o raw k) w u w'
      → IsWritten env w'.object w'.history
  unfolding store_status unsupported_type
  store_status-IsWritten o raw (typed m) w w' u h = send_status-IsWritten _ w w' u h
  store_status-IsWritten o raw (unstructured content) w w' u h =
      let a = Returns-bind _ _ w w' u h in
      let b = Returns-bind _ _ a.state w' u a.second in
      send_status-IsWritten _ b.state w' u b.second
  store_status-IsWritten o raw unsupported w w' u h = absurd (not-Returns-fail _ u w w' h)
  store_status-IsWritten o raw not_client_object w w' u h = absurd (not-Returns-fail _ u w w' h)

  -- After setProviderStatus the object is the one that its write left.
  pub set_provider_status-IsWritten :
      (s : NicoMachineProviderStatus) (w w' : World) (u : Unit {0})
      → Returns (set_provider_status env s) w u w'
      → IsWritten env w'.object w'.history
  unfolding set_provider_status
  set_provider_status-IsWritten s w w' u h =
      let a = Returns-bind _ _ w w' u h in
      let b = Returns-bind _ _ a.state w' u a.second in
      store_status-IsWritten b.value a.value b.value.kind b.state w' u b.second

module _ (env : Env) (keeps : KeepsStatus env) (s : NicoMachineProviderStatus) where
  send_status-Holds :
      (o : Object) (w w' : World) (u : Unit {0})
      → Returns (send_status env o) w u w'
      → Holds env.json o.kind s
      → Holds env.json w'.object.kind s
  unfolding send_status
  send_status-Holds o w w' u h holds =
      let p = Returns-bind _ _ w w' u h in
      let sent = Returns-wrapping _ (update_status env o) p.state w' u p.second in
      let (fine, same) =
        Returns-update_with _ (λ h. env.kube.update_status h o) p.state w' u sent in
      Holds-same env.json _ _ s (sym same) (keeps.status_kept p.state.history o s fine holds)

  send_object-Holds :
      (o : Object) (w w' : World) (u : Unit {0})
      → Returns (send_object env o) w u w'
      → IsWritten env o w.history
      → Holds env.json o.kind s
      → Holds env.json w'.object.kind s
  unfolding send_object set_memory
  send_object-Holds o w w' u h written holds =
      let p = Returns-bind _ _ w w' u h in
      let sent = Returns-wrapping _ (update_object env o) p.state w' u p.second in
      let (fine, same) =
        Returns-update_with _ (λ h. env.kube.update_object h o) p.state w' u sent in
      Holds-same env.json _ _ s (sym same) (
        keeps.object_kept p.state.history o s
          (subst (IsWritten env o) (ap (λ r. r.1.history) p.first) written) fine holds)

  store_status-Holds :
      (o : Object) (raw : String) (k : Kind) (w w' : World) (u : Unit {0})
      → (read : NicoMachineProviderStatus) → env.json.unmarshal_status raw ≡ done read
      → kept read ≡ kept s
      → Returns (store_status env o raw k) w u w'
      → Holds env.json w'.object.kind s
  unfolding store_status unsupported_type
  store_status-Holds o raw (typed m) w w' u back e is h =
      send_status-Holds _ w w' u h
        (record { raw = raw; read = back; is_stored = refl; is_read = e; same = is })
  store_status-Holds o raw (unstructured content) w w' u back e is h =
      let a = Returns-bind _ _ w w' u h in
      let b = Returns-bind _ _ a.state w' u a.second in
      let (is_map, _) =
        Returns-lift _ a.value w a.state (Returns-wrapping _ _ w a.state a.value a.first) in
      let (is_set, _) =
        Returns-lift _ b.value a.state b.state
          (Returns-wrapping _ _ a.state b.state b.value b.first) in
      let (raw', stored, read) = keeps.nest_back raw a.value content b.value is_map is_set in
      send_status-Holds _ b.state w' u b.second
        (record { raw = raw'; read = back; is_stored = stored; is_read = read ∙ e; same = is })
  store_status-Holds o raw unsupported w w' u back e is h = absurd (not-Returns-fail _ u w w' h)
  store_status-Holds o raw not_client_object w w' u back e is h =
      absurd (not-Returns-fail _ u w w' h)

  -- After setProviderStatus the object holds the status.
  pub set_provider_status-Holds :
      (w w' : World) (u : Unit {0})
      → Returns (set_provider_status env s) w u w'
      → Holds env.json w'.object.kind s
  unfolding set_provider_status
  set_provider_status-Holds w w' u h =
      let a = Returns-bind _ _ w w' u h in
      let b = Returns-bind _ _ a.state w' u a.second in
      let (written, _) =
        Returns-lift _ a.value w a.state (Returns-wrapping _ _ w a.state a.value a.first) in
      let (back, is_read, same) = keeps.read_back s a.value written in
      store_status-Holds b.value a.value b.value.kind b.state w' u back is_read same b.second

  store_id-Holds :
      (o : Object) (id : String) (k : Kind) (w w' : World) (u : Unit {0})
      → Returns (store_id env o id k) w u w'
      → IsWritten env (record o { kind = k }) w.history
      → Holds env.json k s
      → Holds env.json w'.object.kind s
  unfolding store_id unsupported_type
  store_id-Holds o id (typed m) w w' u h written holds =
      send_object-Holds _ w w' u h
        (record {
          before = written.before;
          sent = written.sent;
          just = written.just;
          fine = written.fine;
          others = written.others;
          same_status = written.same_status;
        })
        (record {
          raw = holds.raw;
          read = holds.read;
          is_stored = holds.is_stored;
          is_read = holds.is_read;
          same = holds.same;
        })
  store_id-Holds o id (unstructured content) w w' u h written holds =
      let a = Returns-bind _ _ w w' u h in
      let (is_set, unmoved) =
        Returns-lift _ a.value w a.state (Returns-wrapping _ _ w a.state a.value a.first) in
      send_object-Holds _ a.state w' u a.second
        (record {
          before = written.before;
          sent = written.sent;
          just = written.just ∙ ap (λ v. v.history) unmoved;
          fine = written.fine;
          others = written.others;
          same_status = keeps.nest_id content id a.value is_set ∙ written.same_status;
        })
        (record {
          raw = holds.raw;
          read = holds.read;
          is_stored = keeps.nest_id content id a.value is_set ∙ holds.is_stored;
          is_read = holds.is_read;
          same = holds.same;
        })
  store_id-Holds o id unsupported w w' u h written holds = absurd (not-Returns-fail _ u w w' h)
  store_id-Holds o id not_client_object w w' u h written holds =
      absurd (not-Returns-fail _ u w w' h)

  -- setProviderID keeps the status that the object holds.
  pub set_provider_id-Holds :
      (id : String) (w w' : World) (u : Unit {0})
      → Returns (set_provider_id env id) w u w'
      → IsWritten env w.object w.history
      → Holds env.json w.object.kind s
      → Holds env.json w'.object.kind s
  unfolding set_provider_id get_memory ◌>>=◌
  set_provider_id-Holds id w w' u h written holds =
      store_id-Holds w.object id w.object.kind w w' u h written holds
