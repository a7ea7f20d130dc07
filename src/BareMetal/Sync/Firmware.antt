-- ===== src/BareMetal/Sync/Firmware.antt =====
-- The firmware components that the API server holds, over the calls for one machine.
use machine_api_provider_nvi.Base.{◌≡◌, ◌≢◌, refl, sym, ◌∙◌, String, Option, none, some, arith}
use machine_api_provider_nvi.Base.Dict.{Dict}
use machine_api_provider_nvi.Api.Errors.{GoError}
use machine_api_provider_nvi.BareMetal.Types.{NicoMachine, FirmwareComponents}
use machine_api_provider_nvi.BareMetal.Cluster.{
  Got, got, absent, get_failed, Cluster, State, call, pure, now, ◌>>=◌, failure_of, wrapped,
}
use machine_api_provider_nvi.BareMetal.Cluster.Frames.{
  Keeps, Keeps-call, Keeps-bind, Keeps-pure, Keeps-now,
}
use machine_api_provider_nvi.BareMetal.Mapper.{
  bmh_name_from_id, firmware_to_host_firmware_components,
}
use machine_api_provider_nvi.BareMetal.Sync.{
  update_status, created_status, write_components, sync_firmware_components, sync_firmware,
}
use machine_api_provider_nvi.BareMetal.Sync.Store.{ObjectStore, ShowsComponents, unseen}

module _ {S : Type 0} {c : Cluster S} (store : ObjectStore c) where
  -- No name but the object's own is written.
  update_status-unseen :
      (desired existing : FirmwareComponents) (ns name : String)
      → existing.name ≢ name
      → Keeps (unseen store ns name) (update_status c desired existing)
  unfolding update_status
  update_status-unseen desired existing ns name d = Keeps-bind _ _ (Keeps-now c) (λ t.
      Keeps-bind _ _ (Keeps-call _ (λ s. store.update_components_elsewhere _ s.world ns name d))
        (λ e. Keeps-pure _))

  created_status-unseen :
      (created : FirmwareComponents × Option String) (ns name : String)
      → created.0.name ≢ name
      → Keeps (unseen store ns name) (created_status c created)
  unfolding created_status
  created_status-unseen (o, none) ns name d = update_status-unseen o o ns name d
  created_status-unseen (o, some text) ns name d = Keeps-pure _

  write_components-unseen :
      (desired : FirmwareComponents) (existing : Got FirmwareComponents) (ns name : String)
      → desired.name ≢ name
      → ((o : FirmwareComponents) → existing ≡ got o → o.name ≡ desired.name)
      → Keeps (unseen store ns name) (write_components c desired existing)
  unfolding write_components ◌>>=◌ call
  write_components-unseen desired absent ns name d h = record {
    at = λ s.
        (created_status-unseen (c.create_components desired s.world).0 ns name
            (λ e. d (sym (store.created_same desired s.world).1 ∙ e))).at
          (record s { world = (c.create_components desired s.world).1 })
        ∙ store.create_components_elsewhere desired s.world ns name d;
  }
  write_components-unseen desired (get_failed text) ns name d h = Keeps-pure _
  write_components-unseen desired (got existing) ns name d h =
      update_status-unseen desired existing ns name (λ e. d (sym (h existing refl) ∙ e))

  pub sync_firmware-unseen :
      (m : NicoMachine) (id : String) (versions : Option (Dict String)) (ns name : String)
      → bmh_name_from_id id ≢ name
      → Keeps (unseen store ns name) (sync_firmware c m id versions)
  unfolding sync_firmware sync_firmware_components firmware_to_host_firmware_components ◌>>=◌ call
      pure
  sync_firmware-unseen m id none ns name d = Keeps-pure _
  sync_firmware-unseen m id (some versions) ns name d = record {
    at = λ s.
        (write_components-unseen
            (firmware_to_host_firmware_components c.order id versions m c.namespace)
            (c.get_components c.namespace (bmh_name_from_id id) s.world).0 ns name d
            (λ o e. (store.got_components_key c.namespace (bmh_name_from_id id) s.world o e).1)).at
          (record s { world = (c.get_components c.namespace (bmh_name_from_id id) s.world).1 })
        ∙ store.view_get_components c.namespace (bmh_name_from_id id) s.world ns name;
  }

  ShowsComponents-same :
      (a b : FirmwareComponents) (o : Option FirmwareComponents)
      → a.components ≡ b.components
      → ShowsComponents a o
      → ShowsComponents b o
  ShowsComponents-same a b none e s = s
  ShowsComponents-same a b (some o) e s = s ∙ e

  failure_of-none : (e : Option String) → failure_of e ≡ none → e ≡ none
  failure_of-none none h = refl
  failure_of-none (some text) h = absurd (ground (arith, h))

  wrapped-none : (format : String) (e : Option GoError) → wrapped format e ≡ none → e ≡ none
  wrapped-none format none h = refl
  wrapped-none format (some x) h = absurd (ground (arith, h))

  -- Under a key, the store has the components of `desired`.
  abbrev pub HasComponents : FirmwareComponents → String → String → State S → Type 0
  HasComponents desired ns name t = ShowsComponents desired (store.view t.world ns name).components

  update_status-HasComponents :
      (desired existing : FirmwareComponents) (s : State S)
      → (update_status c desired existing s).0 ≡ none
      → HasComponents desired existing.namespace existing.name
          (update_status c desired existing s).1
  unfolding update_status ◌>>=◌ call now pure
  update_status-HasComponents desired existing s e =
      ShowsComponents-same
        (record existing { components = desired.components; last_updated = some (c.clock s.world) })
        desired _ refl (store.view_update_components _ s.world (failure_of-none _ e))

  created_status-HasComponents :
      (created : FirmwareComponents × Option String) (s : State S)
      → (created_status c created s).0 ≡ none
      → HasComponents created.0 created.0.namespace created.0.name (created_status c created s).1
  unfolding created_status pure
  created_status-HasComponents (o, none) s e = update_status-HasComponents o o s e
  created_status-HasComponents (o, some text) s e = absurd (ground (arith, e))

  HasComponents-key :
      (desired : FirmwareComponents) (ns name ns' name' : String) (t : State S)
      → ns' ≡ ns
      → name' ≡ name
      → HasComponents desired ns' name' t
      → HasComponents desired ns name t
  HasComponents-key desired ns name ns' name' t e f h = rw (sym e) (rw (sym f) h)

  -- The state after `Create`, and the one after the write of the status.
  abbrev created_state : FirmwareComponents → State S → State S
  created_state desired s = record s { world = (c.create_components desired s.world).1 }

  abbrev after : FirmwareComponents → State S → State S
  after desired s =
      (created_status c (c.create_components desired s.world).0 (created_state desired s)).1

  write_components-HasComponents :
      (desired : FirmwareComponents) (existing : Got FirmwareComponents) (s : State S)
      → ((o : FirmwareComponents)
          → existing ≡ got o
          → (o.namespace ≡ desired.namespace) × (o.name ≡ desired.name))
      → (write_components c desired existing s).0 ≡ none
      → HasComponents desired desired.namespace desired.name
          (write_components c desired existing s).1
  unfolding write_components ◌>>=◌ call pure
  write_components-HasComponents desired absent s key e =
      let same = store.created_same desired s.world in
      ShowsComponents-same (c.create_components desired s.world).0.0 desired _ same.2 (
        HasComponents-key (c.create_components desired s.world).0.0 _ _ _ _ (after desired s) same.0
          same.1
          (created_status-HasComponents (c.create_components desired s.world).0
            (created_state desired s) e))
  write_components-HasComponents desired (get_failed text) s key e = absurd (ground (arith, e))
  write_components-HasComponents desired (got o) s key e =
      HasComponents-key desired _ _ _ _ (update_status c desired o s).1 (key o refl).0
        (key o refl).1 (update_status-HasComponents desired o s e)

  -- What is wanted for a machine with these versions.
  abbrev pub wanted_firmware : NicoMachine → String → Dict String → FirmwareComponents
  wanted_firmware m id versions =
      firmware_to_host_firmware_components c.order id versions m c.namespace

  -- The components of the machine, if there are versions for it.
  unfoldable pub HasFirmware : NicoMachine → String → Option (Dict String) → State S → Type 0
  HasFirmware m id none t = Unit
  HasFirmware m id (some versions) t =
      HasComponents (wanted_firmware m id versions) c.namespace (bmh_name_from_id id) t

  pub sync_firmware-HasFirmware :
      (m : NicoMachine) (id : String) (versions : Option (Dict String)) (s : State S)
      → (sync_firmware c m id versions s).0 ≡ none
      → HasFirmware m id versions (sync_firmware c m id versions s).1
  unfolding sync_firmware sync_firmware_components HasFirmware firmware_to_host_firmware_components
      ◌>>=◌ call pure
  sync_firmware-HasFirmware m id none s e = tt
  sync_firmware-HasFirmware m id (some versions) s e =
      write_components-HasComponents (wanted_firmware m id versions)
        (c.get_components c.namespace (bmh_name_from_id id) s.world).0 _
        (store.got_components_key c.namespace (bmh_name_from_id id) s.world) (wrapped-none _ _ e)

  pub HasFirmware-along :
      (m : NicoMachine) (id : String) (versions : Option (Dict String)) (s t : State S)
      → store.view t.world c.namespace (bmh_name_from_id id)
        ≡ store.view s.world c.namespace (bmh_name_from_id id)
      → HasFirmware m id versions s
      → HasFirmware m id versions t
  unfolding HasFirmware
  HasFirmware-along m id none s t e h = tt
  HasFirmware-along m id (some versions) s t e h = rw e h
