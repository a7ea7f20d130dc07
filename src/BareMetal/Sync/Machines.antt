-- ===== src/BareMetal/Sync/Machines.antt =====
-- What the calls for one machine leave in the store.
use machine_api_provider_nvi.Base.{
  ◌≡◌, ◌≢◌, refl, sym, ap, ◌∙◌, String, Option, none, some, string_eq, arith,
}
use machine_api_provider_nvi.Base.Dict.{Dict, lookup}
use machine_api_provider_nvi.Api.Errors.{GoError}
use machine_api_provider_nvi.BareMetal.Types.{NicoMachine, Sku, Host}
use machine_api_provider_nvi.BareMetal.Cluster.{Cluster, State, M, call, pure, ◌>>=◌}
use machine_api_provider_nvi.BareMetal.Cluster.Frames.{Keeps}
use machine_api_provider_nvi.BareMetal.Mapper.{
  deref_str, bmh_name_from_id, bmh_name, machine_to_baremetal_host,
}
use machine_api_provider_nvi.BareMetal.Sync.{unless_failed, write_host, sync_firmware, sync_machine}
use machine_api_provider_nvi.BareMetal.Sync.Effects.{sync_firmware-Keeps, unless_failed-Keeps}
use machine_api_provider_nvi.BareMetal.Sync.Firmware.{
  HasFirmware, sync_firmware-unseen, sync_firmware-HasFirmware, HasFirmware-along,
}
use machine_api_provider_nvi.BareMetal.Sync.Store.{
  Shows, ObjectStore, reads_host_unseen, components_host_unseen, write_host-unseen, unseen,
  reads_unseen, write_host-Shows,
}

module _ {S : Type 0} {c : Cluster S} (store : ObjectStore c) where
  -- What `sync_machine` wants for a machine, with the SKUs of a map.
  abbrev pub wanted : NicoMachine → Dict Sku → Host
  wanted m skus = machine_to_baremetal_host c.marshal m (lookup (deref_str m.id) skus) c.namespace

  -- The world after the host was looked up, and the result of the write.
  abbrev pub looked_up : NicoMachine → State S → State S
  looked_up m s = record s { world = (c.get_host c.namespace (bmh_name m) s.world).1 }

  abbrev pub written_host : NicoMachine → Dict Sku → State S → Option GoError × State S
  written_host m skus s =
      write_host c (wanted m skus) (c.get_host c.namespace (bmh_name m) s.world).0 (looked_up m s)

  pub sync_machine-unseen :
      (m : NicoMachine) (skus : Dict Sku) (firmware : Dict (Dict String)) (ns name : String)
      → bmh_name m ≢ name
      → Keeps (unseen store ns name) (sync_machine c m skus firmware)
  unfolding sync_machine bmh_name machine_to_baremetal_host ◌>>=◌ call
  sync_machine-unseen m skus firmware ns name d = record {
    at = λ s.
        let wrote =
          (write_host-unseen store (wanted m skus) (c.get_host c.namespace (bmh_name m) s.world).0
              ns name d (λ h e. (store.got_key c.namespace (bmh_name m) s.world h e).1)).at
            (looked_up m s) in
        let firm =
          (unless_failed-Keeps c (reads_unseen store ns name) (written_host m skus s).0 _ (
              sync_firmware-unseen store m (deref_str m.id) (lookup (deref_str m.id) firmware) ns
                name d)).at
            (written_host m skus s).1 in
        firm ∙ (wrote ∙ store.view_get c.namespace (bmh_name m) s.world ns name);
  }

  Shows-along : (h : Host) {o p : Option Host} → p ≡ o → Shows h o → Shows h p
  Shows-along h e s = rw e s

  passed :
      (e : Option GoError) (next : M S (Option GoError)) (t : State S)
      → (unless_failed c e next t).0 ≡ none
      → e ≡ none
  unfolding unless_failed pure
  passed none next t h = refl
  passed (some x) next t h = h

  sync_machine-Shows :
      (m : NicoMachine) (skus : Dict Sku) (firmware : Dict (Dict String)) (s : State S)
      → (sync_machine c m skus firmware s).0 ≡ none
      → Shows
          (wanted m skus)
          (store.view (sync_machine c m skus firmware s).1.world c.namespace (bmh_name m)).host
  unfolding sync_machine machine_to_baremetal_host ◌>>=◌ call
  sync_machine-Shows m skus firmware s e =
      let r = written_host m skus s in
      let next = sync_firmware c m (deref_str m.id) (lookup (deref_str m.id) firmware) in
      Shows-along (wanted m skus)
        ((unless_failed-Keeps c (reads_host_unseen store c.namespace (bmh_name m)) r.0 next (
            sync_firmware-Keeps c (reads_host_unseen store c.namespace (bmh_name m))
              (components_host_unseen store c.namespace (bmh_name m)) m (deref_str m.id)
              (lookup (deref_str m.id) firmware))).at
          r.1)
        (write_host-Shows store (wanted m skus) (c.get_host c.namespace (bmh_name m) s.world).0
          (looked_up m s) (store.got_key c.namespace (bmh_name m) s.world) (passed r.0 next r.1 e))

  unless_failed-done :
      (e : Option GoError) (next : M S (Option GoError)) (t : State S)
      → (unless_failed c e next t).0 ≡ none
      → ((next t).0 ≡ none) × (unless_failed c e next t ≡ next t)
  unfolding unless_failed pure
  unless_failed-done none next t h = (h, refl)
  unless_failed-done (some x) next t h = absurd (ground (arith, h))

  sync_machine-HasFirmware :
      (m : NicoMachine) (skus : Dict Sku) (firmware : Dict (Dict String)) (s : State S)
      → (sync_machine c m skus firmware s).0 ≡ none
      → HasFirmware store m
          (deref_str m.id)
          (lookup (deref_str m.id) firmware)
          (sync_machine c m skus firmware s).1
  unfolding sync_machine machine_to_baremetal_host ◌>>=◌ call
  sync_machine-HasFirmware m skus firmware s e =
      let r = written_host m skus s in
      let versions = lookup (deref_str m.id) firmware in
      let ran = unless_failed-done r.0 (sync_firmware c m (deref_str m.id) versions) r.1 e in
      HasFirmware-along store m (deref_str m.id) versions
        (sync_firmware c m (deref_str m.id) versions r.1).1 _
        (ap (λ q. store.view q.1.world c.namespace (bmh_name_from_id (deref_str m.id))) ran.1)
        (sync_firmware-HasFirmware store m (deref_str m.id) versions r.1 ran.0)

  -- The host and the firmware of the machine are as they are wanted.
  pub record IsWanted (m : NicoMachine) (id : String) (skus : Dict Sku)
      (firmware : Dict (Dict String)) (t : State S) : Type 0 where
    pub ShowsHost :
        Shows (wanted m skus) (store.view t.world c.namespace (bmh_name_from_id id)).host
    pub ShowsFirmware : HasFirmware store m id (lookup id firmware) t

  pub bmh_name-some :
      (m : NicoMachine) (id : String) → m.id ≡ some id → bmh_name m ≡ bmh_name_from_id id
  unfolding bmh_name
  bmh_name-some m id e = ap (λ o. bmh_name_from_id (deref_str o)) e

  HasFirmware-named :
      (m : NicoMachine) (i j : String) (firmware : Dict (Dict String)) (t : State S)
      → i ≡ j
      → HasFirmware store m i (lookup i firmware) t
      → HasFirmware store m j (lookup j firmware) t
  HasFirmware-named m i j firmware t e h = rw (sym e) h

  pub sync_machine-IsWanted :
      (m : NicoMachine) (id : String) (skus : Dict Sku) (firmware : Dict (Dict String))
      (s : State S)
      → m.id ≡ some id
      → (sync_machine c m skus firmware s).0 ≡ none
      → IsWanted m id skus firmware (sync_machine c m skus firmware s).1
  sync_machine-IsWanted m id skus firmware s e f = record {
    ShowsHost =
        Shows-along (wanted m skus)
          (ap
            (λ name. (store.view (sync_machine c m skus firmware s).1.world c.namespace name).host)
            (sym (bmh_name-some m id e)))
          (sync_machine-Shows m skus firmware s f);
    ShowsFirmware =
        HasFirmware-named m (deref_str m.id) id firmware _ (ap deref_str e)
          (sync_machine-HasFirmware m skus firmware s f);
  }

  pub IsWanted-along :
      (m : NicoMachine) (id : String) (skus : Dict Sku) (firmware : Dict (Dict String))
      (s t : State S)
      → store.view t.world c.namespace (bmh_name_from_id id)
        ≡ store.view s.world c.namespace (bmh_name_from_id id)
      → IsWanted m id skus firmware s
      → IsWanted m id skus firmware t
  IsWanted-along m id skus firmware s t e h = record {
    ShowsHost = Shows-along (wanted m skus) (ap (λ x. x.host) e) h.ShowsHost;
    ShowsFirmware = HasFirmware-along store m id (lookup id firmware) s t e h.ShowsFirmware;
  }
