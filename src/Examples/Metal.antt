-- ===== src/Examples/Metal.antt =====
-- A small cluster for the controller of the hosts: the world is what is stored by names.
use machine_api_provider_nvi.Base.{
  ◌≡◌, ◌≢◌, refl, ap, String, Option, none, some, List, [], ◌∷◌, string_eq, eq_refl, arith, eq_iff,
}
use machine_api_provider_nvi.Base.Dict.{Dict, lookup, insert, lookup-insert}
use machine_api_provider_nvi.Api.Errors.{done}
use machine_api_provider_nvi.BareMetal.Types.{
  NicoMachine, ready, Sku, ExploredEndpoint, Host, FirmwareComponents,
}
use machine_api_provider_nvi.BareMetal.Cluster.{Got, got, absent, Cluster}
use machine_api_provider_nvi.BareMetal.Sync.Store.{ObjectStore, Shows, ShowsComponents}
use machine_api_provider_nvi.Examples.Sample.{answer}

abbrev pub machine_with : String → NicoMachine
machine_with id = record {
  id = some id;
  site_id = some "site-1";
  status = some ready;
  vendor = some "NVIDIA";
  product_name = none;
  serial_number = none;
  controller_machine_type = some "x86_64";
  metadata = none;
}

abbrev pub nameless : NicoMachine
nameless = record (machine_with "") { id = none }

abbrev pub small_sku : Sku
small_sku = record {
  components = some (record {
    cpus = record { model = some "EPYC"; count = some 2 } ∷ [];
    memory = record { capacity_mb = some 32768; count = some 32 } ∷ [];
    storage = record { vendor = none; model = none; capacity_mb = some 4_294_967_295 } ∷ [];
  });
  associated_machine_ids = "m-1" ∷ "m-2" ∷ [];
}

abbrev pub endpoint : ExploredEndpoint
endpoint = record {
  report = some (record { machine_id = some "m-2"; firmware_versions = ("bios", "1.2") ∷ [] });
}

abbrev pub machines : List NicoMachine
machines = machine_with "m-1" ∷ nameless ∷ machine_with "m-2" ∷ []

pub record Stored : Type 0 where
  pub hosts : Dict Host
  pub firmware : Dict FirmwareComponents

abbrev pub nothing : Stored
nothing = record { hosts = []; firmware = [] }

pub found_as : String → String → Option Host → Got Host
found_as ns name none = absent
found_as ns name (some h) = got (record h { name = name; namespace = ns })

pub components_as : String → String → Option FirmwareComponents → Got FirmwareComponents
components_as ns name none = absent
components_as ns name (some o) = got (record o { name = name; namespace = ns })

abbrev pub put_host : Host → Stored → Stored
put_host h w = record w { hosts = insert h.name h w.hosts }

abbrev pub put_components : FirmwareComponents → Stored → Stored
put_components o w = record w { firmware = insert o.name o w.firmware }

abbrev pub cluster : Cluster Stored
cluster = record {
  org_name = "org";
  namespace = "metal";
  get_all_machine = λ org w. (answer machines, w);
  get_all_sku = λ org w. (answer (small_sku ∷ []), w);
  get_all_site_explorer_endpoint = λ org w. (answer (endpoint ∷ []), w);
  get_host = λ ns name w. (found_as ns name (lookup name w.hosts), w);
  create_host = λ h w. (none, put_host h w);
  update_host = λ h w. (none, put_host h w);
  get_components = λ ns name w. (components_as ns name (lookup name w.firmware), w);
  create_components = λ o w. ((o, none), put_components (record o { components = [] }) w);
  update_components_status = λ o w. (none, put_components o w);
  clock = λ w. 1000;
  marshal = λ hd. done "{}";
  order = λ d. d;
}

stored {ℓ} :
    {V : Type ℓ} (name : String) (v : V) (d : Dict V) → lookup name (insert name v d) ≡ some v
stored name v d = ground (arith, eq_refl name, lookup-insert name name v d)

pub elsewhere {ℓ} :
    {V : Type ℓ} (k name : String) (v : V) (d : Dict V)
    → k ≢ name
    → lookup name (insert k v d) ≡ lookup name d
elsewhere k name v d h = ground (arith, h, lookup-insert k name v d, eq_iff k name)

pub keyed :
    (ns name : String) (o : Option Host) (h : Host)
    → found_as ns name o ≡ got h
    → (h.namespace ≡ ns) × (h.name ≡ name)
unfolding found_as
keyed ns name none h e = absurd (ground (arith, e))
keyed ns name (some o) h e = (cc, cc)

pub keyed_components :
    (ns name : String) (o : Option FirmwareComponents) (h : FirmwareComponents)
    → components_as ns name o ≡ got h
    → (h.namespace ≡ ns) × (h.name ≡ name)
unfolding components_as
keyed_components ns name none h e = absurd (ground (arith, e))
keyed_components ns name (some o) h e = (cc, cc)

pub shown : (h : Host) (d : Dict Host) → Shows h (lookup h.name (insert h.name h d))
shown h d = rw (stored h.name h d) ((refl, refl, refl, refl), refl, refl)

pub components_shown :
    (o : FirmwareComponents) (d : Dict FirmwareComponents)
    → ShowsComponents o (lookup o.name (insert o.name o d))
components_shown o d = rw (stored o.name o d) refl

abbrev pub object_store : ObjectStore cluster
object_store = record {
  view = λ w ns name. record { host = lookup name w.hosts; components = lookup name w.firmware };
  view_all_machine = λ org w ns name. refl;
  view_all_sku = λ org w ns name. refl;
  view_endpoints = λ org w ns name. refl;
  view_get = λ n m w ns name. refl;
  view_get_components = λ n m w ns name. refl;
  got_key = λ ns name w h e. keyed ns name (lookup name w.hosts) h e;
  got_components_key = λ ns name w o e. keyed_components ns name (lookup name w.firmware) o e;
  created_same = λ o w. (refl, refl, refl);
  view_create = λ h w e. shown h w.hosts;
  view_update = λ h w e. shown h w.hosts;
  view_update_components = λ o w e. components_shown o w.firmware;
  create_elsewhere = λ h w ns name d.
      ap (λ x. record { host = x; components = lookup name w.firmware })
        (elsewhere h.name name h w.hosts d);
  update_elsewhere = λ h w ns name d.
      ap (λ x. record { host = x; components = lookup name w.firmware })
        (elsewhere h.name name h w.hosts d);
  create_components_elsewhere = λ o w ns name d.
      ap (λ x. record { host = lookup name w.hosts; components = x })
        (elsewhere o.name name (record o { components = [] }) w.firmware d);
  update_components_elsewhere = λ o w ns name d.
      ap (λ x. record { host = lookup name w.hosts; components = x })
        (elsewhere o.name name o w.firmware d);
  create_components_hosts = λ o w ns name. refl;
  update_components_hosts = λ o w ns name. refl;
}
