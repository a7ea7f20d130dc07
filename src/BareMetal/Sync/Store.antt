-- ===== src/BareMetal/Sync/Store.antt =====
-- The hosts that the Kubernetes API holds, over a run of `sync`.
use machine_api_provider_nvi.Base.{◌≡◌, ◌≢◌, refl, sym, ap, ◌∙◌, String, Option, none, some, arith}
use machine_api_provider_nvi.Base.Text.{strip_prefix, strip_prefix-append}
use machine_api_provider_nvi.BareMetal.Types.{FirmwareComponents, Host, HostSpec}
use machine_api_provider_nvi.BareMetal.Cluster.{
  Got, got, absent, get_failed, Cluster, State, call, pure, ◌>>=◌, failure_of, wrapped,
}
use machine_api_provider_nvi.BareMetal.Cluster.Frames.{
  Frame, Keeps, Keeps-call, Keeps-bind, Keeps-pure, keeps_rules,
}
use machine_api_provider_nvi.BareMetal.Sync.Effects.{KeepsReads, KeepsComponents}
use machine_api_provider_nvi.BareMetal.Mapper.{bmh_name_from_id}
use machine_api_provider_nvi.BareMetal.Sync.{overwritten, write_host}

-- The fields that the program sets of a spec; the API server may set the others.
abbrev pub IsSameSpec : HostSpec → HostSpec → Type 0
IsSameSpec a b =
    (a.online ≡ b.online)
    × (a.externally_provisioned ≡ b.externally_provisioned)
    × (a.bmc_address ≡ b.bmc_address)
    × (a.boot_mac_address ≡ b.boot_mac_address)

-- There is a host, and it has the content of `desired`.
abbrev pub Shows : Host → Option Host → Type 0
Shows desired none = ⊥
Shows desired (some h) =
    IsSameSpec h.spec desired.spec
    × (h.labels ≡ desired.labels)
    × (h.annotations ≡ desired.annotations)

-- There are components, and they are those of `desired`.
abbrev pub ShowsComponents : FirmwareComponents → Option FirmwareComponents → Type 0
ShowsComponents desired none = ⊥
ShowsComponents desired (some o) = o.components ≡ desired.components

-- What is stored under one namespace and name.
pub record Entry : Type 0 where
  pub host : Option Host
  pub components : Option FirmwareComponents

-- The documented behaviour of the API server and its client, while nobody else writes these
-- objects: what is stored under a namespace and a name, and what the calls do to it.
pub record ObjectStore {S : Type 0} (c : Cluster S) : Type 0 where
  pub view : S → String → String → Entry
  -- What writes nothing changes nothing.
  pub view_all_machine :
      (org : String) (w : S) (ns name : String)
      → view (c.get_all_machine org w).1 ns name ≡ view w ns name
  pub view_all_sku :
      (org : String) (w : S) (ns name : String)
      → view (c.get_all_sku org w).1 ns name ≡ view w ns name
  pub view_endpoints :
      (org : String) (w : S) (ns name : String)
      → view (c.get_all_site_explorer_endpoint org w).1 ns name ≡ view w ns name
  pub view_get :
      (n m : String) (w : S) (ns name : String) → view (c.get_host n m w).1 ns name ≡ view w ns name
  pub view_get_components :
      (n m : String) (w : S) (ns name : String)
      → view (c.get_components n m w).1 ns name ≡ view w ns name
  -- What `Get` finds has the key that was asked for, and `Create` leaves the object's key and
  -- components in memory as they are.
  pub got_key :
      (ns name : String) (w : S) (h : Host)
      → (c.get_host ns name w).0 ≡ got h
      → (h.namespace ≡ ns) × (h.name ≡ name)
  pub got_components_key :
      (ns name : String) (w : S) (o : FirmwareComponents)
      → (c.get_components ns name w).0 ≡ got o
      → (o.namespace ≡ ns) × (o.name ≡ name)
  pub created_same :
      (o : FirmwareComponents) (w : S)
      → let o' = (c.create_components o w).0.0 in
        (o'.namespace ≡ o.namespace) × (o'.name ≡ o.name) × (o'.components ≡ o.components)
  -- A write without an error is seen.
  pub view_create :
      (h : Host) (w : S)
      → (c.create_host h w).0 ≡ none
      → Shows h (view (c.create_host h w).1 h.namespace h.name).host
  pub view_update :
      (h : Host) (w : S)
      → (c.update_host h w).0 ≡ none
      → Shows h (view (c.update_host h w).1 h.namespace h.name).host
  pub view_update_components :
      (o : FirmwareComponents) (w : S)
      → (c.update_components_status o w).0 ≡ none
      → ShowsComponents o (view (c.update_components_status o w).1 o.namespace o.name).components
  -- No write changes what another name has, and those of the components change no host.
  pub create_elsewhere :
      (h : Host) (w : S) (ns name : String)
      → h.name ≢ name
      → view (c.create_host h w).1 ns name ≡ view w ns name
  pub update_elsewhere :
      (h : Host) (w : S) (ns name : String)
      → h.name ≢ name
      → view (c.update_host h w).1 ns name ≡ view w ns name
  pub create_components_elsewhere :
      (o : FirmwareComponents) (w : S) (ns name : String)
      → o.name ≢ name
      → view (c.create_components o w).1 ns name ≡ view w ns name
  pub update_components_elsewhere :
      (o : FirmwareComponents) (w : S) (ns name : String)
      → o.name ≢ name
      → view (c.update_components_status o w).1 ns name ≡ view w ns name
  pub create_components_hosts :
      (o : FirmwareComponents) (w : S) (ns name : String)
      → (view (c.create_components o w).1 ns name).host ≡ (view w ns name).host
  pub update_components_hosts :
      (o : FirmwareComponents) (w : S) (ns name : String)
      → (view (c.update_components_status o w).1 ns name).host ≡ (view w ns name).host

pub bmh_name_from_id-injective : (i j : String) → bmh_name_from_id i ≡ bmh_name_from_id j → i ≡ j
unfolding bmh_name_from_id
bmh_name_from_id-injective i j e = ground (
  arith,
  strip_prefix-append "nico-" i,
  strip_prefix-append "nico-" j,
  ap (strip_prefix "nico-") e,
)

module _ {S : Type 0} {c : Cluster S} (store : ObjectStore c) where
  -- What the store has under one key stays.
  abbrev pub unseen : String → String → Frame S
  unseen ns name = record {
    rel = λ s t. store.view t.world ns name ≡ store.view s.world ns name;
    same = λ s. refl;
    chain = λ s t u h k. k ∙ h;
  }

  pub reads_unseen : (ns name : String) → KeepsReads c (unseen ns name)
  reads_unseen ns name = record {
    at_all_machine = λ org s. store.view_all_machine org s.world ns name;
    at_all_sku = λ org s. store.view_all_sku org s.world ns name;
    at_endpoints = λ org s. store.view_endpoints org s.world ns name;
    at_host = λ n m s. store.view_get n m s.world ns name;
    at_components = λ n m s. store.view_get_components n m s.world ns name;
  }

  -- The host under one key stays.
  abbrev pub host_unseen : String → String → Frame S
  host_unseen ns name = record {
    rel = λ s t. (store.view t.world ns name).host ≡ (store.view s.world ns name).host;
    same = λ s. refl;
    chain = λ s t u h k. k ∙ h;
  }

  pub reads_host_unseen : (ns name : String) → KeepsReads c (host_unseen ns name)
  reads_host_unseen ns name = record {
    at_all_machine = λ org s. ap (λ e. e.host) (store.view_all_machine org s.world ns name);
    at_all_sku = λ org s. ap (λ e. e.host) (store.view_all_sku org s.world ns name);
    at_endpoints = λ org s. ap (λ e. e.host) (store.view_endpoints org s.world ns name);
    at_host = λ n m s. ap (λ e. e.host) (store.view_get n m s.world ns name);
    at_components = λ n m s. ap (λ e. e.host) (store.view_get_components n m s.world ns name);
  }

  pub components_host_unseen : (ns name : String) → KeepsComponents c (host_unseen ns name)
  components_host_unseen ns name = record {
    at_create_components = λ o s. store.create_components_hosts o s.world ns name;
    at_update_components = λ o s. store.update_components_hosts o s.world ns name;
  }

  -- A host is written under its own key only.
  pub write_host-unseen :
      (desired : Host) (existing : Got Host) (ns name : String)
      → desired.name ≢ name
      → ((h : Host) → existing ≡ got h → h.name ≡ desired.name)
      → Keeps (unseen ns name) (write_host c desired existing)
  unfolding write_host
  write_host-unseen desired absent ns name d h =
      Keeps-bind _ _ (Keeps-call _ (λ s. store.create_elsewhere desired s.world ns name d))
        (λ e. Keeps-pure _)
  write_host-unseen desired (get_failed text) ns name d h = search keeps_rules
  write_host-unseen desired (got existing) ns name d h =
      Keeps-bind _ _
        (Keeps-call _
          (λ s. store.update_elsewhere _ s.world ns name (λ e. d (sym (h existing refl) ∙ e))))
        (λ e. Keeps-pure _)

  Shows-same :
      (a b : Host) (o : Option Host)
      → a.spec ≡ b.spec
      → a.labels ≡ b.labels
      → a.annotations ≡ b.annotations
      → Shows a o
      → Shows b o
  Shows-same a b none e f g s = s
  Shows-same a b (some h) e f g s = rw (sym e) (rw (sym f) (rw (sym g) s))

  pub failure_none :
      (format : String) (e : Option String) → wrapped format (failure_of e) ≡ none → e ≡ none
  failure_none format none h = refl
  failure_none format (some text) h = absurd (ground (arith, h))

  pub write_host-Shows :
      (desired : Host) (existing : Got Host) (s : State S)
      → ((h : Host)
          → existing ≡ got h
          → (h.namespace ≡ desired.namespace) × (h.name ≡ desired.name))
      → (write_host c desired existing s).0 ≡ none
      → Shows desired
          (store.view (write_host c desired existing s).1.world desired.namespace desired.name).host
  unfolding write_host ◌>>=◌ call pure
  write_host-Shows desired absent s key e = store.view_create desired s.world (failure_none _ _ e)
  write_host-Shows desired (get_failed text) s key e = absurd (ground (arith, e))
  write_host-Shows desired (got h) s key e = rw (sym (key h refl).0) (
      rw (sym (key h refl).1) (
        Shows-same (overwritten h desired) desired _ refl refl refl
          (store.view_update _ s.world (failure_none _ _ e))))
