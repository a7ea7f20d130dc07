-- ===== src/BareMetal/Sync/Effects.antt =====
-- The operations of the controller under a frame that the calls they make keep.
use machine_api_provider_nvi.Base.{◌≡◌, refl, ℕ, String, Bool, Option, none, some, List}
use machine_api_provider_nvi.Base.Dict.{Dict}
use machine_api_provider_nvi.Api.Errors.{GoError}
use machine_api_provider_nvi.Api.Sdk.{Reply}
use machine_api_provider_nvi.BareMetal.Types.{NicoMachine, Sku, FirmwareComponents}
use machine_api_provider_nvi.BareMetal.Cluster.{
  Got, got, absent, get_failed, Cluster, State, M, set_cache,
}
use machine_api_provider_nvi.BareMetal.Cluster.Frames.{
  Frame, Keeps, Keeps-bind, Keeps-if, Keeps-now, Keeps-get_state, Keeps-pure, Keeps-call,
  keeps_rules,
}
use machine_api_provider_nvi.BareMetal.Sync.{
  sync_firmware, sync_firmware_components, created_status, update_status, write_components,
  unless_failed, get_firmware_map, Line, visit, get_sku_map, cached_or, fetch_sku_map,
  refresh_sku_map,
}

-- The calls that write nothing keep the frame.
pub record KeepsReads {S : Type 0} (c : Cluster S) (F : Frame S) : Type 0 where
  pub at_all_machine :
      (org : String) (s : State S)
      → F.rel s (record s { world = (c.get_all_machine org s.world).1 })
  pub at_all_sku :
      (org : String) (s : State S) → F.rel s (record s { world = (c.get_all_sku org s.world).1 })
  pub at_endpoints :
      (org : String) (s : State S)
      → F.rel s (record s { world = (c.get_all_site_explorer_endpoint org s.world).1 })
  pub at_host :
      (ns name : String) (s : State S)
      → F.rel s (record s { world = (c.get_host ns name s.world).1 })
  pub at_components :
      (ns name : String) (s : State S)
      → F.rel s (record s { world = (c.get_components ns name s.world).1 })

-- The writes of the firmware components keep the frame.
pub record KeepsComponents {S : Type 0} (c : Cluster S) (F : Frame S) : Type 0 where
  pub at_create_components :
      (o : FirmwareComponents) (s : State S)
      → F.rel s (record s { world = (c.create_components o s.world).1 })
  pub at_update_components :
      (o : FirmwareComponents) (s : State S)
      → F.rel s (record s { world = (c.update_components_status o s.world).1 })

module _ {S : Type 0} (c : Cluster S) {F : Frame S} (k : KeepsReads c F) where
  module _ (w : KeepsComponents c F) where
    update_status-Keeps :
        (desired existing : FirmwareComponents) → Keeps F (update_status c desired existing)
    unfolding update_status
    update_status-Keeps desired existing = search (keeps_rules, w.at_update_components)

    created_status-Keeps :
        (created : FirmwareComponents × Option String) → Keeps F (created_status c created)
    unfolding created_status
    created_status-Keeps (o, none) = update_status-Keeps o o
    created_status-Keeps (o, some text) = search keeps_rules

    write_components-Keeps :
        (desired : FirmwareComponents) (existing : Got FirmwareComponents)
        → Keeps F (write_components c desired existing)
    unfolding write_components
    write_components-Keeps desired absent =
        search (keeps_rules, w.at_create_components, created_status-Keeps)
    write_components-Keeps desired (get_failed text) = search keeps_rules
    write_components-Keeps desired (got existing) = update_status-Keeps desired existing

    pub sync_firmware-Keeps :
        (m : NicoMachine) (id : String) (versions : Option (Dict String))
        → Keeps F (sync_firmware c m id versions)
    unfolding sync_firmware sync_firmware_components
    sync_firmware-Keeps m id none = search keeps_rules
    sync_firmware-Keeps m id (some versions) =
        search (keeps_rules, k.at_components, write_components-Keeps) depth 10

  pub unless_failed-Keeps :
      (e : Option GoError) (next : M S (Option GoError))
      → Keeps F next
      → Keeps F (unless_failed c e next)
  unfolding unless_failed
  unless_failed-Keeps none next h = h
  unless_failed-Keeps (some e) next h = search keeps_rules

  pub get_firmware_map-Keeps : Keeps F (get_firmware_map c)
  unfolding get_firmware_map
  get_firmware_map-Keeps = search (keeps_rules, k.at_endpoints)

  pub visit-Keeps :
      (id : Option String) (one : M S (Option GoError)) (rest : M S (List Line))
      → ((i : String) → id ≡ some i → Keeps F one)
      → Keeps F rest
      → Keeps F (visit c id one rest)
  unfolding visit
  visit-Keeps none one rest h g = g
  visit-Keeps (some i) one rest h g =
      Keeps-bind one _ (h i refl) (λ e. Keeps-bind rest _ g (λ lines. Keeps-pure _))

  -- The SKUs, where a change of the cache keeps the frame too.
  module _
      (writes : (skus : Dict Sku) (expiry : ℕ) (s : State S)
        → F.rel s (record s { sku_cache = some skus; sku_cache_expiry = expiry })) where
    set_cache-Keeps : (skus : Dict Sku) (expiry : ℕ) → Keeps F (set_cache skus expiry)
    unfolding set_cache
    set_cache-Keeps skus expiry = record { at = writes skus expiry }

    refresh-Keeps : (reply : Reply (List Sku)) → Keeps F (refresh_sku_map c reply)
    unfolding refresh_sku_map
    refresh-Keeps reply =
        Keeps-if _ _ _
          (Keeps-bind _ _ (Keeps-now c)
            (λ t. Keeps-bind _ _ (set_cache-Keeps _ _) (λ x. Keeps-pure _)))
          (Keeps-pure _)

    fetch-Keeps : Keeps F (fetch_sku_map c)
    unfolding fetch_sku_map
    fetch-Keeps = Keeps-bind _ _ (Keeps-call _ (k.at_all_sku c.org_name)) refresh-Keeps

    cached_or-Keeps :
        (cache : Option (Dict Sku)) (fresh : Bool)
        → Keeps F (cached_or c cache fresh (fetch_sku_map c))
    unfolding cached_or
    cached_or-Keeps none fresh = fetch-Keeps
    cached_or-Keeps (some skus) fresh = Keeps-if _ _ _ (Keeps-pure skus) fetch-Keeps

    pub get_sku_map-Keeps : Keeps F (get_sku_map c)
    unfolding get_sku_map
    get_sku_map-Keeps =
        Keeps-bind _ _ Keeps-get_state
          (λ s. Keeps-bind _ _ (Keeps-now c) (λ t. cached_or-Keeps _ _))
