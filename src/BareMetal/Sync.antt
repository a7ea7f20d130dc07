-- ===== src/BareMetal/Sync.antt =====
-- pkg/controllers/baremetalhost/controller.go: the BareMetalHosts follow the NICo machines. A nil
-- map is an empty one. Of the log, the lines of `sync` are its result.
pub mod Effects
pub mod Maps
pub mod Cache
pub mod Store
pub mod Firmware
pub mod Machines
pub mod Converges
pub mod Starts
use machine_api_provider_nvi.Base.{
  ℕ, suc, ◌+◌, ◌*◌, String, Bool, true, false, ◌&&◌, Option, none, some, List, [], ◌∷◌, ◌++◌, ltb,
  ◌==◌, string_eq, nat_eq, is_empty, is_some, is_nil, maybe, if◌then◌else◌,
}
use machine_api_provider_nvi.Base.Dict.{Dict, lookup, insert}
use machine_api_provider_nvi.Api.Errors.{GoError, external, wrapf}
use machine_api_provider_nvi.Api.Sdk.{HttpResponse, Reply}
use machine_api_provider_nvi.Actuator.Health.{succeeded}
use machine_api_provider_nvi.BareMetal.Types.{
  NicoMachine, Sku, EndpointReport, ExploredEndpoint, Host, FirmwareComponents,
}
use machine_api_provider_nvi.BareMetal.Cluster.{
  Got, got, absent, get_failed, Cluster, State, M, pure, call, ◌>>=◌, ◌>>◌, now, get_state,
  set_cache, failure_of, wrapped,
}
use machine_api_provider_nvi.BareMetal.Mapper.{
  deref_str, bmh_name_from_id, machine_to_baremetal_host, firmware_to_host_firmware_components,
}

-- The constant skuCacheTTL, in nanoseconds.
abbrev pub sku_cache_ttl : ℕ
sku_cache_ttl = 5 * 60 * 1_000_000_000

-- The inner loop of getSkuMap, over the machines of one SKU, and the outer one.
unfoldable pub associate : Sku → List String → Dict Sku → Dict Sku
associate sku [] skus = skus
associate sku (id ∷ ids) skus = associate sku ids (insert id sku skus)

unfoldable pub sku_map_of : List Sku → Dict Sku → Dict Sku
sku_map_of [] skus = skus
sku_map_of (sku ∷ rest) skus = sku_map_of rest (associate sku sku.associated_machine_ids skus)

-- The body of the loop of getFirmwareMap.
abbrev pub firmware_of : Option EndpointReport → Option (String × Dict String)
firmware_of none = none
firmware_of (some report) = maybe report.machine_id none (λ id.
    if is_empty id
    then none
    else if is_nil report.firmware_versions
    then none
    else some (id, report.firmware_versions))

unfoldable pub firmware_map_of : List ExploredEndpoint → Dict (Dict String) → Dict (Dict String)
firmware_map_of [] firmware = firmware
firmware_map_of (ep ∷ eps) firmware =
    firmware_map_of eps
      (maybe (firmware_of ep.report) firmware (λ entry. insert entry.0 entry.1 firmware))

-- The existing host as it is updated.
abbrev pub overwritten : Host → Host → Host
overwritten existing desired = record existing {
  spec = desired.spec;
  labels = desired.labels;
  annotations = desired.annotations;
}

-- What `sync` logs.
pub data Line : Type 0 where
  access_required : Line
  list_error : String → Line
  list_status : ℕ → Line
  machine_error : String → GoError → Line

-- What wakes `Start`: its context is done, or the ticker ticks. The world has moved by then.
pub data Wake (S : Type 0) : Type 0 where
  done : (S → S) → Wake S
  tick : (S → S) → Wake S

-- How `Start` stands after some wakes: it returned, it waits, or a panic ended it.
pub data Ending : Type 0 where
  returned waiting crashed : Ending

module _ {S : Type 0} (c : Cluster S) where
  pub refresh_sku_map : Reply (List Sku) → M S (Dict Sku)
  refresh_sku_map reply =
      if succeeded reply
      then (do
        let skus = sku_map_of reply.value []
        t ← now c
        set_cache skus (t + sku_cache_ttl)
        pure skus)
      else pure []

  pub fetch_sku_map : M S (Dict Sku)
  unfolding refresh_sku_map
  fetch_sku_map = do reply ← call (c.get_all_sku c.org_name); refresh_sku_map reply

  pub cached_or : Option (Dict Sku) → Bool → M S (Dict Sku) → M S (Dict Sku)
  cached_or none fresh fetch = fetch
  cached_or (some skus) fresh fetch = if fresh then pure skus else fetch

  unfoldable pub get_sku_map : M S (Dict Sku)
  unfolding fetch_sku_map cached_or
  get_sku_map = do
    s ← get_state
    t ← now c
    cached_or s.sku_cache (ltb t s.sku_cache_expiry) fetch_sku_map

  unfoldable pub get_firmware_map : M S (Dict (Dict String))
  get_firmware_map = do
    reply ← call (c.get_all_site_explorer_endpoint c.org_name)
    pure (if succeeded reply then firmware_map_of reply.value [] else [])

  -- The write of the status, with the components that `desired` has by now.
  pub update_status : FirmwareComponents → FirmwareComponents → M S (Option GoError)
  update_status desired existing = do
    t ← now c
    e ← call (
        c.update_components_status
          (record existing { components = desired.components; last_updated = some t }))
    pure (failure_of e)

  pub created_status : FirmwareComponents × Option String → M S (Option GoError)
  unfolding update_status
  created_status (o, none) = update_status o o
  created_status (o, some text) = pure (some (external text))

  -- After `Create`, `existing` and `desired` are one object.
  pub write_components : FirmwareComponents → Got FirmwareComponents → M S (Option GoError)
  unfolding created_status update_status
  write_components desired absent = do
    created ← call (c.create_components desired)
    created_status created
  write_components desired (get_failed text) = pure (some (external text))
  write_components desired (got existing) = update_status desired existing

  unfoldable pub sync_firmware_components :
      String → Dict String → NicoMachine → M S (Option GoError)
  unfolding write_components
  sync_firmware_components machine_id versions m = do
    let desired = firmware_to_host_firmware_components c.order machine_id versions m c.namespace
    existing ← call (c.get_components desired.namespace desired.name)
    write_components desired existing

  -- The host is created, or its spec, labels and annotations are replaced.
  unfoldable pub write_host : Host → Got Host → M S (Option GoError)
  write_host desired absent = do
    e ← call (c.create_host desired)
    pure (wrapped "create BMH: %w" (failure_of e))
  write_host desired (get_failed text) = pure (some (wrapf "get BMH: %w" [] (external text)))
  write_host desired (got existing) = do
    e ← call (c.update_host (overwritten existing desired))
    pure (wrapped "update BMH: %w" (failure_of e))

  -- The firmware of the machine, if there is any.
  unfoldable pub sync_firmware : NicoMachine → String → Option (Dict String) → M S (Option GoError)
  unfolding sync_firmware_components
  sync_firmware m machine_id none = pure none
  sync_firmware m machine_id (some versions) = do
    e ← sync_firmware_components machine_id versions m
    pure (wrapped "sync HFC: %w" e)

  pub unless_failed : Option GoError → M S (Option GoError) → M S (Option GoError)
  unless_failed (some e) next = pure (some e)
  unless_failed none next = next

  unfoldable pub sync_machine : NicoMachine → Dict Sku → Dict (Dict String) → M S (Option GoError)
  unfolding write_host sync_firmware unless_failed
  sync_machine m skus firmware = do
    let machine_id = deref_str m.id
    let desired = machine_to_baremetal_host c.marshal m (lookup machine_id skus) c.namespace
    existing ← call (c.get_host desired.namespace desired.name)
    e ← write_host desired existing
    unless_failed e (sync_firmware m machine_id (lookup machine_id firmware))

  abbrev pub log_failure : String → Option GoError → List Line → List Line
  log_failure id none lines = lines
  log_failure id (some e) lines = machine_error id e ∷ lines

  -- A machine without an ID is skipped.
  pub visit : Option String → M S (Option GoError) → M S (List Line) → M S (List Line)
  visit none one rest = rest
  visit (some id) one rest = do e ← one; lines ← rest; pure (log_failure id e lines)

  -- The loop over the machines.
  unfoldable pub sync_machines : List NicoMachine → Dict Sku → Dict (Dict String) → M S (List Line)
  unfolding visit
  sync_machines [] skus firmware = pure []
  sync_machines (m ∷ ms) skus firmware =
      visit m.id (sync_machine m skus firmware) (sync_machines ms skus firmware)

  -- What is logged when the machines could not be listed.
  -- Without a response and an error, the code of no response is read: a panic, which is `none`.
  pub unlisted : Option HttpResponse → Option String → Option (List Line)
  unlisted none none = none
  unlisted none (some text) = some (list_error text ∷ [])
  unlisted (some r) failure =
      if r.status_code == 403
      then some (access_required ∷ [])
      else some (maybe failure (list_status r.status_code) list_error ∷ [])

  pub sync_listed : List NicoMachine → M S (Option (List Line))
  sync_listed machines = do
    skus ← get_sku_map
    firmware ← get_firmware_map
    lines ← sync_machines machines skus firmware
    pure (some lines)

  unfoldable pub sync : M S (Option (List Line))
  unfolding unlisted sync_listed
  sync = do
    reply ← call (c.get_all_machine c.org_name)
    if succeeded reply then sync_listed reply.value else pure (unlisted reply.http reply.failure)

  pub await : (S → S) → M S (Unit {0})
  await move = call (λ w. (tt, move w))

  pub continue : Option (List Line) → M S (Ending × List Line) → M S (Ending × List Line)
  continue none next = pure (crashed, [])
  continue (some lines) next = do rest ← next; pure (rest.0, lines ++ rest.1)

  -- The loop of Start, with all that is logged.
  unfoldable pub start : List (Wake S) → M S (Ending × List Line)
  unfolding await continue
  start [] = do lines ← sync; continue lines (pure (waiting, []))
  start (done move ∷ wakes) = do lines ← sync; continue lines (await move >> pure (returned, []))
  start (tick move ∷ wakes) = do lines ← sync; continue lines (await move >> start wakes)

-- SetupWithManager: the reconciler that is added to the manager.
unfoldable pub set_up : {S : Type 0} → S → State S
set_up w = record { sku_cache = none; sku_cache_expiry = 0; world = w }
