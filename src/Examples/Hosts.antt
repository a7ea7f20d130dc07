-- ===== src/Examples/Hosts.antt =====
-- The controller of the hosts on the small cluster, its mapper, and the manager.
use machine_api_provider_nvi.Base.{
  ◌≡◌, ◌≢◌, refl, ap, inl, inr, String, Bool, true, false, Option, none, some, List, [], ◌∷◌, ◌++◌,
  map, maybe, is_some, last_found, ◌==◌, string_eq, arith,
}
use machine_api_provider_nvi.Base.Dict.{lookup}
use machine_api_provider_nvi.Base.Int.{pos}
use machine_api_provider_nvi.BareMetal.Types.{SkuComponents, Host}
use machine_api_provider_nvi.BareMetal.Cluster.{State}
use machine_api_provider_nvi.BareMetal.Mapper.{bmh_name, bmh_name_from_id, build_hardware_details}
use machine_api_provider_nvi.BareMetal.Mapper.Laws.{
  total_mebibytes, Fits, build_hardware_details-parts,
}
use machine_api_provider_nvi.BareMetal.Sync.{
  sync, set_up, get_sku_map, sku_map_of, firmware_map_of, start, done as done_wake, tick, returned,
}
use machine_api_provider_nvi.BareMetal.Sync.Cache.{
  IsUsable, here, next, synced, get_sku_map-IsUsable,
}
use machine_api_provider_nvi.BareMetal.Sync.Maps.{
  sku_for, versions_for, lookup-sku_map, lookup-firmware_map,
}
use machine_api_provider_nvi.BareMetal.Sync.Starts.{
  is_silent, Answers, after, syncs, start-done, is_some-sync,
}
use machine_api_provider_nvi.Manager.{Call, Stat, not_exist, default_flags, main}
use machine_api_provider_nvi.Manager.Laws.{Follows, plan_of, main-Follows}
use machine_api_provider_nvi.BareMetal.Sync.Converges.{SettledRun, sync-Settled, sync-unseen}
use machine_api_provider_nvi.Examples.Metal.{
  machine_with, nameless, small_sku, endpoint, Stored, nothing, cluster, object_store,
}

-- A test tells the two apart.
apart : {A : Type 0} {a b : A} (test : A → Bool) → test a ≡ false → test b ≡ true → a ≢ b
apart test f t e = ground (arith, f, t, ap test e)

sync-Settled_example : SettledRun object_store (machine_with "m-1") "m-1" (set_up nothing)
sync-Settled_example =
    sync-Settled object_store [] (machine_with "m-1") (nameless ∷ machine_with "m-2" ∷ []) "m-1"
      (set_up nothing) refl refl refl
      (apart is_some refl refl, (apart (λ o. maybe o false (λ id. id == "m-1")) refl refl, tt))

abbrev own_host : Host
own_host = record {
  name = "own";
  namespace = "metal";
  labels = [];
  annotations = [];
  spec = record {
    online = true;
    externally_provisioned = false;
    bmc_address = "";
    boot_mac_address = "";
    others = "";
  };
  others = "";
}

abbrev with_own : State (Stored)
with_own = set_up (record nothing { hosts = ("own", own_host) ∷ [] })

sync-unseen_example :
    (object_store.view (sync cluster with_own).1.world "metal" "own")
    ≡ record { host = some own_host; components = none }
unfolding lookup set_up bmh_name bmh_name_from_id
sync-unseen_example = sync-unseen object_store "metal" "own" with_own (
  inr (apart (λ s. s == "own") refl refl),
  (inl refl, (inr (apart (λ s. s == "own") refl refl), tt)),
)

answers : Answers cluster
unfolding is_silent
answers = λ org w. refl

abbrev busy : List (Stored → Stored)
busy = (λ w. nothing) ∷ (λ w. w) ∷ []

start-done_example :
    let run =
      start cluster (map tick busy ++ done_wake (λ w. w) ∷ tick (λ w. w) ∷ []) (set_up nothing) in
    (run.0.0 ≡ returned) × (run.1 ≡ after cluster (λ w. w) (syncs cluster busy (set_up nothing)))
start-done_example = start-done cluster answers busy (λ w. w) (tick (λ w. w) ∷ []) (set_up nothing)

is_some-sync_example : is_some (sync cluster (set_up nothing)).0 ≡ true
unfolding is_silent
is_some-sync_example = is_some-sync cluster (set_up nothing)

get_sku_map-IsUsable_example :
    IsUsable cluster
      (sync cluster (set_up nothing)).1
      (get_sku_map cluster (sync cluster (set_up nothing)).1).0
get_sku_map-IsUsable_example =
    get_sku_map-IsUsable cluster nothing (sync cluster (set_up nothing)).1
      (next here (synced (set_up nothing)))

lookup-sku_map_example :
    lookup "m-2" (sku_map_of (small_sku ∷ []) []) ≡ last_found (sku_for "m-2") (small_sku ∷ [])
lookup-sku_map_example = lookup-sku_map "m-2" (small_sku ∷ [])

lookup-firmware_map_example :
    lookup "m-2" (firmware_map_of (endpoint ∷ []) [])
    ≡ last_found (versions_for "m-2") (endpoint ∷ [])
lookup-firmware_map_example = lookup-firmware_map "m-2" (endpoint ∷ [])

abbrev small_parts : SkuComponents
small_parts = record {
  cpus = record { model = some "EPYC"; count = some 2 } ∷ [];
  memory = record { capacity_mb = some 32768; count = some 32 } ∷ [];
  storage = record { vendor = none; model = none; capacity_mb = some 4_294_967_295 } ∷ [];
}

build_hardware_details-parts_example :
    let hd = build_hardware_details nameless (some small_sku) in
    (hd.ram_mebibytes ≡ pos 1_000_000)
    × (map (λ d. d.size_bytes) hd.storage ≡ pos 4_294_967_295_000_000 ∷ [])
    × (hd.cpu.model ≡ "EPYC")
    × (hd.cpu.count ≡ 2)
unfolding total_mebibytes Fits last_found
build_hardware_details-parts_example =
    build_hardware_details-parts nameless small_sku small_parts refl
      ((ground arith, tt), ground arith) (ground arith, tt)

abbrev no_certificates : String → Stat
no_certificates dir = not_exist

abbrev no_error : Call → Option String
no_error call = none

main-Follows_example :
    Follows no_certificates no_error
      (plan_of no_certificates no_error default_flags)
      (main no_error no_certificates default_flags)
main-Follows_example = main-Follows no_certificates no_error default_flags
