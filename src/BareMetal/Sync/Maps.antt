-- ===== src/BareMetal/Sync/Maps.antt =====
-- The two maps of getSkuMap and getFirmwareMap against the lists that they are made from.
use machine_api_provider_nvi.Base.{
  ◌≡◌, refl, String, Option, none, some, List, [], ◌∷◌, any, last_found, ◌==◌, string_eq, maybe,
  Option-cases, inl, inr, if◌then◌else◌, arith, false, not, ◌&&◌, is_empty, is_nil, eq_iff,
}
use machine_api_provider_nvi.Base.Dict.{Dict, lookup, insert, lookup-insert}
use machine_api_provider_nvi.BareMetal.Types.{Sku, ExploredEndpoint}
use machine_api_provider_nvi.BareMetal.Sync.{associate, sku_map_of, firmware_of, firmware_map_of}

-- The SKU, if it lists the machine.
unfoldable pub sku_for : String → Sku → Option Sku
sku_for id sku = if any (λ i. i == id) sku.associated_machine_ids then some sku else none

-- The firmware versions that an endpoint reports for the machine: its report names the machine by
-- an ID that is not empty, and has versions.
unfoldable pub versions_for : String → ExploredEndpoint → Option (Dict String)
versions_for id ep = maybe ep.report none (λ report.
    if maybe report.machine_id false (λ named. named == id)
      && not (is_empty id)
      && not (is_nil report.firmware_versions)
    then some report.firmware_versions
    else none)

-- What the loop adds to the map under the ID is what the report has for it.
versions_for-firmware_of :
    (id : String) (ep : ExploredEndpoint)
    → versions_for id ep
      ≡ maybe (firmware_of ep.report) none (λ entry. if entry.0 == id then some entry.1 else none)
unfolding versions_for
versions_for-firmware_of id ep = elim (Option-cases ep.report) [
  | inl e ↦ ground (arith, e)
  | inr (report, e) ↦ elim (Option-cases report.machine_id) [
    | inl k ↦ ground (arith, e, k)
    | inr (named, k) ↦ ground (arith, e, k, eq_iff named id, eq_iff named "", eq_iff id "")
  ]
]

lookup-associate :
    (id : String) (sku : Sku) (ids : List String) (skus : Dict Sku)
    → lookup id (associate sku ids skus)
      ≡ (if any (λ i. i == id) ids then some sku else lookup id skus)
unfolding associate
lookup-associate id sku [] skus = refl
lookup-associate id sku (i ∷ ids) skus =
    ground (arith, lookup-associate id sku ids (insert i sku skus), lookup-insert i id sku skus)

lookup-sku_map_from :
    (id : String) (rest : List Sku) (skus : Dict Sku)
    → lookup id (sku_map_of rest skus) ≡ maybe (last_found (sku_for id) rest) (lookup id skus) some
unfolding sku_map_of last_found sku_for
lookup-sku_map_from id [] skus = refl
lookup-sku_map_from id (sku ∷ rest) skus = ground (
  arith,
  lookup-sku_map_from id rest (associate sku sku.associated_machine_ids skus),
  lookup-associate id sku sku.associated_machine_ids skus,
)

-- The SKU map has for a machine ID the last SKU of the answer that lists the ID among its machines,
-- and nothing if none does.
pub lookup-sku_map :
    (id : String) (skus : List Sku) → lookup id (sku_map_of skus []) ≡ last_found (sku_for id) skus
unfolding lookup
lookup-sku_map id skus = ground (arith, lookup-sku_map_from id skus [])

lookup-firmware_map_from :
    (id : String) (eps : List ExploredEndpoint) (firmware : Dict (Dict String))
    → lookup id (firmware_map_of eps firmware)
      ≡ maybe (last_found (versions_for id) eps) (lookup id firmware) some
unfolding firmware_map_of last_found
lookup-firmware_map_from id [] firmware = refl
lookup-firmware_map_from id (ep ∷ eps) firmware = elim (Option-cases (firmware_of ep.report)) [
  | inl e ↦
      ground (arith, e, versions_for-firmware_of id ep, lookup-firmware_map_from id eps firmware)
  | inr (entry, e) ↦ ground (
    arith,
    e,
    versions_for-firmware_of id ep,
    lookup-firmware_map_from id eps (insert entry.0 entry.1 firmware),
    lookup-insert entry.0 id entry.1 firmware,
  )
]

-- The firmware map has for a machine ID the versions of the last endpoint whose report is for that
-- ID, which is not empty, and has versions; and nothing if there is none.
pub lookup-firmware_map :
    (id : String) (eps : List ExploredEndpoint)
    → lookup id (firmware_map_of eps []) ≡ last_found (versions_for id) eps
unfolding lookup
lookup-firmware_map id eps = ground (arith, lookup-firmware_map_from id eps [])
