-- ===== src/Actuator/Topology.antt =====
-- setTopologyLabels of pkg/actuators/machine/actuator.go.
pub mod Wanted
pub mod Laws
use machine_api_provider_nvi.Base.{
  String, Bool, true, false, not, ◌&&◌, Option, none, some, List, [], ◌∷◌, ◌==◌, string_eq, is_set,
  if◌then◌else◌,
}
use machine_api_provider_nvi.Base.Dict.{Dict, lookup, insert}
use machine_api_provider_nvi.Api.Types.{NicoMachineProviderSpec}
use machine_api_provider_nvi.Api.Sdk.{Instance, NvLinkInterface, InfiniBandInterface}
use machine_api_provider_nvi.Actuator.World.{Object}

-- The labels, and whether one of them changed.
abbrev pub Labels : Type 0
Labels = Dict String × Bool

-- `labels[key] != value`; a missing key reads as "".
abbrev pub differs : Option String → String → Bool
differs none value = is_set value
differs (some old) value = not (old == value)

-- The closure `set`.
unfoldable pub set_label : String → String → Labels → Labels
set_label key value (labels, changed) =
    if is_set value && differs (lookup key labels) value
    then (insert key value labels, true)
    else (labels, changed)

-- `if p != nil { set(key, *p) }`
abbrev pub set_label? : String → Option String → Labels → Labels
set_label? key none s = s
set_label? key (some value) s = set_label key value s

pub set_nv_link : List NvLinkInterface → Labels → Labels
set_nv_link [] s = s
set_nv_link (nvl ∷ rest) s =
    set_label? "infra.nvidia.com/nvlink-domain" nvl.nv_link_domain_id
      (set_label? "infra.nvidia.com/nvlink-partition" nvl.nv_link_logical_partition_id s)

pub set_infiniband : List InfiniBandInterface → Labels → Labels
set_infiniband [] s = s
set_infiniband (ib ∷ rest) s = set_label? "infra.nvidia.com/infiniband-partition" ib.partition_id s

unfoldable pub topology_labels : Instance → NicoMachineProviderSpec → Labels → Labels
unfolding set_nv_link set_infiniband
topology_labels inst spec s = set_infiniband inst.infiniband_interfaces (
    set_nv_link inst.nv_link_interfaces (
      set_label? "infra.nvidia.com/machine-id" inst.machine_id (
        set_label "node.kubernetes.io/instance-type" spec.instance_type_id
          (set_label? "topology.kubernetes.io/zone" inst.site_id s))))

-- The object with its labels set, and whether they changed.
unfoldable pub set_topology_labels : Object → Instance → NicoMachineProviderSpec → Object × Bool
set_topology_labels o inst spec =
    let (labels, changed) = topology_labels inst spec (o.labels, false) in
    (if changed then record o { labels = labels } else o, changed)
