-- ===== src/BareMetal/Mapper.antt =====
-- pkg/controllers/baremetalhost/mapper.go: a NICo machine as a BareMetalHost, and its firmware.
pub mod Laws
use machine_api_provider_nvi.Base.{
  ℕ, suc, String, ◌<>◌, Bool, true, false, Option, none, some, List, [], ◌∷◌, ◌++◌, map, maybe,
  if◌then◌else◌,
}
use machine_api_provider_nvi.Base.Decimal.{itoa}
use machine_api_provider_nvi.Base.Dict.{Dict, insert}
use machine_api_provider_nvi.Base.Int.{ℤ, pos}
use machine_api_provider_nvi.Base.Int64.{add64, mul64, quot64}
use machine_api_provider_nvi.Api.Errors.{LibResult, done, failed}
use machine_api_provider_nvi.BareMetal.Types.{
  MachineStatus, ready, in_use, other, BmcInfo, NetworkInterface, DmiData, Gpu, Metadata,
  NicoMachine, SkuCpu, SkuMemory, SkuStorage, SkuComponents, Sku, SystemVendor, BiosFirmware, Nic,
  Cpu, Disk, HardwareDetails, HostSpec, Host, FirmwareComponentStatus, FirmwareComponents,
}

abbrev pub hardware_details_annotation : String
hardware_details_annotation = "inspect.metal3.io/hardwaredetails"

abbrev pub nico_machine_id_label : String
nico_machine_id_label = "infra.nvidia.com/machine-id"

abbrev pub nico_site_id_label : String
nico_site_id_label = "infra.nvidia.com/site-id"

-- derefStr, and `if p != nil { field = *p }` for a field that is "" before.
abbrev pub deref_str : Option String → String
deref_str none = ""
deref_str (some s) = s

unfoldable pub bmh_name_from_id : String → String
bmh_name_from_id id = "nico-" <> id

unfoldable pub bmh_name : NicoMachine → String
unfolding bmh_name_from_id
bmh_name m = bmh_name_from_id (deref_str m.id)

unfoldable pub machine_is_online : MachineStatus → Bool
machine_is_online ready = true
machine_is_online in_use = true
machine_is_online (other s) = false

-- The parts of buildHardwareDetails.
abbrev pub nic_of : NetworkInterface → Nic
nic_of nic = record { mac = deref_str nic.mac_address; name = deref_str nic.device }

abbrev pub bios_of_dmi : Option DmiData → BiosFirmware
bios_of_dmi none = record { version = ""; date = "" }
bios_of_dmi (some dmi) = record {
  version = deref_str dmi.bios_version;
  date = deref_str dmi.bios_date;
}

abbrev pub bios_of : Option Metadata → BiosFirmware
bios_of none = record { version = ""; date = "" }
bios_of (some meta) = bios_of_dmi meta.dmi_data

abbrev pub nics_of : Option Metadata → List Nic
nics_of none = []
nics_of (some meta) = map nic_of meta.network_interfaces

-- The loop over the CPUs: each field keeps the last value.
unfoldable pub add_cpus : Cpu → List SkuCpu → Cpu
add_cpus cpu [] = cpu
add_cpus cpu (c ∷ cs) =
    add_cpus
      (record cpu {
        model = maybe c.model cpu.model (λ m. m);
        count = maybe c.count cpu.count (λ n. n);
      })
      cs

-- `int(totalMB * 1000000 / 1048576)` of a total of `capacity * count`.
unfoldable pub mebibytes : ℕ → ℕ → ℤ
mebibytes capacity count =
    quot64 (mul64 (mul64 (pos capacity) (pos count)) (pos 1_000_000)) 1_048_576

-- The memory of one entry, if both of its values are there.
abbrev pub memory_of : Option ℕ → Option ℕ → Option ℤ
memory_of (some capacity) (some count) = some (mebibytes capacity count)
memory_of (some capacity) none = none
memory_of none count = none

-- The loop over the memory.
unfoldable pub add_memory : ℤ → List SkuMemory → ℤ
add_memory ram [] = ram
add_memory ram (mem ∷ mems) =
    add_memory (maybe (memory_of mem.capacity_mb mem.count) ram (add64 ram)) mems

unfoldable pub disk_of : SkuStorage → Disk
disk_of stor = record {
  size_bytes = maybe stor.capacity_mb (pos 0) (λ capacity. mul64 (pos capacity) (pos 1_000_000));
  vendor = deref_str stor.vendor;
  model = deref_str stor.model;
}

-- What the SKU adds to the details.
unfoldable pub add_components : SkuComponents → HardwareDetails → HardwareDetails
add_components parts hd = record hd {
  cpu = add_cpus hd.cpu parts.cpus;
  ram_mebibytes = add_memory hd.ram_mebibytes parts.memory;
  storage = hd.storage ++ map disk_of parts.storage;
}

abbrev pub add_sku : Option Sku → HardwareDetails → HardwareDetails
add_sku none hd = hd
add_sku (some sku) hd = maybe sku.components hd (λ parts. add_components parts hd)

unfoldable pub build_hardware_details : NicoMachine → Option Sku → HardwareDetails
build_hardware_details m sku = add_sku sku (record {
  system_vendor = record {
    manufacturer = deref_str m.vendor;
    product_name = deref_str m.product_name;
    serial_number = deref_str m.serial_number;
  };
  bios = bios_of m.metadata;
  ram_mebibytes = pos 0;
  nics = nics_of m.metadata;
  cpu = record { arch = deref_str m.controller_machine_type; model = ""; count = 0 };
  storage = [];
})

abbrev pub bmc_address_of : Option BmcInfo → String
bmc_address_of none = ""
bmc_address_of (some bmc) =
    maybe bmc.ip "" (λ ip. "redfish+https://" <> (ip <> "/redfish/v1/Systems/1"))

abbrev pub boot_mac_of : List NetworkInterface → String
boot_mac_of [] = ""
boot_mac_of (nic ∷ nics) = deref_str nic.mac_address

-- The annotation, unless the details cannot be marshalled.
abbrev pub annotations_of : LibResult String → Dict String
annotations_of (failed e) = []
annotations_of (done raw) = (hardware_details_annotation, raw) ∷ []

module _ (marshal : HardwareDetails → LibResult String) where
  unfoldable pub machine_to_baremetal_host : NicoMachine → Option Sku → String → Host
  machine_to_baremetal_host m sku namespace = record {
    name = bmh_name m;
    namespace = namespace;
    labels =
        let own = (nico_machine_id_label, deref_str m.id) ∷ [] in
        maybe m.site_id own (λ site. insert nico_site_id_label site own);
    annotations = annotations_of (marshal (build_hardware_details m sku));
    spec = record {
      online = maybe m.status true machine_is_online;
      externally_provisioned = true;
      bmc_address = maybe m.metadata "" (λ meta. bmc_address_of meta.bmc_info);
      boot_mac_address = maybe m.metadata "" (λ meta. boot_mac_of meta.network_interfaces);
      others = "";
    };
    others = "";
  }

abbrev pub component_status : String → String → FirmwareComponentStatus
component_status component version = record {
  component = component;
  initial_version = version;
  current_version = version;
}

-- The loop over the versions, in the order in which the map is walked.
abbrev pub version_components : List (String × String) → List FirmwareComponentStatus
version_components = map (λ entry. component_status entry.0 entry.1)

abbrev pub bmc_components : Option BmcInfo → List FirmwareComponentStatus
bmc_components none = []
bmc_components (some bmc) =
    maybe bmc.firmware_revision [] (λ version. component_status "bmc" version ∷ [])

-- The loop over the GPUs, from an index on.
unfoldable pub gpu_components : ℕ → List Gpu → List FirmwareComponentStatus
gpu_components i [] = []
gpu_components i (gpu ∷ gpus) =
    maybe gpu.vbios_version []
      (λ version. component_status ("gpu-" <> (itoa i <> "-vbios")) version ∷ [])
    ++ gpu_components (suc i) gpus

abbrev pub metadata_components : Option Metadata → List FirmwareComponentStatus
metadata_components none = []
metadata_components (some meta) = bmc_components meta.bmc_info ++ gpu_components 0 meta.gpus

module _ (order : Dict String → List (String × String)) where
  unfoldable pub firmware_to_host_firmware_components :
      String → Dict String → NicoMachine → String → FirmwareComponents
  firmware_to_host_firmware_components machine_id versions m namespace = record {
    name = bmh_name_from_id machine_id;
    namespace = namespace;
    labels = (nico_machine_id_label, machine_id) ∷ [];
    components = version_components (order versions) ++ metadata_components m.metadata;
    last_updated = none;
    others = "";
  }
