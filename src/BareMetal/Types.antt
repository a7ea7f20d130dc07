-- ===== src/BareMetal/Types.antt =====
-- The structs of pkg/controllers/baremetalhost/mapper.go, and what the controller reads of the NICo
-- SDK and writes of the Metal3 API. A `uint32` is a number below 2 ^ 32.
use machine_api_provider_nvi.Base.{ℕ, String, Bool, List, Option}
use machine_api_provider_nvi.Base.Dict.{Dict}
use machine_api_provider_nvi.Base.Int.{ℤ}

-- nico.MachineStatus: the constants that the program names, and any other text.
pub data MachineStatus : Type 0 where
  ready in_use : MachineStatus
  other : String → MachineStatus

pub record BmcInfo : Type 0 where
  pub ip : Option String
  pub firmware_revision : Option String

pub record NetworkInterface : Type 0 where
  pub mac_address : Option String
  pub device : Option String

pub record DmiData : Type 0 where
  pub bios_version : Option String
  pub bios_date : Option String

pub record Gpu : Type 0 where
  pub vbios_version : Option String

pub record Metadata : Type 0 where
  pub bmc_info : Option BmcInfo
  pub network_interfaces : List NetworkInterface
  pub dmi_data : Option DmiData
  pub gpus : List Gpu

-- nico.Machine, as far as this controller reads it.
pub record NicoMachine : Type 0 where
  pub id : Option String
  pub site_id : Option String
  pub status : Option MachineStatus
  pub vendor : Option String
  pub product_name : Option String
  pub serial_number : Option String
  pub controller_machine_type : Option String
  pub metadata : Option Metadata

pub record SkuCpu : Type 0 where
  pub model : Option String
  pub count : Option ℕ

pub record SkuMemory : Type 0 where
  pub capacity_mb : Option ℕ
  pub count : Option ℕ

pub record SkuStorage : Type 0 where
  pub vendor : Option String
  pub model : Option String
  pub capacity_mb : Option ℕ

pub record SkuComponents : Type 0 where
  pub cpus : List SkuCpu
  pub memory : List SkuMemory
  pub storage : List SkuStorage

pub record Sku : Type 0 where
  pub components : Option SkuComponents
  pub associated_machine_ids : List String

pub record EndpointReport : Type 0 where
  pub machine_id : Option String
  pub firmware_versions : Dict String

pub record ExploredEndpoint : Type 0 where
  pub report : Option EndpointReport

pub record SystemVendor : Type 0 where
  pub manufacturer : String
  pub product_name : String
  pub serial_number : String

pub record BiosFirmware : Type 0 where
  pub version : String
  pub date : String

pub record Nic : Type 0 where
  pub mac : String
  pub name : String

pub record Cpu : Type 0 where
  pub arch : String
  pub model : String
  pub count : ℕ

pub record Disk : Type 0 where
  pub size_bytes : ℤ
  pub vendor : String
  pub model : String

-- `Firmware` has the one field `bios`, which stands for it here.
pub record HardwareDetails : Type 0 where
  pub system_vendor : SystemVendor
  pub bios : BiosFirmware
  pub ram_mebibytes : ℤ
  pub nics : List Nic
  pub cpu : Cpu
  pub storage : List Disk

-- metal3.BareMetalHostSpec; the fields that the program leaves at their zero values are one text,
-- which is empty for these.
pub record HostSpec : Type 0 where
  pub online : Bool
  pub externally_provisioned : Bool
  pub bmc_address : String
  pub boot_mac_address : String
  pub others : String

-- metal3.BareMetalHost; its other metadata and its status are one text.
pub record Host : Type 0 where
  pub name : String
  pub namespace : String
  pub labels : Dict String
  pub annotations : Dict String
  pub spec : HostSpec
  pub others : String

pub record FirmwareComponentStatus : Type 0 where
  pub component : String
  pub initial_version : String
  pub current_version : String

-- metal3.HostFirmwareComponents; its other fields are one text.
pub record FirmwareComponents : Type 0 where
  pub name : String
  pub namespace : String
  pub labels : Dict String
  pub components : List FirmwareComponentStatus
  pub last_updated : Option ℕ
  pub others : String
