-- ===== src/Smbios/Types.antt =====
-- The data of include/smbios.h. A `char[n]` is the list of its n bytes.
use hardware_monitor_azk.Base.{
  ℕ, ◌≤◌, ◌<◌, ◌≡◌, refl, Bool, false, List, length, replicate, All, All-replicate, ◌^◌, arith,
}
use hardware_monitor_azk.Buffer.{Bytes}
use hardware_monitor_azk.Buffer.Text.{text_of}

abbrev pub smbios_max_memory_devices : ℕ
smbios_max_memory_devices = 64

abbrev pub smbios_str_max : ℕ
smbios_str_max = 64

pub record SmbiosBiosInfo : Type 0 where
  pub available : Bool
  pub vendor : Bytes
  pub version : Bytes
  pub release_date : Bytes

pub record SmbiosSystemInfo : Type 0 where
  pub available : Bool
  pub manufacturer : Bytes
  pub product : Bytes
  pub version : Bytes
  pub serial : Bytes
  pub uuid_available : Bool
  pub uuid : Bytes

pub record SmbiosBaseboardInfo : Type 0 where
  pub available : Bool
  pub manufacturer : Bytes
  pub product : Bytes
  pub version : Bytes
  pub serial : Bytes

pub record SmbiosChassisInfo : Type 0 where
  pub available : Bool
  pub chassis_type : ℕ
  pub manufacturer : Bytes
  pub serial : Bytes

pub record SmbiosMemoryDevice : Type 0 where
  pub populated : Bool
  pub size_mb : ℕ
  pub speed_mts : ℕ
  pub configured_speed_mts : ℕ
  pub memory_type : ℕ
  pub manufacturer : Bytes
  pub part_number : Bytes
  pub serial : Bytes
  pub locator : Bytes

pub record SmbiosData : Type 0 where
  pub available : Bool
  pub major_version : ℕ
  pub minor_version : ℕ
  pub bios : SmbiosBiosInfo
  pub system : SmbiosSystemInfo
  pub baseboard : SmbiosBaseboardInfo
  pub chassis : SmbiosChassisInfo
  pub memory_devices : List SmbiosMemoryDevice
  pub memory_device_count : ℕ
  pub structures_parsed : ℕ
  pub structures_malformed_skipped : ℕ

-- What `memset(…, 0, sizeof …)` leaves.
abbrev pub zero_text : Bytes
zero_text = replicate smbios_str_max 0

abbrev pub zero_bios : SmbiosBiosInfo
zero_bios = record {
  available = false;
  vendor = zero_text;
  version = zero_text;
  release_date = zero_text;
}

abbrev pub zero_system : SmbiosSystemInfo
zero_system = record {
  available = false;
  manufacturer = zero_text;
  product = zero_text;
  version = zero_text;
  serial = zero_text;
  uuid_available = false;
  uuid = replicate 37 0;
}

abbrev pub zero_baseboard : SmbiosBaseboardInfo
zero_baseboard = record {
  available = false;
  manufacturer = zero_text;
  product = zero_text;
  version = zero_text;
  serial = zero_text;
}

abbrev pub zero_chassis : SmbiosChassisInfo
zero_chassis = record {
  available = false;
  chassis_type = 0;
  manufacturer = zero_text;
  serial = zero_text;
}

abbrev pub zero_memory_device : SmbiosMemoryDevice
zero_memory_device = record {
  populated = false;
  size_mb = 0;
  speed_mts = 0;
  configured_speed_mts = 0;
  memory_type = 0;
  manufacturer = zero_text;
  part_number = zero_text;
  serial = zero_text;
  locator = zero_text;
}

abbrev pub zero_data : SmbiosData
zero_data = record {
  available = false;
  major_version = 0;
  minor_version = 0;
  bios = zero_bios;
  system = zero_system;
  baseboard = zero_baseboard;
  chassis = zero_chassis;
  memory_devices = replicate smbios_max_memory_devices zero_memory_device;
  memory_device_count = 0;
  structures_parsed = 0;
  structures_malformed_skipped = 0;
}

-- A `char[n]` that holds a string: a NUL stands among its n bytes.
pub record IsField (n : ℕ) (array : Bytes) : Type 0 where
  pub size : length array ≡ n
  pub terminated : length (text_of array) < n

pub record IsBios (b : SmbiosBiosInfo) : Type 0 where
  pub vendor : IsField smbios_str_max b.vendor
  pub version : IsField smbios_str_max b.version
  pub release_date : IsField smbios_str_max b.release_date

pub record IsSystem (s : SmbiosSystemInfo) : Type 0 where
  pub manufacturer : IsField smbios_str_max s.manufacturer
  pub product : IsField smbios_str_max s.product
  pub version : IsField smbios_str_max s.version
  pub serial : IsField smbios_str_max s.serial
  pub uuid : IsField 37 s.uuid

pub record IsBaseboard (b : SmbiosBaseboardInfo) : Type 0 where
  pub manufacturer : IsField smbios_str_max b.manufacturer
  pub product : IsField smbios_str_max b.product
  pub version : IsField smbios_str_max b.version
  pub serial : IsField smbios_str_max b.serial

pub record IsChassis (c : SmbiosChassisInfo) : Type 0 where
  pub chassis_type : c.chassis_type < 128
  pub manufacturer : IsField smbios_str_max c.manufacturer
  pub serial : IsField smbios_str_max c.serial

pub record IsMemoryDevice (m : SmbiosMemoryDevice) : Type 0 where
  pub size_mb : m.size_mb < 2 ^ 31
  pub speed_mts : m.speed_mts < 2 ^ 16
  pub configured_speed_mts : m.configured_speed_mts < 2 ^ 16
  pub memory_type : m.memory_type < 2 ^ 8
  pub manufacturer : IsField smbios_str_max m.manufacturer
  pub part_number : IsField smbios_str_max m.part_number
  pub serial : IsField smbios_str_max m.serial
  pub locator : IsField smbios_str_max m.locator

-- The invariant of the record that the parser fills. The walk stops at the first malformed
-- structure, so that it counts one at most.
pub record IsSmbiosData (d : SmbiosData) : Type 0 where
  pub bios : IsBios d.bios
  pub system : IsSystem d.system
  pub baseboard : IsBaseboard d.baseboard
  pub chassis : IsChassis d.chassis
  pub slots : length d.memory_devices ≡ smbios_max_memory_devices
  pub devices : All IsMemoryDevice d.memory_devices
  pub count : d.memory_device_count ≤ smbios_max_memory_devices
  pub major : d.major_version < 2 ^ 8
  pub minor : d.minor_version < 2 ^ 8
  pub parsed : d.structures_parsed < 2 ^ 32
  pub malformed : d.structures_malformed_skipped ≤ 1

-- The walk alone changes the counters and the version.
abbrev pub SameCounts : SmbiosData → SmbiosData → Type 0
SameCounts d d' =
    (d'.structures_parsed ≡ d.structures_parsed)
    × (d'.structures_malformed_skipped ≡ d.structures_malformed_skipped)

zero_text-IsField : IsField smbios_str_max zero_text
unfolding text_of
zero_text-IsField = record { size = refl; terminated = omega arith }

zero_uuid-IsField : IsField 37 (replicate 37 0)
unfolding text_of
zero_uuid-IsField = record { size = refl; terminated = omega arith }

pub zero_memory_device-IsMemoryDevice : IsMemoryDevice zero_memory_device
zero_memory_device-IsMemoryDevice = record {
  size_mb = omega arith;
  speed_mts = omega arith;
  configured_speed_mts = omega arith;
  memory_type = omega arith;
  manufacturer = zero_text-IsField;
  part_number = zero_text-IsField;
  serial = zero_text-IsField;
  locator = zero_text-IsField;
}

pub zero_data-IsSmbiosData : IsSmbiosData zero_data
zero_data-IsSmbiosData = record {
  bios = record {
    vendor = zero_text-IsField;
    version = zero_text-IsField;
    release_date = zero_text-IsField;
  };
  system = record {
    manufacturer = zero_text-IsField;
    product = zero_text-IsField;
    version = zero_text-IsField;
    serial = zero_text-IsField;
    uuid = zero_uuid-IsField;
  };
  baseboard = record {
    manufacturer = zero_text-IsField;
    product = zero_text-IsField;
    version = zero_text-IsField;
    serial = zero_text-IsField;
  };
  chassis = record {
    chassis_type = omega arith;
    manufacturer = zero_text-IsField;
    serial = zero_text-IsField;
  };
  slots = refl;
  devices = All-replicate IsMemoryDevice 64 _ zero_memory_device-IsMemoryDevice;
  count = omega arith;
  major = omega arith;
  minor = omega arith;
  parsed = omega arith;
  malformed = omega arith;
}
