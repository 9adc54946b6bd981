-- ===== src/Uefi/Types.antt =====
-- What uefi/HwMonPkg/Application/HwMonUefi/HwMonUefi.c sees of the firmware, and what it prints.
use hardware_monitor_azk.Base.{ℕ, Bool, List, Option}
use hardware_monitor_azk.Buffer.{Bytes}
use hardware_monitor_azk.Cpu.Types.{CpuidResult}

-- Physical memory, which is mapped as it is: a byte by its address, or no memory.
abbrev pub Memory : Type 0
Memory = ℕ → Option ℕ

-- The GUIDs that the program knows, which all differ.
pub data Guid : Type 0 where
  acpi20_table : Guid
  acpi10_table : Guid
  smbios3_table : Guid
  smbios_table : Guid
  other_table : Guid

-- EFI_CONFIGURATION_TABLE; the address 0 is NULL.
pub record ConfigurationTable : Type 0 where
  pub vendor_guid : Guid
  pub vendor_table : ℕ

-- The fields of an EFI_MEMORY_DESCRIPTOR that the program reads; `is_usable` tells whether the type
-- is EfiConventionalMemory, EfiBootServicesCode or EfiBootServicesData.
pub record MemoryDescriptor : Type 0 where
  pub is_usable : Bool
  pub number_of_pages : ℕ

-- The answers to GetMemoryMap and AllocatePool on the way to the map.
pub data MemoryMap : Type 0 where
  probe_failed : MemoryMap
  no_pool : MemoryMap
  map_failed : MemoryMap
  mapped : List MemoryDescriptor → MemoryMap

pub record Firmware : Type 0 where
  pub cpuid : ℕ → CpuidResult
  pub memory_map : MemoryMap
  pub page_size : ℕ
  pub configuration : List ConfigurationTable
  pub memory : Memory

-- What is printed, with the values.
pub data Line : Type 0 where
  cpu_vendor : Bytes → Line
  cpu_family : ℕ → ℕ → ℕ → Line
  cpu_features : List Bool → Line
  cpu_brand : Bytes → Line
  map_probe_failed : Line
  map_allocation_failed : Line
  map_unavailable : Line
  descriptor_count : ℕ → Line
  usable_mb : ℕ → Line
  rsdp_v1 : Bool → Line
  no_xsdt : Line
  rsdp_v2 : Bool → Line
  rsdp_invalid : Line
  xsdt_invalid : Line
  xsdt_tables : ℕ → Line
  acpi_table : Bytes → ℕ → Bool → Line
  no_rsdp : Line
  smbios_checksum : Bool → Line
  smbios_version : ℕ → ℕ → Line
  smbios_address64 : ℕ → ℕ → Line
  smbios_address32 : ℕ → ℕ → ℕ → Line
  no_smbios : Line
