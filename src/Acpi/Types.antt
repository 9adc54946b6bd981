-- ===== src/Acpi/Types.antt =====
-- The data of include/acpi.h. A `char[n]` is the list of its n bytes.
use hardware_monitor_azk.Base.{ℕ, Bool, false, List, replicate}
use hardware_monitor_azk.Buffer.{Bytes}

-- `sizeof(AcpiRawHeader)`
abbrev pub acpi_header_size : ℕ
acpi_header_size = 36

abbrev pub acpi_max_processors : ℕ
acpi_max_processors = 512

abbrev pub acpi_max_mcfg_entries : ℕ
acpi_max_mcfg_entries = 16

abbrev pub acpi_max_discovered_tables : ℕ
acpi_max_discovered_tables = 64

pub record AcpiTableSummary : Type 0 where
  pub signature : Bytes
  pub oem_id : Bytes
  pub oem_table_id : Bytes
  pub length : ℕ
  pub revision : ℕ
  pub checksum_valid : Bool

pub record AcpiProcessorEntry : Type 0 where
  pub apic_id : ℕ
  pub acpi_processor_id : ℕ
  pub x2apic_id : ℕ
  pub is_x2apic : Bool
  pub enabled : Bool
  pub online_capable : Bool

pub record AcpiMadtInfo : Type 0 where
  pub available : Bool
  pub summary : AcpiTableSummary
  pub local_apic_address : ℕ
  pub processor_count : ℕ
  pub processors : List AcpiProcessorEntry

pub record AcpiMcfgEntry : Type 0 where
  pub base_address : ℕ
  pub pci_segment_group : ℕ
  pub start_bus : ℕ
  pub end_bus : ℕ

pub record AcpiMcfgInfo : Type 0 where
  pub available : Bool
  pub summary : AcpiTableSummary
  pub entry_count : ℕ
  pub entries : List AcpiMcfgEntry

pub record AcpiFadtInfo : Type 0 where
  pub available : Bool
  pub summary : AcpiTableSummary
  pub sci_interrupt : ℕ
  pub preferred_pm_profile : ℕ

pub record AcpiHpetInfo : Type 0 where
  pub available : Bool
  pub summary : AcpiTableSummary
  pub hpet_number : ℕ
  pub base_address : ℕ

pub record AcpiData : Type 0 where
  pub discovered : List AcpiTableSummary
  pub discovered_count : ℕ
  pub fadt : AcpiFadtInfo
  pub madt : AcpiMadtInfo
  pub mcfg : AcpiMcfgInfo
  pub hpet : AcpiHpetInfo

-- What `memset(…, 0, sizeof …)` leaves.
abbrev pub zero_summary : AcpiTableSummary
zero_summary = record {
  signature = replicate 5 0;
  oem_id = replicate 7 0;
  oem_table_id = replicate 9 0;
  length = 0;
  revision = 0;
  checksum_valid = false;
}

abbrev pub zero_processor : AcpiProcessorEntry
zero_processor = record {
  apic_id = 0;
  acpi_processor_id = 0;
  x2apic_id = 0;
  is_x2apic = false;
  enabled = false;
  online_capable = false;
}

abbrev pub zero_madt : AcpiMadtInfo
zero_madt = record {
  available = false;
  summary = zero_summary;
  local_apic_address = 0;
  processor_count = 0;
  processors = replicate acpi_max_processors zero_processor;
}

abbrev pub zero_mcfg_entry : AcpiMcfgEntry
zero_mcfg_entry = record { base_address = 0; pci_segment_group = 0; start_bus = 0; end_bus = 0 }

abbrev pub zero_mcfg : AcpiMcfgInfo
zero_mcfg = record {
  available = false;
  summary = zero_summary;
  entry_count = 0;
  entries = replicate acpi_max_mcfg_entries zero_mcfg_entry;
}

abbrev pub zero_fadt : AcpiFadtInfo
zero_fadt = record {
  available = false;
  summary = zero_summary;
  sci_interrupt = 0;
  preferred_pm_profile = 0;
}

abbrev pub zero_hpet : AcpiHpetInfo
zero_hpet = record { available = false; summary = zero_summary; hpet_number = 0; base_address = 0 }

abbrev pub zero_acpi : AcpiData
zero_acpi = record {
  discovered = replicate acpi_max_discovered_tables zero_summary;
  discovered_count = 0;
  fadt = zero_fadt;
  madt = zero_madt;
  mcfg = zero_mcfg;
  hpet = zero_hpet;
}
