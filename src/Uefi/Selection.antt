-- ===== src/Uefi/Selection.antt =====
-- `UefiMain` of uefi/HwMonPkg/Application/HwMonUefi/HwMonUefi.c, with its choice among the tables of
-- the firmware.
pub mod Choice
use hardware_monitor_azk.Base.{
  min, ℕ, zero, suc, ◌+◌, ◌-◌, ◌*◌, ◌/◌, ◌%◌, ◌^◌, ◌≤◌, ◌<◌, ◌≡◌, ◌≢◌, ◌↔◌, refl, sym, ap, ◌∙◌,
  arith, Bool, true, false, not, ◌&&◌, ◌||◌, List, [], ◌∷◌, ◌++◌, map, Option, none, some, ◌⊎◌, inl,
  inr, ltb, leb, ◌==◌, if◌then◌else◌, bit, low_bits, Bool-cases, tests, length, take, drop, set,
  replicate, get_elem?, All,
}
use hardware_monitor_azk.Buffer.{
  Run, done, fault, stuck, ◌>>=◌, Bytes, IsByte, load, store, load_le, load_bytes, store_bytes,
  strnlen,
}
use hardware_monitor_azk.Uefi.Types.{
  Guid, acpi20_table, acpi10_table, smbios3_table, smbios_table, other_table, ConfigurationTable,
  Firmware, Line, no_rsdp, no_smbios,
}
use hardware_monitor_azk.Uefi.Inventory.{print_cpu_info, print_memory_map}
use hardware_monitor_azk.Uefi.Tables.{print_acpi, print_smbios}

-- The variables of the loop; 0 is NULL.
pub record Selected : Type 0 where
  pub acpi_rsdp : ℕ
  pub smbios_entry : ℕ
  pub smbios_is64 : Bool

-- A turn, for a table of the GUID given.
unfoldable pub select_table : Guid → ℕ → Selected → Selected
select_table acpi20_table table s = record s { acpi_rsdp = table }
select_table acpi10_table table s = if s.acpi_rsdp == 0 then record s { acpi_rsdp = table } else s
select_table smbios3_table table s = record s { smbios_entry = table; smbios_is64 = true }
select_table smbios_table table s =
    if s.smbios_entry == 0 then record s { smbios_entry = table; smbios_is64 = false } else s
select_table other_table table s = s

unfoldable pub select_tables : List ConfigurationTable → Selected → Selected
unfolding select_table
select_tables [] s = s
select_tables (ct ∷ cts) s = select_tables cts (select_table ct.vendor_guid ct.vendor_table s)

abbrev pub nothing_selected : Selected
nothing_selected = record { acpi_rsdp = 0; smbios_entry = 0; smbios_is64 = false }

unfoldable pub uefi_main : Firmware → Run (List Line)
unfolding select_tables
uefi_main f = do
  let s = select_tables f.configuration nothing_selected
  let acpi_lines = print_acpi f.memory s.acpi_rsdp
  let smbios_lines = print_smbios f.memory s.smbios_entry s.smbios_is64
  acpi ← if s.acpi_rsdp == 0 then done (no_rsdp ∷ []) else acpi_lines
  smbios ← if s.smbios_entry == 0 then done (no_smbios ∷ []) else smbios_lines
  done (print_cpu_info f.cpuid ++ (print_memory_map f.page_size f.memory_map ++ (acpi ++ smbios)))
