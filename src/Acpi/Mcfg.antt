-- ===== src/Acpi/Mcfg.antt =====
-- The parser of the PCIe configuration table, `parse_mcfg` (src/firmware/acpi.c).
pub mod Safety
pub mod Entries
use hardware_monitor_azk.Base.{
  ℕ, zero, suc, ◌+◌, ◌-◌, ◌*◌, ◌/◌, ◌%◌, ◌^◌, ◌≤◌, ◌<◌, ◌≡◌, ◌≢◌, ◌↔◌, refl, sym, ap, ◌∙◌, arith,
  Bool, true, false, not, ◌&&◌, ◌||◌, List, [], ◌∷◌, ◌++◌, map, Option, none, some, ◌⊎◌, inl, inr,
  ltb, leb, ◌==◌, if◌then◌else◌, bit, low_bits, Bool-cases, tests, length, take, drop, set,
  replicate, get_elem?, All,
}
use hardware_monitor_azk.Buffer.{
  Run, done, fault, stuck, ◌>>=◌, Bytes, IsByte, load, store, load_le, load_bytes, store_bytes,
  strnlen,
}
use hardware_monitor_azk.Buffer.Loop.{Turn, again, stop, scan}
use hardware_monitor_azk.Acpi.Types.{
  AcpiMcfgInfo, AcpiMcfgEntry, zero_mcfg, acpi_header_size, acpi_max_mcfg_entries,
}

mcfg_entry : Bytes → ℕ → Run AcpiMcfgEntry
mcfg_entry table p = do
  base_address ← load_le table (p + 0) 8
  pci_segment_group ← load_le table (p + 8) 2
  start_bus ← load table (p + 10)
  end_bus ← load table (p + 11)
  done (record {
    base_address = base_address;
    pci_segment_group = pci_segment_group;
    start_bus = start_bus;
    end_bus = end_bus;
  })

-- One round of `while (p + 16 <= end && out->entry_count < ACPI_MAX_MCFG_ENTRIES)`.
mcfg_turn : Bytes → ℕ → ℕ → AcpiMcfgInfo → Run (Turn AcpiMcfgInfo AcpiMcfgInfo)
unfolding mcfg_entry
mcfg_turn table len p out =
    if leb (p + 16) len && ltb out.entry_count acpi_max_mcfg_entries
    then (do
      e ← mcfg_entry table p
      entries ← store out.entries out.entry_count e
      done (
          again (p + 16)
            (record out { entries = entries; entry_count = (out.entry_count + 1) % 2 ^ 32 })))
    else done (stop out)

unfoldable pub parse_mcfg : Bytes → ℕ → Run AcpiMcfgInfo
unfolding mcfg_turn
parse_mcfg table len =
    let off = acpi_header_size + 8 in
    if ltb len off then done zero_mcfg else (do
      walked ← scan (suc (len - off)) (mcfg_turn table len) off zero_mcfg
      done (record walked { available = true }))
