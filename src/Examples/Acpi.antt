-- ===== src/Examples/Acpi.antt =====
-- Small ACPI tables, as src/firmware/acpi.c reads them.
use hardware_monitor_azk.Acpi.Collect.Count.{tables_of, collect-tables_of}
use hardware_monitor_azk.Acpi.Collect.Summaries.{AreSummaries}
use hardware_monitor_azk.Acpi.Types.{AcpiData, AcpiMadtInfo, AcpiMcfgInfo, AcpiMcfgEntry}
use hardware_monitor_azk.Acpi.Checksum.{checksum_ok}
use hardware_monitor_azk.Acpi.Checksum.Laws.{total, checksum_ok-total, checksum_ok-set}
use hardware_monitor_azk.Acpi.Madt.{parse_madt}
use hardware_monitor_azk.Acpi.Madt.Safety.{IsMadt, parse_madt-Returns}
use hardware_monitor_azk.Acpi.Madt.Controllers.{
  Controller, lapic, x2apic, other, encode_all, processors_of,
}
use hardware_monitor_azk.Acpi.Madt.Entries.{parse_madt-encode_all}
use hardware_monitor_azk.Acpi.Mcfg.{parse_mcfg}
use hardware_monitor_azk.Acpi.Mcfg.Entries.{encode_entries, parse_mcfg-encode_entries}
use hardware_monitor_azk.Acpi.Collect.{collect}
use hardware_monitor_azk.Acpi.Collect.Safety.{IsAcpi}
use hardware_monitor_azk.Acpi.Collect.Provenance.{collect-IsAcpi}
use hardware_monitor_azk.Buffer.Returns.{Returns}
use hardware_monitor_azk.Buffer.Words.{le_bytes}
use mathlib.Core.Path.{subst}
use hardware_monitor_azk.Base.{
  length, ℕ, zero, suc, ◌≡◌, refl, arith, true, false, List, [], ◌∷◌, ◌++◌, Option, none, some,
  take, set, replicate, All,
}
use hardware_monitor_azk.Buffer.{done, Bytes, IsByte, load}

abbrev controllers : List Controller
controllers = lapic 1 0 1 ∷ other 5 (0 ∷ 0 ∷ []) ∷ x2apic 300 1 7 ∷ []

controllers_example :
    (m : AcpiMadtInfo) × (parse_madt
        (replicate 36 0 ++ (le_bytes 4 0xFEE00000 ++ (replicate 4 0 ++ encode_all controllers)))
        72
      ≡ done m)
    × (m.available ≡ true)
    × (m.local_apic_address ≡ 0xFEE00000)
    × (m.processor_count ≡ 2)
    × (take m.processor_count m.processors ≡ processors_of controllers)
controllers_example =
    parse_madt-encode_all (replicate 36 0) (replicate 4 0) 0xFEE00000 controllers refl refl
      (omega arith) (omega arith)

-- A MADT of 44 bytes without entries, whose bytes add up to 0 modulo 256.
abbrev madt_table : Bytes
madt_table = 65 ∷ 80 ∷ 73 ∷ 67 ∷ 44 ∷ 0 ∷ 0 ∷ 0 ∷ 1 ∷ 182 ∷ replicate 34 0

madt_table-IsByte : All IsByte madt_table
madt_table-IsByte = omega arith

parse_madt_example : Returns IsMadt (parse_madt madt_table 44)
parse_madt_example = parse_madt-Returns madt_table 44 madt_table-IsByte (omega arith)

checksum_ok-total_example : checksum_ok madt_table 44 ≡ done true
unfolding total
checksum_ok-total_example = checksum_ok-total madt_table 44 (omega arith)

checksum_ok-set_example : checksum_ok (set madt_table 8 2) 44 ≡ done false
unfolding checksum_ok load
checksum_ok-set_example =
    checksum_ok-set madt_table 44 8 1 2 (omega arith) refl (omega arith) refl (omega arith)
      (omega arith) (omega arith)

abbrev segment : AcpiMcfgEntry
segment = record { base_address = 0xE0000000; pci_segment_group = 0; start_bus = 0; end_bus = 255 }

segment_example :
    (m : AcpiMcfgInfo) × (parse_mcfg (replicate 44 0 ++ encode_entries (segment ∷ [])) 60 ≡ done m)
    × (m.available ≡ true)
    × (m.entry_count ≡ 1)
    × (take m.entry_count m.entries ≡ segment ∷ [])
segment_example = parse_mcfg-encode_entries (replicate 44 0) (segment ∷ []) refl (omega arith)

-- A platform with one table.
abbrev get_table : ℕ → Option Bytes
get_table zero = some madt_table
get_table (suc n) = none

get_table-IsByte : (sig : ℕ) (raw : Bytes) → get_table sig ≡ some raw → All IsByte raw
get_table-IsByte zero raw e = subst (All IsByte) (same e) madt_table-IsByte
  where
    same : some madt_table ≡ some raw → madt_table ≡ raw
    same h = cc h
get_table-IsByte (suc n) raw e = cc

collect-IsAcpi_example :
    (d : AcpiData) × (collect get_table (some (0 ∷ 1 ∷ [])) ≡ done (some d)) × IsAcpi get_table d
collect-IsAcpi_example = collect-IsAcpi get_table get_table-IsByte (0 ∷ 1 ∷ [])

collect-tables_of_example :
    (d : AcpiData) × (collect get_table (some (0 ∷ 1 ∷ [])) ≡ done (some d))
    × (d.discovered_count ≡ length (tables_of get_table (0 ∷ 1 ∷ [])))
    × AreSummaries (tables_of get_table (0 ∷ 1 ∷ [])) d.discovered
collect-tables_of_example = collect-tables_of get_table get_table-IsByte (0 ∷ 1 ∷ [])
