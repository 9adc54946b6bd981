-- ===== src/Acpi/Madt.antt =====
-- The parser of the interrupt controller table, `parse_madt` (src/firmware/acpi.c).
pub mod Safety
pub mod Controllers
pub mod Entries
use hardware_monitor_azk.Base.{
  ℕ, zero, suc, ◌+◌, ◌-◌, ◌*◌, ◌/◌, ◌%◌, ◌^◌, ◌≤◌, ◌<◌, ◌≡◌, ◌≢◌, ◌↔◌, refl, sym, ap, ◌∙◌, arith,
  Bool, true, false, not, ◌&&◌, ◌||◌, List, [], ◌∷◌, ◌++◌, map, Option, none, some, ◌⊎◌, inl, inr,
  ltb, leb, ◌==◌, if◌then◌else◌, bit, low_bits, Bool-cases, tests, length, take, drop, set,
  replicate, get_elem?, All,
}
use hardware_monitor_azk.Buffer.{
  Run, done, fault, stuck, ◌>>=◌, Bytes, IsByte, load, store, load_le, load_bytes, store_bytes,
  strnlen,
}
use hardware_monitor_azk.Buffer.Loop.{Turn, again, stop, scan}
use hardware_monitor_azk.Acpi.Types.{
  AcpiMadtInfo, AcpiProcessorEntry, zero_madt, acpi_header_size, acpi_max_processors,
}

-- The entry is written to the first free place, if there is one.
add_processor : AcpiMadtInfo → AcpiProcessorEntry → Run AcpiMadtInfo
add_processor out e =
    if ltb out.processor_count acpi_max_processors
    then (store out.processors out.processor_count e >>= λ ps.
        done (record out { processors = ps; processor_count = (out.processor_count + 1) % 2 ^ 32 }))
    else done out

local_apic : Bytes → ℕ → Run AcpiProcessorEntry
local_apic table p = do
  acpi_processor_id ← load table (p + 2)
  apic_id ← load table (p + 3)
  flags ← load_le table (p + 4) 4
  done (record {
    apic_id = apic_id;
    acpi_processor_id = acpi_processor_id;
    x2apic_id = 0;
    is_x2apic = false;
    enabled = bit flags 0;
    online_capable = bit flags 1;
  })

local_x2apic : Bytes → ℕ → Run AcpiProcessorEntry
local_x2apic table p = do
  x2apic_id ← load_le table (p + 4) 4
  flags ← load_le table (p + 8) 4
  done (record {
    apic_id = 0;
    acpi_processor_id = 0;
    x2apic_id = x2apic_id;
    is_x2apic = true;
    enabled = bit flags 0;
    online_capable = bit flags 1;
  })

-- The body of the loop for a well-formed entry; a full table of processors is read past.
unfoldable pub madt_entry : Bytes → ℕ → ℕ → ℕ → AcpiMadtInfo → Run AcpiMadtInfo
unfolding add_processor local_apic local_x2apic
madt_entry table p entry_type entry_len out =
    if entry_type == 0 && leb 8 entry_len
    then (local_apic table p >>= add_processor out)
    else if entry_type == 9 && leb 16 entry_len
    then (local_x2apic table p >>= add_processor out)
    else done out

-- One round of `while (p + 2 <= end)`.
madt_turn : Bytes → ℕ → ℕ → AcpiMadtInfo → Run (Turn AcpiMadtInfo AcpiMadtInfo)
madt_turn table len p out =
    if leb (p + 2) len
    then (do
      entry_type ← load table p
      entry_len ← load table (p + 1)
      if ltb entry_len 2 || ltb len (p + entry_len)
          then done (stop out)
          else (madt_entry table p entry_type entry_len out >>= λ out'.
              done (again (p + entry_len) out')))
    else done (stop out)

unfoldable pub parse_madt : Bytes → ℕ → Run AcpiMadtInfo
unfolding madt_turn
parse_madt table len = if ltb len (acpi_header_size + 8) then done zero_madt else (do
  let p = acpi_header_size
  local_apic_address ← load_le table p 4
  let p' = p + 8
  let out = record zero_madt { local_apic_address = local_apic_address }
  walked ← scan (suc (len - p')) (madt_turn table len) p' out
  done (record walked { available = true }))
