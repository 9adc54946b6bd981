-- ===== src/Acpi/Collect.antt =====
-- The enumeration of the tables, `acpi_collect` (src/firmware/acpi.c).
pub mod Safety
pub mod Provenance
pub mod Summaries
pub mod Count
use hardware_monitor_azk.Base.{
  ℕ, zero, suc, ◌+◌, ◌-◌, ◌*◌, ◌/◌, ◌%◌, ◌^◌, ◌≤◌, ◌<◌, ◌≡◌, ◌≢◌, ◌↔◌, refl, sym, ap, ◌∙◌, arith,
  Bool, true, false, not, ◌&&◌, ◌||◌, List, [], ◌∷◌, ◌++◌, map, Option, none, some, ◌⊎◌, inl, inr,
  ltb, leb, ◌==◌, if◌then◌else◌, bit, low_bits, Bool-cases, tests, length, take, drop, set,
  replicate, get_elem?, All,
}
use hardware_monitor_azk.Buffer.{
  Run, done, fault, stuck, ◌>>=◌, Bytes, IsByte, load, store, load_le, load_bytes, store_bytes,
  strnlen,
}
use hardware_monitor_azk.Acpi.Types.{
  AcpiData, AcpiTableSummary, zero_acpi, acpi_header_size, acpi_max_discovered_tables,
}
use hardware_monitor_azk.Acpi.Checksum.{checksum_ok, fill_summary, sig_is}
use hardware_monitor_azk.Acpi.Fixed.{parse_fadt, parse_hpet}
use hardware_monitor_azk.Acpi.Madt.{parse_madt}
use hardware_monitor_azk.Acpi.Mcfg.{parse_mcfg}

abbrev pub facp_sig : Bytes
facp_sig = b'F' ∷ b'A' ∷ b'C' ∷ b'P' ∷ []

abbrev pub apic_sig : Bytes
apic_sig = b'A' ∷ b'P' ∷ b'I' ∷ b'C' ∷ []

abbrev pub mcfg_sig : Bytes
mcfg_sig = b'M' ∷ b'C' ∷ b'F' ∷ b'G' ∷ []

abbrev pub hpet_sig : Bytes
hpet_sig = b'H' ∷ b'P' ∷ b'E' ∷ b'T' ∷ []

-- The header's length counts if it is positive and inside the buffer.
abbrev pub effective_length : ℕ → ℕ → ℕ
effective_length raw_size header_length =
    if ltb 0 header_length && leb header_length raw_size then header_length else raw_size

-- The `if (valid)` with its chain of signatures.
unfoldable pub parse_table : Bytes → ℕ → AcpiTableSummary → AcpiData → Run AcpiData
parse_table raw len summary out = do
  is_facp ← sig_is raw facp_sig
  is_apic ← sig_is raw apic_sig
  is_mcfg ← sig_is raw mcfg_sig
  is_hpet ← sig_is raw hpet_sig
  if is_facp
      then (parse_fadt raw len >>= λ t. done (record out { fadt = record t { summary = summary } }))
      else if is_apic
      then (parse_madt raw len >>= λ t. done (record out { madt = record t { summary = summary } }))
      else if is_mcfg
      then (parse_mcfg raw len >>= λ t. done (record out { mcfg = record t { summary = summary } }))
      else if is_hpet
      then (parse_hpet raw len >>= λ t. done (record out { hpet = record t { summary = summary } }))
      else done out

-- One table that the platform handed over, behind the size check.
unfoldable pub take_table : Bytes → AcpiData → Run AcpiData
unfolding parse_table
take_table raw out = do
  header_length ← load_le raw 4 4
  let len = effective_length (length raw) header_length
  valid ← checksum_ok raw len
  summary ← fill_summary raw len valid
  discovered ← store out.discovered out.discovered_count summary
  let out' = record out {
    discovered = discovered;
    discovered_count = (out.discovered_count + 1) % 2 ^ 32;
  }
  if valid then parse_table raw len summary out' else done out'

-- One round of the loop: a table that is missing or shorter than a header is passed over.
collect_one : Option Bytes → AcpiData → Run AcpiData
collect_one none out = done out
collect_one (some raw) out =
    if ltb (length raw) acpi_header_size then done out else take_table raw out

-- The `for` loop over the signatures, which ends when the array of summaries is full.
collect_all : (ℕ → Option Bytes) → List ℕ → AcpiData → Run AcpiData
unfolding collect_one
collect_all get_table [] out = done out
collect_all get_table (sig ∷ sigs) out =
    let rest = collect_one (get_table sig) out >>= collect_all get_table sigs in
    if ltb out.discovered_count acpi_max_discovered_tables then rest else done out

-- `acpi_collect`: `get_table` is `platform_get_acpi_table`, the option what
-- `platform_enum_acpi_signatures` gave.
unfoldable pub collect : (ℕ → Option Bytes) → Option (List ℕ) → Run (Option AcpiData)
unfolding collect_all
collect get_table none = done none
collect get_table (some sigs) = do out ← collect_all get_table sigs zero_acpi; done (some out)
