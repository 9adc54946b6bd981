-- ===== src/Acpi/Madt/Controllers.antt =====
-- The interrupt controller structures that a table can hold (src/firmware/acpi.c, `parse_madt`).
use hardware_monitor_azk.Acpi.Types.{AcpiProcessorEntry}
use hardware_monitor_azk.Buffer.Words.{le_bytes}
use hardware_monitor_azk.Base.{ℕ, ◌+◌, ◌^◌, ◌<◌, ◌≢◌, true, false, List, [], ◌∷◌, ◌++◌, bit, length}
use hardware_monitor_azk.Buffer.{Bytes}

-- An interrupt controller structure: those of a processor, and any other by its type and body.
pub data Controller : Type 0 where
  lapic : ℕ → ℕ → ℕ → Controller
  x2apic : ℕ → ℕ → ℕ → Controller
  other : ℕ → Bytes → Controller

abbrev pub IsController : Controller → Type 0
IsController (lapic acpi_id apic_id flags) = flags < 2 ^ 32
IsController (x2apic id flags uid) = (id < 2 ^ 32) × (flags < 2 ^ 32)
IsController (other type body) = (type ≢ 0) × (type ≢ 9)

abbrev pub encode : Controller → Bytes
encode (lapic acpi_id apic_id flags) = 0 ∷ 8 ∷ acpi_id ∷ apic_id ∷ le_bytes 4 flags
encode (x2apic id flags uid) =
    9 ∷ 16 ∷ 0 ∷ 0 ∷ (le_bytes 4 id ++ (le_bytes 4 flags ++ le_bytes 4 uid))
encode (other type body) = type ∷ (2 + length body) ∷ body

abbrev pub encode_all : List Controller → Bytes
encode_all [] = []
encode_all (c ∷ cs) = encode c ++ encode_all cs

-- The processor that a structure describes, if it does.
abbrev pub processor_of : Controller → List AcpiProcessorEntry
processor_of (lapic acpi_id apic_id flags) =
    record {
      apic_id = apic_id;
      acpi_processor_id = acpi_id;
      x2apic_id = 0;
      is_x2apic = false;
      enabled = bit flags 0;
      online_capable = bit flags 1;
    }
    ∷ []
processor_of (x2apic id flags uid) =
    record {
      apic_id = 0;
      acpi_processor_id = 0;
      x2apic_id = id;
      is_x2apic = true;
      enabled = bit flags 0;
      online_capable = bit flags 1;
    }
    ∷ []
processor_of (other type body) = []

abbrev pub processors_of : List Controller → List AcpiProcessorEntry
processors_of [] = []
processors_of (c ∷ cs) = processor_of c ++ processors_of cs
