-- ===== src/FirmwareTable/Clients.antt =====
-- The parsers on the tables of this platform: what they ask of the buffers is what
-- src/platform/windows/firmware_table.c gives.
use hardware_monitor_azk.Buffer.Returns.{Returns, returns, Returns->>=, Returns-if, Returns-load_le}
use hardware_monitor_azk.FirmwareTable.{
  System, fetch, platform_get_acpi_table, load_signatures, unpack, platform_enum_acpi_signatures,
}
use hardware_monitor_azk.FirmwareTable.Fetched.{IsSystem, IsFetched, fetch-IsFetched}
use hardware_monitor_azk.Acpi.Types.{AcpiData}
use hardware_monitor_azk.Acpi.Collect.Safety.{IsAcpi}
use hardware_monitor_azk.Acpi.Collect.Provenance.{collect-IsAcpi}
use hardware_monitor_azk.Acpi.Collect.{collect}
use hardware_monitor_azk.Base.{
  ℕ, zero, suc, ◌+◌, ◌*◌, ◌/◌, ◌^◌, ◌≤◌, ◌<◌, ◌≡◌, refl, ap, arith, not, List, [], ◌∷◌, Option,
  none, some, length, All,
}
use hardware_monitor_azk.Buffer.{Run, ◌>>=◌, Bytes, IsByte}

-- `load_signatures` reads inside the buffer.
load_signatures-Returns :
    (buf : Bytes) (p count : ℕ)
    → All IsByte buf
    → p + count * 4 ≤ length buf
    → Returns
        (λ signatures. (length signatures ≡ count) × All (λ s. s < 2 ^ 32) signatures)
        (load_signatures buf p count)
unfolding load_signatures
load_signatures-Returns buf p zero bytes h = returns [] (refl, tt)
load_signatures-Returns buf p (suc count) bytes h =
    Returns->>= (Returns-load_le buf p 4 bytes (omega arith)) λ s lt.
      Returns->>= (load_signatures-Returns buf (p + 4) count bytes (omega arith))
        λ ss l. returns (s ∷ ss) (ap suc l.0, (omega (arith, lt), l.1))

-- The signatures fit the list that the system gave.
abbrev pub IsEnumerated : System → Option (List ℕ) → Type 0
IsEnumerated os none = Unit
IsEnumerated os (some sigs) =
    (length sigs * 4 ≤ (os.enum_system_firmware_tables 0x41435049 0).0) × All (λ s. s < 2 ^ 32) sigs

-- On a system whose calls fill a buffer of the size they are given with bytes,
-- `platform_enum_acpi_signatures` reads inside its buffer, and gives 32-bit signatures that take no
-- more bytes than were allocated, or none.
pub platform_enum_acpi_signatures-Returns :
    (os : System) → IsSystem os → Returns (IsEnumerated os) (platform_enum_acpi_signatures os)
unfolding platform_enum_acpi_signatures
platform_enum_acpi_signatures-Returns os w =
    from (fetch os.malloc (os.enum_system_firmware_tables 0x41435049)) refl
  where
    from :
        (o : Option Bytes)
        → fetch os.malloc (os.enum_system_firmware_tables 0x41435049) ≡ o
        → Returns (IsEnumerated os) (unpack os.malloc o)
    from none e = returns none tt
    from (some buf) e =
        let f =
          fetch-IsFetched os.malloc (os.enum_system_firmware_tables 0x41435049) buf
            (w.names 0x41435049) e in
        Returns-if (not (os.malloc (length buf / 4 * 4))) (λ _. returns none tt)
          (λ _.
            Returns->>= (load_signatures-Returns buf 0 (length buf / 4) f.bytes (omega arith))
              λ sigs l. returns (some sigs) (omega (arith, l.0, f.fits), l.1))

-- `acpi_collect` as it is linked.
abbrev pub acpi_collect : System → Run (Option AcpiData)
acpi_collect os = platform_enum_acpi_signatures os >>= collect (platform_get_acpi_table os)

abbrev pub IsCollectedAcpi : System → Option AcpiData → Type 0
IsCollectedAcpi os none = Unit
IsCollectedAcpi os (some d) = IsAcpi (platform_get_acpi_table os) d

-- On a system whose calls fill a buffer of the size they are given with bytes, `acpi_collect` with
-- the platform functions of Windows ends and stays inside its buffers; whatever it reports as
-- available comes from a table that the platform gave, with a whole header, a good checksum and the
-- signature.
pub acpi_collect-Returns :
    (os : System) → IsSystem os → Returns (IsCollectedAcpi os) (acpi_collect os)
unfolding platform_get_acpi_table
acpi_collect-Returns os w = Returns->>= (platform_enum_acpi_signatures-Returns os w) λ o e. on o
  where
    byte_tables :
        (sig : ℕ) (raw : Bytes) → platform_get_acpi_table os sig ≡ some raw → All IsByte raw
    byte_tables sig raw e = IsFetched.bytes (
        fetch-IsFetched os.malloc (os.get_system_firmware_table 0x41435049 sig) raw
          (w.tables 0x41435049 sig) e)

    on :
        (o : Option (List ℕ))
        → Returns (IsCollectedAcpi os) (collect (platform_get_acpi_table os) o)
    on none = unfold collect in returns none tt
    on (some sigs) =
        let (d, run, good) = collect-IsAcpi (platform_get_acpi_table os) byte_tables sigs in
        rw run (returns (some d) good)
