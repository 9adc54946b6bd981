-- ===== src/Examples/FirmwareTable.antt =====
-- A system whose tables are of one size, as src/platform/windows/firmware_table.c reads them.
use hardware_monitor_azk.FirmwareTable.{System, fetch, platform_enum_acpi_signatures}
use hardware_monitor_azk.FirmwareTable.Fetched.{IsFilling, IsSystem, IsFetched, fetch-IsFetched}
use hardware_monitor_azk.FirmwareTable.Clients.{
  IsEnumerated, platform_enum_acpi_signatures-Returns, acpi_collect, IsCollectedAcpi,
  acpi_collect-Returns,
}
use hardware_monitor_azk.Buffer.Returns.{Returns}
use hardware_monitor_azk.Base.{ℕ, refl, arith, true, replicate, length-replicate, All-replicate}
use hardware_monitor_azk.Buffer.{Bytes, IsByte}

abbrev ones : ℕ → ℕ × Bytes
ones size = (8, replicate size 1)

ones-IsFilling : IsFilling ones
ones-IsFilling size = (length-replicate size 1, All-replicate IsByte size 1 (omega arith))

abbrev system : System
system = record {
  get_system_firmware_table = λ provider table. ones;
  enum_system_firmware_tables = λ provider. ones;
  malloc = λ size. true;
}

system-IsSystem : IsSystem system
system-IsSystem = record {
  tables = λ provider table. ones-IsFilling;
  names = λ provider. ones-IsFilling;
}

fetch_example : IsFetched ones (replicate 8 1)
unfolding fetch
fetch_example = fetch-IsFetched (λ size. true) ones (replicate 8 1) ones-IsFilling refl

platform_enum_example : Returns (IsEnumerated system) (platform_enum_acpi_signatures system)
platform_enum_example = platform_enum_acpi_signatures-Returns system system-IsSystem

acpi_collect_example : Returns (IsCollectedAcpi system) (acpi_collect system)
acpi_collect_example = acpi_collect-Returns system system-IsSystem
