-- ===== src/Acpi/Fixed.antt =====
-- The parsers of the tables with fields at fixed offsets (src/firmware/acpi.c).
use hardware_monitor_azk.Base.{ℕ, true, ltb, if◌then◌else◌}
use hardware_monitor_azk.Buffer.{Run, done, ◌>>=◌, Bytes, load, load_le}
use hardware_monitor_azk.Acpi.Types.{AcpiFadtInfo, AcpiHpetInfo, zero_fadt, zero_hpet}

unfoldable pub parse_fadt : Bytes → ℕ → Run AcpiFadtInfo
parse_fadt table len = if ltb len 48 then done zero_fadt else (do
  preferred_pm_profile ← load table 45
  sci ← load_le table 46 2
  done (record zero_fadt {
    preferred_pm_profile = preferred_pm_profile;
    sci_interrupt = sci;
    available = true;
  }))

unfoldable pub parse_hpet : Bytes → ℕ → Run AcpiHpetInfo
parse_hpet table len = if ltb len 53 then done zero_hpet else (do
  address ← load_le table 44 8
  hpet_number ← load table 52
  done (record zero_hpet { base_address = address; hpet_number = hpet_number; available = true }))
