-- ===== src/Uefi/Selection/Choice.antt =====
-- Which tables `UefiMain` chooses.
use hardware_monitor_azk.Base.{
  ℕ, ◌≡◌, ◌≢◌, ◌∙◌, arith, Bool, true, false, not, List, [], ◌∷◌, ◌==◌, if◌then◌else◌, All,
}
use hardware_monitor_azk.Uefi.Types.{
  Guid, acpi20_table, acpi10_table, smbios3_table, smbios_table, other_table, ConfigurationTable,
}
use hardware_monitor_azk.Uefi.Selection.{Selected, select_table, select_tables, nothing_selected}

abbrev pub is_acpi20 : Guid → Bool
is_acpi20 acpi20_table = true
is_acpi20 _ = false

abbrev pub is_acpi10 : Guid → Bool
is_acpi10 acpi10_table = true
is_acpi10 _ = false

abbrev pub is_smbios3 : Guid → Bool
is_smbios3 smbios3_table = true
is_smbios3 _ = false

abbrev pub is_smbios : Guid → Bool
is_smbios smbios_table = true
is_smbios _ = false

-- The last, and the first, table of a kind; 0 if there is none.
unfoldable pub last_of : (Guid → Bool) → List ConfigurationTable → ℕ
last_of kind [] = 0
last_of kind (ct ∷ cts) =
    let later = last_of kind cts in
    if later == 0 then (if kind ct.vendor_guid then ct.vendor_table else 0) else later

unfoldable pub first_of : (Guid → Bool) → List ConfigurationTable → ℕ
first_of kind [] = 0
first_of kind (ct ∷ cts) =
    let later = first_of kind cts in if kind ct.vendor_guid then ct.vendor_table else later

abbrev pub or_else : ℕ → ℕ → ℕ
or_else a b = if a == 0 then b else a

abbrev pub IsTable : ConfigurationTable → Type 0
IsTable ct = ct.vendor_table ≢ 0

-- One turn, where the later tables give `last` and `first`.
acpi_turn :
    (g : Guid) (table last first : ℕ) (s : Selected)
    → table ≢ 0
    → or_else last (or_else (select_table g table s).acpi_rsdp first)
      ≡ or_else
          (if last == 0 then (if is_acpi20 g then table else 0) else last)
          (or_else s.acpi_rsdp (if is_acpi10 g then table else first))
unfolding select_table
acpi_turn acpi20_table table last first s h = ground arith
acpi_turn acpi10_table table last first s h = ground arith
acpi_turn smbios3_table table last first s h = ground arith
acpi_turn smbios_table table last first s h = ground arith
acpi_turn other_table table last first s h = ground arith

smbios_turn :
    (g : Guid) (table last first : ℕ) (s : Selected)
    → table ≢ 0
    → or_else last (or_else (select_table g table s).smbios_entry first)
      ≡ or_else
          (if last == 0 then (if is_smbios3 g then table else 0) else last)
          (or_else s.smbios_entry (if is_smbios g then table else first))
unfolding select_table
smbios_turn acpi20_table table last first s h = ground arith
smbios_turn acpi10_table table last first s h = ground arith
smbios_turn smbios3_table table last first s h = ground arith
smbios_turn smbios_table table last first s h = ground arith
smbios_turn other_table table last first s h = ground arith

-- Whether the entry point is of 64 bits, from a start at `s`.
abbrev is64 : ℕ → ℕ → Selected → Bool
is64 last first s =
    if last == 0
    then (if s.smbios_entry == 0
        then (if first == 0 then s.smbios_is64 else false)
        else s.smbios_is64)
    else true

is64_turn :
    (g : Guid) (table last first : ℕ) (s : Selected)
    → table ≢ 0
    → is64 last first (select_table g table s)
      ≡ is64
          (if last == 0 then (if is_smbios3 g then table else 0) else last)
          (if is_smbios g then table else first)
          s
unfolding select_table
is64_turn acpi20_table table last first s h = ground arith
is64_turn acpi10_table table last first s h = ground arith
is64_turn smbios3_table table last first s h = ground arith
is64_turn smbios_table table last first s h = ground arith
is64_turn other_table table last first s h = ground arith

choice :
    (cts : List ConfigurationTable) (s : Selected)
    → All IsTable cts
    → ((select_tables cts s).acpi_rsdp
        ≡ or_else (last_of is_acpi20 cts) (or_else s.acpi_rsdp (first_of is_acpi10 cts)))
      × ((select_tables cts s).smbios_entry
          ≡ or_else (last_of is_smbios3 cts) (or_else s.smbios_entry (first_of is_smbios cts)))
      × ((select_tables cts s).smbios_is64
          ≡ is64 (last_of is_smbios3 cts) (first_of is_smbios cts) s)
unfolding select_tables last_of first_of
choice [] s h = (ground arith, ground arith, ground arith)
choice (ct ∷ cts) s h =
    let (acpi, smbios, wide) = choice cts (select_table ct.vendor_guid ct.vendor_table s) h.1 in
    (
      acpi
          ∙ acpi_turn ct.vendor_guid ct.vendor_table (last_of is_acpi20 cts)
              (first_of is_acpi10 cts) s h.0,
      smbios
          ∙ smbios_turn ct.vendor_guid ct.vendor_table (last_of is_smbios3 cts)
              (first_of is_smbios cts) s h.0,
      wide
          ∙ is64_turn ct.vendor_guid ct.vendor_table (last_of is_smbios3 cts)
              (first_of is_smbios cts) s h.0,
    )

-- On a list of configuration tables with addresses other than NULL, `UefiMain` chooses as RSDP the
-- last table of ACPI 2.0, or the first of ACPI 1.0 if there is none, and as SMBIOS entry point the
-- last of SMBIOS 3, or the first of the older kind if there is none; the entry point is read as one
-- of 64 bits exactly in the first case.
pub select_tables_lem :
    (cts : List ConfigurationTable)
    → All IsTable cts
    → let s = select_tables cts nothing_selected in
      (s.acpi_rsdp ≡ or_else (last_of is_acpi20 cts) (first_of is_acpi10 cts))
      × (s.smbios_entry ≡ or_else (last_of is_smbios3 cts) (first_of is_smbios cts))
      × (s.smbios_is64 ≡ not (last_of is_smbios3 cts == 0))
select_tables_lem cts h =
    let (acpi, smbios, wide) = choice cts nothing_selected h in
    (ground (arith, acpi), ground (arith, smbios), ground (arith, wide))
