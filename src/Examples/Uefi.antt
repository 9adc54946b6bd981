-- ===== src/Examples/Uefi.antt =====
-- The UEFI application (uefi/HwMonPkg/Application/HwMonUefi/HwMonUefi.c) on a small firmware: an
-- RSDP at 0x100, an XSDT at 0x200 and one table at 0x300, whose checksum is wrong.
use hardware_monitor_azk.Base.{
  ◌+◌, ◌-◌, ◌≡◌, refl, arith, true, false, List, [], ◌∷◌, ◌++◌, ltb, if◌then◌else◌, drop, replicate,
  get_elem?, le→ltb_false, lt→ltb,
}
use hardware_monitor_azk.Buffer.{done, Bytes, load, load_le}
use hardware_monitor_azk.Acpi.Checksum.{sum_loop, checksum_ok}
use hardware_monitor_azk.Uefi.Types.{
  Memory, rsdp_v1, rsdp_v2, xsdt_tables, acpi_table, ConfigurationTable, acpi20_table, acpi10_table,
  smbios_table,
}
use hardware_monitor_azk.Uefi.Tables.{print_acpi}
use hardware_monitor_azk.Uefi.Agreement.{Holds}
use hardware_monitor_azk.Uefi.Walk.{Placed, print_acpi-lines_of}
use hardware_monitor_azk.Uefi.Selection.{select_tables, nothing_selected}
use hardware_monitor_azk.Uefi.Selection.Choice.{last_of, first_of, select_tables_lem}

abbrev rsdp_bytes : Bytes
rsdp_bytes =
    replicate 8 0
    ++ (254 ∷ replicate 6 0
        ++ (2 ∷ replicate 4 0
            ++ (36 ∷ 0 ∷ 0 ∷ 0 ∷ 0 ∷ 2 ∷ replicate 6 0 ++ (218 ∷ 0 ∷ 0 ∷ 0 ∷ []))))

abbrev xsdt_header : Bytes
xsdt_header = 88 ∷ 83 ∷ 68 ∷ 84 ∷ 44 ∷ 0 ∷ 0 ∷ 0 ∷ 1 ∷ 141 ∷ replicate 26 0

abbrev table_bytes : Bytes
table_bytes = 65 ∷ 80 ∷ 73 ∷ 67 ∷ 36 ∷ replicate 31 0

abbrev xsdt_bytes : Bytes
xsdt_bytes = xsdt_header ++ (0 ∷ 3 ∷ replicate 6 0)

abbrev image : Memory
image a =
    if ltb a 0x200
    then get_elem? rsdp_bytes (a - 0x100)
    else if ltb a 0x300
    then get_elem? xsdt_bytes (a - 0x200)
    else get_elem? table_bytes (a - 0x300)

rsdp-Holds : Holds image 0x100 rsdp_bytes
rsdp-Holds i lt =
    let here : 0x100 + i - 0x100 ≡ i = omega arith in
    rw (lt→ltb (0x100 + i) 0x200 (omega arith), here) refl

xsdt-Holds : Holds image 0x200 xsdt_bytes
xsdt-Holds i lt =
    let here : 0x200 + i - 0x200 ≡ i = omega arith in
    rw (le→ltb_false (0x200 + i) 0x200 (omega arith), lt→ltb (0x200 + i) 0x300 (omega arith), here)
      refl

table-Holds : Holds image 0x300 table_bytes
table-Holds i lt =
    let here : 0x300 + i - 0x300 ≡ i = omega arith in
    rw
      (
        le→ltb_false (0x300 + i) 0x200 (omega arith),
        le→ltb_false (0x300 + i) 0x300 (omega arith),
        here,
      )
      refl

abbrev table : Placed image
unfolding checksum_ok sum_loop load load_le
table = record {
  address = 0x300;
  table = table_bytes;
  size = 36;
  valid = false;
  c0 = 65;
  c1 = 80;
  c2 = 73;
  c3 = 67;
  after = drop 4 table_bytes;
  signature = refl;
  held = table-Holds;
  fits = omega arith;
  header = omega arith;
  size_field = refl;
  inside = omega arith;
  checked = refl;
}

print_acpi_example :
    print_acpi image 0x100
    ≡ done (
        rsdp_v1 true
        ∷ rsdp_v2 true
        ∷ xsdt_tables 1
        ∷ acpi_table (65 ∷ 80 ∷ 73 ∷ 67 ∷ []) 36 false
        ∷ [])
unfolding checksum_ok sum_loop load load_le
print_acpi_example =
    print_acpi-lines_of image 0x100 0x200 (table ∷ [])
      (record {
        table = rsdp_bytes;
        revision = 2;
        size = 36;
        held = rsdp-Holds;
        whole = omega arith;
        valid1 = refl;
        revision_field = refl;
        version2 = omega arith;
        size_field = refl;
        inside = omega arith;
        valid2 = refl;
        xsdt_field = refl;
      })
      (record {
        header = xsdt_header;
        header_size = refl;
        held = xsdt-Holds;
        size_field = refl;
        size_fits = omega arith;
        valid = refl;
      })

abbrev configuration : List ConfigurationTable
configuration =
    record { vendor_guid = acpi10_table; vendor_table = 0x900 }
    ∷ record { vendor_guid = acpi20_table; vendor_table = 0x100 }
    ∷ record { vendor_guid = smbios_table; vendor_table = 0x800 }
    ∷ []

select_tables_example :
    let s = select_tables configuration nothing_selected in
    (s.acpi_rsdp ≡ 0x100) × (s.smbios_entry ≡ 0x800) × (s.smbios_is64 ≡ false)
unfolding last_of first_of
select_tables_example =
    select_tables_lem configuration
      ((λ e. omega arith), ((λ e. omega arith), ((λ e. omega arith), tt)))
