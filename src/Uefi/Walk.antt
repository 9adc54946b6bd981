-- ===== src/Uefi/Walk.antt =====
-- `PrintAcpi` on the tables that the firmware has placed in memory.
use hardware_monitor_azk.Base.{
  ℕ, ◌+◌, ◌*◌, ◌^◌, ◌≤◌, ◌<◌, ◌≡◌, refl, sym, ap, ◌∙◌, arith, Bool, true, List, [], ◌∷◌, ◌++◌, some,
  length, get_elem?, le→ltb_false,
}
use hardware_monitor_azk.Buffer.{from_option, done, Bytes, load, load_le}
use hardware_monitor_azk.Base.{length-append}
use mathlib.Core.List.{append_assoc}
use hardware_monitor_azk.Buffer.Words.{le_bytes, load_le_at}
use hardware_monitor_azk.Acpi.Checksum.{checksum_ok}
use hardware_monitor_azk.Uefi.Types.{Memory, Line, xsdt_tables, acpi_table, rsdp_v1, rsdp_v2}
use hardware_monitor_azk.Uefi.Tables.{
  byte_at, word_at, print_table, print_entries, entry_count, print_xsdt, print_acpi,
}
use hardware_monitor_azk.Uefi.Agreement.{Holds, byte_at_lem, checksum_ok_at_lem, word_at_lem}

-- A table in memory at an address of 64 bits: its bytes, of which `size` by its header, the
-- signature in front, and the verdict of acpi.c's checksum.
pub record Placed (mem : Memory) : Type 0 where
  pub address : ℕ
  pub table : Bytes
  pub size : ℕ
  pub valid : Bool
  pub c0 : ℕ
  pub c1 : ℕ
  pub c2 : ℕ
  pub c3 : ℕ
  pub after : Bytes
  pub signature : table ≡ c0 ∷ c1 ∷ c2 ∷ c3 ∷ after
  pub held : Holds mem address table
  pub fits : address < 2 ^ 64
  pub header : 8 ≤ length table
  pub size_field : load_le table 4 4 ≡ done size
  pub inside : size ≤ length table
  pub checked : checksum_ok table size ≡ done valid

abbrev pub line_of : {mem : Memory} → Placed mem → Line
line_of t = acpi_table (t.c0 ∷ t.c1 ∷ t.c2 ∷ t.c3 ∷ []) t.size t.valid

abbrev pub lines_of : {mem : Memory} → List (Placed mem) → List Line
lines_of [] = []
lines_of (t ∷ ts) = line_of t ∷ lines_of ts

abbrev pub addresses : {mem : Memory} → List (Placed mem) → Bytes
addresses [] = []
addresses (t ∷ ts) = le_bytes 8 t.address ++ addresses ts

module _ (mem : Memory) where
  byte_of :
      (t : Placed mem) (i b : ℕ)
      → get_elem? t.table i ≡ some b
      → i < length t.table
      → byte_at mem (t.address + i) ≡ done b
  unfolding load
  byte_of t i b e lt = byte_at_lem mem t.address t.table i t.held lt ∙ ap from_option e

  print_table_lem : (t : Placed mem) → print_table mem t.address ≡ done (line_of t)
  unfolding print_table
  print_table_lem t =
      rw
        (
          word_at_lem mem t.address t.table t.held 4 4 t.header,
          t.size_field,
          checksum_ok_at_lem mem t.address t.table t.held t.size t.inside,
          t.checked,
          first,
          byte_of t 1 t.c1 (ap (λ xs. get_elem? xs 1) t.signature) (omega (arith, t.header)),
          byte_of t 2 t.c2 (ap (λ xs. get_elem? xs 2) t.signature) (omega (arith, t.header)),
          byte_of t 3 t.c3 (ap (λ xs. get_elem? xs 3) t.signature) (omega (arith, t.header)),
        )
        refl
    where
      first : byte_at mem t.address ≡ done t.c0
      first =
          ap (byte_at mem) (omega arith)
          ∙ byte_of t 0 t.c0 (ap (λ xs. get_elem? xs 0) t.signature) (omega (arith, t.header))

  entry_at :
      (front : Bytes) (t : Placed mem) (ts : List (Placed mem)) (xsdt : ℕ) (table : Bytes)
      → Holds mem xsdt table
      → table ≡ front ++ addresses (t ∷ ts)
      → word_at mem (xsdt + length front) 8 ≡ done t.address
  entry_at front t ts xsdt table h e =
      word_at_lem mem xsdt table h 8 (length front) (omega (arith, size))
      ∙ load_le_at table 0 8 front t.address (addresses ts) (length front) e t.fits (omega arith)
    where
      size : length table ≡ length front + length (addresses (t ∷ ts))
      size = ap length e ∙ length-append front (addresses (t ∷ ts))

  print_entries_lem :
      (ts : List (Placed mem)) (front : Bytes) (xsdt : ℕ) (table : Bytes)
      → Holds mem xsdt table
      → table ≡ front ++ addresses ts
      → print_entries mem (xsdt + length front) (length ts) ≡ done (lines_of ts)
  unfolding print_entries
  print_entries_lem [] front xsdt table h e = refl
  print_entries_lem (t ∷ ts) front xsdt table h e =
      let front' = front ++ le_bytes 8 t.address in
      let split : table ≡ front' ++ addresses ts =
        e ∙ sym (append_assoc front (le_bytes 8 t.address) (addresses ts)) in
      let at : xsdt + length front + 8 ≡ xsdt + length front' =
        omega (arith, length-append front (le_bytes 8 t.address)) in
      let later =
        ap (λ a. print_entries mem a (length ts)) at
        ∙ print_entries_lem ts front' xsdt table h split in
      rw (entry_at front t ts xsdt table h e, print_table_lem t, later) refl

  length-addresses : (ts : List (Placed mem)) → length (addresses ts) ≡ 8 * length ts
  length-addresses [] = refl
  length-addresses (t ∷ ts) =
      omega (arith, length-append (le_bytes 8 t.address) (addresses ts), length-addresses ts)

-- An XSDT in memory, with a header of 36 bytes, its length behind it, and a valid checksum; the
-- entries are the addresses of tables.
pub record IsXsdt (mem : Memory) (xsdt : ℕ) (ts : List (Placed mem)) : Type 0 where
  pub header : Bytes
  pub header_size : length header ≡ 36
  pub held : Holds mem xsdt (header ++ addresses ts)
  pub size_field : load_le (header ++ addresses ts) 4 4 ≡ done (36 + 8 * length ts)
  pub size_fits : 36 + 8 * length ts < 2 ^ 32
  pub valid : checksum_ok (header ++ addresses ts) (36 + 8 * length ts) ≡ done true

-- An RSDP of revision 2 or later in memory, both of whose checksums are valid.
pub record IsRsdp (mem : Memory) (rsdp xsdt : ℕ) : Type 0 where
  pub table : Bytes
  pub revision : ℕ
  pub size : ℕ
  pub held : Holds mem rsdp table
  pub whole : 36 ≤ length table
  pub valid1 : checksum_ok table 20 ≡ done true
  pub revision_field : load table 15 ≡ done revision
  pub version2 : 2 ≤ revision
  pub size_field : load_le table 20 4 ≡ done size
  pub inside : size ≤ length table
  pub valid2 : checksum_ok table size ≡ done true
  pub xsdt_field : load_le table 24 8 ≡ done xsdt

print_xsdt_lem :
    (mem : Memory) (xsdt : ℕ) (ts : List (Placed mem))
    → IsXsdt mem xsdt ts
    → print_xsdt mem xsdt ≡ done (xsdt_tables (length ts) ∷ lines_of ts)
unfolding print_xsdt
print_xsdt_lem mem xsdt ts x =
    rw
      (
        word_at_lem mem xsdt table x.held 4 4 (omega (arith, size)),
        x.size_field,
        checksum_ok_at_lem mem xsdt table x.held (36 + 8 * length ts) (omega (arith, size)),
        x.valid,
        count,
        entries,
      )
      refl
  where
    table : Bytes
    table = x.header ++ addresses ts

    size : length table ≡ 36 + 8 * length ts
    size =
        omega (arith, length-append x.header (addresses ts), x.header_size, length-addresses mem ts)

    count : entry_count (36 + 8 * length ts) ≡ length ts
    count = omega (arith, x.size_fits)

    entries : print_entries mem (xsdt + 36) (length ts) ≡ done (lines_of ts)
    entries =
        ap (λ n. print_entries mem (xsdt + n) (length ts)) (sym x.header_size)
        ∙ print_entries_lem mem ts x.header xsdt table x.held refl

-- For an RSDP of revision 2 or later in memory with both checksums valid, and an XSDT with a header
-- of 36 bytes, its whole length in its header and a valid checksum, whose entries are the addresses
-- of tables, `PrintAcpi` ends without a read outside these objects and prints both checksums as
-- valid, the number of entries, and for each entry, in order, the table's signature, its length and
-- the verdict that `checksum_ok` of src/firmware/acpi.c gives on it.
pub print_acpi-lines_of :
    (mem : Memory) (rsdp xsdt : ℕ) (ts : List (Placed mem))
    → IsRsdp mem rsdp xsdt
    → IsXsdt mem xsdt ts
    → print_acpi mem rsdp
      ≡ done (rsdp_v1 true ∷ rsdp_v2 true ∷ xsdt_tables (length ts) ∷ lines_of ts)
unfolding print_acpi
print_acpi-lines_of mem rsdp xsdt ts r x =
    rw
      (
        checksum_ok_at_lem mem rsdp r.table r.held 20 (omega (arith, r.whole)),
        r.valid1,
        byte_at_lem mem rsdp r.table 15 r.held (omega (arith, r.whole)),
        r.revision_field,
        le→ltb_false r.revision 2 r.version2,
        word_at_lem mem rsdp r.table r.held 4 20 (omega (arith, r.whole)),
        r.size_field,
        checksum_ok_at_lem mem rsdp r.table r.held r.size r.inside,
        r.valid2,
        word_at_lem mem rsdp r.table r.held 8 24 (omega (arith, r.whole)),
        r.xsdt_field,
        print_xsdt_lem mem xsdt ts x,
      )
      refl
