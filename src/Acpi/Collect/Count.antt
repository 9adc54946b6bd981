-- ===== src/Acpi/Collect/Count.antt =====
-- The summaries that `acpi_collect` records, table by table.
use hardware_monitor_azk.Base.{
  ℕ, ◌≤◌, ◌<◌, ◌≡◌, refl, sym, arith, true, false, List, [], ◌∷◌, ◌++◌, Option, none, some, inl,
  inr, ltb, leb, if◌then◌else◌, Bool-cases, tests, length, take, All, length-replicate,
  ltb_false→le, take_all, take-append, length-append,
}
use hardware_monitor_azk.Buffer.{done, Bytes, IsByte}
use mathlib.Core.List.{append-nil, append_assoc}
use hardware_monitor_azk.Buffer.Returns.{Returns, Returns-eq, Returns-if, Returns->>=, returns}
use hardware_monitor_azk.Acpi.Types.{
  AcpiData, acpi_header_size, acpi_max_discovered_tables, zero_acpi, zero_summary,
}
use hardware_monitor_azk.Acpi.Collect.{collect, collect_all, collect_one}
use hardware_monitor_azk.Acpi.Collect.Summaries.{
  AreSummaries, HasSummaries, take_table-HasSummaries,
}

-- A table counts if the platform has it and it holds a whole header of 36 bytes.
abbrev pub whole_table : Option Bytes → List Bytes
whole_table none = []
whole_table (some raw) = if leb 36 (length raw) then raw ∷ [] else []

abbrev pub tables_of : (ℕ → Option Bytes) → List ℕ → List Bytes
tables_of get_table [] = []
tables_of get_table (sig ∷ sigs) = whole_table (get_table sig) ++ tables_of get_table sigs

module _ (get_table : ℕ → Option Bytes)
    (byte_tables : (sig : ℕ) (raw : Bytes) → get_table sig ≡ some raw → All IsByte raw) where
  collect_one-HasSummaries :
      (sig : ℕ) (raws : List Bytes) (o : Option Bytes) (d : AcpiData)
      → get_table sig ≡ o
      → HasSummaries raws d
      → length raws < acpi_max_discovered_tables
      → Returns (HasSummaries (raws ++ whole_table o)) (collect_one o d)
  unfolding collect_one
  collect_one-HasSummaries sig raws none d e h free = rw (append-nil raws) (returns d h)
  collect_one-HasSummaries sig raws (some raw) d e h free =
      elim (Bool-cases (ltb (length raw) acpi_header_size)) [
        | inl short ↦
            let few : leb 36 (length raw) ≡ false = ground arith in
            rw (short, few, append-nil raws) (returns d h)
        | inr long ↦
            let whole : leb 36 (length raw) ≡ true = ground arith in
            rw (long, whole)
              (take_table-HasSummaries raw (byte_tables sig raw e)
                (ltb_false→le (length raw) acpi_header_size long) raws d h free)
      ]

  at_most_one : (o : Option Bytes) → length (whole_table o) ≤ 1
  at_most_one none = omega arith
  at_most_one (some raw) = ground arith

  collect_all-HasSummaries :
      (sigs : List ℕ) (raws : List Bytes) (d : AcpiData)
      → HasSummaries raws d
      → length raws ≤ acpi_max_discovered_tables
      → Returns
          (HasSummaries (take acpi_max_discovered_tables (raws ++ tables_of get_table sigs)))
          (collect_all get_table sigs d)
  unfolding collect_all
  collect_all-HasSummaries [] raws d h le = rw (append-nil raws, take_all 64 raws le) (returns d h)
  collect_all-HasSummaries (sig ∷ sigs) raws d h le =
      Returns-if (ltb d.discovered_count acpi_max_discovered_tables)
        (λ free.
          Returns->>=
            (collect_one-HasSummaries sig raws (get_table sig) d refl h (omega (tests, h.1)))
            λ d' h'.
              rw (sym (append_assoc raws (whole_table (get_table sig)) (tables_of get_table sigs)))
                (collect_all-HasSummaries sigs (raws ++ whole_table (get_table sig)) d' h' (
                  omega (
                    tests,
                    h.1,
                    at_most_one (get_table sig),
                    length-append raws (whole_table (get_table sig)),
                  ))))
        (λ full.
          let all_kept : 64 ≤ length raws = omega (tests, h.1) in
          rw
            (
              take-append 64 raws (whole_table (get_table sig) ++ tables_of get_table sigs)
                  all_kept,
              take_all 64 raws le,
            )
            (returns d h))

  -- If every table that the platform gives consists of bytes, `acpi_collect` ends and records, in
  -- order and from the front of its array on, one summary of each listed table that the platform
  -- has and that holds a whole header of 36 bytes, in good order or not, up to 64 of them, and
  -- counts them. A summary has the header's signature and OEM strings with their NULs, its
  -- revision, the length that counts (the header's if it is positive and not past the table's end,
  -- otherwise all that was given), and as checksum's validity whether the bytes of this length sum
  -- to 0 in 8 bits.
  pub collect-tables_of :
      (sigs : List ℕ)
      → let tables = take 64 (tables_of get_table sigs) in
        (d : AcpiData) × (collect get_table (some sigs) ≡ done (some d))
        × (d.discovered_count ≡ length tables)
        × AreSummaries tables d.discovered
  unfolding collect
  collect-tables_of sigs =
      let (d, run, h) = Returns-eq (
        collect_all-HasSummaries sigs [] zero_acpi (length-replicate 64 zero_summary, refl, tt)
          (omega arith)) in
      (d, rw run refl, h.1, h.2)
