-- ===== src/Acpi/Collect/Summaries.antt =====
-- The summary that `acpi_collect` records of one table.
use hardware_monitor_azk.Base.{
  ℕ, ◌+◌, ◌%◌, ◌^◌, ◌≤◌, ◌<◌, ◌≡◌, ◌↔◌, refl, sym, ap, ◌∙◌, arith, true, List, [], ◌∷◌, ◌++◌, some,
  ◌⊎◌, ◌==◌, length, take, drop, set, get_elem?, All, length-set, length-append, ==→eq,
}
use hardware_monitor_azk.Buffer.{done, Bytes, IsByte, load_bytes, load_le}
use hardware_monitor_azk.Base.{length-take, length-drop, take-append-drop}
use hardware_monitor_azk.Buffer.Text.{load_bytes-drop}
use mathlib.Core.Path.{subst}
use hardware_monitor_azk.Buffer.Returns.{
  Returns, Returns-eq, Returns-if, Returns->>=, returns, Returns-load_le, Returns-load,
  Returns-mono, Returns-store,
}
use hardware_monitor_azk.Acpi.Types.{
  AcpiData, AcpiTableSummary, acpi_header_size, acpi_max_discovered_tables,
}
use hardware_monitor_azk.Acpi.Checksum.{sig_is, equal_bytes, fill_summary}
use hardware_monitor_azk.Acpi.Checksum.Laws.{total, checksum_ok-total}
use hardware_monitor_azk.Acpi.Madt.Safety.{parse_madt-Returns}
use hardware_monitor_azk.Acpi.Mcfg.Safety.{parse_mcfg-Returns}
use hardware_monitor_azk.Acpi.Collect.{
  effective_length, parse_table, take_table, facp_sig, apic_sig, mcfg_sig, hpet_sig,
}
use hardware_monitor_azk.Acpi.Collect.Safety.{sig_is-take, parse_fadt-Returns, parse_hpet-Returns}

-- The summary of one table: the strings of its header with their NULs, its revision, how many
-- bytes of it count (the header's length if that is positive and inside the buffer, else all that
-- was handed over), and whether these sum to 0 in 8 bits.
pub record IsSummaryOf (raw : Bytes) (s : AcpiTableSummary) : Type 0 where
  pub header_length : ℕ
  pub used : ℕ
  pub declared : load_le raw 4 4 ≡ done header_length
  pub counts :
      ((0 < header_length) × (header_length ≤ length raw) × (used ≡ header_length))
      ⊎ (((header_length ≡ 0) ⊎ (length raw < header_length)) × (used ≡ length raw))
  pub signature : s.signature ≡ take 4 raw ++ (0 ∷ [])
  pub oem_id : s.oem_id ≡ take 6 (drop 10 raw) ++ (0 ∷ [])
  pub oem_table_id : s.oem_table_id ≡ take 8 (drop 16 raw) ++ (0 ∷ [])
  pub revision : get_elem? raw 8 ≡ some s.revision
  pub table_length : s.length ≡ used % 2 ^ 32
  pub checksum : (s.checksum_valid ≡ true) ↔ (total (take used raw) % 256 ≡ 0)

-- A summary of each table, in order, from the front of the array on.
abbrev pub AreSummaries : List Bytes → List AcpiTableSummary → Type 0
AreSummaries [] summaries = Unit
AreSummaries (raw ∷ raws) [] = ⊥
AreSummaries (raw ∷ raws) (s ∷ summaries) = IsSummaryOf raw s × AreSummaries raws summaries

AreSummaries-set :
    (raws : List Bytes) (summaries : List AcpiTableSummary) (raw : Bytes) (s : AcpiTableSummary)
    → AreSummaries raws summaries
    → length raws < length summaries
    → IsSummaryOf raw s
    → AreSummaries (raws ++ (raw ∷ [])) (set summaries (length raws) s)
AreSummaries-set [] [] raw s all free h = absurd (omega arith)
AreSummaries-set [] (x ∷ summaries) raw s all free h = (h, tt)
AreSummaries-set (r ∷ raws) [] raw s all free h = absurd (omega arith)
AreSummaries-set (r ∷ raws) (x ∷ summaries) raw s all free h =
    (all.0, AreSummaries-set raws summaries raw s all.1 (omega arith) h)

-- What was recorded so far.
abbrev pub HasSummaries : List Bytes → AcpiData → Type 0
HasSummaries raws d =
    (length d.discovered ≡ acpi_max_discovered_tables)
    × (d.discovered_count ≡ length raws)
    × AreSummaries raws d.discovered

load_bytes-take :
    (raw : Bytes) (p n : ℕ) → p + n ≤ length raw → load_bytes raw p n ≡ done (take n (drop p raw))
load_bytes-take raw p n h =
    subst (λ (m : ℕ). load_bytes raw p m ≡ done (take n (drop p raw)))
      (length-take n (drop p raw) (omega (arith, length-drop p raw)))
      (load_bytes-drop (take n (drop p raw)) raw p (drop n (drop p raw))
        (sym (take-append-drop n (drop p raw))))

stored-HasSummaries :
    (raws : List Bytes) (raw : Bytes) (d : AcpiData) (s : AcpiTableSummary)
    (summaries : List AcpiTableSummary)
    → HasSummaries raws d
    → length raws < acpi_max_discovered_tables
    → IsSummaryOf raw s
    → summaries ≡ set d.discovered d.discovered_count s
    → HasSummaries
        (raws ++ (raw ∷ []))
        (record d { discovered = summaries; discovered_count = (d.discovered_count + 1) % 2 ^ 32 })
stored-HasSummaries raws raw d s summaries h free one e = (
  rw e (length-set d.discovered d.discovered_count s ∙ h.0),
  omega (arith, h.1, free, length-append raws (raw ∷ [])),
  rw (e, h.1) (AreSummaries-set raws d.discovered raw s h.2 (omega (arith, h.0, free)) one),
)

module _ (raw : Bytes) (bytes : All IsByte raw) (long : acpi_header_size ≤ length raw) where
  parse_table-keeps :
      (len : ℕ) (summary : AcpiTableSummary) (d : AcpiData)
      → len ≤ length raw
      → Returns
          (λ d'. (d'.discovered ≡ d.discovered) × (d'.discovered_count ≡ d.discovered_count))
          (parse_table raw len summary d)
  unfolding parse_table
  parse_table-keeps len summary d le =
      rw (is facp_sig, is apic_sig, is mcfg_sig, is hpet_sig)
        (Returns-if (equal_bytes (take 4 raw) facp_sig)
          (λ _. Returns->>= (parse_fadt-Returns raw len bytes le) λ t _. returns _ (refl, refl))
          (λ _.
            Returns-if (equal_bytes (take 4 raw) apic_sig)
              (λ _. Returns->>= (parse_madt-Returns raw len bytes le) λ t _. returns _ (refl, refl))
              (λ _.
                Returns-if (equal_bytes (take 4 raw) mcfg_sig)
                  (λ _.
                    Returns->>= (parse_mcfg-Returns raw len bytes le) λ t _. returns _ (refl, refl))
                  (λ _.
                    Returns-if (equal_bytes (take 4 raw) hpet_sig)
                      (λ _.
                        Returns->>= (parse_hpet-Returns raw len bytes le)
                          λ t _. returns _ (refl, refl))
                      (λ _. returns d (refl, refl))))))
    where
      is : (signature : Bytes) → sig_is raw signature ≡ done (equal_bytes (take 4 raw) signature)
      is signature = sig_is-take raw signature (omega arith)

  fill_summary-IsSummaryOf :
      (header_length : ℕ)
      → load_le raw 4 4 ≡ done header_length
      → let used = effective_length (length raw) header_length in
        Returns (IsSummaryOf raw) (fill_summary raw used (total (take used raw) % 256 == 0))
  unfolding fill_summary
  fill_summary-IsSummaryOf header_length declared =
      let used = effective_length (length raw) header_length in
      rw
        (
          load_bytes-take raw 0 4 (omega arith),
          load_bytes-take raw 10 6 (omega arith),
          load_bytes-take raw 16 8 (omega arith),
        )
        (Returns->>= (Returns-load raw 8 (omega arith)) λ revision at. returns _ (record {
          header_length = header_length;
          used = used;
          declared = declared;
          counts = ground arith;
          signature = refl;
          oem_id = refl;
          oem_table_id = refl;
          revision = at;
          table_length = refl;
          checksum = (==→eq (total (take used raw) % 256) 0, λ e. ground arith);
        }))

  pub take_table-HasSummaries :
      (raws : List Bytes) (d : AcpiData)
      → HasSummaries raws d
      → length raws < acpi_max_discovered_tables
      → Returns (HasSummaries (raws ++ (raw ∷ []))) (take_table raw d)
  unfolding take_table
  take_table-HasSummaries raws d h free =
      let (header_length, declared, lt) =
        Returns-eq (Returns-load_le raw 4 4 bytes (omega arith)) in
      let used = effective_length (length raw) header_length in
      let le : used ≤ length raw = ground arith in
      rw (declared, checksum_ok-total raw used le)
        (Returns->>= (fill_summary-IsSummaryOf header_length declared) λ s one.
          Returns->>=
            (Returns-store d.discovered d.discovered_count s (omega (arith, h.0, h.1, free)))
            λ summaries e.
              let h' = stored-HasSummaries raws raw d s summaries h free one e in
              Returns-if (total (take used raw) % 256 == 0)
                (λ _. Returns-mono (parse_table-keeps used s _ le) λ d' kept. (
                  ap length kept.0 ∙ h'.0,
                  kept.1 ∙ h'.1,
                  subst (AreSummaries (raws ++ (raw ∷ []))) (sym kept.0) h'.2,
                ))
                (λ _. returns _ h'))
