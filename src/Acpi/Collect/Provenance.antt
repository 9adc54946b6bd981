-- ===== src/Acpi/Collect/Provenance.antt =====
-- The invariant of `acpi_collect`: whatever it reports as available comes from a trusted table.
use hardware_monitor_azk.Base.{
  ℕ, ◌+◌, ◌%◌, ◌^◌, ◌≤◌, ◌<◌, ◌≡◌, refl, ◌∙◌, arith, true, List, Option, some, ◌==◌, length, take,
  All, ==→eq, length-replicate, All-replicate, [], none,
}
use hardware_monitor_azk.Buffer.{Run, done, Bytes, IsByte, load_le}
use hardware_monitor_azk.Base.{length-set, All-set}
use hardware_monitor_azk.Buffer.Returns.{
  Returns, returns, Returns->>=, Returns-if, Returns-eq, Returns-store, Returns-load_le,
}
use hardware_monitor_azk.Acpi.Types.{
  AcpiData, AcpiTableSummary, acpi_header_size, acpi_max_discovered_tables, zero_acpi, zero_summary,
}
use hardware_monitor_azk.Acpi.Checksum.{sig_is, equal_bytes}
use hardware_monitor_azk.Acpi.Checksum.Laws.{total, checksum_ok-total}
use hardware_monitor_azk.Acpi.Fixed.{parse_fadt, parse_hpet}
use hardware_monitor_azk.Acpi.Madt.{parse_madt}
use hardware_monitor_azk.Acpi.Madt.Safety.{parse_madt-Returns, zero_madt-IsMadt}
use hardware_monitor_azk.Acpi.Mcfg.{parse_mcfg}
use hardware_monitor_azk.Acpi.Mcfg.Safety.{parse_mcfg-Returns, zero_mcfg-IsMcfg}
use hardware_monitor_azk.Acpi.Collect.{
  effective_length, parse_table, take_table, facp_sig, apic_sig, mcfg_sig, hpet_sig, collect,
  collect_all, collect_one, ◌∷◌, ltb, tests,
}
use hardware_monitor_azk.Acpi.Collect.Safety.{
  IsSummary, IsTrusted, IsAcpi, equal_bytes→eq, sig_is-take, fill_summary-Returns,
  parse_fadt-Returns, parse_hpet-Returns,
}

module _ (get_table : ℕ → Option Bytes) where
  module _ (sig : ℕ) (raw : Bytes) (header_length : ℕ) (bytes : All IsByte raw)
      (obtained : get_table sig ≡ some raw) (long : acpi_header_size ≤ length raw)
      (declared : load_le raw 4 4 ≡ done header_length) where
    abbrev len : ℕ
    len = effective_length (length raw) header_length

    len-le : len ≤ length raw
    len-le = ground arith

    trusted :
        {T : Type 0} (signature : Bytes) (parse : Bytes → ℕ → Run T) (t : T)
        → total (take len raw) % 256 ≡ 0
        → equal_bytes (take 4 raw) signature ≡ true
        → parse raw len ≡ done t
        → IsTrusted get_table signature parse t
    trusted signature parse t sums e parsed = record {
      sig = sig;
      raw = raw;
      header_length = header_length;
      obtained = obtained;
      long = long;
      declared = declared;
      sums = sums;
      signed = equal_bytes→eq (take 4 raw) signature e;
      parsed = parsed;
    }

    parse_table-Returns :
        (summary : AcpiTableSummary) (d : AcpiData)
        → total (take len raw) % 256 ≡ 0
        → IsAcpi get_table d
        → Returns (IsAcpi get_table) (parse_table raw len summary d)
    unfolding parse_table
    parse_table-Returns summary d sums w =
        rw (is facp_sig, is apic_sig, is mcfg_sig, is hpet_sig)
          (Returns-if (equal_bytes (take 4 raw) facp_sig)
            (λ e.
              let (t, run, _) = Returns-eq (parse_fadt-Returns raw len bytes len-le) in
              rw run (
                returns _ (record {
                  slots = w.slots;
                  count = w.count;
                  summaries = w.summaries;
                  madt = w.madt;
                  mcfg = w.mcfg;
                  fadt_from = λ _. (t, summary, trusted facp_sig parse_fadt t sums e run, refl);
                  madt_from = w.madt_from;
                  mcfg_from = w.mcfg_from;
                  hpet_from = w.hpet_from;
                })))
            (λ _.
              Returns-if (equal_bytes (take 4 raw) apic_sig)
                (λ e.
                  let (t, run, l) = Returns-eq (parse_madt-Returns raw len bytes len-le) in
                  rw run (
                    returns _ (record {
                      slots = w.slots;
                      count = w.count;
                      summaries = w.summaries;
                      mcfg = w.mcfg;
                      madt = record { size = l.size; count = l.count; processors = l.processors };
                      fadt_from = w.fadt_from;
                      madt_from = λ _. (t, summary, trusted apic_sig parse_madt t sums e run, refl);
                      mcfg_from = w.mcfg_from;
                      hpet_from = w.hpet_from;
                    })))
                (λ _.
                  Returns-if (equal_bytes (take 4 raw) mcfg_sig)
                    (λ e.
                      let (t, run, l) = Returns-eq (parse_mcfg-Returns raw len bytes len-le) in
                      rw run (
                        returns _ (record {
                          slots = w.slots;
                          count = w.count;
                          summaries = w.summaries;
                          madt = w.madt;
                          mcfg = record { size = l.size; count = l.count; entries = l.entries };
                          fadt_from = w.fadt_from;
                          madt_from = w.madt_from;
                          mcfg_from =
                              λ _. (t, summary, trusted mcfg_sig parse_mcfg t sums e run, refl);
                          hpet_from = w.hpet_from;
                        })))
                    (λ _.
                      Returns-if (equal_bytes (take 4 raw) hpet_sig)
                        (λ e.
                          let (t, run, _) = Returns-eq (parse_hpet-Returns raw len bytes len-le) in
                          rw run (
                            returns _ (record {
                              slots = w.slots;
                              count = w.count;
                              summaries = w.summaries;
                              madt = w.madt;
                              mcfg = w.mcfg;
                              fadt_from = w.fadt_from;
                              madt_from = w.madt_from;
                              mcfg_from = w.mcfg_from;
                              hpet_from =
                                  λ _. (t, summary, trusted hpet_sig parse_hpet t sums e run, refl);
                            })))
                        (λ _. returns d w)))))
      where
        is : (signature : Bytes) → sig_is raw signature ≡ done (equal_bytes (take 4 raw) signature)
        is signature = sig_is-take raw signature (omega arith)

    with_summary :
        (d : AcpiData) (discovered : List AcpiTableSummary) (n : ℕ)
        → IsAcpi get_table d
        → length discovered ≡ acpi_max_discovered_tables
        → All IsSummary discovered
        → n ≤ acpi_max_discovered_tables
        → IsAcpi get_table (record d { discovered = discovered; discovered_count = n })
    with_summary d discovered n w size all le = record {
      slots = size;
      count = le;
      summaries = all;
      madt = w.madt;
      mcfg = w.mcfg;
      fadt_from = w.fadt_from;
      madt_from = w.madt_from;
      mcfg_from = w.mcfg_from;
      hpet_from = w.hpet_from;
    }

    take_table-Returns :
        (d : AcpiData)
        → IsAcpi get_table d
        → d.discovered_count < acpi_max_discovered_tables
        → Returns (IsAcpi get_table) (take_table raw d)
    unfolding take_table
    take_table-Returns d w free =
        rw (declared, checksum_ok-total raw len len-le)
          (Returns->>= (fill_summary-Returns raw len (total (take len raw) % 256 == 0) bytes long)
            λ summary l.
              Returns->>=
                (Returns-store d.discovered d.discovered_count summary (omega (arith, w.slots)))
                λ ds e.
                  let w' =
                    with_summary d ds ((d.discovered_count + 1) % 2 ^ 32) w
                      (rw e (length-set d.discovered _ summary ∙ w.slots))
                      (rw e (All-set IsSummary d.discovered _ summary w.summaries l))
                      (omega arith) in
                  Returns-if (total (take len raw) % 256 == 0)
                    (λ valid. parse_table-Returns summary _ (==→eq _ 0 valid) w')
                    (λ _. returns _ w'))

  module _ (byte_tables : (sig : ℕ) (raw : Bytes) → get_table sig ≡ some raw → All IsByte raw) where
    collect_one-Returns :
        (sig : ℕ) (o : Option Bytes) (d : AcpiData)
        → get_table sig ≡ o
        → IsAcpi get_table d
        → d.discovered_count < acpi_max_discovered_tables
        → Returns (IsAcpi get_table) (collect_one o d)
    unfolding collect_one
    collect_one-Returns sig none d e w free = returns d w
    collect_one-Returns sig (some raw) d e w free =
        let bytes = byte_tables sig raw e in
        Returns-if (ltb (length raw) acpi_header_size) (λ _. returns d w)
          (λ long.
            let (header_length, declared, _) =
              Returns-eq (Returns-load_le raw 4 4 bytes (omega tests)) in
            take_table-Returns sig raw header_length bytes e (omega tests) declared d w free)

    collect_all-Returns :
        (sigs : List ℕ) (d : AcpiData)
        → IsAcpi get_table d
        → Returns (IsAcpi get_table) (collect_all get_table sigs d)
    unfolding collect_all
    collect_all-Returns [] d w = returns d w
    collect_all-Returns (sig ∷ sigs) d w =
        Returns-if (ltb d.discovered_count acpi_max_discovered_tables)
          (λ free.
            Returns->>= (collect_one-Returns sig (get_table sig) d refl w (omega tests))
              λ d' w'. collect_all-Returns sigs d' w')
          (λ _. returns d w)

    -- If every table that the platform gives consists of bytes, `acpi_collect` ends and stays
    -- inside its buffers for every list of signatures. At most 64 summaries are kept, and each of
    -- the FADT, MADT, MCFG and HPET records that is available is the result of the parser on one of
    -- the platform's tables that has a whole header, a checksum of 0 over the length that counts,
    -- and the signature.
    pub collect-IsAcpi :
        (sigs : List ℕ)
        → (d : AcpiData) × (collect get_table (some sigs) ≡ done (some d)) × IsAcpi get_table d
    unfolding collect
    collect-IsAcpi sigs =
        let (d, run, w) = Returns-eq (collect_all-Returns sigs zero_acpi zero) in (d, rw run, w)
      where
        zero : IsAcpi get_table zero_acpi
        zero = record {
          slots = length-replicate 64 zero_summary;
          count = omega arith;
          summaries = All-replicate IsSummary 64 zero_summary (omega arith);
          madt = zero_madt-IsMadt;
          mcfg = zero_mcfg-IsMcfg;
          fadt_from = λ e. cc;
          madt_from = λ e. cc;
          mcfg_from = λ e. cc;
          hpet_from = λ e. cc;
        }
