-- ===== src/Acpi/Collect/Safety.antt =====
-- `acpi_collect` on whatever the platform hands over: it ends, stays inside its buffers, and
-- takes nothing from a table with a bad checksum.
use hardware_monitor_azk.Base.{
  ℕ, ◌%◌, ◌≤◌, ◌≡◌, refl, sym, arith, Bool, true, [], ◌∷◌, Option, some, ltb, tests, length, take,
  drop, All,
}
use hardware_monitor_azk.Buffer.{Run, done, Bytes, IsByte, load_le, load_bytes}
use hardware_monitor_azk.Base.{length-append, length-take, take-append-drop}
use hardware_monitor_azk.Buffer.Returns.{
  Returns, returns, Returns->>=, Returns-if, Returns-load_any, Returns-load_le, Returns-load_bytes,
}
use mathlib.Core.Path.{subst}
use hardware_monitor_azk.Buffer.Text.{load_bytes-drop}
use hardware_monitor_azk.Acpi.Types.{
  AcpiData, AcpiTableSummary, AcpiFadtInfo, AcpiHpetInfo, AcpiMadtInfo, AcpiMcfgInfo,
  acpi_header_size, acpi_max_discovered_tables,
}
use hardware_monitor_azk.Acpi.Checksum.{fill_summary, sig_is, equal_bytes}
use hardware_monitor_azk.Acpi.Checksum.Laws.{total}
use hardware_monitor_azk.Acpi.Fixed.{parse_fadt, parse_hpet}
use hardware_monitor_azk.Acpi.Madt.{parse_madt}
use hardware_monitor_azk.Acpi.Madt.Safety.{IsMadt}
use hardware_monitor_azk.Acpi.Mcfg.{parse_mcfg}
use hardware_monitor_azk.Acpi.Mcfg.Safety.{IsMcfg}
use hardware_monitor_azk.Acpi.Collect.{effective_length, facp_sig, apic_sig, mcfg_sig, hpet_sig}

-- The four characters of a signature, and the strings of a summary with their NULs.
pub record IsSummary (s : AcpiTableSummary) : Type 0 where
  pub signature : length s.signature ≡ 5
  pub oem_id : length s.oem_id ≡ 7
  pub oem_table_id : length s.oem_table_id ≡ 9

-- A table that the platform handed over, with a whole header, a good checksum over the bytes that
-- count and the signature given, parsed to `t`.
pub record IsTrusted {T : Type 0} (get_table : ℕ → Option Bytes) (signature : Bytes)
    (parse : Bytes → ℕ → Run T) (t : T) : Type 0 where
  pub sig : ℕ
  pub raw : Bytes
  pub header_length : ℕ
  pub obtained : get_table sig ≡ some raw
  pub long : acpi_header_size ≤ length raw
  pub declared : load_le raw 4 4 ≡ done header_length
  pub sums : total (take (effective_length (length raw) header_length) raw) % 256 ≡ 0
  pub signed : take 4 raw ≡ signature
  pub parsed : parse raw (effective_length (length raw) header_length) ≡ done t

-- What the enumeration keeps true of its result.
pub record IsAcpi (get_table : ℕ → Option Bytes) (d : AcpiData) : Type 0 where
  pub slots : length d.discovered ≡ acpi_max_discovered_tables
  pub count : d.discovered_count ≤ acpi_max_discovered_tables
  pub summaries : All IsSummary d.discovered
  pub madt : IsMadt d.madt
  pub mcfg : IsMcfg d.mcfg
  pub fadt_from :
      d.fadt.available ≡ true
      → (t : AcpiFadtInfo) × (s : AcpiTableSummary) × IsTrusted get_table facp_sig parse_fadt t
        × (d.fadt ≡ record t { summary = s })
  pub madt_from :
      d.madt.available ≡ true
      → (t : AcpiMadtInfo) × (s : AcpiTableSummary) × IsTrusted get_table apic_sig parse_madt t
        × (d.madt ≡ record t { summary = s })
  pub mcfg_from :
      d.mcfg.available ≡ true
      → (t : AcpiMcfgInfo) × (s : AcpiTableSummary) × IsTrusted get_table mcfg_sig parse_mcfg t
        × (d.mcfg ≡ record t { summary = s })
  pub hpet_from :
      d.hpet.available ≡ true
      → (t : AcpiHpetInfo) × (s : AcpiTableSummary) × IsTrusted get_table hpet_sig parse_hpet t
        × (d.hpet ≡ record t { summary = s })

pub equal_bytes→eq : (a b : Bytes) → equal_bytes a b ≡ true → a ≡ b
unfolding equal_bytes
equal_bytes→eq [] [] e = refl
equal_bytes→eq [] (y ∷ ys) e = cc
equal_bytes→eq (x ∷ xs) [] e = cc
equal_bytes→eq (x ∷ xs) (y ∷ ys) e = ground (arith, equal_bytes→eq xs ys)

pub sig_is-take :
    (raw sig4 : Bytes) → 4 ≤ length raw → sig_is raw sig4 ≡ done (equal_bytes (take 4 raw) sig4)
unfolding sig_is
sig_is-take raw sig4 h = rw first
  where
    first : load_bytes raw 0 4 ≡ done (take 4 raw)
    first =
        subst (λ (n : ℕ). load_bytes raw 0 n ≡ done (take 4 raw)) (length-take 4 raw h)
          (load_bytes-drop (take 4 raw) raw 0 (drop 4 raw) (sym (take-append-drop 4 raw)))

pub fill_summary-Returns :
    (raw : Bytes) (len : ℕ) (valid : Bool)
    → All IsByte raw
    → acpi_header_size ≤ length raw
    → Returns IsSummary (fill_summary raw len valid)
unfolding fill_summary
fill_summary-Returns raw len valid bytes h =
    Returns->>= (Returns-load_bytes raw 0 4 bytes (omega arith)) λ a ha.
      Returns->>= (Returns-load_bytes raw 10 6 bytes (omega arith)) λ b hb.
        Returns->>= (Returns-load_bytes raw 16 8 bytes (omega arith)) λ c hc.
          Returns->>= (Returns-load_any raw 8 (omega arith)) λ r _. returns _ (record {
            signature = omega (arith, ha.1, length-append a (0 ∷ []));
            oem_id = omega (arith, hb.1, length-append b (0 ∷ []));
            oem_table_id = omega (arith, hc.1, length-append c (0 ∷ []));
          })

module _ (table : Bytes) (len : ℕ) (bytes : All IsByte table) (inside : len ≤ length table) where
  pub parse_fadt-Returns : Returns (λ _. Unit {0}) (parse_fadt table len)
  unfolding parse_fadt
  parse_fadt-Returns =
      Returns-if (ltb len 48) (λ _. returns _ tt)
        (λ long.
          Returns->>= (Returns-load_any table 45 (omega tests))
            λ _ _. Returns->>= (Returns-load_le table 46 2 bytes (omega tests)) λ _ _. returns _ tt)

  pub parse_hpet-Returns : Returns (λ _. Unit {0}) (parse_hpet table len)
  unfolding parse_hpet
  parse_hpet-Returns =
      Returns-if (ltb len 53) (λ _. returns _ tt)
        (λ long.
          Returns->>= (Returns-load_le table 44 8 bytes (omega tests))
            λ _ _. Returns->>= (Returns-load_any table 52 (omega tests)) λ _ _. returns _ tt)
