-- ===== src/Acpi/Mcfg/Safety.antt =====
-- `parse_mcfg` ends and stays inside its buffers, on every table.
use hardware_monitor_azk.Base.{ℕ, ◌+◌, ◌^◌, ◌≤◌, ◌<◌, ◌≡◌, ◌∙◌, arith, ◌&&◌, ltb, leb, length, All}
use hardware_monitor_azk.Buffer.{Bytes, IsByte}
use hardware_monitor_azk.Base.{length-set, length-replicate, All-set, All-replicate}
use hardware_monitor_azk.Buffer.Returns.{
  Returns, returns, Returns->>=, Returns-if, Returns-load-All, Returns-load_le, Returns-store,
}
use hardware_monitor_azk.Buffer.Loop.{TurnOk, scan-Returns}
use hardware_monitor_azk.Acpi.Types.{
  AcpiMcfgInfo, AcpiMcfgEntry, zero_mcfg, zero_mcfg_entry, acpi_max_mcfg_entries, acpi_header_size,
}
use hardware_monitor_azk.Acpi.Mcfg.{mcfg_entry, mcfg_turn, parse_mcfg}

pub record IsMcfgEntry (e : AcpiMcfgEntry) : Type 0 where
  pub base_address : e.base_address < 2 ^ 64
  pub pci_segment_group : e.pci_segment_group < 2 ^ 16
  pub start_bus : e.start_bus < 256
  pub end_bus : e.end_bus < 256

pub record IsMcfg (m : AcpiMcfgInfo) : Type 0 where
  pub size : length m.entries ≡ acpi_max_mcfg_entries
  pub count : m.entry_count ≤ acpi_max_mcfg_entries
  pub entries : All IsMcfgEntry m.entries

pub zero_mcfg-IsMcfg : IsMcfg zero_mcfg
zero_mcfg-IsMcfg = record {
  size = length-replicate 16 zero_mcfg_entry;
  count = omega arith;
  entries = All-replicate IsMcfgEntry 16 zero_mcfg_entry (omega arith);
}

module _ (table : Bytes) (len : ℕ) (bytes : All IsByte table) (inside : len ≤ length table) where
  mcfg_entry-Returns : (p : ℕ) → p + 16 ≤ len → Returns IsMcfgEntry (mcfg_entry table p)
  unfolding mcfg_entry
  mcfg_entry-Returns p h =
      Returns->>= (Returns-load_le table (p + 0) 8 bytes (omega arith)) λ base lt1.
        Returns->>= (Returns-load_le table (p + 8) 2 bytes (omega arith)) λ segment lt2.
          Returns->>= (Returns-load-All IsByte table (p + 10) bytes (omega arith)) λ a la.
            Returns->>= (Returns-load-All IsByte table (p + 11) bytes (omega arith))
              λ b lb. returns _ (omega arith)

  mcfg_turn-Returns :
      (p : ℕ) (m : AcpiMcfgInfo)
      → IsMcfg m
      → Returns (TurnOk (λ _. IsMcfg) IsMcfg len p) (mcfg_turn table len p m)
  unfolding mcfg_turn
  mcfg_turn-Returns p m w =
      Returns-if (leb (p + 16) len && ltb m.entry_count acpi_max_mcfg_entries)
        (λ more. Returns->>= (mcfg_entry-Returns p (ground arith)) λ e l.
          Returns->>= (Returns-store m.entries m.entry_count e (ground (arith, w.size))) λ es eq.
            returns _ (
              record {
                size = rw eq (length-set m.entries _ e ∙ w.size);
                count = ground arith;
                entries = rw eq (All-set IsMcfgEntry m.entries _ e w.entries l);
              },
              omega arith,
              ground arith,
            ))
        (λ _. returns _ w)

  pub parse_mcfg-Returns : Returns IsMcfg (parse_mcfg table len)
  unfolding parse_mcfg
  parse_mcfg-Returns =
      Returns-if (ltb len (acpi_header_size + 8)) (λ _. returns _ zero_mcfg-IsMcfg)
        (λ long.
          Returns->>=
            (scan-Returns (λ _. IsMcfg) IsMcfg len (mcfg_turn table len) mcfg_turn-Returns _ _ _
              (omega arith) zero_mcfg-IsMcfg)
            λ m w. returns _ (record { size = w.size; count = w.count; entries = w.entries }))
