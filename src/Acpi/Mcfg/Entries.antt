-- ===== src/Acpi/Mcfg/Entries.antt =====
-- `parse_mcfg` reads back the entries that a table was written with.
use native.Mathlib.Decide.{dec_lt}
use mathlib.Core.Path.{subst}
use mathlib.Core.List.{append-nil, append_assoc}
use hardware_monitor_azk.Buffer.Loop.{scan}
use hardware_monitor_azk.Base.{
  ℕ, zero, suc, ◌+◌, ◌-◌, ◌%◌, ◌^◌, ◌≤◌, ◌<◌, ◌≡◌, refl, ◌∙◌, arith, true, false, ◌&&◌, List, [],
  ◌∷◌, ◌++◌, ◌⊎◌, inl, inr, ltb, leb, length, take, drop, set, All, min,
}
use hardware_monitor_azk.Buffer.{done, Bytes, store}
use hardware_monitor_azk.Base.{length-append, drop_append, drop_length-append}
use hardware_monitor_azk.Buffer.Words.{le_bytes, load_le_at, load_at}
use hardware_monitor_azk.Buffer.Filled.{IsFilled, IsFilled-set, IsFilled-replicate, IsFilled-full}
use hardware_monitor_azk.Acpi.Types.{
  AcpiMcfgInfo, AcpiMcfgEntry, acpi_max_mcfg_entries, acpi_header_size, zero_mcfg, zero_mcfg_entry,
}
use hardware_monitor_azk.Acpi.Mcfg.{mcfg_entry, parse_mcfg, mcfg_turn, stop, again}
use hardware_monitor_azk.Acpi.Mcfg.Safety.{IsMcfgEntry}

-- An allocation structure of the table, with its four reserved bytes.
abbrev pub encode_entry : AcpiMcfgEntry → Bytes
encode_entry e =
    le_bytes 8 e.base_address
    ++ (le_bytes 2 e.pci_segment_group ++ (e.start_bus ∷ e.end_bus ∷ 0 ∷ 0 ∷ 0 ∷ 0 ∷ []))

abbrev pub encode_entries : List AcpiMcfgEntry → Bytes
encode_entries [] = []
encode_entries (e ∷ es) = encode_entry e ++ encode_entries es

abbrev HoldsEntries : AcpiMcfgInfo → List AcpiMcfgEntry → Type 0
HoldsEntries m es = IsFilled acpi_max_mcfg_entries m.entries m.entry_count es

module _ (table : Bytes) where
  mcfg_entry-encode_entry :
      (p : ℕ) (e : AcpiMcfgEntry) (rest : Bytes)
      → drop p table ≡ encode_entry e ++ rest
      → IsMcfgEntry e
      → mcfg_entry table p ≡ done e
  unfolding mcfg_entry
  mcfg_entry-encode_entry p e rest at w = rw (
    load_le_at table p 8 [] e.base_address _ (p + 0) at w.base_address (omega arith),
    load_le_at table p 2 (le_bytes 8 e.base_address) e.pci_segment_group
        (e.start_bus ∷ e.end_bus ∷ 0 ∷ 0 ∷ 0 ∷ 0 ∷ rest) (p + 8) at w.pci_segment_group
        (omega arith),
    load_at table p (le_bytes 8 e.base_address ++ le_bytes 2 e.pci_segment_group) e.start_bus
        (e.end_bus ∷ 0 ∷ 0 ∷ 0 ∷ 0 ∷ rest) (p + 10) at (omega arith),
    load_at table p
        (le_bytes 8 e.base_address ++ (le_bytes 2 e.pci_segment_group ++ (e.start_bus ∷ [])))
        e.end_bus (0 ∷ 0 ∷ 0 ∷ 0 ∷ rest) (p + 11) at (omega arith),
  )

  module _ (len : ℕ) where
    turn_at :
        (p : ℕ) (e : AcpiMcfgEntry) (rest : Bytes) (m : AcpiMcfgInfo) (ps : List AcpiMcfgEntry)
        → drop p table ≡ encode_entry e ++ rest
        → IsMcfgEntry e
        → p + 16 ≤ len
        → HoldsEntries m ps
        → m.entry_count < 16
        → (m' : AcpiMcfgInfo) × (mcfg_turn table len p m ≡ done (again (p + 16) m'))
          × HoldsEntries m' (ps ++ (e ∷ []))
    unfolding mcfg_turn store
    turn_at p e rest m ps at w room f free = (
      record m {
        entries = set m.entries m.entry_count e;
        entry_count = (m.entry_count + 1) % 2 ^ 32;
      },
      rw (more, mcfg_entry-encode_entry p e rest at w, stored),
      rw wrap (IsFilled-set 16 m.entries m.entry_count ps e f free),
    )
      where
        more : (leb (p + 16) len && ltb m.entry_count acpi_max_mcfg_entries) ≡ true
        more = ground arith

        stored : leb (suc m.entry_count) (length m.entries) ≡ true
        stored = ground (arith, f.size)

        wrap : (m.entry_count + 1) % 2 ^ 32 ≡ m.entry_count + 1
        wrap = omega arith

    stop_at :
        (p : ℕ) (m : AcpiMcfgInfo)
        → (len < p + 16) ⊎ (16 ≤ m.entry_count)
        → mcfg_turn table len p m ≡ done (stop m)
    unfolding mcfg_turn
    stop_at p m h = ground arith

    scan-HoldsEntries :
        (es : List AcpiMcfgEntry) (rest : Bytes) (fuel p : ℕ) (m : AcpiMcfgInfo)
        (ps : List AcpiMcfgEntry)
        → drop p table ≡ encode_entries es ++ rest
        → All IsMcfgEntry es
        → p + length (encode_entries es) ≤ len
        → len < p + length (encode_entries es) + 16
        → len - p < fuel
        → HoldsEntries m ps
        → (m' : AcpiMcfgInfo) × (scan fuel (mcfg_turn table len) p m ≡ done m')
          × HoldsEntries m' (ps ++ es)
    unfolding scan
    scan-HoldsEntries es rest zero p m ps at w room last fu f = absurd (omega arith)
    scan-HoldsEntries [] rest (suc fuel) p m ps at w room last fu f =
        (m, rw (stop_at p m (inl (omega arith))), rw append-nil f)
    scan-HoldsEntries (e ∷ es) rest (suc fuel) p m ps at w room last fu f =
        elim (dec_lt m.entry_count 16) [
          | yes free ↦
              let (m', turn, f') =
                turn_at p e (encode_entries es ++ rest) m ps at' w.0 (omega (arith, size)) f free in
              let (m'', run, f'') =
                scan-HoldsEntries es rest fuel (p + 16) m' (ps ++ (e ∷ [])) next w.1
                  (omega (arith, size)) (omega (arith, size)) (omega (arith, size)) f' in
              (m'', rw turn run, subst (HoldsEntries m'') (append_assoc ps (e ∷ []) es) f'')
          | no full ↦ (
            m,
            rw (stop_at p m (inr (omega arith))),
            IsFilled-full 16 m.entries m.entry_count ps (e ∷ es) f (omega arith),
          )
        ]
      where
        size : length (encode_entries (e ∷ es)) ≡ 16 + length (encode_entries es)
        size = length-append (encode_entry e) (encode_entries es)

        at' : drop p table ≡ encode_entry e ++ (encode_entries es ++ rest)
        at' = at ∙ append_assoc (encode_entry e) (encode_entries es) rest

        next : drop (p + 16) table ≡ encode_entries es ++ rest
        next = drop_append table p (encode_entry e) at'

-- On a table of a header with 8 reserved bytes and allocation structures, `parse_mcfg` stores the
-- structures in order, the first 16 of them where there are more.
pub parse_mcfg-encode_entries :
    (header : Bytes) (es : List AcpiMcfgEntry)
    → length header ≡ acpi_header_size + 8
    → All IsMcfgEntry es
    → (m : AcpiMcfgInfo) × (parse_mcfg
          (header ++ encode_entries es)
          (length (header ++ encode_entries es))
        ≡ done m)
      × (m.available ≡ true)
      × (m.entry_count ≡ min 16 (length es))
      × (take m.entry_count m.entries ≡ take 16 es)
unfolding parse_mcfg
parse_mcfg-encode_entries header es size w =
    let table = header ++ encode_entries es in
    let (m, run, f) =
      scan-HoldsEntries table (length table) es [] (suc (length table - 44)) 44 zero_mcfg [] at w
        (omega (arith, total)) (omega (arith, total)) (omega arith)
        (IsFilled-replicate 16 zero_mcfg_entry) in
    (record m { available = true }, rw (long, run), refl, f.counted, f.front)
  where
    total : length (header ++ encode_entries es) ≡ 44 + length (encode_entries es)
    total = omega (arith, length-append header (encode_entries es))

    long : ltb (length (header ++ encode_entries es)) 44 ≡ false
    long = ground (arith, total)

    at : drop 44 (header ++ encode_entries es) ≡ encode_entries es ++ []
    at = rw append-nil (
        subst (λ (k : ℕ). drop k (header ++ encode_entries es) ≡ encode_entries es) size
          (drop_length-append header (encode_entries es)))
