-- ===== src/Acpi/Madt/Entries.antt =====
-- `parse_madt` reads back the processors that a table was written with.
use hardware_monitor_azk.Acpi.Madt.Controllers.{
  Controller, lapic, x2apic, other, IsController, encode, encode_all, processor_of, processors_of,
}
use mathlib.Core.Path.{subst}
use hardware_monitor_azk.Buffer.Loop.{scan}
use hardware_monitor_azk.Base.{
  ℕ, suc, ◌+◌, ◌%◌, ◌^◌, ◌<◌, ◌≡◌, ap, ◌∙◌, arith, true, false, List, [], ◌∷◌, ◌++◌, ltb, leb, bit,
  length, drop, set, lt→ltb, le→ltb_false, All, min, ◌≤◌, le→leb, ◌-◌, take, length-append,
  lt→leb_false, drop_append, ◌||◌, refl, zero,
}
use hardware_monitor_azk.Buffer.{done, Bytes, store, load_le}
use native.Mathlib.Decide.{dec_lt}
use mathlib.Core.List.{append-nil, append_assoc}
use hardware_monitor_azk.Buffer.Words.{le_bytes, load_le_at, load_at}
use hardware_monitor_azk.Buffer.Filled.{IsFilled, IsFilled-set, IsFilled-full, IsFilled-replicate}
use hardware_monitor_azk.Acpi.Types.{
  AcpiMadtInfo, AcpiProcessorEntry, acpi_max_processors, acpi_header_size, zero_madt,
  zero_processor,
}
use hardware_monitor_azk.Acpi.Madt.{
  add_processor, local_apic, local_x2apic, madt_entry, parse_madt, madt_turn, stop, again,
}

abbrev HoldsProcessors : ℕ → AcpiMadtInfo → List AcpiProcessorEntry → Type 0
HoldsProcessors address m ps =
    IsFilled acpi_max_processors m.processors m.processor_count ps
    × (m.local_apic_address ≡ address)

-- The table of processors takes one more, or is full and stays.
add_processor-HoldsProcessors :
    (address : ℕ) (m : AcpiMadtInfo) (e : AcpiProcessorEntry) (ps : List AcpiProcessorEntry)
    → HoldsProcessors address m ps
    → (m' : AcpiMadtInfo) × (add_processor m e ≡ done m')
      × HoldsProcessors address m' (ps ++ (e ∷ []))
unfolding add_processor store
add_processor-HoldsProcessors address m e ps (f, same) = elim (dec_lt m.processor_count 512) [
  | yes free ↦ (
    record m {
      processors = set m.processors m.processor_count e;
      processor_count = (m.processor_count + 1) % 2 ^ 32;
    },
    rw (is_free free, stored free),
    (rw (wrap free) (IsFilled-set 512 m.processors m.processor_count ps e f free), same),
  )
  | no full ↦ (
    m,
    rw (is_full full),
    (IsFilled-full 512 m.processors m.processor_count ps (e ∷ []) f (omega arith), same),
  )
]
  where
    is_free : m.processor_count < 512 → ltb m.processor_count acpi_max_processors ≡ true
    is_free free = lt→ltb m.processor_count acpi_max_processors free

    is_full : ¬ (m.processor_count < 512) → ltb m.processor_count acpi_max_processors ≡ false
    is_full full = le→ltb_false m.processor_count acpi_max_processors (omega arith)

    stored : m.processor_count < 512 → leb (suc m.processor_count) (length m.processors) ≡ true
    stored free = le→leb (suc m.processor_count) (length m.processors) (omega (arith, f.size))

    wrap : m.processor_count < 512 → (m.processor_count + 1) % 2 ^ 32 ≡ m.processor_count + 1
    wrap free = omega arith

module _ (table : Bytes) (len address : ℕ) where
  entry_at :
      (c : Controller) (p : ℕ) (rest : Bytes) (m : AcpiMadtInfo) (ps : List AcpiProcessorEntry)
      → drop p table ≡ encode c ++ rest
      → IsController c
      → HoldsProcessors address m ps
      → (kind : ℕ) × (tail : Bytes) × (drop p table ≡ kind ∷ length (encode c) ∷ tail)
        × (m' : AcpiMadtInfo) × (madt_entry table p kind (length (encode c)) m ≡ done m')
        × HoldsProcessors address m' (ps ++ processor_of c)
  unfolding madt_entry local_apic local_x2apic
  entry_at (lapic acpi_id apic_id flags) p rest m ps at w h =
      let e : AcpiProcessorEntry = record {
        apic_id = apic_id;
        acpi_processor_id = acpi_id;
        x2apic_id = 0;
        is_x2apic = false;
        enabled = bit flags 0;
        online_capable = bit flags 1;
      } in
      let (m', run, h') = add_processor-HoldsProcessors address m e ps h in
      (
        0,
        _,
        at,
        m',
        rw
            (
              load_at table p (0 ∷ 8 ∷ []) acpi_id _ (p + 2) at (omega arith),
              load_at table p (0 ∷ 8 ∷ acpi_id ∷ []) apic_id _ (p + 3) at (omega arith),
              load_le_at table p 4 (0 ∷ 8 ∷ acpi_id ∷ apic_id ∷ []) flags rest (p + 4) at w
                  (omega arith),
            )
            run,
        h',
      )
  entry_at (x2apic id flags uid) p rest m ps at w h =
      let e : AcpiProcessorEntry = record {
        apic_id = 0;
        acpi_processor_id = 0;
        x2apic_id = id;
        is_x2apic = true;
        enabled = bit flags 0;
        online_capable = bit flags 1;
      } in
      let (m', run, h') = add_processor-HoldsProcessors address m e ps h in
      (
        9,
        _,
        at,
        m',
        rw
            (
              load_le_at table p 4 (9 ∷ 16 ∷ 0 ∷ 0 ∷ []) id
                  (le_bytes 4 flags ++ (le_bytes 4 uid ++ rest)) (p + 4) at w.0 (omega arith),
              load_le_at table p 4 (9 ∷ 16 ∷ 0 ∷ 0 ∷ le_bytes 4 id) flags (le_bytes 4 uid ++ rest)
                  (p + 8) at w.1 (omega arith),
            )
            run,
        h',
      )
  entry_at (other type body) p rest m ps at w h = (
    type,
    body ++ rest,
    at ∙ ap (λ (n : ℕ). type ∷ n ∷ (body ++ rest)) (omega arith),
    m,
    ground (arith, w.0, w.1),
    rw append-nil h,
  )

  turn_at :
      (c : Controller) (p : ℕ) (rest : Bytes) (m : AcpiMadtInfo) (ps : List AcpiProcessorEntry)
      → drop p table ≡ encode c ++ rest
      → IsController c
      → p + length (encode c) ≤ len
      → HoldsProcessors address m ps
      → (m' : AcpiMadtInfo) × (madt_turn table len p m ≡ done (again (p + length (encode c)) m'))
        × HoldsProcessors address m' (ps ++ processor_of c)
  unfolding madt_turn
  turn_at c p rest m ps at w room h =
      let (kind, tail, at', m', run, h') = entry_at c p rest m ps at w h in
      (
        m',
        rw (
          more,
          load_at table p [] kind _ p at' (omega arith),
          load_at table p (kind ∷ []) (length (encode c)) tail (p + 1) at' (omega arith),
          well,
          run,
        ),
        h',
      )
    where
      two : (c : Controller) → 2 ≤ length (encode c)
      two (lapic a b f) = omega arith
      two (x2apic a b f) = omega arith
      two (other t b) = omega arith

      more : leb (p + 2) len ≡ true
      more = le→leb (p + 2) len (omega (arith, two c))

      well : (ltb (length (encode c)) 2 || ltb len (p + length (encode c))) ≡ false
      well =
          rw (le→ltb_false (length (encode c)) 2 (two c))
            (le→ltb_false len (p + length (encode c)) room)

  stop_at : (p : ℕ) (m : AcpiMadtInfo) → len < p + 2 → madt_turn table len p m ≡ done (stop m)
  unfolding madt_turn
  stop_at p m h = rw (lt→leb_false (p + 2) len h)

  scan-HoldsProcessors :
      (cs : List Controller) (rest : Bytes) (fuel p : ℕ) (m : AcpiMadtInfo)
      (ps : List AcpiProcessorEntry)
      → drop p table ≡ encode_all cs ++ rest
      → All IsController cs
      → p + length (encode_all cs) ≤ len
      → len < p + length (encode_all cs) + 2
      → len - p < fuel
      → HoldsProcessors address m ps
      → (m' : AcpiMadtInfo) × (scan fuel (madt_turn table len) p m ≡ done m')
        × HoldsProcessors address m' (ps ++ processors_of cs)
  unfolding scan
  scan-HoldsProcessors cs rest zero p m ps at w room last fu h = absurd (omega arith)
  scan-HoldsProcessors [] rest (suc fuel) p m ps at w room last fu h =
      (m, rw (stop_at p m (omega arith)), rw append-nil h)
  scan-HoldsProcessors (c ∷ cs) rest (suc fuel) p m ps at w room last fu h =
      let (m', turn, h') =
        turn_at c p (encode_all cs ++ rest) m ps at' w.0 (omega (arith, size)) h in
      let (m'', run, h'') =
        scan-HoldsProcessors cs rest fuel (p + length (encode c)) m' (ps ++ processor_of c)
          (drop_append table p (encode c) at') w.1 (omega (arith, size)) (omega (arith, size))
          (omega (arith, size, two c)) h' in
      (
        m'',
        rw turn run,
        subst (HoldsProcessors address m'') (append_assoc ps (processor_of c) (processors_of cs))
            h'',
      )
    where
      two : (c : Controller) → 2 ≤ length (encode c)
      two (lapic a b f) = omega arith
      two (x2apic a b f) = omega arith
      two (other t b) = omega arith

      size : length (encode_all (c ∷ cs)) ≡ length (encode c) + length (encode_all cs)
      size = length-append (encode c) (encode_all cs)

      at' : drop p table ≡ encode c ++ (encode_all cs ++ rest)
      at' = at ∙ append_assoc (encode c) (encode_all cs) rest

-- On a table of a header, a local APIC address, four bytes of flags and interrupt controller
-- structures, `parse_madt` stores the processors of the local APIC and x2APIC structures in order,
-- the first 512 of them where there are more, with the ids and the two flag bits that were written;
-- it passes over structures of other types.
pub parse_madt-encode_all :
    (header flags : Bytes) (address : ℕ) (cs : List Controller)
    → length header ≡ acpi_header_size
    → length flags ≡ 4
    → address < 2 ^ 32
    → All IsController cs
    → (m : AcpiMadtInfo) × (parse_madt
          (header ++ (le_bytes 4 address ++ (flags ++ encode_all cs)))
          (44 + length (encode_all cs))
        ≡ done m)
      × (m.available ≡ true)
      × (m.local_apic_address ≡ address)
      × (m.processor_count ≡ min 512 (length (processors_of cs)))
      × (take m.processor_count m.processors ≡ take 512 (processors_of cs))
unfolding parse_madt
parse_madt-encode_all header flags address cs size size' lt w =
    let table = header ++ (le_bytes 4 address ++ (flags ++ encode_all cs)) in
    let len = 44 + length (encode_all cs) in
    let start = record zero_madt { local_apic_address = address } in
    let (m, run, h) =
      scan-HoldsProcessors table len address cs [] (suc (len - 44)) 44 start [] at w (omega arith)
        (omega arith) (omega arith) (IsFilled-replicate 512 zero_processor, refl) in
    (record m { available = true }, rw (long, address_at, run), refl, h.1, h.0.counted, h.0.front)
  where
    table : Bytes
    table = header ++ (le_bytes 4 address ++ (flags ++ encode_all cs))

    places : 0 + length header + 4 + length flags ≡ 44
    places = omega (arith, size, size')

    behind : drop (0 + length header + 4 + length flags) table ≡ encode_all cs
    behind = drop_append table (0 + length header + 4) flags (
        drop_append table (0 + length header) (le_bytes 4 address)
          (drop_append table 0 header refl))

    long : ltb (44 + length (encode_all cs)) 44 ≡ false
    long = le→ltb_false _ 44 (omega arith)

    address_at :
        load_le (header ++ (le_bytes 4 address ++ (flags ++ encode_all cs))) 36 4 ≡ done address
    address_at =
        load_le_at table 0 4 header address (flags ++ encode_all cs) 36 refl lt
          (omega (arith, size))

    at : drop 44 (header ++ (le_bytes 4 address ++ (flags ++ encode_all cs))) ≡ encode_all cs ++ []
    at = rw append-nil (subst (λ (k : ℕ). drop k table ≡ encode_all cs) places behind)
