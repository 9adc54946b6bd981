-- ===== src/Acpi/Madt/Safety.antt =====
-- `parse_madt` ends and stays inside its buffers, on every table.
use hardware_monitor_azk.Base.{
  ℕ, ◌+◌, ◌^◌, ◌≤◌, ◌<◌, ◌≡◌, ◌∙◌, arith, ◌&&◌, ◌||◌, ltb, leb, ◌==◌, tests, length, All,
}
use hardware_monitor_azk.Buffer.{Bytes, IsByte}
use hardware_monitor_azk.Base.{length-set, length-replicate, All-set, All-replicate}
use hardware_monitor_azk.Buffer.Returns.{
  Returns, returns, Returns->>=, Returns-if, Returns-load_any, Returns-load-All, Returns-load_le,
  Returns-store,
}
use hardware_monitor_azk.Buffer.Loop.{TurnOk, scan-Returns}
use hardware_monitor_azk.Acpi.Types.{
  AcpiMadtInfo, AcpiProcessorEntry, zero_madt, zero_processor, acpi_max_processors,
  acpi_header_size,
}
use hardware_monitor_azk.Acpi.Madt.{
  add_processor, local_apic, local_x2apic, madt_entry, madt_turn, parse_madt,
}

pub record IsProcessor (e : AcpiProcessorEntry) : Type 0 where
  pub apic_id : e.apic_id < 256
  pub acpi_processor_id : e.acpi_processor_id < 256
  pub x2apic_id : e.x2apic_id < 2 ^ 32

pub record IsMadt (m : AcpiMadtInfo) : Type 0 where
  pub size : length m.processors ≡ acpi_max_processors
  pub count : m.processor_count ≤ acpi_max_processors
  pub processors : All IsProcessor m.processors

pub zero_madt-IsMadt : IsMadt zero_madt
zero_madt-IsMadt = record {
  size = length-replicate 512 zero_processor;
  count = omega arith;
  processors = All-replicate IsProcessor 512 zero_processor (omega arith);
}

add_processor-Returns :
    (m : AcpiMadtInfo) (e : AcpiProcessorEntry)
    → IsMadt m
    → IsProcessor e
    → Returns IsMadt (add_processor m e)
unfolding add_processor
add_processor-Returns m e w p =
    Returns-if (ltb m.processor_count acpi_max_processors)
      (λ free.
        Returns->>= (Returns-store m.processors m.processor_count e (omega (tests, w.size)))
          λ ps eq. returns _ (record {
            size = rw eq (length-set m.processors _ e ∙ w.size);
            count = omega tests;
            processors = rw eq (All-set IsProcessor m.processors _ e w.processors p);
          }))
      (λ _. returns m w)

module _ (table : Bytes) (len : ℕ) (bytes : All IsByte table) (inside : len ≤ length table) where
  local_apic-Returns : (p : ℕ) → p + 8 ≤ len → Returns IsProcessor (local_apic table p)
  unfolding local_apic
  local_apic-Returns p h =
      Returns->>= (Returns-load-All IsByte table (p + 2) bytes (omega arith)) λ a la.
        Returns->>= (Returns-load-All IsByte table (p + 3) bytes (omega arith)) λ b lb.
          Returns->>= (Returns-load_le table (p + 4) 4 bytes (omega arith))
            λ flags _. returns _ (omega arith)

  local_x2apic-Returns : (p : ℕ) → p + 16 ≤ len → Returns IsProcessor (local_x2apic table p)
  unfolding local_x2apic
  local_x2apic-Returns p h =
      Returns->>= (Returns-load_le table (p + 4) 4 bytes (omega arith)) λ id lt.
        Returns->>= (Returns-load_le table (p + 8) 4 bytes (omega arith))
          λ flags _. returns _ (omega arith)

  madt_entry-Returns :
      (p entry_type entry_len : ℕ) (m : AcpiMadtInfo)
      → p + entry_len ≤ len
      → IsMadt m
      → Returns IsMadt (madt_entry table p entry_type entry_len m)
  unfolding madt_entry
  madt_entry-Returns p entry_type entry_len m fits w =
      Returns-if (entry_type == 0 && leb 8 entry_len)
        (λ t.
          Returns->>= (local_apic-Returns p (ground arith)) λ e l. add_processor-Returns m e w l)
        (λ _.
          Returns-if (entry_type == 9 && leb 16 entry_len)
            (λ t.
              Returns->>= (local_x2apic-Returns p (ground arith))
                λ e l. add_processor-Returns m e w l)
            (λ _. returns m w))

  madt_turn-Returns :
      (p : ℕ) (m : AcpiMadtInfo)
      → IsMadt m
      → Returns (TurnOk (λ _. IsMadt) IsMadt len p) (madt_turn table len p m)
  unfolding madt_turn
  madt_turn-Returns p m w =
      Returns-if (leb (p + 2) len)
        (λ more. Returns->>= (Returns-load_any table p (omega tests)) λ kind _.
          Returns->>= (Returns-load_any table (p + 1) (omega tests)) λ size _.
            Returns-if (ltb size 2 || ltb len (p + size)) (λ _. returns _ w)
              (λ well.
                Returns->>= (madt_entry-Returns p kind size m (ground arith) w)
                  λ m' w'. returns _ (w', ground arith, ground arith)))
        (λ _. returns _ w)

  -- For every table of bytes and every length inside it, `parse_madt` ends, reads only the first
  -- `len` bytes, writes only its array, and counts at most 512 processors.
  pub parse_madt-Returns : Returns IsMadt (parse_madt table len)
  unfolding parse_madt
  parse_madt-Returns =
      Returns-if (ltb len (acpi_header_size + 8)) (λ _. returns _ zero_madt-IsMadt)
        (λ long.
          Returns->>= (Returns-load_le table acpi_header_size 4 bytes (omega tests)) λ address _.
            Returns->>=
              (scan-Returns (λ _. IsMadt) IsMadt len (madt_turn table len) madt_turn-Returns _ _ _
                (omega arith)
                (record {
                  size = zero_madt-IsMadt.size;
                  count = zero_madt-IsMadt.count;
                  processors = zero_madt-IsMadt.processors;
                }))
              λ m w.
                returns _ (record { size = w.size; count = w.count; processors = w.processors }))
