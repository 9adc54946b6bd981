-- ===== src/Hv/Setup/Fields.antt =====
-- Which fields `SetupVmcsFields` writes, and with what.
use hardware_monitor_azk.Base.{
  ℕ, ◌/◌, ◌%◌, ◌^◌, ◌<◌, ◌≡◌, refl, ap, arith, Bool, true, false, not, ◌&&◌, ◌||◌, List, [], ◌∷◌,
  ◌++◌, ◌==◌, if◌then◌else◌, All,
}
use hardware_monitor_azk.Buffer.{IsByte}
use hardware_monitor_azk.Buffer.Returns.{Returns, returns, Returns->>=}
use hardware_monitor_azk.Base.{All-append}
use hardware_monitor_azk.Hv.Field.{Field, encoding}
use hardware_monitor_azk.Hv.Segments.{compute_segment_access_rights, compute_segment_base}
use hardware_monitor_azk.Hv.Types.{Processor}
use hardware_monitor_azk.Hv.Segments.Descriptor.{IsInside, Returns-access_rights, Returns-tr_base}
use hardware_monitor_azk.Hv.Controls.Bits.{adjust_control_value_bound}
use hardware_monitor_azk.Hv.Setup.{
  Writes, host_stack_top, guest_selectors, guest_limits, guest_access_rights, guest_bases,
  guest_registers, host_selectors, host_registers, controls, setup_vmcs_fields, bit9,
}

-- The width of a field, in bits 14:13 of its encoding: 16, 64 or 32 bits, or those of a register.
unfoldable pub width : ℕ → ℕ
width encoded =
    let code = encoded / 2 ^ 13 % 4 in if code == 0 then 16 else if code == 2 then 32 else 64

-- The kind of a field, in bits 11:10 of its encoding, is 1 for the read-only fields.
unfoldable pub is_read_only : ℕ → Bool
is_read_only encoded = encoded / 2 ^ 10 % 4 == 1

abbrev pub Fits : Field × ℕ → Type 0
Fits write = write.1 < 2 ^ width (encoding write.0)

unfoldable pub is_in : ℕ → List ℕ → Bool
is_in n [] = false
is_in n (m ∷ ms) = n == m || is_in n ms

-- Every encoding is writable and occurs once.
unfoldable pub are_good : List ℕ → Bool
unfolding is_in is_read_only
are_good [] = true
are_good (n ∷ ns) = not (is_read_only n) && not (is_in n ns) && are_good ns

abbrev pub encodings : Writes → List ℕ
encodings [] = []
encodings (w ∷ ws) = encoding w.0 ∷ encodings ws

-- The registers have their width, the GDT consists of bytes, and the selectors' descriptors stand
-- inside it; `top` is the end of the address space.
pub record IsProcessor (p : Processor) : Type 0 where
  pub selectors :
      (p.es < 2 ^ 16)
      × (p.cs < 2 ^ 16)
      × (p.ss < 2 ^ 16)
      × (p.ds < 2 ^ 16)
      × (p.fs < 2 ^ 16)
      × (p.gs < 2 ^ 16)
      × (p.ldtr < 2 ^ 16)
      × (p.tr < 2 ^ 16)
  pub tables :
      (p.gdtr.limit < 2 ^ 16)
      × (p.gdtr.base < 2 ^ 64)
      × (p.idtr.limit < 2 ^ 16)
      × (p.idtr.base < 2 ^ 64)
  pub registers :
      (p.cr0 < 2 ^ 64)
      × (p.cr3 < 2 ^ 64)
      × (p.cr4 < 2 ^ 64)
      × (p.context_rsp < 2 ^ 64)
      × (p.context_rip < 2 ^ 64)
      × (p.context_eflags < 2 ^ 32)
      × (p.exit_handler < 2 ^ 64)
  pub msrs : (index : ℕ) → p.msr index < 2 ^ 64
  pub gdt_bytes : All IsByte p.gdt
  pub descriptors :
      IsInside p.gdt p.es 8
      × IsInside p.gdt p.cs 8
      × IsInside p.gdt p.ss 8
      × IsInside p.gdt p.ds 8
      × IsInside p.gdt p.fs 8
      × IsInside p.gdt p.gs 8
      × IsInside p.gdt p.tr 16

pub record IsSetup (ws : Writes) : Type 0 where
  pub good : are_good (encodings ws) ≡ true
  pub fitting : All Fits ws

-- The fields of a part of the function, in order.
abbrev guest_selectors_codes : List ℕ
guest_selectors_codes = 0x0800 ∷ 0x0802 ∷ 0x0804 ∷ 0x0806 ∷ 0x0808 ∷ 0x080A ∷ 0x080C ∷ 0x080E ∷ []

abbrev guest_limits_codes : List ℕ
guest_limits_codes =
    0x4800 ∷ 0x4802 ∷ 0x4804 ∷ 0x4806 ∷ 0x4808 ∷ 0x480A ∷ 0x480C ∷ 0x480E ∷ 0x4810 ∷ 0x4812 ∷ []

abbrev guest_access_rights_codes : List ℕ
guest_access_rights_codes =
    0x4814 ∷ 0x4816 ∷ 0x4818 ∷ 0x481A ∷ 0x481C ∷ 0x481E ∷ 0x4820 ∷ 0x4822 ∷ []

abbrev guest_bases_codes : List ℕ
guest_bases_codes =
    0x6806 ∷ 0x6808 ∷ 0x680A ∷ 0x680C ∷ 0x680E ∷ 0x6810 ∷ 0x6812 ∷ 0x6814 ∷ 0x6816 ∷ 0x6818 ∷ []

abbrev guest_registers_codes : List ℕ
guest_registers_codes =
    0x6800 ∷ 0x6802 ∷ 0x6804 ∷ 0x681A ∷ 0x681C ∷ 0x681E ∷ 0x6820 ∷ 0x482A ∷ 0x6824 ∷ 0x6826 ∷ 0x4824
    ∷ 0x4826 ∷ 0x2800 ∷ []

abbrev host_selectors_codes : List ℕ
host_selectors_codes = 0x0C00 ∷ 0x0C02 ∷ 0x0C04 ∷ 0x0C06 ∷ 0x0C08 ∷ 0x0C0A ∷ 0x0C0C ∷ []

abbrev host_registers_codes : List ℕ
host_registers_codes =
    0x6C00 ∷ 0x6C02 ∷ 0x6C04 ∷ 0x6C06 ∷ 0x6C08 ∷ 0x6C0A ∷ 0x6C0C ∷ 0x6C0E ∷ 0x4C00 ∷ 0x6C10 ∷ 0x6C12
    ∷ 0x6C14 ∷ 0x6C16 ∷ []

abbrev controls_codes : List ℕ
controls_codes =
    0x4000 ∷ 0x4002 ∷ 0x400C ∷ 0x4012 ∷ 0x4004 ∷ 0x400A ∷ 0x400E ∷ 0x4010 ∷ 0x4014 ∷ 0x4016 ∷ 0x401A
    ∷ 0x6000 ∷ 0x6004 ∷ 0x6008 ∷ 0x600A ∷ []

record IsPart (codes : List ℕ) (ws : Writes) : Type 0 where
  fields : encodings ws ≡ codes
  fitting : All Fits ws

encodings-append : (xs ys : Writes) → encodings (xs ++ ys) ≡ encodings xs ++ encodings ys
encodings-append [] ys = refl
encodings-append (x ∷ xs) ys = ap (◌∷◌ (encoding x.0)) (encodings-append xs ys)

IsPart-append :
    {codes codes' : List ℕ} {xs ys : Writes}
    → IsPart codes xs
    → IsPart codes' ys
    → IsPart (codes ++ codes') (xs ++ ys)
IsPart-append {xs = xs} {ys} a b = record {
  fields = rw (encodings-append xs ys, a.fields, b.fields) refl;
  fitting = All-append Fits xs ys a.fitting b.fitting;
}

module _ (p : Processor) (h : IsProcessor p) where
  guest_selectors-IsPart : IsPart guest_selectors_codes (guest_selectors p)
  unfolding guest_selectors encoding width
  guest_selectors-IsPart = record { fields = refl; fitting = ground arith }

  guest_limits-IsPart : IsPart guest_limits_codes (guest_limits p)
  unfolding guest_limits encoding width
  guest_limits-IsPart = record { fields = refl; fitting = ground arith }

  host_selectors-IsPart : IsPart host_selectors_codes (host_selectors p)
  unfolding host_selectors encoding width
  host_selectors-IsPart = record { fields = refl; fitting = ground arith }

  rights :
      (s : ℕ)
      → IsInside p.gdt s 8
      → Returns (λ r. r < 2 ^ 32) (compute_segment_access_rights p.gdt s)
  rights s inside = Returns-access_rights p.gdt s h.gdt_bytes inside

  tr_base : Returns (λ r. r < 2 ^ 64) (compute_segment_base p.gdt p.tr true)
  tr_base = Returns-tr_base p.gdt p.tr h.gdt_bytes h.descriptors.6

  guest_access_rights-Returns : Returns (IsPart guest_access_rights_codes) (guest_access_rights p)
  unfolding guest_access_rights encoding width
  guest_access_rights-Returns =
      let (es, cs, ss, ds, fs, gs, tr) = h.descriptors in
      Returns->>= (rights p.es es) λ es' he. Returns->>= (rights p.cs cs) λ cs' hc.
        Returns->>= (rights p.ss ss) λ ss' hs. Returns->>= (rights p.ds ds) λ ds' hd.
          Returns->>= (rights p.fs fs) λ fs' hf. Returns->>= (rights p.gs gs) λ gs' hg.
            Returns->>= (rights p.tr (λ ne. omega (arith, tr ne))) λ tr' ht. returns _ (record {
              fields = refl;
              fitting = (he, (hc, (hs, (hd, (hf, (hg, (omega arith, (ht, tt))))))));
            })

  guest_bases-Returns : Returns (IsPart guest_bases_codes) (guest_bases p)
  unfolding guest_bases encoding width
  guest_bases-Returns = Returns->>= tr_base λ tr ht.
      returns _
        (record { fields = refl; fitting = ground (arith, h.msrs 0xC0000100, h.msrs 0xC0000101) })

  guest_registers-IsPart :
      (cr4 : ℕ) → cr4 < 2 ^ 64 → IsPart guest_registers_codes (guest_registers p cr4)
  unfolding guest_registers encoding width
  guest_registers-IsPart cr4 hc = record {
    fields = refl;
    fitting = ground (arith, h.msrs 0x175, h.msrs 0x176);
  }

  host_registers-Returns :
      (cr4 hv_state : ℕ)
      → cr4 < 2 ^ 64
      → host_stack_top p hv_state < 2 ^ 64
      → Returns (IsPart host_registers_codes) (host_registers p cr4 hv_state)
  unfolding host_registers encoding width
  host_registers-Returns cr4 hv_state hc top = Returns->>= tr_base λ tr ht. returns _ (record {
    fields = refl;
    fitting = ground (arith, h.msrs 0x175, h.msrs 0x176, h.msrs 0xC0000100, h.msrs 0xC0000101);
  })

  controls-IsPart : (cr4 : ℕ) → cr4 < 2 ^ 64 → IsPart controls_codes (controls p cr4)
  unfolding controls encoding width
  controls-IsPart cr4 hc = record {
    fields = refl;
    fitting = ground (
      arith,
      adjust_control_value_bound (p.msr 0x481) 0 (h.msrs 0x481),
      adjust_control_value_bound (p.msr 0x482) 0 (h.msrs 0x482),
      adjust_control_value_bound (p.msr 0x483) bit9 (h.msrs 0x483),
      adjust_control_value_bound (p.msr 0x484) bit9 (h.msrs 0x484),
    );
  }

-- For registers of their width, a GDT of bytes that holds the selectors' descriptors, a value of
-- CR4 of 64 bits and a host stack below the end of the address space, `SetupVmcsFields` ends
-- without a read outside the GDT; it writes no field twice and no field that is read-only by its
-- encoding, and each value fits the width in its field's encoding.
pub setup_vmcs_fields-Returns :
    (p : Processor) (cr4 hv_state : ℕ)
    → IsProcessor p
    → cr4 < 2 ^ 64
    → host_stack_top p hv_state < 2 ^ 64
    → Returns IsSetup (setup_vmcs_fields p cr4 hv_state)
unfolding setup_vmcs_fields are_good
setup_vmcs_fields-Returns p cr4 hv_state h hc top =
    Returns->>= (guest_access_rights-Returns p h) λ rights hr.
      Returns->>= (guest_bases-Returns p h) λ bases hb.
        Returns->>= (host_registers-Returns p h cr4 hv_state hc top) λ host hh.
          let all = IsPart-append (guest_selectors-IsPart p h) (
            IsPart-append (guest_limits-IsPart p h) (
              IsPart-append hr (
                IsPart-append hb (
                  IsPart-append (guest_registers-IsPart p h cr4 hc) (
                    IsPart-append (host_selectors-IsPart p h)
                      (IsPart-append hh (controls-IsPart p h cr4 hc))))))) in
          returns _ (record { good = rw all.fields refl; fitting = all.fitting })
