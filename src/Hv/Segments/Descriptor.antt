-- ===== src/Hv/Segments/Descriptor.antt =====
-- Segment descriptors written out as bytes, and read again.
use hardware_monitor_azk.Base.{
  ℕ, ◌+◌, ◌*◌, ◌/◌, ◌%◌, ◌^◌, ◌≤◌, ◌<◌, ◌≡◌, ◌≢◌, ap, arith, true, false, [], ◌∷◌, ◌++◌, ◌==◌,
  length, drop, All,
}
use hardware_monitor_azk.Buffer.{done, Bytes, IsByte, load, load_le}
use hardware_monitor_azk.Buffer.Returns.{
  Returns, returns, Returns->>=, Returns-if, Returns-load-All, Returns-load_le,
}
use hardware_monitor_azk.Buffer.Words.{le_bytes, load_at, load_le_at}
use hardware_monitor_azk.Hv.Segments.{compute_segment_access_rights, compute_segment_base}

-- A system descriptor of long mode: the access byte is type, S, DPL and P, the flags are AVL, L,
-- D/B and G.
pub record Descriptor : Type 0 where
  pub base : ℕ
  pub limit : ℕ
  pub access : ℕ
  pub flags : ℕ

pub record IsDescriptor (d : Descriptor) : Type 0 where
  pub base_fits : d.base < 2 ^ 64
  pub limit_fits : d.limit < 2 ^ 20
  pub access_fits : d.access < 256
  pub flags_fits : d.flags < 16

-- Its first eight bytes, which are the whole descriptor of a code or data segment.
unfoldable pub short_bytes : Descriptor → Bytes
short_bytes d =
    limit % 256
    ∷ limit / 2 ^ 8 % 256
    ∷ base % 256
    ∷ base / 2 ^ 8 % 256
    ∷ base / 2 ^ 16 % 256
    ∷ access
    ∷ (limit / 2 ^ 16 + flags * 16)
    ∷ base / 2 ^ 24 % 256
    ∷ []
  where
    open d use {base, limit, access, flags}

unfoldable pub descriptor_bytes : Descriptor → Bytes
unfolding short_bytes
descriptor_bytes d = short_bytes d ++ (le_bytes 4 (d.base / 2 ^ 32) ++ (0 ∷ 0 ∷ 0 ∷ 0 ∷ []))

-- From the bytes of a 16-byte descriptor at a selector's place in the GDT, for a selector that is
-- not null, `ComputeSegmentAccessRights` gives the access byte and the flags at bit 12, and
-- `ComputeSegmentBase` the whole base for a task state segment and its low 32 bits else.
pub compute_segment-descriptor_bytes :
    (gdt : Bytes) (selector : ℕ) (d : Descriptor) (rest : Bytes)
    → selector ≢ 0
    → IsDescriptor d
    → drop (selector / 8 * 8) gdt ≡ descriptor_bytes d ++ rest
    → (compute_segment_access_rights gdt selector ≡ done (d.access + d.flags * 2 ^ 12))
      × (compute_segment_base gdt selector false ≡ done (d.base % 2 ^ 32))
      × (compute_segment_base gdt selector true ≡ done d.base)
unfolding compute_segment_access_rights compute_segment_base descriptor_bytes short_bytes
compute_segment-descriptor_bytes gdt selector d rest ne h e =
    let nonzero : (selector == 0) ≡ false = ground arith in
    rw (nonzero, at2, at3, at4, at5, at6, at7, high)
      (ap done (omega arith), ap done (omega arith), ap done (omega arith))
  where
    open d use {base, limit, access, flags}

    p : ℕ
    p = selector / 8 * 8

    low : Bytes
    low = limit % 256 ∷ limit / 2 ^ 8 % 256 ∷ []

    at2 : load gdt (p + 2) ≡ done (base % 256)
    at2 = load_at gdt p low (base % 256) _ (p + 2) e (omega arith)

    at3 : load gdt (p + 3) ≡ done (base / 2 ^ 8 % 256)
    at3 = load_at gdt p (low ++ (base % 256 ∷ [])) (base / 2 ^ 8 % 256) _ (p + 3) e (omega arith)

    at4 : load gdt (p + 4) ≡ done (base / 2 ^ 16 % 256)
    at4 =
        load_at gdt p (low ++ (base % 256 ∷ base / 2 ^ 8 % 256 ∷ [])) (base / 2 ^ 16 % 256) _
          (p + 4) e (omega arith)

    front : Bytes
    front = low ++ (base % 256 ∷ base / 2 ^ 8 % 256 ∷ base / 2 ^ 16 % 256 ∷ [])

    at5 : load gdt (p + 5) ≡ done access
    at5 = load_at gdt p front access _ (p + 5) e (omega arith)

    at6 : load gdt (p + 6) ≡ done (limit / 2 ^ 16 + flags * 16)
    at6 =
        load_at gdt p (front ++ (access ∷ [])) (limit / 2 ^ 16 + flags * 16) _ (p + 6) e
          (omega arith)

    at7 : load gdt (p + 7) ≡ done (base / 2 ^ 24 % 256)
    at7 =
        load_at gdt p (front ++ (access ∷ (limit / 2 ^ 16 + flags * 16) ∷ [])) (base / 2 ^ 24 % 256)
          _ (p + 7) e (omega arith)

    high : load_le gdt (p + 8) 4 ≡ done (base / 2 ^ 32)
    high =
        load_le_at gdt p 4 (short_bytes d) (base / 2 ^ 32) _ (p + 8) e (omega arith) (omega arith)

-- A selector's descriptor, of 8 or 16 bytes, stands inside the GDT.
abbrev pub IsInside : Bytes → ℕ → ℕ → Type 0
IsInside gdt selector size = selector ≢ 0 → selector / 8 * 8 + size ≤ length gdt

pub Returns-access_rights :
    (gdt : Bytes) (selector : ℕ)
    → All IsByte gdt
    → IsInside gdt selector 8
    → Returns (λ r. r < 2 ^ 32) (compute_segment_access_rights gdt selector)
unfolding compute_segment_access_rights
Returns-access_rights gdt selector bytes inside =
    Returns-if (selector == 0) (λ _. returns _ (omega arith))
      λ ne.
        let room = inside (λ e. ground arith) in
        Returns->>= (Returns-load-All IsByte gdt _ bytes (omega arith)) λ access ha.
          Returns->>= (Returns-load-All IsByte gdt _ bytes (omega arith))
            λ flags hf. returns _ (omega arith)

pub Returns-tr_base :
    (gdt : Bytes) (selector : ℕ)
    → All IsByte gdt
    → IsInside gdt selector 16
    → Returns (λ r. r < 2 ^ 64) (compute_segment_base gdt selector true)
unfolding compute_segment_base
Returns-tr_base gdt selector bytes inside =
    Returns-if (selector == 0) (λ _. returns _ (omega arith))
      λ ne.
        let room = inside (λ e. ground arith) in
        Returns->>= (Returns-load-All IsByte gdt _ bytes (omega arith)) λ byte2 h2.
          Returns->>= (Returns-load-All IsByte gdt _ bytes (omega arith)) λ byte3 h3.
            Returns->>= (Returns-load-All IsByte gdt _ bytes (omega arith)) λ byte4 h4.
              Returns->>= (Returns-load-All IsByte gdt _ bytes (omega arith)) λ byte7 h7.
                Returns->>= (Returns-load_le gdt (selector / 8 * 8 + 8) 4 bytes (omega arith))
                  λ high hh. returns _ (omega arith)
