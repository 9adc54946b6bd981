-- ===== src/Cpu/Features/System.antt =====
-- The flags of what the operating system has enabled.
use hardware_monitor_azk.Cpu.Types.{CpuidResult, CpuVendor, CpuFeatures}
use hardware_monitor_azk.Cpu.Trace.{◌>>=◌, Processor}
use hardware_monitor_azk.Cpu.Features.{
  leaf1_features, leaf7_features, extended_features, invariant_tsc_feature, os_features,
  collect_features,
}
use hardware_monitor_azk.Base.{ℕ, ◌≡◌, refl, Bool, false, ◌&&◌, inl, inr, leb, bit, Bool-cases}

-- The state components of XCR0 for AVX and for AVX-512.
abbrev pub saves_avx : ℕ → Bool
saves_avx xcr0 = bit xcr0 0 && bit xcr0 1 && bit xcr0 2

abbrev pub saves_avx512 : ℕ → Bool
saves_avx512 xcr0 = saves_avx xcr0 && bit xcr0 5 && bit xcr0 6 && bit xcr0 7

module _ (cpu : Processor) (leaf1 : CpuidResult) where
  -- The flags before the last step, which sets them.
  Unset : CpuFeatures → Type 0
  Unset f = (f.avx_os_enabled ≡ false) × (f.avx512_os_enabled ≡ false)

  leaf7-Unset :
      (max_basic_leaf : ℕ) (f : CpuFeatures)
      → Unset f
      → Unset ((leaf7_features cpu max_basic_leaf f).result)
  unfolding leaf7_features ◌>>=◌ Unset
  leaf7-Unset max_basic_leaf f u = elim (Bool-cases (leb 7 max_basic_leaf)) [
    | inl e ↦ rw e u
    | inr e ↦ rw e u
  ]

  extended-Unset :
      (max_extended_leaf : ℕ) (vendor : CpuVendor) (f : CpuFeatures)
      → Unset f
      → Unset ((extended_features cpu max_extended_leaf vendor f).result)
  unfolding extended_features ◌>>=◌ Unset
  extended-Unset max_extended_leaf vendor f u =
      elim (Bool-cases (leb 0x80000001 max_extended_leaf)) [ inl e ↦ rw e u | inr e ↦ rw e u ]

  invariant-Unset :
      (max_extended_leaf : ℕ) (f : CpuFeatures)
      → Unset f
      → Unset ((invariant_tsc_feature cpu max_extended_leaf f).result)
  unfolding invariant_tsc_feature ◌>>=◌ Unset
  invariant-Unset max_extended_leaf f u = elim (Bool-cases (leb 0x80000007 max_extended_leaf)) [
    | inl e ↦ rw e u
    | inr e ↦ rw e u
  ]

  abbrev IsSystem : CpuFeatures → Type 0
  IsSystem f =
      (f.osxsave ≡ bit leaf1.ecx 27)
      × (f.avx_os_enabled ≡ (bit leaf1.ecx 27 && saves_avx (cpu.xcr 0)))
      × (f.avx512_os_enabled ≡ (bit leaf1.ecx 27 && saves_avx512 (cpu.xcr 0)))

  os_features-IsSystem : (f : CpuFeatures) → Unset f → IsSystem ((os_features cpu leaf1 f).result)
  unfolding os_features ◌>>=◌ Unset
  os_features-IsSystem f u = elim (Bool-cases (bit leaf1.ecx 27)) [
    | inl e ↦ rw e (refl, refl, refl)
    | inr e ↦ rw e (refl, u.0, u.1)
  ]

  -- For every processor and leaf 1, the result of `collect_features` has OSXSAVE as in bit 27 of
  -- ECX, AVX enabled exactly if this bit and the x87, SSE and AVX bits of XCR0 are set, and AVX-512
  -- enabled exactly if the three AVX-512 bits are set too.
  pub collect_features-os :
      (max_basic_leaf max_extended_leaf : ℕ) (vendor : CpuVendor)
      → let f = (collect_features cpu max_basic_leaf max_extended_leaf leaf1 vendor).result in
        (f.osxsave ≡ bit leaf1.ecx 27)
        × (f.avx_os_enabled ≡ (bit leaf1.ecx 27 && saves_avx (cpu.xcr 0)))
        × (f.avx512_os_enabled ≡ (bit leaf1.ecx 27 && saves_avx512 (cpu.xcr 0)))
  unfolding collect_features ◌>>=◌ Unset leaf1_features
  collect_features-os max_basic_leaf max_extended_leaf vendor = os_features-IsSystem _ (
      invariant-Unset max_extended_leaf _ (
        extended-Unset max_extended_leaf vendor _
          (leaf7-Unset max_basic_leaf (leaf1_features leaf1) (refl, refl))))
