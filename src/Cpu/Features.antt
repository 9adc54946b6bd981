-- ===== src/Cpu/Features.antt =====
-- Feature bits, `collect_features` (src/cpu/cpu_id.c).
pub mod System
use hardware_monitor_azk.Cpu.Types.{
  CpuidResult, CpuVendor, unknown_vendor, intel, amd, CpuFeatures, zero_features,
}
use hardware_monitor_azk.Cpu.Trace.{Processor, Trace, pure, cpuid_asm, xgetbv_asm, ◌>>=◌}
use hardware_monitor_azk.Base.{ℕ, Bool, true, false, ◌&&◌, leb, if◌then◌else◌, bit}

unfoldable pub leaf1_features : CpuidResult → CpuFeatures
leaf1_features leaf1 = record zero_features {
  sse = bit leaf1.edx 25;
  sse2 = bit leaf1.edx 26;
  sse3 = bit leaf1.ecx 0;
  ssse3 = bit leaf1.ecx 9;
  sse4_1 = bit leaf1.ecx 19;
  sse4_2 = bit leaf1.ecx 20;
  aes = bit leaf1.ecx 25;
  avx = bit leaf1.ecx 28;
  fma = bit leaf1.ecx 12;
  vmx = bit leaf1.ecx 5;
  rdtscp = false;
  hypervisor_present = bit leaf1.ecx 31;
}

unfoldable pub leaf7_features : Processor → ℕ → CpuFeatures → Trace CpuFeatures
leaf7_features cpu max_basic_leaf f =
    if leb 7 max_basic_leaf
    then (cpuid_asm cpu 7 0 >>= λ r7. pure (record f {
      bmi1 = bit r7.ebx 3;
      avx2 = bit r7.ebx 5;
      bmi2 = bit r7.ebx 8;
      avx512f = bit r7.ebx 16;
      sha = bit r7.ebx 29;
    }))
    else pure f

abbrev pub is_amd : CpuVendor → Bool
is_amd amd = true
is_amd intel = false
is_amd unknown_vendor = false

unfoldable pub extended_features : Processor → ℕ → CpuVendor → CpuFeatures → Trace CpuFeatures
extended_features cpu max_extended_leaf vendor f =
    if leb 0x80000001 max_extended_leaf
    then (cpuid_asm cpu 0x80000001 0 >>= λ r81. pure (record f {
      rdtscp = bit r81.edx 27;
      svm = if is_amd vendor then bit r81.ecx 2 else f.svm;
    }))
    else pure f

unfoldable pub invariant_tsc_feature : Processor → ℕ → CpuFeatures → Trace CpuFeatures
invariant_tsc_feature cpu max_extended_leaf f =
    if leb 0x80000007 max_extended_leaf
    then (cpuid_asm cpu 0x80000007 0 >>= λ r87. pure (record f { invariant_tsc = bit r87.edx 8 }))
    else pure f

-- What the operating system saves, from `XCR0`.
unfoldable pub os_features : Processor → CpuidResult → CpuFeatures → Trace CpuFeatures
os_features cpu leaf1 f =
    if bit leaf1.ecx 27
    then (xgetbv_asm cpu 0 >>= λ xcr0.
        let avx_os = bit xcr0 0 && bit xcr0 1 && bit xcr0 2 in
        pure (record f {
          osxsave = true;
          avx_os_enabled = avx_os;
          avx512_os_enabled = avx_os && bit xcr0 5 && bit xcr0 6 && bit xcr0 7;
        }))
    else pure (record f { osxsave = false })

unfoldable pub collect_features : Processor → ℕ → ℕ → CpuidResult → CpuVendor → Trace CpuFeatures
collect_features cpu max_basic_leaf max_extended_leaf leaf1 vendor = do
  f7 ← leaf7_features cpu max_basic_leaf (leaf1_features leaf1)
  f81 ← extended_features cpu max_extended_leaf vendor f7
  f87 ← invariant_tsc_feature cpu max_extended_leaf f81
  os_features cpu leaf1 f87
