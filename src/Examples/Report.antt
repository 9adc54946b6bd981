-- ===== src/Examples/Report.antt =====
-- The line of processor features (src/output/report.c) of a processor with two of them.
use hardware_monitor_azk.Base.{◌≡◌, refl, true, false, [], ◌∷◌, replicate}
use hardware_monitor_azk.Buffer.Returns.{Returns}
use hardware_monitor_azk.Cpu.Types.{CpuFeatures}
use hardware_monitor_azk.Report.{feature_list, print_features}
use hardware_monitor_azk.Report.Features.{HasText, spaced, present_names, print_features-HasText}

-- AVX that the system does not enable, and SSE2.
abbrev avx_disabled : CpuFeatures
avx_disabled = record {
  sse = false;
  sse2 = true;
  sse3 = false;
  ssse3 = false;
  sse4_1 = false;
  sse4_2 = false;
  avx = true;
  avx2 = false;
  avx512f = false;
  aes = false;
  bmi1 = false;
  bmi2 = false;
  fma = false;
  sha = false;
  vmx = false;
  svm = false;
  rdtscp = false;
  invariant_tsc = false;
  hypervisor_present = false;
  osxsave = true;
  avx_os_enabled = false;
  avx512_os_enabled = false;
}

print_features_example :
    Returns
      (HasText (spaced (present_names (feature_list avx_disabled))))
      (print_features avx_disabled (replicate 512 7))
print_features_example = print_features-HasText avx_disabled (replicate 512 7) refl

-- "SSE2 AVX (AVX-OS-DISABLED)"
disabled_text :
    spaced (present_names (feature_list avx_disabled))
    ≡ 83 ∷ 83 ∷ 69 ∷ 50 ∷ 32 ∷ 65 ∷ 86 ∷ 88 ∷ 32 ∷ 40 ∷ 65 ∷ 86 ∷ 88 ∷ 45 ∷ 79 ∷ 83 ∷ 45 ∷ 68 ∷ 73
      ∷ 83 ∷ 65 ∷ 66 ∷ 76 ∷ 69 ∷ 68 ∷ 41 ∷ []
disabled_text = refl
