-- ===== src/Report.antt =====
-- The line of processor features in the report (src/output/report.c).
pub mod Features
use hardware_monitor_azk.Base.{
  ◌≤◌, ◌<◌, ◌≡◌, refl, sym, ap, ◌∙◌, arith, min, ℕ, zero, suc, ◌+◌, ◌-◌, ◌%◌, ◌^◌, Bool, true,
  false, not, ◌&&◌, ◌||◌, List, [], ◌∷◌, ◌++◌, Option, none, some, ltb, leb, ◌==◌, if◌then◌else◌,
  length, take, drop, take_all, length-append, length-drop, All,
}
use hardware_monitor_azk.Buffer.{Run, done, ◌>>=◌, Bytes, store}
use hardware_monitor_azk.Cpu.Types.{CpuFeatures}
use hardware_monitor_azk.Logger.{snprintf}

-- `features` and `len`
pub record FeatureLine : Type 0 where
  pub features : Bytes
  pub len : ℕ

-- The result of snprintf is the length of the whole text.
unfoldable pub append_feature : ℕ → Bytes → Bool → FeatureLine → Run FeatureLine
append_feature buf_size name present line =
    let text = (if line.len == 0 then [] else 32 ∷ []) ++ name in
    let printed = (do
      written ← snprintf line.features line.len ((buf_size + 2 ^ 64 - line.len) % 2 ^ 64) text
      done (record { features = written; len = line.len + length text })) in
    if present then printed else done line

abbrev pub Feature : Type 0
Feature = Bytes × Bool

unfoldable pub append_features : List Feature → FeatureLine → Run FeatureLine
unfolding append_feature
append_features [] line = done line
append_features ((name, present) ∷ more) line = do
  longer ← append_feature 512 name present line
  append_features more longer

-- What is appended, in order, each with its condition.
abbrev pub feature_list : CpuFeatures → List Feature
feature_list f =
    -- SSE
    (83 ∷ 83 ∷ 69 ∷ [], f.sse)
    ∷
        -- SSE2
        (83 ∷ 83 ∷ 69 ∷ 50 ∷ [], f.sse2)
    ∷
        -- SSE3
        (83 ∷ 83 ∷ 69 ∷ 51 ∷ [], f.sse3)
    ∷
        -- SSSE3
        (83 ∷ 83 ∷ 83 ∷ 69 ∷ 51 ∷ [], f.ssse3)
    ∷
        -- SSE4.1
        (83 ∷ 83 ∷ 69 ∷ 52 ∷ 46 ∷ 49 ∷ [], f.sse4_1)
    ∷
        -- SSE4.2
        (83 ∷ 83 ∷ 69 ∷ 52 ∷ 46 ∷ 50 ∷ [], f.sse4_2)
    ∷
        -- AVX
        (65 ∷ 86 ∷ 88 ∷ [], f.avx)
    ∷
        -- AVX2
        (65 ∷ 86 ∷ 88 ∷ 50 ∷ [], f.avx2)
    ∷
        -- AVX512F
        (65 ∷ 86 ∷ 88 ∷ 53 ∷ 49 ∷ 50 ∷ 70 ∷ [], f.avx512f)
    ∷
        -- (AVX-OS-DISABLED)
        (
          40 ∷ 65 ∷ 86 ∷ 88 ∷ 45 ∷ 79 ∷ 83 ∷ 45 ∷ 68 ∷ 73 ∷ 83 ∷ 65 ∷ 66 ∷ 76 ∷ 69 ∷ 68 ∷ 41 ∷ [],
          (f.avx || f.avx2) && not f.avx_os_enabled,
        )
    ∷
        -- (AVX512-OS-DISABLED)
        (
          40 ∷ 65 ∷ 86 ∷ 88 ∷ 53 ∷ 49 ∷ 50 ∷ 45 ∷ 79 ∷ 83 ∷ 45 ∷ 68 ∷ 73 ∷ 83 ∷ 65 ∷ 66 ∷ 76 ∷ 69
              ∷ 68 ∷ 41 ∷ [],
          f.avx512f && not f.avx512_os_enabled,
        )
    ∷
        -- AES
        (65 ∷ 69 ∷ 83 ∷ [], f.aes)
    ∷
        -- BMI1
        (66 ∷ 77 ∷ 73 ∷ 49 ∷ [], f.bmi1)
    ∷
        -- BMI2
        (66 ∷ 77 ∷ 73 ∷ 50 ∷ [], f.bmi2)
    ∷
        -- FMA
        (70 ∷ 77 ∷ 65 ∷ [], f.fma)
    ∷
        -- SHA
        (83 ∷ 72 ∷ 65 ∷ [], f.sha)
    ∷
        -- RDTSCP
        (82 ∷ 68 ∷ 84 ∷ 83 ∷ 67 ∷ 80 ∷ [], f.rdtscp)
    ∷
        -- InvariantTSC
        (73 ∷ 110 ∷ 118 ∷ 97 ∷ 114 ∷ 105 ∷ 97 ∷ 110 ∷ 116 ∷ 84 ∷ 83 ∷ 67 ∷ [], f.invariant_tsc)
    ∷
        -- VMX
        (86 ∷ 77 ∷ 88 ∷ [], f.vmx)
    ∷
        -- SVM
        (83 ∷ 86 ∷ 77 ∷ [], f.svm)
    ∷
        -- Hypervisor
        (72 ∷ 121 ∷ 112 ∷ 101 ∷ 114 ∷ 118 ∷ 105 ∷ 115 ∷ 111 ∷ 114 ∷ [], f.hypervisor_present)
    ∷ []

-- `array` is the array as the function finds it.
unfoldable pub print_features : CpuFeatures → Bytes → Run FeatureLine
print_features f array = do
  ended ← store array 0 0
  append_features (feature_list f) (record { features = ended; len = 0 })
