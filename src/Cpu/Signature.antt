-- ===== src/Cpu/Signature.antt =====
-- Vendor, family, model, stepping and brand string (src/cpu/cpu_id.c).
pub mod Decode
use hardware_monitor_azk.Cpu.Types.{CpuidResult, CpuVendor, unknown_vendor, intel, amd}
use hardware_monitor_azk.Cpu.Trace.{Processor, Trace, pure, cpuid_asm, ◌>>=◌}
use hardware_monitor_azk.Acpi.Checksum.{equal_bytes}
use hardware_monitor_azk.Buffer.Words.{le_bytes}
use hardware_monitor_azk.Buffer.{Bytes}
use hardware_monitor_azk.Base.{
  ℕ, ◌+◌, ◌*◌, ◌/◌, ◌%◌, ◌^◌, Bool, true, false, ◌||◌, [], ◌∷◌, ◌++◌, ltb, ◌==◌, if◌then◌else◌,
  take, set,
}

unfoldable pub vendor_from_leaf0 : CpuidResult → Bytes
vendor_from_leaf0 r = le_bytes 4 r.ebx ++ (le_bytes 4 r.edx ++ (le_bytes 4 r.ecx ++ (0 ∷ [])))

abbrev pub genuine_intel : Bytes
genuine_intel =
    b'G' ∷ b'e' ∷ b'n' ∷ b'u' ∷ b'i' ∷ b'n' ∷ b'e' ∷ b'I' ∷ b'n' ∷ b't' ∷ b'e' ∷ b'l' ∷ []

abbrev pub authentic_amd : Bytes
authentic_amd =
    b'A' ∷ b'u' ∷ b't' ∷ b'h' ∷ b'e' ∷ b'n' ∷ b't' ∷ b'i' ∷ b'c' ∷ b'A' ∷ b'M' ∷ b'D' ∷ []

unfoldable pub classify_vendor : Bytes → CpuVendor
classify_vendor vendor_string =
    if equal_bytes (take 12 vendor_string) genuine_intel
    then intel
    else if equal_bytes (take 12 vendor_string) authentic_amd
    then amd
    else unknown_vendor

-- Family, model and stepping. A four-bit field is behind `ext_model << 4`, so that `|` is a sum.
unfoldable pub decode_family_model_stepping : ℕ → ℕ × ℕ × ℕ
decode_family_model_stepping eax =
    let base_family = eax / 2 ^ 8 % 16 in
    let base_model = eax / 2 ^ 4 % 16 in
    let ext_family = eax / 2 ^ 20 % 256 in
    let ext_model = eax / 2 ^ 16 % 16 in
    (
      if base_family == 0xF then base_family + ext_family else base_family,
      if base_family == 0x6 || base_family == 0xF then ext_model * 16 + base_model else base_model,
      eax % 16,
    )

-- One round of the `for` loop over the three leaves.
abbrev pub brand_leaf : Processor → ℕ → Trace Bytes
brand_leaf cpu leaf = cpuid_asm cpu leaf 0 >>= λ r.
    pure (le_bytes 4 r.eax ++ (le_bytes 4 r.ebx ++ (le_bytes 4 r.ecx ++ le_bytes 4 r.edx)))

unfoldable pub collect_brand_string : Processor → ℕ → Bytes → Trace (Bytes × Bool)
collect_brand_string cpu max_extended_leaf out =
    if ltb max_extended_leaf 0x80000004 then pure (set out 0 0, false) else (do
      first ← brand_leaf cpu 0x80000002
      second ← brand_leaf cpu 0x80000003
      third ← brand_leaf cpu 0x80000004
      pure (first ++ (second ++ (third ++ (0 ∷ []))), true))
