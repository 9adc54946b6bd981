-- ===== src/Hv/Controls.antt =====
-- Control fields and their capability registers (driver/hv/hwmon_hv.c).
pub mod Bits
use hardware_monitor_azk.Base.{
  min, ℕ, zero, suc, ◌+◌, ◌-◌, ◌*◌, ◌/◌, ◌%◌, ◌^◌, ◌≤◌, ◌<◌, ◌≡◌, ◌≢◌, ◌↔◌, refl, sym, ap, ◌∙◌,
  arith, Bool, true, false, not, ◌&&◌, ◌||◌, List, [], ◌∷◌, ◌++◌, map, Option, none, some, ◌⊎◌, inl,
  inr, ltb, leb, ◌==◌, if◌then◌else◌, bit, low_bits, Bool-cases, tests, length, take, drop, set,
  replicate, get_elem?, All,
}
use Prim.Native.Nat.{bit_and, bit_or}
use hardware_monitor_azk.Hv.Types.{Processor}
use hardware_monitor_azk.Cpu.Types.{CpuidResult}

-- `__readmsr(Msr)` is the value given; the function always returns TRUE.
unfoldable pub adjust_control_value : ℕ → ℕ → ℕ
adjust_control_value value desired =
    let allowed0 = value % 2 ^ 32 in
    let allowed1 = value / 2 ^ 32 in bit_and (bit_or desired allowed0) allowed1

unfoldable pub vmx_is_supported_by_cpuid : Processor → Bool
vmx_is_supported_by_cpuid p = bit (p.cpuid_result 1).ecx 5

unfoldable pub vmx_is_enabled_by_bios : Processor → Bool
vmx_is_enabled_by_bios p =
    let feature_control = p.msr 0x3A in
    let locked = bit feature_control 0 in
    let vmx_outside_smx = bit feature_control 2 in locked && vmx_outside_smx
