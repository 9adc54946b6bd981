-- ===== src/Cpu/Collect.antt =====
-- `cpu_id_collect` (src/cpu/cpu_id.c).
pub mod Safety
use hardware_monitor_azk.Cpu.Types.{CpuIdentity, zero_identity}
use hardware_monitor_azk.Cpu.Trace.{Processor, Trace, pure, cpuid_asm, ◌>>=◌}
use hardware_monitor_azk.Cpu.Signature.{
  vendor_from_leaf0, classify_vendor, decode_family_model_stepping, collect_brand_string,
}
use hardware_monitor_azk.Cpu.Features.{collect_features}
use hardware_monitor_azk.Cpu.Topology.{collect_topology}
use hardware_monitor_azk.Base.{
  min, ℕ, zero, suc, ◌+◌, ◌-◌, ◌*◌, ◌/◌, ◌%◌, ◌^◌, ◌≤◌, ◌<◌, ◌≡◌, ◌≢◌, ◌↔◌, refl, sym, ap, ◌∙◌,
  arith, Bool, true, false, not, ◌&&◌, ◌||◌, List, [], ◌∷◌, ◌++◌, map, Option, none, some, ◌⊎◌, inl,
  inr, ltb, leb, ◌==◌, if◌then◌else◌, bit, low_bits, Bool-cases, tests, length, take, drop, set,
  replicate, get_elem?, All,
}

-- `query_os_logical_processor_count`: what `GetActiveProcessorCount` gives, or `GetSystemInfo`.
abbrev pub query_os_logical_processor_count : ℕ → ℕ → ℕ
query_os_logical_processor_count active system_info =
    (if active == 0 then system_info else active) % 2 ^ 32

abbrev pub extended_leaf : ℕ → ℕ
extended_leaf eax = if bit eax 31 then eax else 0

-- What is read behind leaf 0.
unfoldable pub collect_identity : Processor → ℕ → CpuIdentity → Trace CpuIdentity
collect_identity cpu processors out = do
  leaf1 ← cpuid_asm cpu 1 0
  let signature = decode_family_model_stepping leaf1.eax
  leaf80 ← cpuid_asm cpu 0x80000000 0
  let max_extended = extended_leaf leaf80.eax
  brand ← collect_brand_string cpu max_extended out.brand_string
  features ← collect_features cpu out.max_basic_leaf max_extended leaf1 out.vendor
  topology ← collect_topology cpu out.max_basic_leaf
  pure (record out {
    family = signature.0;
    model = signature.1;
    stepping = signature.2;
    max_extended_leaf = max_extended;
    brand_string = brand.0;
    brand_string_available = brand.1;
    features = features;
    topology = topology;
    logical_processors_system = processors;
  })

unfoldable pub cpu_id_collect : Processor → ℕ → ℕ → Trace CpuIdentity
cpu_id_collect cpu active system_info = cpuid_asm cpu 0 0 >>= λ leaf0.
    let vendor_string = vendor_from_leaf0 leaf0 in
    let out = record zero_identity {
      max_basic_leaf = leaf0.eax;
      vendor_string = vendor_string;
      vendor = classify_vendor vendor_string;
    } in
    if ltb leaf0.eax 1
    then pure out
    else collect_identity cpu (query_os_logical_processor_count active system_info) out
