-- ===== src/Uefi/Inventory.antt =====
-- `PrintCpuInfo` and `PrintMemoryMap` of uefi/HwMonPkg/Application/HwMonUefi/HwMonUefi.c.
use hardware_monitor_azk.Base.{
  ℕ, ◌+◌, ◌*◌, ◌/◌, ◌%◌, ◌^◌, ◌||◌, List, [], ◌∷◌, ◌++◌, leb, ◌==◌, if◌then◌else◌, bit, length,
}
use hardware_monitor_azk.Buffer.{Bytes}
use hardware_monitor_azk.Buffer.Words.{le_bytes}
use hardware_monitor_azk.Cpu.Types.{CpuidResult}
use hardware_monitor_azk.Uefi.Types.{
  MemoryDescriptor, MemoryMap, probe_failed, no_pool, map_failed, mapped, Line, cpu_vendor,
  cpu_family, cpu_features, cpu_brand, map_probe_failed, map_allocation_failed, map_unavailable,
  descriptor_count, usable_mb,
}

-- Family, model and stepping of EAX of leaf 1; the parts of the model have no bit in common.
unfoldable pub family_model : ℕ → ℕ × ℕ × ℕ
family_model eax =
    let base_family = eax / 2 ^ 8 % 16 in
    let base_model = eax / 2 ^ 4 % 16 in
    let ext_family = eax / 2 ^ 20 % 256 in
    let ext_model = eax / 2 ^ 16 % 16 in
    (
      if base_family == 0xF then base_family + ext_family else base_family,
      if (base_family == 0x6) || (base_family == 0xF)
          then ext_model * 16 + base_model
          else base_model,
      eax % 16,
    )

-- The four registers as they are copied, 16 bytes.
abbrev pub register_bytes : CpuidResult → Bytes
register_bytes r = le_bytes 4 r.eax ++ (le_bytes 4 r.ebx ++ (le_bytes 4 r.ecx ++ le_bytes 4 r.edx))

unfoldable pub print_cpu_info : (ℕ → CpuidResult) → List Line
unfolding family_model
print_cpu_info cpuid =
    let leaf0 = cpuid 0 in
    let leaf1 = cpuid 1 in
    let (family, model, stepping) = family_model leaf1.eax in
    let brand =
      if leb 0x80000004 (cpuid 0x80000000).eax
      then cpu_brand (
          register_bytes (cpuid 0x80000002)
          ++ (register_bytes (cpuid 0x80000003) ++ (register_bytes (cpuid 0x80000004) ++ (0 ∷ []))))
        ∷ []
      else [] in
    cpu_vendor
      (le_bytes 4 leaf0.ebx ++ (le_bytes 4 leaf0.edx ++ (le_bytes 4 leaf0.ecx ++ (0 ∷ []))))
    ∷ cpu_family family model stepping
    ∷ cpu_features (
        bit leaf1.edx 25
        ∷ bit leaf1.edx 26
        ∷ bit leaf1.ecx 0
        ∷ bit leaf1.ecx 28
        ∷ bit leaf1.ecx 5
        ∷ bit leaf1.ecx 31
        ∷ [])
    ∷ brand

-- The loop over the descriptors; UsableBytes has 64 bits.
unfoldable pub usable_bytes : ℕ → ℕ → List MemoryDescriptor → ℕ
usable_bytes page_size usable [] = usable
usable_bytes page_size usable (d ∷ ds) =
    usable_bytes page_size
      (if d.is_usable then (usable + d.number_of_pages * page_size) % 2 ^ 64 else usable) ds

unfoldable pub print_memory_map : ℕ → MemoryMap → List Line
unfolding usable_bytes
print_memory_map page_size probe_failed = map_probe_failed ∷ []
print_memory_map page_size no_pool = map_allocation_failed ∷ []
print_memory_map page_size map_failed = map_unavailable ∷ []
print_memory_map page_size (mapped ds) =
    descriptor_count (length ds) ∷ usable_mb (usable_bytes page_size 0 ds / (1024 * 1024)) ∷ []
