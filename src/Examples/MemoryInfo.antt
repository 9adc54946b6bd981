-- ===== src/Examples/MemoryInfo.antt =====
-- A table with one type 19 structure, as src/memory/memory_info.c reads it.
use hardware_monitor_azk.MemoryInfo.{kb_range, ext_range, memory_info_collect}
use hardware_monitor_azk.MemoryInfo.Ranges.{Covers, kb_range-Covers, ext_range-Covers}
use hardware_monitor_azk.MemoryInfo.Next.{region_next-next_structure}
use hardware_monitor_azk.MemoryInfo.{region_next}
use hardware_monitor_azk.Smbios.Walk.{next_structure}
use hardware_monitor_azk.MemoryInfo.Safety.{IsMemoryInfo, memory_info_collect-Returns}
use hardware_monitor_azk.Buffer.Returns.{Returns}
use mathlib.Core.Path.{subst}
use hardware_monitor_azk.Base.{◌/◌, ◌≤◌, ◌≡◌, ◌↔◌, arith, [], ◌∷◌, none, some, inl, All}
use hardware_monitor_azk.Buffer.{Bytes, IsByte}

abbrev mapped : Bytes
mapped =
    0 ∷ 3 ∷ 4 ∷ 0 ∷ 17 ∷ 0 ∷ 0 ∷ 0 ∷ 19 ∷ 15 ∷ 1 ∷ 0 ∷ 0 ∷ 0 ∷ 0 ∷ 0 ∷ 255 ∷ 255 ∷ 15 ∷ 0 ∷ 7 ∷ 0
    ∷ 1 ∷ 0 ∷ 0 ∷ []

mapped-IsByte : (b : Bytes) → some mapped ≡ some b → All IsByte b
mapped-IsByte b e = subst (All IsByte) (some_inj e) all_bytes
  where
    all_bytes : All IsByte mapped
    all_bytes = omega arith

    some_inj : some mapped ≡ some b → mapped ≡ b
    some_inj h = cc h

memory_info_collect_example :
    Returns (λ r. IsMemoryInfo r.0) (memory_info_collect none (some mapped))
memory_info_collect_example = memory_info_collect-Returns none (some mapped) mapped-IsByte

region_next_example : region_next mapped 8 15 25 ≡ next_structure mapped 8 15 25
region_next_example = region_next-next_structure mapped 8 15 25

kb_range_example : Covers (kb_range 1 2) 2048 ↔ ((1 ≤ 2048 / 1024) × (2048 / 1024 ≤ 2))
kb_range_example = kb_range-Covers 1 2 2048 (omega arith) (omega arith)

ext_range_example : Covers (ext_range 4096 8191) 5000 ↔ ((4096 ≤ 5000) × (5000 ≤ 8191))
ext_range_example = ext_range-Covers 4096 8191 5000 (omega arith) (omega arith) (inl (omega arith))
