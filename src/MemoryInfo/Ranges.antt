-- ===== src/MemoryInfo/Ranges.antt =====
-- A stored range covers the addresses that the structure names.
use hardware_monitor_azk.Base.{ℕ, ◌+◌, ◌-◌, ◌/◌, ◌^◌, ◌≤◌, ◌<◌, ◌≢◌, ◌↔◌, arith, ◌⊎◌}
use hardware_monitor_azk.MemoryInfo.{kb_range, ext_range}

-- An address lies in a range given by its base and length.
abbrev pub Covers : ℕ × ℕ → ℕ → Type 0
Covers r x = (r.0 ≤ x) × (x < r.0 + r.1)

-- For 32-bit bounds in kilobytes, the stored base and length cover an address exactly if its
-- kilobyte is between the first and the last, both included.
pub kb_range-Covers :
    (start_kb end_kb x : ℕ)
    → start_kb < 2 ^ 32
    → end_kb < 2 ^ 32
    → Covers (kb_range start_kb end_kb) x ↔ ((start_kb ≤ x / 1024) × (x / 1024 ≤ end_kb))
unfolding kb_range
kb_range-Covers start_kb end_kb x hs he = (λ c. ground arith, λ c. ground arith)

-- For 64-bit bounds in bytes that do not name the whole address space, the stored base and length
-- cover an address exactly if it is between the first and the last, both included.
pub ext_range-Covers :
    (ext_start ext_end x : ℕ)
    → ext_start < 2 ^ 64
    → ext_end < 2 ^ 64
    → (ext_start ≢ 0) ⊎ (ext_end < 2 ^ 64 - 1)
    → Covers (ext_range ext_start ext_end) x ↔ ((ext_start ≤ x) × (x ≤ ext_end))
unfolding ext_range
ext_range-Covers ext_start ext_end x hs he part = (λ c. ground arith, λ c. ground arith)
