-- ===== src/Smbios/Device/Size.antt =====
-- The size fields of a memory device hold the capacity that they were written for.
use hardware_monitor_azk.Base.{
  ℕ, ◌+◌, ◌/◌, ◌^◌, ◌≤◌, ◌<◌, ◌≡◌, refl, arith, Bool, true, false, ltb, if◌then◌else◌,
}
use hardware_monitor_azk.Buffer.{done, Bytes, load_le}
use hardware_monitor_azk.Smbios.Device.{memory_size}

-- What the size word of a type 17 structure can say.
pub data Capacity : Type 0 where
  empty : Capacity
  unknown : Capacity
  kilobytes : ℕ → Capacity
  megabytes : ℕ → Capacity

-- The word has 15 bits for a number, and the extended size 31.
abbrev pub IsCapacity : Capacity → Type 0
IsCapacity (kilobytes k) = k < 0x7FFF
IsCapacity (megabytes m) = (0 < m) × (m < 2 ^ 31)
IsCapacity _ = Unit

-- The size word and the extended size for a capacity.
pub size_word : Capacity → ℕ
size_word empty = 0
size_word unknown = 0xFFFF
size_word (kilobytes k) = 0x8000 + k
size_word (megabytes m) = if ltb m 0x7FFF then m else 0x7FFF

abbrev pub extended_size : Capacity → ℕ
extended_size (megabytes m) = m
extended_size _ = 0

-- `populated` and `size_mb`.
abbrev pub capacity_fields : Capacity → Bool × ℕ
capacity_fields empty = (false, 0)
capacity_fields unknown = (true, 0)
capacity_fields (kilobytes k) = (true, k / 1024)
capacity_fields (megabytes m) = (true, m)

-- In a structure of at least 0x20 formatted bytes, the size fields that encode a capacity are read
-- back as it: an empty slot, an unknown size, kilobytes below 0x7FFF rounded down to megabytes, and
-- megabytes from 1 to 2^31 - 1, in the size word where they are below 0x7FFF and in the extended
-- size otherwise.
pub memory_size-size_word :
    (c : Capacity) (buf : Bytes) (s hlen : ℕ)
    → IsCapacity c
    → 0x20 ≤ hlen
    → load_le buf (s + 0x1C) 4 ≡ done (extended_size c)
    → memory_size buf s hlen (size_word c) ≡ done (capacity_fields c)
unfolding memory_size size_word
memory_size-size_word empty buf s hlen h long e = refl
memory_size-size_word unknown buf s hlen h long e = refl
memory_size-size_word (kilobytes k) buf s hlen h long e = ground arith
memory_size-size_word (megabytes m) buf s hlen h long e = ground arith
