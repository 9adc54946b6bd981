-- ===== src/Hv/Segments.antt =====
-- Segment descriptors (driver/hv/hwmon_hv.c). The GDT is its bytes, a descriptor an offset.
pub mod Descriptor
use hardware_monitor_azk.Base.{
  min, ℕ, zero, suc, ◌+◌, ◌-◌, ◌*◌, ◌/◌, ◌%◌, ◌^◌, ◌≤◌, ◌<◌, ◌≡◌, ◌≢◌, ◌↔◌, refl, sym, ap, ◌∙◌,
  arith, Bool, true, false, not, ◌&&◌, ◌||◌, List, [], ◌∷◌, ◌++◌, map, Option, none, some, ◌⊎◌, inl,
  inr, ltb, leb, ◌==◌, if◌then◌else◌, bit, low_bits, Bool-cases, tests, length, take, drop, set,
  replicate, get_elem?, All,
}
use hardware_monitor_azk.Buffer.{
  Run, done, fault, stuck, ◌>>=◌, Bytes, IsByte, load, store, load_le, load_bytes, store_bytes,
  strnlen,
}

-- The two parts have no bit in common, so that `|=` is a sum.
unfoldable pub compute_segment_access_rights : Bytes → ℕ → Run ℕ
compute_segment_access_rights gdt selector = if selector == 0 then done 0x10000 else (do
  let descriptor = selector / 8 * 8
  access_rights ← load gdt (descriptor + 5)
  flags ← load gdt (descriptor + 6)
  done (access_rights + flags / 16 % 16 * 16 * 2 ^ 8))

-- The shifted bytes have no bit in common, so that `|` is a sum.
unfoldable pub compute_segment_base : Bytes → ℕ → Bool → Run ℕ
compute_segment_base gdt selector is_tr = if selector == 0 then done 0 else (do
  let descriptor = selector / 8 * 8
  byte2 ← load gdt (descriptor + 2)
  byte3 ← load gdt (descriptor + 3)
  byte4 ← load gdt (descriptor + 4)
  byte7 ← load gdt (descriptor + 7)
  let base = byte2 + byte3 * 2 ^ 8 + byte4 * 2 ^ 16 + byte7 * 2 ^ 24
  let with_high = do base_high ← load_le gdt (descriptor + 8) 4; done (base + base_high * 2 ^ 32)
  if is_tr then with_high else done base)
