-- ===== src/MemoryInfo.antt =====
-- Physical memory (src/memory/memory_info.c, include/memory_info.h): the operating system's totals
-- and the address ranges of the SMBIOS table's type 19 structures.
pub mod Next
pub mod Ranges
pub mod Safety
use hardware_monitor_azk.Base.{
  min, ℕ, zero, suc, ◌+◌, ◌-◌, ◌*◌, ◌/◌, ◌%◌, ◌^◌, ◌≤◌, ◌<◌, ◌≡◌, ◌≢◌, ◌↔◌, refl, sym, ap, ◌∙◌,
  arith, Bool, true, false, not, ◌&&◌, ◌||◌, List, [], ◌∷◌, ◌++◌, map, Option, none, some, ◌⊎◌, inl,
  inr, ltb, leb, ◌==◌, if◌then◌else◌, bit, low_bits, Bool-cases, tests, length, take, drop, set,
  replicate, get_elem?, All,
}
use hardware_monitor_azk.Buffer.{
  Run, done, fault, stuck, ◌>>=◌, Bytes, IsByte, load, store, load_le, load_bytes, store_bytes,
  strnlen,
}
use hardware_monitor_azk.Buffer.Loop.{Turn, again, stop, scan}

abbrev pub memory_max_regions : ℕ
memory_max_regions = 32

pub record MemoryRegion : Type 0 where
  pub base : ℕ
  pub length : ℕ
  pub type : ℕ

pub record MemoryInfo : Type 0 where
  pub available : Bool
  pub total_physical_bytes : ℕ
  pub available_physical_bytes : ℕ
  pub memory_load_percent : ℕ
  pub regions : List MemoryRegion
  pub region_count : ℕ

abbrev pub zero_region : MemoryRegion
zero_region = record { base = 0; length = 0; type = 0 }

abbrev pub zero_info : MemoryInfo
zero_info = record {
  available = false;
  total_physical_bytes = 0;
  available_physical_bytes = 0;
  memory_load_percent = 0;
  regions = replicate memory_max_regions zero_region;
  region_count = 0;
}

-- One round of the loop of `next_structure`, and the special case behind it.
unfoldable pub region_next_turn : Bytes → ℕ → ℕ → Unit {0} → Run (Turn (Unit {0}) (Option ℕ))
region_next_turn buf buf_end p _ =
    let pair_at = λ (q : ℕ).
      (load buf p >>= λ a. if a == 0 then (load buf q >>= λ b. done (b == 0)) else done false) in
    if ltb (p + 1) buf_end
    then (pair_at (p + 1) >>= λ found.
        done (if found then stop (some (p + 2)) else again (p + 1) tt))
    else if p + 1 == buf_end
    then ((if p == 0 then fault else pair_at (p - 1)) >>= λ found.
        done (stop (if found then some buf_end else none)))
    else done (stop none)

unfoldable pub region_next : Bytes → ℕ → ℕ → ℕ → Run (Option ℕ)
unfolding region_next_turn
region_next buf struct_ptr formatted_len buf_end =
    let p = struct_ptr + formatted_len in
    scan (suc (buf_end - p)) (region_next_turn buf buf_end) p tt

-- The two ways to a base and a length; a length of 0 is a range that does not count.
unfoldable pub kb_range : ℕ → ℕ → ℕ × ℕ
kb_range start_kb end_kb =
    let base = start_kb * 1024 % 2 ^ 64 in
    let end_bytes = end_kb * 1024 % 2 ^ 64 in
    (base, if leb base end_bytes then (end_bytes - base + 1024) % 2 ^ 64 else 0)

unfoldable pub ext_range : ℕ → ℕ → ℕ × ℕ
ext_range ext_start ext_end =
    (ext_start, if leb ext_start ext_end then (ext_end - ext_start + 1) % 2 ^ 64 else 0)

unfoldable pub region_range : Bytes → ℕ → ℕ → Run (ℕ × ℕ)
unfolding kb_range ext_range
region_range buf cur hlen = do
  start_kb ← load_le buf (cur + 0x04) 4
  end_kb ← load_le buf (cur + 0x08) 4
  if start_kb == 0xFFFFFFFF && leb 0x1F hlen
      then (do
        ext_start ← load_le buf (cur + 0x0F) 8
        ext_end ← load_le buf (cur + 0x17) 8
        done (ext_range ext_start ext_end))
      else if not (start_kb == 0xFFFFFFFF)
      then done (kb_range start_kb end_kb)
      else done (0, 0)

-- The body of the `if (type == 19 && hlen >= 0x0F)`.
unfoldable pub add_region : Bytes → ℕ → ℕ → MemoryInfo → Run MemoryInfo
unfolding region_range
add_region buf cur hlen out = do
  range ← region_range buf cur hlen
  if ltb 0 range.1
      then (do
        handle ← load_le buf (cur + 0x0C) 2
        regions ←
            store out.regions out.region_count
              (record { base = range.0; length = range.1; type = handle })
        done (record out { regions = regions; region_count = (out.region_count + 1) % 2 ^ 32 }))
      else done out

unfoldable pub region_advance : ℕ → MemoryInfo → Option ℕ → Turn MemoryInfo MemoryInfo
region_advance cur out none = stop out
region_advance cur out (some nxt) = if leb nxt cur then stop out else again nxt out

-- One round of `while (cur + 4 <= end && out->region_count < MEMORY_MAX_REGIONS)`.
unfoldable pub region_turn : Bytes → ℕ → ℕ → MemoryInfo → Run (Turn MemoryInfo MemoryInfo)
unfolding add_region region_advance
region_turn buf buf_end cur out =
    if leb (cur + 4) buf_end && ltb out.region_count memory_max_regions
    then (do
      type ← load buf cur
      hlen ← load buf (cur + 1)
      if ltb hlen 4 || ltb buf_end (cur + hlen)
          then done (stop out)
          else if type == 127
          then done (stop out)
          else (do
            out' ← if type == 19 && leb 0x0F hlen then add_region buf cur hlen out else done out
            nxt ← region_next buf cur hlen buf_end
            done (region_advance cur out' nxt)))
    else done (stop out)

-- `collect_regions_from_smbios`; the option is what `platform_get_smbios_table` gave.
unfoldable pub collect_regions_from_smbios : Option Bytes → MemoryInfo → Run MemoryInfo
unfolding region_turn
collect_regions_from_smbios none out = done out
collect_regions_from_smbios (some raw) out = if ltb (length raw) 8 then done out else (do
  header_len ← load_le raw 4 4
  let table_end = if ltb (length raw) (8 + header_len) then length raw else 8 + header_len
  scan (suc (table_end - 8)) (region_turn raw table_end) 8 out)

-- The fields of `MEMORYSTATUSEX` that the code reads.
pub record MemoryStatus : Type 0 where
  pub total_phys : ℕ
  pub avail_phys : ℕ
  pub memory_load : ℕ

unfoldable pub with_status : Option MemoryStatus → MemoryInfo → MemoryInfo
with_status none out = out
with_status (some ms) out = record out {
  available = true;
  total_physical_bytes = ms.total_phys;
  available_physical_bytes = ms.avail_phys;
  memory_load_percent = ms.memory_load;
}

-- `memory_info_collect`: the record and the result. The status is what `GlobalMemoryStatusEx` gave.
unfoldable pub memory_info_collect : Option MemoryStatus → Option Bytes → Run (MemoryInfo × Bool)
unfolding with_status
memory_info_collect status table = do
  out ← collect_regions_from_smbios table (with_status status zero_info)
  done (out, out.available || ltb 0 out.region_count)
