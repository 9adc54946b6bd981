-- ===== src/MemoryInfo/Safety.antt =====
-- `memory_info_collect` on every SMBIOS buffer that the platform may hand over.
use hardware_monitor_azk.Buffer.Returns.{
  Returns, Returns->>=, Returns-if, returns, Returns-load_le, Returns-load_any, Returns-store,
}
use hardware_monitor_azk.Buffer.Loop.{TurnOk, scan-Returns}
use hardware_monitor_azk.MemoryInfo.Next.{region_next-next_structure}
use hardware_monitor_azk.MemoryInfo.{
  MemoryInfo, MemoryRegion, MemoryStatus, memory_max_regions, zero_info, kb_range, ext_range,
  region_range, add_region, region_advance, region_turn, collect_regions_from_smbios, with_status,
  memory_info_collect,
}
use hardware_monitor_azk.Smbios.Walk.Next.{IsNext, IsNext-bounds, next_structure-IsNext}
use hardware_monitor_azk.Base.{
  ℕ, zero, suc, ◌+◌, ◌%◌, ◌^◌, ◌≤◌, ◌<◌, ◌≡◌, refl, ◌∙◌, arith, not, ◌&&◌, ◌||◌, List, [], ◌∷◌,
  Option, none, some, inl, inr, ltb, leb, ◌==◌, if◌then◌else◌, Bool-cases, tests, length, take, set,
  All, length-set,
}
use hardware_monitor_azk.Buffer.{Bytes, IsByte}

-- A stored range is not empty and lies inside the 64-bit address space.
abbrev pub IsRange : ℕ × ℕ → Type 0
IsRange r = (0 < r.1) × (r.0 + r.1 ≤ 2 ^ 64)

abbrev pub IsRegion : MemoryRegion → Type 0
IsRegion r = IsRange (r.base, r.length) × (r.type < 2 ^ 16)

-- The count fits the array, whose first entries are ranges.
pub record IsMemoryInfo (m : MemoryInfo) : Type 0 where
  pub slots : length m.regions ≡ memory_max_regions
  pub count : m.region_count ≤ memory_max_regions
  pub taken : All IsRegion (take m.region_count m.regions)

kb_range-IsRange :
    (start_kb end_kb : ℕ)
    → start_kb < 256 ^ 4
    → end_kb < 256 ^ 4
    → 0 < (kb_range start_kb end_kb).1
    → IsRange (kb_range start_kb end_kb)
unfolding kb_range
kb_range-IsRange start_kb end_kb hs he pos = (pos, ground arith)

ext_range-IsRange :
    (ext_start ext_end : ℕ)
    → ext_start < 256 ^ 8
    → ext_end < 256 ^ 8
    → 0 < (ext_range ext_start ext_end).1
    → IsRange (ext_range ext_start ext_end)
unfolding ext_range
ext_range-IsRange ext_start ext_end hs he pos = (pos, ground arith)

take-store :
    (P : MemoryRegion → Type 0) (rs : List MemoryRegion) (n : ℕ) (r : MemoryRegion)
    → n < length rs
    → All P (take n rs)
    → P r
    → All P (take (suc n) (set rs n r))
take-store P [] n r lt h p = absurd (omega arith)
take-store P (x ∷ rs) zero r lt h p = (p, tt)
take-store P (x ∷ rs) (suc n) r lt (hx, h) p = (hx, take-store P rs n r (omega arith) h p)

module _ (buf : Bytes) (buf_end : ℕ) (bytes : All IsByte buf) (inside : buf_end ≤ length buf) where
  region_range-Returns :
      (cur hlen : ℕ)
      → cur + hlen ≤ buf_end
      → 15 ≤ hlen
      → Returns (λ r. 0 < r.1 → IsRange r) (region_range buf cur hlen)
  unfolding region_range
  region_range-Returns cur hlen fits long =
      Returns->>= (Returns-load_le buf (cur + 0x04) 4 bytes (omega arith)) λ start_kb hs.
        Returns->>= (Returns-load_le buf (cur + 0x08) 4 bytes (omega arith)) λ end_kb he.
          Returns-if (start_kb == 0xFFFFFFFF && leb 0x1F hlen)
            (λ ext.
              Returns->>= (Returns-load_le buf (cur + 0x0F) 8 bytes (ground arith)) λ ext_start hs'.
                Returns->>= (Returns-load_le buf (cur + 0x17) 8 bytes (ground arith))
                  λ ext_end he'. returns _ (ext_range-IsRange ext_start ext_end hs' he'))
            (λ _.
              Returns-if (not (start_kb == 0xFFFFFFFF))
                (λ _. returns _ (kb_range-IsRange start_kb end_kb hs he))
                (λ _. returns _ (λ pos. absurd (omega arith))))

  add_region-Returns :
      (cur hlen : ℕ) (m : MemoryInfo)
      → cur + hlen ≤ buf_end
      → 15 ≤ hlen
      → IsMemoryInfo m
      → m.region_count < memory_max_regions
      → Returns IsMemoryInfo (add_region buf cur hlen m)
  unfolding add_region
  add_region-Returns cur hlen m fits long w room =
      Returns->>= (region_range-Returns cur hlen fits long) λ range ok.
        Returns-if (ltb 0 range.1)
          (λ pos. Returns->>= (Returns-load_le buf (cur + 0x0C) 2 bytes (omega arith)) λ handle hh.
            Returns->>=
              (Returns-store m.regions m.region_count
                (record { base = range.0; length = range.1; type = handle }) (slot m w room))
              λ regions e. returns _ (stored m w room regions _ (ok (omega tests), omega arith) e))
          (λ _. returns m w)
    where
      slot :
          (m : MemoryInfo)
          → IsMemoryInfo m
          → m.region_count < memory_max_regions
          → m.region_count < length m.regions
      slot m w room = rw (w.slots) room

      stored :
          (m : MemoryInfo)
          → IsMemoryInfo m
          → m.region_count < memory_max_regions
          → (regions : List MemoryRegion) (r : MemoryRegion) → IsRegion r
          → regions ≡ set m.regions m.region_count r
          → IsMemoryInfo
              (record m { regions = regions; region_count = (m.region_count + 1) % 2 ^ 32 })
      stored m w room regions r p e =
          rw (e, next_count)
            (record {
              slots = length-set m.regions m.region_count r ∙ w.slots;
              count = room;
              taken = take-store IsRegion m.regions m.region_count r (slot m w room) w.taken p;
            })
        where
          next_count : (m.region_count + 1) % 2 ^ 32 ≡ suc m.region_count
          next_count = omega (arith, room)

  region_advance-TurnOk :
      (cur from : ℕ) (m : MemoryInfo) (next : Option ℕ)
      → cur ≤ from
      → IsNext buf from buf_end next
      → IsMemoryInfo m
      → TurnOk (λ _. IsMemoryInfo) IsMemoryInfo buf_end cur (region_advance cur m next)
  unfolding region_advance
  region_advance-TurnOk cur from m none le n w = w
  region_advance-TurnOk cur from m (some next) le n w = elim (Bool-cases (leb next cur)) [
    | inl back ↦ rw back w
    | inr ahead ↦
        let (lt, in_table) = IsNext-bounds n next refl in rw ahead (w, omega arith, in_table)
  ]

  region_turn-Returns :
      (cur : ℕ) (m : MemoryInfo)
      → IsMemoryInfo m
      → Returns
          (TurnOk (λ _. IsMemoryInfo) IsMemoryInfo buf_end cur)
          (region_turn buf buf_end cur m)
  unfolding region_turn
  region_turn-Returns cur m w =
      Returns-if (leb (cur + 4) buf_end && ltb m.region_count memory_max_regions)
        (λ more. Returns->>= (Returns-load_any buf cur (ground arith)) λ type _.
          Returns->>= (Returns-load_any buf (cur + 1) (ground arith)) λ hlen _.
            Returns-if (ltb hlen 4 || ltb buf_end (cur + hlen)) (λ _. returns _ w)
              (λ well.
                Returns-if (type == 127) (λ _. returns _ w)
                  (λ _.
                    Returns->>=
                      (Returns-if (type == 19 && leb 0x0F hlen)
                        (λ range.
                          add_region-Returns cur hlen m (ground arith) (ground arith) w
                            (ground arith))
                        (λ _. returns m w))
                      λ m' w'.
                        Returns->>=
                          (rw (region_next-next_structure buf cur hlen buf_end) (
                            next_structure-IsNext buf (cur + hlen) buf_end inside (ground arith) cur
                              hlen refl))
                          λ next n.
                            returns _
                              (region_advance-TurnOk cur (cur + hlen) m' next (omega arith) n w'))))
        (λ _. returns _ w)

collect_regions-Returns :
    (table : Option Bytes) (m : MemoryInfo)
    → ((raw : Bytes) → table ≡ some raw → All IsByte raw)
    → IsMemoryInfo m
    → Returns IsMemoryInfo (collect_regions_from_smbios table m)
unfolding collect_regions_from_smbios
collect_regions-Returns none m bytes w = returns m w
collect_regions-Returns (some raw) m bytes w =
    Returns-if (ltb (length raw) 8) (λ _. returns m w)
      (λ long. Returns->>= (Returns-load_le raw 4 4 (bytes raw refl) (omega tests)) λ header_len _.
        let table_end = if ltb (length raw) (8 + header_len) then length raw else 8 + header_len in
        scan-Returns (λ _. IsMemoryInfo) IsMemoryInfo table_end (region_turn raw table_end)
          (region_turn-Returns raw table_end (bytes raw refl) (ground arith)) _ 8 m (omega arith) w)

with_status-IsMemoryInfo :
    (status : Option MemoryStatus) → IsMemoryInfo (with_status status zero_info)
unfolding with_status
with_status-IsMemoryInfo none = record { slots = refl; count = omega arith; taken = tt }
with_status-IsMemoryInfo (some ms) = record { slots = refl; count = omega arith; taken = tt }

-- For every memory status and every table of bytes, `memory_info_collect` ends and accesses nothing
-- outside the table and the region array; it counts at most 32 regions, and each counted one is a
-- non-empty range inside the 64-bit address space.
pub memory_info_collect-Returns :
    (status : Option MemoryStatus) (table : Option Bytes)
    → ((raw : Bytes) → table ≡ some raw → All IsByte raw)
    → Returns (λ r. IsMemoryInfo r.0) (memory_info_collect status table)
unfolding memory_info_collect
memory_info_collect-Returns status table bytes =
    Returns->>=
      (collect_regions-Returns table (with_status status zero_info) bytes
        (with_status-IsMemoryInfo status))
      λ m w. returns _ w
