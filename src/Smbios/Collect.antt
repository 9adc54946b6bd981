-- ===== src/Smbios/Collect.antt =====
-- The walk over the table (src/firmware/smbios.c, `smbios_collect`).
pub mod Safety
pub mod Table
pub mod Complete
use hardware_monitor_azk.Base.{
  ℕ, zero, suc, ◌+◌, ◌-◌, ◌*◌, ◌/◌, ◌%◌, ◌^◌, ◌≤◌, ◌<◌, ◌≡◌, ◌≢◌, ◌↔◌, refl, sym, ap, ◌∙◌, arith,
  Bool, true, false, not, ◌&&◌, ◌||◌, List, [], ◌∷◌, ◌++◌, map, Option, none, some, ◌⊎◌, inl, inr,
  ltb, leb, ◌==◌, if◌then◌else◌, bit, low_bits, Bool-cases, tests, length, take, drop, set,
  replicate, get_elem?, All,
}
use hardware_monitor_azk.Buffer.{
  Run, done, fault, stuck, ◌>>=◌, Bytes, IsByte, load, store, load_le, load_bytes, store_bytes,
  strnlen,
}
use hardware_monitor_azk.Buffer.Loop.{Turn, again, stop, scan}
use hardware_monitor_azk.Smbios.Types.{SmbiosData, zero_data}
use hardware_monitor_azk.Smbios.Walk.{next_structure}
use hardware_monitor_azk.Smbios.Parse.{parse_bios, parse_system, parse_baseboard, parse_chassis}
use hardware_monitor_azk.Smbios.Device.{parse_memory_device}

-- `sizeof(RawSmbiosHeader) - 1`, which is also the offset of `table_data`.
abbrev pub smbios_header_size : ℕ
smbios_header_size = 8

-- The `switch (type)`.
unfoldable pub parse_structure : Bytes → ℕ → ℕ → ℕ → ℕ → SmbiosData → Run SmbiosData
parse_structure buf cur hlen buf_end type out =
    if type == 0
    then (parse_bios buf cur hlen buf_end out.bios >>= λ b. done (record out { bios = b }))
    else if type == 1
    then (parse_system buf cur hlen buf_end out.major_version out.minor_version out.system >>= λ s.
        done (record out { system = s }))
    else if type == 2
    then (parse_baseboard buf cur hlen buf_end out.baseboard >>= λ b.
        done (record out { baseboard = b }))
    else if type == 3
    then (parse_chassis buf cur hlen buf_end out.chassis >>= λ c. done (record out { chassis = c }))
    else if type == 17
    then parse_memory_device buf cur hlen buf_end out
    else done out

abbrev pub count_parsed : SmbiosData → SmbiosData
count_parsed d = record d { structures_parsed = (d.structures_parsed + 1) % 2 ^ 32 }

abbrev pub count_malformed : SmbiosData → SmbiosData
count_malformed d = record d {
  structures_malformed_skipped = (d.structures_malformed_skipped + 1) % 2 ^ 32;
}

-- The end of a round: `if (!next || next <= cur)`.
advance : ℕ → SmbiosData → Option ℕ → Turn SmbiosData SmbiosData
advance cur out none = stop (count_malformed out)
advance cur out (some next) = if leb next cur then stop (count_malformed out) else again next out

-- One round of `while (cur + 4 <= end)`.
collect_turn : Bytes → ℕ → ℕ → SmbiosData → Run (Turn SmbiosData SmbiosData)
unfolding advance
collect_turn buf buf_end cur out =
    if leb (cur + 4) buf_end
    then (do
      type ← load buf cur
      hlen ← load buf (cur + 1)
      if ltb hlen 4 || ltb buf_end (cur + hlen)
          then done (stop (count_malformed out))
          else if type == 127
          then done (stop out)
          else (do
            parsed ← parse_structure buf cur hlen buf_end type out
            next ← next_structure buf cur hlen buf_end
            done (advance cur (count_parsed parsed) next)))
    else done (stop out)

-- The table ends where the header says, or with the buffer if that comes first.
abbrev pub table_end : ℕ → ℕ → ℕ
table_end raw_size table_len =
    if ltb raw_size (smbios_header_size + table_len)
    then raw_size
    else smbios_header_size + table_len

-- The rounds from `cur` on; each moves `cur` forward.
unfoldable pub walk : Bytes → ℕ → ℕ → SmbiosData → Run SmbiosData
unfolding collect_turn
walk buf buf_end cur out = scan (suc (buf_end - cur)) (collect_turn buf buf_end) cur out

-- `smbios_collect` on what `platform_get_smbios_table` gave; `none` is the result `false`, and
-- `*out` is then what `memset` left.
unfoldable pub collect : Option Bytes → Run (Option SmbiosData)
collect none = done none
collect (some raw) = if ltb (length raw) smbios_header_size then done none else (do
  major ← load raw 1
  minor ← load raw 2
  table_len ← load_le raw 4 4
  let out = record zero_data { major_version = major; minor_version = minor }
  walked ← walk raw (table_end (length raw) table_len) smbios_header_size out
  done (some (record walked { available = ltb 0 walked.structures_parsed })))
