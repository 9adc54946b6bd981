-- ===== src/Smbios/Strings.antt =====
-- The string table of a structure (src/firmware/smbios.c): `smbios_get_string` and
-- `copy_string_field`.
pub mod Safety
pub mod Lookup
pub mod Copy
use hardware_monitor_azk.Base.{
  ℕ, zero, suc, ◌+◌, ◌-◌, ◌%◌, List, [], ◌∷◌, Option, none, some, ltb, leb, ◌==◌, if◌then◌else◌,
}
use hardware_monitor_azk.Buffer.{Run, done, ◌>>=◌, Bytes, load_bytes, store_bytes, strnlen}
use hardware_monitor_azk.Buffer.Loop.{Turn, again, stop, scan}

-- One round of `while (p < buf_end)`; the loop's variables are `p` and `current`, a uint8_t.
get_string_turn : Bytes → ℕ → ℕ → ℕ → ℕ → Run (Turn ℕ (Option ℕ))
get_string_turn buf buf_end index p current =
    if ltb p buf_end
    then (do
      let max_len = buf_end - p
      slen ← strnlen buf p max_len
      if slen == max_len
          then done (stop none)
          else if slen == 0
          then done (stop none)
          else if current == index
          then done (stop (some p))
          else done (again (p + (slen + 1)) ((current + 1) % 256)))
    else done (stop none)

-- `smbios_get_string`. A round moves `p` forward, so `buf_end - p` rounds and the last test suffice.
unfoldable pub get_string : Bytes → ℕ → ℕ → ℕ → ℕ → Run (Option ℕ)
unfolding get_string_turn
get_string buf struct_ptr formatted_len buf_end index =
    let p = struct_ptr + formatted_len in
    if index == 0
    then done none
    else scan (suc (buf_end - p)) (get_string_turn buf buf_end index) p 1

-- What `copy_string_field` does with the string that it found; `out` is already cleared.
copy_found : Bytes → ℕ → Bytes → ℕ → Option ℕ → Run Bytes
copy_found buf buf_end out out_size none = done out
copy_found buf buf_end out out_size (some s) = do
  let max_len = buf_end - s
  slen ← strnlen buf s max_len
  let n = if leb out_size slen then out_size - 1 else slen
  bytes ← load_bytes buf s n
  copied ← store_bytes out 0 bytes
  store_bytes copied n (0 ∷ [])

unfoldable pub copy_string_field : Bytes → ℕ → ℕ → ℕ → ℕ → Bytes → ℕ → Run Bytes
unfolding copy_found
copy_string_field buf struct_ptr formatted_len buf_end index out out_size = do
  cleared ← store_bytes out 0 (0 ∷ [])
  found ← get_string buf struct_ptr formatted_len buf_end index
  copy_found buf buf_end cleared out_size found
