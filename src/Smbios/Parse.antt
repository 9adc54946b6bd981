-- ===== src/Smbios/Parse.antt =====
-- The structure parsers of src/firmware/smbios.c. A pointer `s` is an offset into the buffer.
pub mod Safety
pub mod Texts
use hardware_monitor_azk.Base.{
  ℕ, zero, suc, ◌+◌, ◌-◌, ◌*◌, ◌/◌, ◌%◌, ◌^◌, ◌≤◌, ◌<◌, ◌≡◌, ◌≢◌, ◌↔◌, refl, sym, ap, ◌∙◌, arith,
  Bool, true, false, not, ◌&&◌, ◌||◌, List, [], ◌∷◌, ◌++◌, map, Option, none, some, ◌⊎◌, inl, inr,
  ltb, leb, ◌==◌, if◌then◌else◌, bit, low_bits, Bool-cases, tests, length, take, drop, set,
  replicate, get_elem?, All,
}
use hardware_monitor_azk.Buffer.{
  Run, done, fault, stuck, ◌>>=◌, Bytes, IsByte, load, store, load_le, load_bytes, store_bytes,
  strnlen,
}
use hardware_monitor_azk.Smbios.Types.{
  SmbiosBiosInfo, SmbiosSystemInfo, SmbiosBaseboardInfo, SmbiosChassisInfo, SmbiosMemoryDevice,
  SmbiosData, smbios_str_max, smbios_max_memory_devices, zero_memory_device,
}
use hardware_monitor_azk.Smbios.Strings.{copy_string_field}

-- `FIELD_OK(hlen, off)`
abbrev pub field_ok : ℕ → ℕ → Bool
field_ok hlen off = ltb off hlen

-- `if (ok) copy_string_field(s, hlen, end, s[off], out, sizeof(out));` for a `char out[64]`
unfoldable pub copy_field : Bool → Bytes → ℕ → ℕ → ℕ → ℕ → Bytes → Run Bytes
copy_field ok buf s hlen buf_end off out =
    if ok
    then (load buf (s + off) >>= λ index.
        copy_string_field buf s hlen buf_end index out smbios_str_max)
    else done out

unfoldable pub parse_bios : Bytes → ℕ → ℕ → ℕ → SmbiosBiosInfo → Run SmbiosBiosInfo
unfolding copy_field
parse_bios buf s hlen buf_end out = do
  vendor ← copy_field (field_ok hlen 0x04) buf s hlen buf_end 0x04 out.vendor
  version ← copy_field (field_ok hlen 0x05) buf s hlen buf_end 0x05 out.version
  release_date ← copy_field (field_ok hlen 0x08) buf s hlen buf_end 0x08 out.release_date
  done
      (record { available = true; vendor = vendor; version = version; release_date = release_date })

-- `%X` of a digit, and `%02X` of a byte.
hex_digit : ℕ → ℕ
hex_digit d = if ltb d 10 then b'0' + d else b'A' + (d - 10)

hex_byte : ℕ → Bytes → Bytes
unfolding hex_digit
hex_byte b rest = hex_digit (b / 16) ∷ hex_digit (b % 16) ∷ rest

-- `u[i]` for each index of a list, printed, with `rest` behind them.
hex_bytes : Bytes → ℕ → List ℕ → Bytes → Run Bytes
unfolding hex_byte
hex_bytes buf u [] rest = done rest
hex_bytes buf u (i ∷ is) rest = do
  b ← load buf (u + i)
  tail ← hex_bytes buf u is rest
  done (hex_byte b tail)

-- The groups of "%02X%02X%02X%02X-%02X%02X-…", in the order of the arguments, and the NUL.
uuid_groups : Bytes → ℕ → List ℕ → List ℕ → List ℕ → Run Bytes
unfolding hex_bytes
uuid_groups buf u time_low time_mid time_hi = do
  node ← hex_bytes buf u (10 ∷ 11 ∷ 12 ∷ 13 ∷ 14 ∷ 15 ∷ []) (0 ∷ [])
  clock ← hex_bytes buf u (8 ∷ 9 ∷ []) (b'-' ∷ node)
  hi ← hex_bytes buf u time_hi (b'-' ∷ clock)
  mid ← hex_bytes buf u time_mid (b'-' ∷ hi)
  hex_bytes buf u time_low (b'-' ∷ mid)

-- The output has 37 bytes, so `snprintf` fills the array.
unfoldable pub format_uuid : Bytes → ℕ → ℕ → ℕ → Run Bytes
unfolding uuid_groups
format_uuid buf u major minor =
    let little_endian_layout = ltb 2 major || (major == 2 && leb 6 minor) in
    if little_endian_layout
    then uuid_groups buf u (3 ∷ 2 ∷ 1 ∷ 0 ∷ []) (5 ∷ 4 ∷ []) (7 ∷ 6 ∷ [])
    else uuid_groups buf u (0 ∷ 1 ∷ 2 ∷ 3 ∷ []) (4 ∷ 5 ∷ []) (6 ∷ 7 ∷ [])

-- The `if (hlen >= 0x18)` at the end of `parse_system`.
system_uuid : Bytes → ℕ → ℕ → ℕ → ℕ → SmbiosSystemInfo → Run SmbiosSystemInfo
system_uuid buf s hlen major minor out =
    if leb 0x18 hlen
    then (format_uuid buf (s + 0x08) major minor >>= λ uuid.
        done (record out { uuid = uuid; uuid_available = true }))
    else done out

unfoldable pub parse_system : Bytes → ℕ → ℕ → ℕ → ℕ → ℕ → SmbiosSystemInfo → Run SmbiosSystemInfo
unfolding copy_field system_uuid
parse_system buf s hlen buf_end major minor out = do
  manufacturer ← copy_field (field_ok hlen 0x04) buf s hlen buf_end 0x04 out.manufacturer
  product ← copy_field (field_ok hlen 0x05) buf s hlen buf_end 0x05 out.product
  version ← copy_field (field_ok hlen 0x06) buf s hlen buf_end 0x06 out.version
  serial ← copy_field (field_ok hlen 0x07) buf s hlen buf_end 0x07 out.serial
  let named = record out {
    available = true;
    manufacturer = manufacturer;
    product = product;
    version = version;
    serial = serial;
  }
  system_uuid buf s hlen major minor named

unfoldable pub parse_baseboard : Bytes → ℕ → ℕ → ℕ → SmbiosBaseboardInfo → Run SmbiosBaseboardInfo
unfolding copy_field
parse_baseboard buf s hlen buf_end out = do
  manufacturer ← copy_field (field_ok hlen 0x04) buf s hlen buf_end 0x04 out.manufacturer
  product ← copy_field (field_ok hlen 0x05) buf s hlen buf_end 0x05 out.product
  version ← copy_field (field_ok hlen 0x06) buf s hlen buf_end 0x06 out.version
  serial ← copy_field (field_ok hlen 0x07) buf s hlen buf_end 0x07 out.serial
  done (record {
    available = true;
    manufacturer = manufacturer;
    product = product;
    version = version;
    serial = serial;
  })

unfoldable pub parse_chassis : Bytes → ℕ → ℕ → ℕ → SmbiosChassisInfo → Run SmbiosChassisInfo
unfolding copy_field
parse_chassis buf s hlen buf_end out = do
  manufacturer ← copy_field (field_ok hlen 0x04) buf s hlen buf_end 0x04 out.manufacturer
  chassis_type ←
      if field_ok hlen 0x05
      then (load buf (s + 0x05) >>= λ t. done (low_bits t 7))
      else done out.chassis_type
  serial ← copy_field (field_ok hlen 0x07) buf s hlen buf_end 0x07 out.serial
  done (record {
    available = true;
    chassis_type = chassis_type;
    manufacturer = manufacturer;
    serial = serial;
  })
