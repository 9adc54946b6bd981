-- ===== src/Smbios/Device.antt =====
-- The memory device parser of src/firmware/smbios.c, `parse_memory_device`.
pub mod Safety
pub mod Size
use hardware_monitor_azk.Base.{
  ℕ, zero, suc, ◌+◌, ◌-◌, ◌*◌, ◌/◌, ◌%◌, ◌^◌, ◌≤◌, ◌<◌, ◌≡◌, ◌≢◌, ◌↔◌, refl, sym, ap, ◌∙◌, arith,
  Bool, true, false, not, ◌&&◌, ◌||◌, List, [], ◌∷◌, ◌++◌, map, Option, none, some, ◌⊎◌, inl, inr,
  ltb, leb, ◌==◌, if◌then◌else◌, bit, low_bits, Bool-cases, tests, length, take, drop, set,
  replicate, get_elem?, All,
}
use hardware_monitor_azk.Buffer.{
  Run, done, fault, stuck, ◌>>=◌, Bytes, IsByte, load, store, load_le, load_bytes, store_bytes,
  strnlen,
}
use hardware_monitor_azk.Smbios.Types.{
  SmbiosMemoryDevice, SmbiosData, smbios_max_memory_devices, zero_memory_device,
}
use hardware_monitor_azk.Smbios.Parse.{field_ok, copy_field}

-- `populated` and `size_mb` for a size word, which the extended size overrides at 0x7FFF.
unfoldable pub memory_size : Bytes → ℕ → ℕ → ℕ → Run (Bool × ℕ)
memory_size buf s hlen size_word =
    if size_word == 0
    then done (false, 0)
    else if size_word == 0xFFFF
    then done (true, 0)
    else (let is_kb = bit size_word 15 in
        let raw = low_bits size_word 15 in
        let size_mb = if is_kb then raw / 1024 else raw in
        if raw == 0x7FFF && leb 0x20 hlen
        then (load_le buf (s + 0x1C) 4 >>= λ ext. done (true, low_bits ext 31))
        else done (true, size_mb))

-- An integer field of `n` bytes at offset `off`, or 0 where the structure is too short for it.
load_field : Bool → Bytes → ℕ → ℕ → Run ℕ
load_field ok buf p n = if ok then load_le buf p n else done 0

-- The structure's fields, in a device that was cleared.
unfoldable pub read_device : Bytes → ℕ → ℕ → ℕ → Run SmbiosMemoryDevice
unfolding load_field copy_field
read_device buf s hlen buf_end = do
  let m = zero_memory_device
  size_word ← load_field (field_ok hlen 0x0D) buf (s + 0x0C) 2
  size ← memory_size buf s hlen size_word
  memory_type ← load_field (field_ok hlen 0x12) buf (s + 0x12) 1
  speed ← load_field (leb 0x17 hlen) buf (s + 0x15) 2
  cspeed ← load_field (leb 0x26 hlen) buf (s + 0x24) 2
  locator ← copy_field (field_ok hlen 0x10) buf s hlen buf_end 0x10 m.locator
  manufacturer ← copy_field (leb 0x18 hlen) buf s hlen buf_end 0x17 m.manufacturer
  serial ← copy_field (leb 0x19 hlen) buf s hlen buf_end 0x18 m.serial
  part_number ← copy_field (leb 0x1B hlen) buf s hlen buf_end 0x1A m.part_number
  done (record {
    populated = size.0;
    size_mb = size.1;
    speed_mts = speed;
    configured_speed_mts = cspeed;
    memory_type = memory_type;
    manufacturer = manufacturer;
    part_number = part_number;
    serial = serial;
    locator = locator;
  })

-- A full table of devices is left as it is.
unfoldable pub parse_memory_device : Bytes → ℕ → ℕ → ℕ → SmbiosData → Run SmbiosData
parse_memory_device buf s hlen buf_end d =
    if leb smbios_max_memory_devices d.memory_device_count then done d else (do
      m ← read_device buf s hlen buf_end
      devices ← store d.memory_devices d.memory_device_count m
      done (record d {
        memory_devices = devices;
        memory_device_count = (d.memory_device_count + 1) % 2 ^ 32;
      }))
