-- ===== src/Smbios/Device/Safety.antt =====
-- `parse_memory_device` ends, stays inside its buffers and keeps the record well formed.
use hardware_monitor_azk.Smbios.Parse.{field_ok}
use hardware_monitor_azk.Base.{
  ℕ, zero, suc, ◌+◌, ◌^◌, ◌≤◌, ◌<◌, ◌≡◌, ◌∙◌, arith, Bool, true, ◌&&◌, leb, ◌==◌, low_bits, tests,
  length, All, length-set, All-set, refl,
}
use hardware_monitor_azk.Buffer.{Bytes, IsByte}
use hardware_monitor_azk.Buffer.Returns.{
  Returns, returns, Returns->>=, Returns-if, Returns-load_le, Returns-store,
}
use native.Mathlib.Nat.{pow-suc}
use hardware_monitor_azk.Smbios.Types.{
  SmbiosData, IsMemoryDevice, IsSmbiosData, zero_memory_device-IsMemoryDevice,
  smbios_max_memory_devices, SameCounts,
}
use hardware_monitor_azk.Smbios.Parse.Safety.{copy_field-Returns}
use hardware_monitor_azk.Smbios.Device.{memory_size, load_field, read_device, parse_memory_device}

load_field-Returns :
    (ok : Bool) (buf : Bytes) (p n : ℕ)
    → All IsByte buf
    → (ok ≡ true → p + n ≤ length buf)
    → Returns (λ v. v < 256 ^ n) (load_field ok buf p n)
unfolding load_field
load_field-Returns ok buf p n bytes h =
    Returns-if ok (λ t. Returns-load_le buf p n bytes (h t)) (λ _. returns 0 (positive n))
  where
    positive : (n : ℕ) → 0 < 256 ^ n
    positive zero = omega arith
    positive (suc n) = omega (arith, pow-suc 256 n, positive n)

module _ (buf : Bytes) (s hlen buf_end : ℕ) (bytes : All IsByte buf) (inside : buf_end ≤ length buf)
    (formatted : s + hlen ≤ buf_end) where
  memory_size-Returns :
      (size_word : ℕ)
      → size_word < 256 ^ 2
      → Returns (λ r. r.1 < 2 ^ 31) (memory_size buf s hlen size_word)
  unfolding memory_size
  memory_size-Returns size_word h =
      Returns-if (size_word == 0) (λ _. returns _ (omega arith))
        (λ _.
          Returns-if (size_word == 0xFFFF) (λ _. returns _ (omega arith))
            (λ _.
              Returns-if (low_bits size_word 15 == 0x7FFF && leb 0x20 hlen)
                (λ ext.
                  Returns->>= (Returns-load_le buf (s + 0x1C) 4 bytes (ground arith))
                    λ v lt. returns _ (omega arith))
                (λ _. returns _ (ground arith))))

  read_device-Returns : Returns IsMemoryDevice (read_device buf s hlen buf_end)
  unfolding read_device
  read_device-Returns =
      let z = zero_memory_device-IsMemoryDevice in
      let copy = copy_field-Returns buf s hlen buf_end bytes inside formatted in
      Returns->>=
        (load_field-Returns (field_ok hlen 0x0D) buf (s + 0x0C) 2 bytes (λ t. omega tests))
        λ word w. Returns->>= (memory_size-Returns word w) λ size lt.
          Returns->>=
            (load_field-Returns (field_ok hlen 0x12) buf (s + 0x12) 1 bytes (λ t. omega tests))
            λ kind lt0.
              Returns->>=
                (load_field-Returns (leb 0x17 hlen) buf (s + 0x15) 2 bytes (λ t. omega tests))
                λ speed lt1.
                  Returns->>=
                    (load_field-Returns (leb 0x26 hlen) buf (s + 0x24) 2 bytes (λ t. omega tests))
                    λ cspeed lt2.
                      Returns->>= (copy (field_ok hlen 0x10) 0x10 _ (λ t. omega tests) z.locator)
                        λ f1 l1.
                          Returns->>=
                            (copy (leb 0x18 hlen) 0x17 _ (λ t. omega tests) z.manufacturer)
                            λ f2 l2.
                              Returns->>= (copy (leb 0x19 hlen) 0x18 _ (λ t. omega tests) z.serial)
                                λ f3 l3.
                                  Returns->>=
                                    (copy (leb 0x1B hlen) 0x1A _ (λ t. omega tests) z.part_number)
                                    λ f4 l4. returns _ (record {
                                      size_mb = lt;
                                      speed_mts = omega arith;
                                      configured_speed_mts = omega arith;
                                      memory_type = omega arith;
                                      manufacturer = l2;
                                      part_number = l4;
                                      serial = l3;
                                      locator = l1;
                                    })

  -- A device is added as long as a slot is free.
  pub parse_memory_device-Returns :
      (d : SmbiosData)
      → IsSmbiosData d
      → Returns (λ d'. IsSmbiosData d' × SameCounts d d') (parse_memory_device buf s hlen buf_end d)
  unfolding parse_memory_device
  parse_memory_device-Returns d w =
      Returns-if (leb smbios_max_memory_devices d.memory_device_count)
        (λ _. returns d (w, (refl, refl)))
        (λ free. Returns->>= read_device-Returns λ m lm.
          Returns->>=
            (Returns-store d.memory_devices d.memory_device_count m (omega (tests, w.slots)))
            λ ms e. returns _ (
              record {
                bios = w.bios;
                system = w.system;
                baseboard = w.baseboard;
                chassis = w.chassis;
                slots = rw e (length-set d.memory_devices _ m ∙ w.slots);
                devices = rw e (All-set IsMemoryDevice d.memory_devices _ m w.devices lm);
                count = omega tests;
                major = w.major;
                minor = w.minor;
                parsed = w.parsed;
                malformed = w.malformed;
              },
              (refl, refl),
            ))
