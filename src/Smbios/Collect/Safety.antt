-- ===== src/Smbios/Collect/Safety.antt =====
-- `smbios_collect` on every buffer that the platform may hand over.
use hardware_monitor_azk.Base.{
  ℕ, ◌+◌, ◌^◌, ◌<◌, ◌∙◌, ◌≡◌, ◌≤◌, refl, arith, Bool, false, ◌||◌, Option, none, some, inl, inr,
  ltb, leb, ◌==◌, Bool-cases, tests, length, All,
}
use hardware_monitor_azk.Buffer.{Bytes, IsByte}
use hardware_monitor_azk.Buffer.Returns.{
  Returns, returns, Returns->>=, Returns-if, Returns-load_any, Returns-load-All, Returns-load_le,
}
use hardware_monitor_azk.Buffer.Loop.{TurnOk, scan-Returns}
use hardware_monitor_azk.Smbios.Types.{
  SmbiosData, IsSmbiosData, zero_data, zero_data-IsSmbiosData, SameCounts,
}
use hardware_monitor_azk.Smbios.Walk.Next.{IsNext, IsNext-bounds, next_structure-IsNext}
use hardware_monitor_azk.Smbios.Parse.Safety.{
  parse_bios-Returns, parse_system-Returns, parse_baseboard-Returns, parse_chassis-Returns,
}
use hardware_monitor_azk.Smbios.Device.Safety.{parse_memory_device-Returns}
use hardware_monitor_azk.Smbios.Collect.{
  parse_structure, advance, count_malformed, collect_turn, walk, collect, count_parsed, table_end,
  smbios_header_size,
}

-- Other versions and counters in their ranges.
pub with_counts :
    (d : SmbiosData) (major minor parsed malformed : ℕ) (available : Bool)
    → (major < 2 ^ 8) × (minor < 2 ^ 8) × (parsed < 2 ^ 32) × (malformed ≤ 1)
    → IsSmbiosData d
    → IsSmbiosData (record d {
      available = available;
      major_version = major;
      minor_version = minor;
      structures_parsed = parsed;
      structures_malformed_skipped = malformed;
    })
with_counts d major minor parsed malformed available ranges w = record {
  bios = w.bios;
  system = w.system;
  baseboard = w.baseboard;
  chassis = w.chassis;
  slots = w.slots;
  devices = w.devices;
  count = w.count;
  major = ranges.0;
  minor = ranges.1;
  parsed = ranges.2;
  malformed = ranges.3;
}

pub count_parsed-IsSmbiosData : (d : SmbiosData) → IsSmbiosData d → IsSmbiosData (count_parsed d)
count_parsed-IsSmbiosData d w =
    with_counts d _ _ _ _ _ (w.major, w.minor, omega arith, w.malformed) w

-- As long as the walk goes on, no structure was malformed.
abbrev Walking : SmbiosData → Type 0
Walking d = IsSmbiosData d × (d.structures_malformed_skipped ≡ 0)

count_malformed-IsSmbiosData : (d : SmbiosData) → Walking d → IsSmbiosData (count_malformed d)
count_malformed-IsSmbiosData d (w, none_yet) =
    with_counts d _ _ _ _ _ (w.major, w.minor, w.parsed, omega (arith, none_yet)) w

module _ (buf : Bytes) (buf_end : ℕ) (bytes : All IsByte buf) (inside : buf_end ≤ length buf) where
  pub parse_structure-Returns :
      (cur hlen type : ℕ) (d : SmbiosData)
      → cur + hlen ≤ buf_end
      → IsSmbiosData d
      → Returns
          (λ d'. IsSmbiosData d' × SameCounts d d')
          (parse_structure buf cur hlen buf_end type d)
  unfolding parse_structure
  parse_structure-Returns cur hlen type d fits w =
      Returns-if (type == 0)
        (λ _.
          Returns->>= (parse_bios-Returns buf cur hlen buf_end bytes inside fits d.bios w.bios)
            λ b l. returns _ (
              record {
                bios = l;
                system = w.system;
                baseboard = w.baseboard;
                chassis = w.chassis;
                slots = w.slots;
                devices = w.devices;
                count = w.count;
                major = w.major;
                minor = w.minor;
                parsed = w.parsed;
                malformed = w.malformed;
              },
              (refl, refl),
            ))
        (λ _.
          Returns-if (type == 1)
            (λ _.
              Returns->>=
                (parse_system-Returns buf cur hlen buf_end bytes inside fits d.major_version
                  d.minor_version d.system w.system)
                λ b l. returns _ (
                  record {
                    bios = w.bios;
                    system = l;
                    baseboard = w.baseboard;
                    chassis = w.chassis;
                    slots = w.slots;
                    devices = w.devices;
                    count = w.count;
                    major = w.major;
                    minor = w.minor;
                    parsed = w.parsed;
                    malformed = w.malformed;
                  },
                  (refl, refl),
                ))
            (λ _.
              Returns-if (type == 2)
                (λ _.
                  Returns->>=
                    (parse_baseboard-Returns buf cur hlen buf_end bytes inside fits d.baseboard
                      w.baseboard)
                    λ b l. returns _ (
                      record {
                        bios = w.bios;
                        system = w.system;
                        baseboard = l;
                        chassis = w.chassis;
                        slots = w.slots;
                        devices = w.devices;
                        count = w.count;
                        major = w.major;
                        minor = w.minor;
                        parsed = w.parsed;
                        malformed = w.malformed;
                      },
                      (refl, refl),
                    ))
                (λ _.
                  Returns-if (type == 3)
                    (λ _.
                      Returns->>=
                        (parse_chassis-Returns buf cur hlen buf_end bytes inside fits d.chassis
                          w.chassis)
                        λ b l. returns _ (
                          record {
                            bios = w.bios;
                            system = w.system;
                            baseboard = w.baseboard;
                            chassis = l;
                            slots = w.slots;
                            devices = w.devices;
                            count = w.count;
                            major = w.major;
                            minor = w.minor;
                            parsed = w.parsed;
                            malformed = w.malformed;
                          },
                          (refl, refl),
                        ))
                    (λ _.
                      Returns-if (type == 17)
                        (λ _.
                          parse_memory_device-Returns buf cur hlen buf_end bytes inside fits d w)
                        (λ _. returns d (w, (refl, refl)))))))

  advance-TurnOk :
      (cur from : ℕ) (d : SmbiosData) (next : Option ℕ)
      → cur ≤ from
      → IsNext buf from buf_end next
      → Walking d
      → TurnOk (λ _. Walking) IsSmbiosData buf_end cur (advance cur d next)
  unfolding advance
  advance-TurnOk cur from d none le n w = count_malformed-IsSmbiosData d w
  advance-TurnOk cur from d (some next) le n w = elim (Bool-cases (leb next cur)) [
    | inl back ↦ rw back (count_malformed-IsSmbiosData d w)
    | inr ahead ↦
        let (lt, in_table) = IsNext-bounds n next refl in rw ahead (w, omega arith, in_table)
  ]

  collect_turn-Returns :
      (cur : ℕ) (d : SmbiosData)
      → Walking d
      → Returns (TurnOk (λ _. Walking) IsSmbiosData buf_end cur) (collect_turn buf buf_end cur d)
  unfolding collect_turn
  collect_turn-Returns cur d w =
      Returns-if (leb (cur + 4) buf_end)
        (λ more. Returns->>= (Returns-load_any buf cur (omega tests)) λ type _.
          Returns->>= (Returns-load_any buf (cur + 1) (omega tests)) λ hlen _.
            Returns-if (ltb hlen 4 || ltb buf_end (cur + hlen))
              (λ _. returns _ (count_malformed-IsSmbiosData d w))
              (λ well.
                Returns-if (type == 127) (λ _. returns _ w.0)
                  (λ _.
                    Returns->>= (parse_structure-Returns cur hlen type d (ground arith) w.0)
                      λ parsed keep.
                        Returns->>=
                          (next_structure-IsNext buf (cur + hlen) buf_end inside (ground arith) cur
                            hlen refl)
                          λ next n. returns _ (
                            advance-TurnOk cur (cur + hlen) (count_parsed parsed) next (omega arith)
                              n (count_parsed-IsSmbiosData parsed keep.0, keep.1.1 ∙ w.1)))))
        (λ _. returns _ w.0)

  walk-Returns :
      (cur : ℕ) (d : SmbiosData) → Walking d → Returns IsSmbiosData (walk buf buf_end cur d)
  unfolding walk
  walk-Returns cur d w =
      scan-Returns (λ _. Walking) IsSmbiosData buf_end (collect_turn buf buf_end)
        collect_turn-Returns _ cur d (omega arith) w

abbrev pub IsCollected : Option SmbiosData → Type 0
IsCollected none = Unit
IsCollected (some d) = IsSmbiosData d

-- For every buffer of bytes, `smbios_collect` ends, accesses nothing outside the buffer, its string
-- arrays or its device array, and returns a well-formed record or none. Well-formed means: every
-- string is terminated in its array; both version numbers and each memory type are below 2^8, the
-- speeds below 2^16, the sizes below 2^31, the chassis type below 2^7 and the count of parsed
-- structures below 2^32; at most 64 memory devices and at most one malformed structure are counted.
pub collect-Returns : (raw : Bytes) → All IsByte raw → Returns IsCollected (collect (some raw))
unfolding collect
collect-Returns raw bytes =
    Returns-if (ltb (length raw) smbios_header_size) (λ _. returns none tt)
      (λ long. Returns->>= (Returns-load-All IsByte raw 1 bytes (omega tests)) λ major lt.
        Returns->>= (Returns-load-All IsByte raw 2 bytes (omega tests)) λ minor lt'.
          Returns->>= (Returns-load_le raw 4 4 bytes (omega tests)) λ table_len _.
            Returns->>=
              (walk-Returns raw (table_end (length raw) table_len) bytes (ground arith)
                smbios_header_size _
                (
                  with_counts zero_data major minor _ _ false (lt, lt', omega arith, omega arith)
                      zero_data-IsSmbiosData,
                  refl,
                ))
              λ walked w.
                returns _
                  (with_counts walked _ _ _ _ _ (w.major, w.minor, w.parsed, w.malformed) w))
