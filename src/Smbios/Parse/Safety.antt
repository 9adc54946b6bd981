-- ===== src/Smbios/Parse/Safety.antt =====
-- The structure parsers end, stay inside the buffer, and keep the record well formed, on every
-- structure whose formatted area lies inside the buffer.
use hardware_monitor_azk.Base.{
  ℕ, suc, ◌+◌, ◌/◌, ◌%◌, ◌≤◌, ◌<◌, ◌≡◌, ◌≢◌, refl, arith, Bool, true, ◌&&◌, ◌||◌, List, [], ◌∷◌,
  ltb, leb, ◌==◌, if◌then◌else◌, low_bits, tests, length, All, ltb→lt,
}
use hardware_monitor_azk.Buffer.{done, ◌>>=◌, Bytes, IsByte, load}
use hardware_monitor_azk.Buffer.Returns.{
  Returns, returns, Returns->>=, Returns-if, Returns-load, Returns-mono,
}
use mathlib.Core.Path.{subst}
use hardware_monitor_azk.Buffer.Text.{text_of}
use hardware_monitor_azk.Smbios.Types.{
  SmbiosBiosInfo, SmbiosSystemInfo, SmbiosBaseboardInfo, SmbiosChassisInfo, smbios_str_max, IsField,
  IsBios, IsSystem, IsBaseboard, IsChassis,
}
use hardware_monitor_azk.Smbios.Strings.Safety.{copy_string_field-Returns}
use hardware_monitor_azk.Smbios.Parse.{
  field_ok, copy_field, parse_bios, parse_system, parse_baseboard, parse_chassis, hex_digit,
  hex_byte, hex_bytes, uuid_groups, format_uuid, system_uuid,
}

-- `n` characters and a NUL.
abbrev IsLine : ℕ → Bytes → Type 0
IsLine n r = (length r ≡ suc n) × (length (text_of r) ≡ n)

hex_digit-ne-zero : (d : ℕ) → hex_digit d ≢ 0
unfolding hex_digit
hex_digit-ne-zero d e = ground arith

cons-IsLine : (c n : ℕ) (r : Bytes) → c ≢ 0 → IsLine n r → IsLine (suc n) (c ∷ r)
unfolding text_of
cons-IsLine c n r ne h = ground arith

hex_byte-IsLine : (b n : ℕ) (r : Bytes) → IsLine n r → IsLine (suc (suc n)) (hex_byte b r)
unfolding hex_byte
hex_byte-IsLine b n r h =
    cons-IsLine _ _ _ (hex_digit-ne-zero (b / 16))
      (cons-IsLine _ _ _ (hex_digit-ne-zero (b % 16)) h)

module _ (buf : Bytes) (u : ℕ) (uuid_inside : u + 16 ≤ length buf) where
  hex_bytes-Returns :
      (is : List ℕ) (n : ℕ) (rest : Bytes)
      → All (λ i. i < 16) is
      → IsLine n rest
      → Returns (IsLine (length is + length is + n)) (hex_bytes buf u is rest)
  unfolding hex_bytes
  hex_bytes-Returns [] n rest h l = returns rest (omega arith)
  hex_bytes-Returns (i ∷ is) n rest h l =
      Returns->>= (Returns-load buf (u + i) (omega (arith, h.0))) λ b e.
        Returns->>= (hex_bytes-Returns is n rest h.1 l)
          λ tail t. returns _ (omega (arith, hex_byte-IsLine b _ tail t))

  uuid_groups-Returns :
      (low mid hi : List ℕ)
      → All (λ i. i < 16) low × (length low ≡ 4)
      → All (λ i. i < 16) mid × (length mid ≡ 2)
      → All (λ i. i < 16) hi × (length hi ≡ 2)
      → Returns (IsLine 36) (uuid_groups buf u low mid hi)
  unfolding uuid_groups
  uuid_groups-Returns low mid hi hl hm hh =
      Returns->>=
        (hex_bytes-Returns (10 ∷ 11 ∷ 12 ∷ 13 ∷ 14 ∷ 15 ∷ []) 0 (0 ∷ []) (omega arith) end_line)
        λ node l1.
          Returns->>= (hex_bytes-Returns (8 ∷ 9 ∷ []) 13 _ (omega arith) (dash 12 _ l1)) λ clock l2.
            Returns->>= (hex_bytes-Returns hi 18 _ hh.0 (dash 17 _ l2)) λ r3 l3.
              Returns->>= (hex_bytes-Returns mid 23 _ hm.0 (dash 22 _ (sized 18 _ hi hh.1 l3)))
                λ r4 l4.
                  Returns-mono
                    (hex_bytes-Returns low 28 _ hl.0 (dash 27 _ (sized 23 _ mid hm.1 l4)))
                    λ r5 l5. sized 28 _ low hl.1 l5
    where
      end_line : IsLine 0 (0 ∷ [])
      end_line = (refl, unfold text_of in refl)

      dash : (n : ℕ) (r : Bytes) → IsLine n r → IsLine (suc n) (b'-' ∷ r)
      dash n r l = cons-IsLine b'-' n r (omega arith) l

      sized :
          {k : ℕ} (n : ℕ) (r : Bytes) (is : List ℕ)
          → length is ≡ k
          → IsLine (length is + length is + n) r
          → IsLine (k + k + n) r
      sized n r is e l = subst (λ (k : ℕ). IsLine (k + k + n) r) e l

  format_uuid-Returns : (major minor : ℕ) → Returns (IsField 37) (format_uuid buf u major minor)
  unfolding format_uuid
  format_uuid-Returns major minor =
      Returns-if (ltb 2 major || (major == 2 && leb 6 minor))
        (λ _.
          Returns-mono
            (uuid_groups-Returns (3 ∷ 2 ∷ 1 ∷ 0 ∷ []) (5 ∷ 4 ∷ []) (7 ∷ 6 ∷ []) (omega arith)
              (omega arith) (omega arith))
            line-IsField)
        (λ _.
          Returns-mono
            (uuid_groups-Returns (0 ∷ 1 ∷ 2 ∷ 3 ∷ []) (4 ∷ 5 ∷ []) (6 ∷ 7 ∷ []) (omega arith)
              (omega arith) (omega arith))
            line-IsField)
    where
      line-IsField : (r : Bytes) → IsLine 36 r → IsField 37 r
      line-IsField r l = record { size = l.0; terminated = omega arith }

module _ (buf : Bytes) (s hlen buf_end : ℕ) (bytes : All IsByte buf) (inside : buf_end ≤ length buf)
    (formatted : s + hlen ≤ buf_end) where
  pub copy_field-Returns :
      (ok : Bool) (off : ℕ) (out : Bytes)
      → (ok ≡ true → off < hlen)
      → IsField smbios_str_max out
      → Returns (IsField smbios_str_max) (copy_field ok buf s hlen buf_end off out)
  unfolding copy_field
  copy_field-Returns ok off out inside_area f =
      Returns-if ok
        (λ yes_ok.
          Returns->>= (Returns-load buf (s + off) (omega (arith, inside_area yes_ok))) λ index e.
            copy_string_field-Returns buf (s + hlen) buf_end bytes inside s hlen index out
              smbios_str_max (omega arith) (omega arith) f.size)
        (λ _. returns out f)

  pub parse_bios-Returns :
      (b : SmbiosBiosInfo) → IsBios b → Returns IsBios (parse_bios buf s hlen buf_end b)
  unfolding parse_bios
  parse_bios-Returns b w =
      Returns->>= (copy_field-Returns _ 0x04 b.vendor (ltb→lt _ _) w.vendor) λ vendor f1.
        Returns->>= (copy_field-Returns _ 0x05 b.version (ltb→lt _ _) w.version) λ version f2.
          Returns->>= (copy_field-Returns _ 0x08 b.release_date (ltb→lt _ _) w.release_date)
            λ date f3. returns _ (record { vendor = f1; version = f2; release_date = f3 })

  pub parse_baseboard-Returns :
      (b : SmbiosBaseboardInfo)
      → IsBaseboard b
      → Returns IsBaseboard (parse_baseboard buf s hlen buf_end b)
  unfolding parse_baseboard
  parse_baseboard-Returns b w =
      Returns->>= (copy_field-Returns _ 0x04 b.manufacturer (ltb→lt _ _) w.manufacturer) λ m f1.
        Returns->>= (copy_field-Returns _ 0x05 b.product (ltb→lt _ _) w.product) λ p f2.
          Returns->>= (copy_field-Returns _ 0x06 b.version (ltb→lt _ _) w.version) λ v f3.
            Returns->>= (copy_field-Returns _ 0x07 b.serial (ltb→lt _ _) w.serial) λ n f4.
              returns _ (record { manufacturer = f1; product = f2; version = f3; serial = f4 })

  pub parse_chassis-Returns :
      (c : SmbiosChassisInfo) → IsChassis c → Returns IsChassis (parse_chassis buf s hlen buf_end c)
  unfolding parse_chassis
  parse_chassis-Returns c w =
      Returns->>= (copy_field-Returns _ 0x04 c.manufacturer (ltb→lt _ _) w.manufacturer) λ m f1.
        Returns->>= kind λ t lt.
          Returns->>= (copy_field-Returns _ 0x07 c.serial (ltb→lt _ _) w.serial)
            λ n f3. returns _ (record { chassis_type = lt; manufacturer = f1; serial = f3 })
    where
      kind :
          Returns
            (λ t. t < 128)
            (if field_ok hlen 0x05
              then (load buf (s + 0x05) >>= λ t. done (low_bits t 7))
              else done c.chassis_type)
      kind =
          Returns-if (field_ok hlen 0x05)
            (λ in_area.
              Returns->>= (Returns-load buf (s + 0x05) (omega tests))
                λ t e. returns _ (omega arith))
            (λ _. returns _ w.chassis_type)

  pub parse_system-Returns :
      (major minor : ℕ) (b : SmbiosSystemInfo)
      → IsSystem b
      → Returns IsSystem (parse_system buf s hlen buf_end major minor b)
  unfolding parse_system
  parse_system-Returns major minor b w =
      Returns->>= (copy_field-Returns _ 0x04 b.manufacturer (ltb→lt _ _) w.manufacturer) λ m f1.
        Returns->>= (copy_field-Returns _ 0x05 b.product (ltb→lt _ _) w.product) λ p f2.
          Returns->>= (copy_field-Returns _ 0x06 b.version (ltb→lt _ _) w.version) λ v f3.
            Returns->>= (copy_field-Returns _ 0x07 b.serial (ltb→lt _ _) w.serial) λ n f4.
              unfold system_uuid in
              Returns-if (leb 0x18 hlen)
                (λ has.
                  Returns->>= (format_uuid-Returns buf (s + 0x08) (omega tests) major minor)
                    λ uuid u. returns _ (record {
                      manufacturer = f1;
                      product = f2;
                      version = f3;
                      serial = f4;
                      uuid = u;
                    }))
                (λ _. returns _ (record {
                  manufacturer = f1;
                  product = f2;
                  version = f3;
                  serial = f4;
                  uuid = w.uuid;
                }))
