-- ===== src/Smbios/Collect/Complete.antt =====
-- `smbios_collect` on a well-formed table misses no structure.
use hardware_monitor_azk.Base.{
  ℕ, ◌+◌, ◌*◌, ◌%◌, ◌^◌, ◌≤◌, ◌<◌, ◌≡◌, refl, ap, ◌∙◌, arith, false, List, [], ◌∷◌, ◌++◌, some, inr,
  ltb, length, get_elem?, All, length-append,
}
use hardware_monitor_azk.Buffer.{done, Bytes, IsByte, load, load_le}
use hardware_monitor_azk.Base.{length-append}
use hardware_monitor_azk.Buffer.Returns.{Returns, returns, Returns->>=, Returns-eq, Returns-mono}
use hardware_monitor_azk.Smbios.Types.{SmbiosData, IsSmbiosData, zero_data, zero_data-IsSmbiosData}
use hardware_monitor_azk.Smbios.Collect.{walk, collect, count_parsed, table_end}
use hardware_monitor_azk.Smbios.Collect.Safety.{
  parse_structure-Returns, with_counts, count_parsed-IsSmbiosData,
}
use hardware_monitor_azk.Smbios.Collect.Table.{
  Structure, formatted_length, encode, encode_all, IsStructure, parse_all, length-encode,
  walk-encode_all,
}

-- What is known of the record after `n` more structures.
record IsParsed (d : SmbiosData) (n : ℕ) (d' : SmbiosData) : Type 0 where
  well : IsSmbiosData d'
  parsed : d'.structures_parsed ≡ (d.structures_parsed + n) % 2 ^ 32
  malformed : d'.structures_malformed_skipped ≡ d.structures_malformed_skipped

module _ (buf : Bytes) (buf_end : ℕ) (bytes : All IsByte buf) (inside : buf_end ≤ length buf) where
  parse_all-Returns :
      (xs : List Structure) (cur : ℕ) (d : SmbiosData)
      → cur + length (encode_all xs) ≤ buf_end
      → IsSmbiosData d
      → d.structures_parsed < 2 ^ 32
      → Returns (IsParsed d (length xs)) (parse_all buf buf_end cur xs d)
  parse_all-Returns [] cur d room w lt =
      returns d (record { well = w; parsed = omega arith; malformed = refl })
  parse_all-Returns (x ∷ xs) cur d room w lt =
      Returns->>=
        (parse_structure-Returns buf buf_end bytes inside cur (formatted_length x) x.type d
          (omega (arith, size, length-encode x)) w)
        λ p keep.
          Returns-mono
            (parse_all-Returns xs (cur + length (encode x)) (count_parsed p) (omega (arith, size))
              (count_parsed-IsSmbiosData p keep.0) (omega arith))
            λ d' h. record {
              well = h.well;
              parsed = omega (arith, h.parsed);
              malformed = h.malformed ∙ keep.1.1;
            }
    where
      size : length (encode_all (x ∷ xs)) ≡ length (encode x) + length (encode_all xs)
      size = length-append (encode x) (encode_all xs)

-- The buffer of `GetSystemFirmwareTable`: a header with the length in its last four bytes, the
-- structures, an end marker of type 127 and its two NULs, and what may stand behind the table.
abbrev pub marker : Bytes
marker = 127 ∷ 4 ∷ 0 ∷ 0 ∷ 0 ∷ 0 ∷ []

abbrev pub raw_table : ℕ → ℕ → ℕ → ℕ → Bytes → List Structure → Bytes → Bytes
raw_table method major minor revision length_bytes xs behind =
    method ∷ major ∷ minor ∷ revision ∷ (length_bytes ++ (encode_all xs ++ (marker ++ behind)))

length-le-encode_all : (xs : List Structure) → length xs ≤ length (encode_all xs)
length-le-encode_all [] = omega arith
length-le-encode_all (x ∷ xs) =
    omega (arith, length-append (encode x) (encode_all xs), length-le-encode_all xs)

-- `smbios_collect` on a buffer that holds a header.
collect_long :
    (raw : Bytes) (major minor table_len : ℕ) (d : SmbiosData)
    → 8 ≤ length raw
    → get_elem? raw 1 ≡ some major
    → get_elem? raw 2 ≡ some minor
    → load_le raw 4 4 ≡ done table_len
    → walk raw
        (table_end (length raw) table_len)
        8
        (record zero_data { major_version = major; minor_version = minor })
      ≡ done d
    → collect (some raw) ≡ done (some (record d { available = ltb 0 d.structures_parsed }))
unfolding collect load
collect_long raw major minor table_len d long e1 e2 e3 w = rw (is_long, e1, e2, e3, w)
  where
    is_long : ltb (length raw) 8 ≡ false
    is_long = ground arith

-- On a buffer of bytes that holds a header with the table's length, well-formed structures, an end
-- marker of type 127 and anything behind the table, `smbios_collect` parses every structure once,
-- at its own offset and in order, counts no structure as malformed, and is available exactly if
-- there is a structure.
pub collect-raw_table :
    (method major minor revision : ℕ) (l0 l1 l2 l3 : ℕ) (xs : List Structure) (behind : Bytes)
    → All IsByte (raw_table method major minor revision (l0 ∷ l1 ∷ l2 ∷ l3 ∷ []) xs behind)
    → All IsStructure xs
    → l0 + 256 * (l1 + 256 * (l2 + 256 * l3)) ≡ length (encode_all xs) + 6
    → (d : SmbiosData) × (collect
          (some (raw_table method major minor revision (l0 ∷ l1 ∷ l2 ∷ l3 ∷ []) xs behind))
        ≡ done (some (record d { available = ltb 0 (length xs) })))
      × (parse_all
            (raw_table method major minor revision (l0 ∷ l1 ∷ l2 ∷ l3 ∷ []) xs behind)
            (8 + length (encode_all xs) + 6)
            8
            xs
            (record zero_data { major_version = major; minor_version = minor })
          ≡ done d)
      × (d.structures_parsed ≡ length xs)
      × (d.structures_malformed_skipped ≡ 0)
      × IsSmbiosData d
collect-raw_table method major minor revision l0 l1 l2 l3 xs behind bytes h e =
    let raw = raw_table method major minor revision (l0 ∷ l1 ∷ l2 ∷ l3 ∷ []) xs behind in
    let buf_end = 8 + length (encode_all xs) + 6 in
    let start = record zero_data { major_version = major; minor_version = minor } in
    let (d, run, p) = Returns-eq (
      parse_all-Returns raw buf_end bytes inside xs 8 start (omega arith)
        (with_counts zero_data major minor _ _ _ (bytes.1.0, bytes.1.1.0, omega arith, omega arith)
          zero_data-IsSmbiosData)
        (omega arith)) in
    let few : length xs < 2 ^ 32 = omega (arith, length-le-encode_all xs) in
    let counted : d.structures_parsed ≡ length xs = omega (arith, p.parsed) in
    (d, collected d run counted, run, counted, p.malformed, p.well)
  where
    raw : Bytes
    raw = raw_table method major minor revision (l0 ∷ l1 ∷ l2 ∷ l3 ∷ []) xs behind

    inside : 8 + length (encode_all xs) + 6 ≤ length raw
    inside = omega (arith, length-append (encode_all xs) (marker ++ behind))

    walked :
        walk raw
          (8 + length (encode_all xs) + 6)
          8
          (record zero_data { major_version = major; minor_version = minor })
        ≡ parse_all raw
            (8 + length (encode_all xs) + 6)
            8
            xs
            (record zero_data { major_version = major; minor_version = minor })
    walked =
        walk-encode_all raw (8 + length (encode_all xs) + 6) inside xs (marker ++ behind) 8 _ refl h
          (omega arith) (inr (4, 0 ∷ 0 ∷ 0 ∷ 0 ∷ behind, refl, omega arith, omega arith))

    collected :
        (d : SmbiosData)
        → parse_all raw
            (8 + length (encode_all xs) + 6)
            8
            xs
            (record zero_data { major_version = major; minor_version = minor })
          ≡ done d
        → d.structures_parsed ≡ length xs
        → collect (some raw) ≡ done (some (record d { available = ltb 0 (length xs) }))
    collected d run counted =
        collect_long raw major minor table_len d (omega arith) refl refl
          (unfold load_le load in refl) (rw end_at walked ∙ run)
        ∙ ap (λ (n : ℕ). done (some (record d { available = ltb 0 n }))) counted
      where
        table_len : ℕ
        table_len = l0 + 256 * (l1 + 256 * (l2 + 256 * (l3 + 256 * 0)))

        end_at : table_end (length raw) table_len ≡ 8 + length (encode_all xs) + 6
        end_at = ground (arith, inside, e)
