-- ===== src/Examples/Smbios.antt =====
-- A table with one BIOS structure and an end marker, as src/firmware/smbios.c reads it.
use hardware_monitor_azk.Smbios.Collect.Table.{Structure, IsStructure, parse_all, walk-encode_all}
use hardware_monitor_azk.Smbios.Collect.{collect, walk}
use hardware_monitor_azk.Smbios.Collect.Complete.{raw_table, collect-raw_table}
use hardware_monitor_azk.Smbios.Collect.Safety.{IsCollected, collect-Returns}
use hardware_monitor_azk.Smbios.Types.{
  SmbiosData, SmbiosBiosInfo, IsSmbiosData, zero_data, zero_data-IsSmbiosData, zero_bios, zero_text,
}
use hardware_monitor_azk.Smbios.Strings.{copy_string_field}
use hardware_monitor_azk.Smbios.Strings.Lookup.{IsEntry}
use hardware_monitor_azk.Smbios.Strings.Copy.{text_of-copy_string_field}
use hardware_monitor_azk.Smbios.Walk.{next_structure}
use hardware_monitor_azk.Smbios.Walk.Next.{IsNext, next_structure-IsNext}
use hardware_monitor_azk.Smbios.Walk.Table.{next_structure-string_area}
use hardware_monitor_azk.Smbios.Parse.{parse_bios}
use hardware_monitor_azk.Smbios.Parse.Texts.{parse_bios_texts}
use hardware_monitor_azk.Smbios.Device.{memory_size}
use hardware_monitor_azk.Smbios.Device.Size.{megabytes, size_word, memory_size-size_word}
use hardware_monitor_azk.Buffer.Text.{text_of}
use hardware_monitor_azk.Buffer.Returns.{Returns}
use hardware_monitor_azk.Base.{
  ◌≡◌, refl, arith, true, List, [], ◌∷◌, ◌++◌, some, inr, length, replicate, All,
}
use hardware_monitor_azk.Buffer.{done, Bytes, IsByte, load, load_le}

abbrev bios_texts : List Bytes
bios_texts = (65 ∷ 66 ∷ []) ∷ (49 ∷ []) ∷ (68 ∷ []) ∷ []

abbrev bios : Structure
bios = record { type = 0; body = 0 ∷ 0 ∷ 1 ∷ 2 ∷ 0 ∷ 0 ∷ 3 ∷ []; strings = bios_texts }

abbrev raw : Bytes
raw = raw_table 0 3 4 0 (23 ∷ 0 ∷ 0 ∷ 0 ∷ []) (bios ∷ []) []

raw-IsByte : All IsByte raw
raw-IsByte = omega arith

bios_texts-IsEntry : All IsEntry bios_texts
bios_texts-IsEntry = omega arith

bios-IsStructure : All IsStructure (bios ∷ [])
bios-IsStructure =
    (record { not_end = omega arith; header = omega arith; strings = bios_texts-IsEntry }, tt)

collect_smbios_example : Returns IsCollected (collect (some raw))
collect_smbios_example = collect-Returns raw raw-IsByte

collect-raw_table_example :
    (d : SmbiosData) × (collect (some raw) ≡ done (some (record d { available = true })))
    × (parse_all raw 31 8 (bios ∷ []) (record zero_data { major_version = 3; minor_version = 4 })
        ≡ done d)
    × (d.structures_parsed ≡ 1)
    × (d.structures_malformed_skipped ≡ 0)
    × IsSmbiosData d
collect-raw_table_example =
    collect-raw_table 0 3 4 0 23 0 0 0 (bios ∷ []) [] raw-IsByte bios-IsStructure (omega arith)

copy_string_field_example :
    (r : Bytes) × (copy_string_field raw 8 9 31 1 zero_text 64 ≡ done r)
    × (text_of r ≡ 65 ∷ 66 ∷ [])
    × (length r ≡ 64)
copy_string_field_example =
    text_of-copy_string_field bios_texts _ raw 8 9 31 1 zero_text 64 refl bios_texts-IsEntry
      (omega arith) (omega arith) (omega arith) refl

next_structure-IsNext_example : Returns (IsNext raw 17 31) (next_structure raw 8 9 31)
next_structure-IsNext_example = next_structure-IsNext raw 17 31 (omega arith) (omega arith) 8 9 refl

next_structure-string_area_example : next_structure raw 8 9 31 ≡ done (some 25)
next_structure-string_area_example =
    next_structure-string_area raw bios_texts _ 8 9 31 refl bios_texts-IsEntry (omega arith)
      (omega arith) (omega arith)

walk-encode_all_example : walk raw 31 8 zero_data ≡ parse_all raw 31 8 (bios ∷ []) zero_data
walk-encode_all_example =
    walk-encode_all raw 31 (omega arith) (bios ∷ []) _ 8 zero_data refl bios-IsStructure
      (omega arith) (inr (4, _, refl, omega arith, omega arith))

parse_bios_texts_example :
    (b : SmbiosBiosInfo) × (parse_bios raw 8 9 31 zero_bios ≡ done b)
    × (b.available ≡ true)
    × (text_of b.vendor ≡ 65 ∷ 66 ∷ [])
    × (text_of b.version ≡ 49 ∷ [])
    × (text_of b.release_date ≡ 68 ∷ [])
parse_bios_texts_example =
    parse_bios_texts raw 8 31 0 0 1 2 0 0 3 [] bios_texts _ zero_bios refl bios_texts-IsEntry
      (omega arith) (omega arith) zero_data-IsSmbiosData.bios

-- A type 17 structure of 32 bytes whose extended size says 64 GB.
abbrev device : Bytes
device = replicate 28 0 ++ (0 ∷ 0 ∷ 1 ∷ 0 ∷ [])

memory_size-size_word_example :
    memory_size device 0 32 (size_word (megabytes 65536)) ≡ done (true, 65536)
memory_size-size_word_example =
    memory_size-size_word (megabytes 65536) device 0 32 (omega arith) (omega arith)
      (unfold load_le load in refl)
