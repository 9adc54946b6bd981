-- ===== src/Smbios/Parse/Texts.antt =====
-- The strings that the structure parsers take from a well-formed structure.
use hardware_monitor_azk.Base.{
  ℕ, ◌+◌, ◌≤◌, ◌<◌, ◌≡◌, refl, sym, ap, ◌∙◌, arith, Bool, true, List, [], ◌∷◌, ◌++◌, some, length,
  take, drop, get_elem?, All,
}
use hardware_monitor_azk.Buffer.{done, Bytes, load}
use hardware_monitor_azk.Base.{drop_append, get_elem?-drop, length-append}
use hardware_monitor_azk.Buffer.Text.{text_of}
use hardware_monitor_azk.Smbios.Types.{SmbiosBiosInfo, smbios_str_max, IsBios}
use hardware_monitor_azk.Smbios.Strings.Lookup.{IsEntry, string_table}
use hardware_monitor_azk.Smbios.Strings.Copy.{string_number, text_of-copy_string_field}
use mathlib.Core.List.{append-nil, append_assoc}
use hardware_monitor_azk.Smbios.Walk.Table.{string_area}
use hardware_monitor_azk.Smbios.Parse.{copy_field, field_ok, parse_bios}

-- A string of a structure as its field holds it.
abbrev pub field_text : List Bytes → ℕ → Bytes
field_text ss index = take 63 (string_number ss index)

string_area-table : (ss : List Bytes) → (tail : Bytes) × (string_area ss ≡ string_table ss ++ tail)
string_area-table [] = (0 ∷ [], refl)
string_area-table (s ∷ ss) = ([], sym (append-nil _))

module _ (buf : Bytes) (s hlen buf_end : ℕ) (ss : List Bytes) (rest : Bytes)
    (at : drop (s + hlen) buf ≡ string_area ss ++ rest) (entries : All IsEntry ss)
    (room : s + hlen + length (string_area ss) ≤ buf_end) where
  copy_field_text :
      (ok : Bool) (off index : ℕ) (out : Bytes)
      → ok ≡ true
      → get_elem? buf (s + off) ≡ some index
      → index < 256
      → length out ≡ smbios_str_max
      → (r : Bytes) × (copy_field ok buf s hlen buf_end off out ≡ done r)
        × (text_of r ≡ field_text ss index)
        × (length r ≡ smbios_str_max)
  unfolding copy_field load
  copy_field_text ok off index out is_ok e b size =
      let (tail, split) = string_area-table ss in
      let (r, run, t, size') =
        text_of-copy_string_field ss (tail ++ rest) buf s hlen buf_end index out smbios_str_max
          (at ∙ ap (λ (xs : Bytes). xs ++ rest) split ∙ append_assoc (string_table ss) tail rest)
          entries (omega (arith, ap (length {A = ℕ}) split, length-append (string_table ss) tail)) b
          (omega arith) size in
      (r, rw (is_ok, e) run, t, size')

-- On a structure of type 0 with at least nine formatted bytes and a well-formed string area inside
-- the table, `parse_bios` makes vendor, version and release date the strings with the numbers at
-- offsets 4, 5 and 8, cut to 63 bytes, or empty where there is no such string.
pub parse_bios_texts :
    (buf : Bytes) (s buf_end h0 h1 vendor version a0 a1 date : ℕ) (more : Bytes) (ss : List Bytes)
    (rest : Bytes) (out : SmbiosBiosInfo)
    → drop (s + 2) buf
      ≡ h0 ∷ h1 ∷ vendor ∷ version ∷ a0 ∷ a1 ∷ date ∷ (more ++ (string_area ss ++ rest))
    → All IsEntry ss
    → s + (9 + length more) + length (string_area ss) ≤ buf_end
    → (vendor < 256) × (version < 256) × (date < 256)
    → IsBios out
    → (b : SmbiosBiosInfo) × (parse_bios buf s (9 + length more) buf_end out ≡ done b)
      × (b.available ≡ true)
      × (text_of b.vendor ≡ field_text ss vendor)
      × (text_of b.version ≡ field_text ss version)
      × (text_of b.release_date ≡ field_text ss date)
unfolding parse_bios
parse_bios_texts buf s buf_end h0 h1 vendor version a0 a1 date more ss rest out e entries room b w =
    let copy = copy_field_text buf s (9 + length more) buf_end ss rest area entries room in
    let (r1, run1, t1, _) =
      copy (field_ok (9 + length more) 4) 4 vendor out.vendor (ground arith)
        (byte (s + 4) (h0 ∷ h1 ∷ []) vendor _ (omega arith) e) b.0 w.vendor.size in
    let (r2, run2, t2, _) =
      copy (field_ok (9 + length more) 5) 5 version out.version (ground arith)
        (byte (s + 5) (h0 ∷ h1 ∷ vendor ∷ []) version _ (omega arith) e) b.1 w.version.size in
    let (r3, run3, t3, _) =
      copy (field_ok (9 + length more) 8) 8 date out.release_date (ground arith)
        (byte (s + 8) (h0 ∷ h1 ∷ vendor ∷ version ∷ a0 ∷ a1 ∷ []) date _ (omega arith) e) b.2
        w.release_date.size in
    (
      record { available = true; vendor = r1; version = r2; release_date = r3 },
      rw (run1, run2, run3),
      refl,
      t1,
      t2,
      t3,
    )
  where
    body : Bytes
    body = h0 ∷ h1 ∷ vendor ∷ version ∷ a0 ∷ a1 ∷ date ∷ more

    area : drop (s + (9 + length more)) buf ≡ string_area ss ++ rest
    area = rw (← shift) (drop_append buf (s + 2) body e)
      where
        shift : s + 2 + length body ≡ s + (9 + length more)
        shift = omega arith

    byte :
        (n : ℕ) (front : Bytes) (x : ℕ) (tail : Bytes)
        → n ≡ s + 2 + length front
        → drop (s + 2) buf ≡ front ++ (x ∷ tail)
        → get_elem? buf n ≡ some x
    byte n front x tail e' at = rw e' (get_elem?-drop buf _ (drop_append buf (s + 2) front at))
