-- ===== src/Smbios/Collect/Table.antt =====
-- The walk on a well-formed table: it parses every structure, in order and at its own offset.
use hardware_monitor_azk.Base.{
  ℕ, zero, suc, ◌+◌, ◌-◌, ◌≤◌, ◌<◌, ◌≡◌, ◌≢◌, refl, ◌∙◌, arith, true, false, ◌||◌, List, [], ◌∷◌,
  ◌++◌, some, ◌⊎◌, inl, inr, ltb, leb, ◌==◌, length, drop, get_elem?, All,
}
use hardware_monitor_azk.Buffer.{Run, done, fault, stuck, fault, stuck, ◌>>=◌, Bytes, load}
use native.Mathlib.Nat.{add-zero}
use native.Mathlib.Numerals.{add-one}
use mathlib.Core.Path.{subst}
use mathlib.Core.List.{append_assoc}
use hardware_monitor_azk.Base.{drop-suc, drop_append, get_elem?-drop, length-append}
use hardware_monitor_azk.Buffer.Loop.{again, stop, scan, resume}
use hardware_monitor_azk.Smbios.Types.{SmbiosData}
use hardware_monitor_azk.Smbios.Strings.Lookup.{IsEntry}
use hardware_monitor_azk.Smbios.Walk.{next_structure}
use hardware_monitor_azk.Smbios.Walk.Table.{string_area, next_structure-string_area}
use hardware_monitor_azk.Smbios.Collect.{parse_structure, advance, collect_turn, count_parsed, walk}

-- An SMBIOS structure: its type, the formatted area behind type and length, and its strings.
pub record Structure : Type 0 where
  pub type : ℕ
  pub body : Bytes
  pub strings : List Bytes

abbrev pub formatted_length : Structure → ℕ
formatted_length x = length x.body + 2

abbrev pub encode : Structure → Bytes
encode x = x.type ∷ formatted_length x ∷ (x.body ++ string_area x.strings)

abbrev pub encode_all : List Structure → Bytes
encode_all [] = []
encode_all (x ∷ xs) = encode x ++ encode_all xs

-- A structure that a table can hold before its end marker.
pub record IsStructure (x : Structure) : Type 0 where
  pub not_end : x.type ≢ 127
  pub header : 2 ≤ length x.body
  pub strings : All IsEntry x.strings

-- The structures parsed one after the other; `cur` is the offset of the first.
abbrev pub parse_all : Bytes → ℕ → ℕ → List Structure → SmbiosData → Run SmbiosData
parse_all buf buf_end cur [] d = done d
parse_all buf buf_end cur (x ∷ xs) d =
    parse_structure buf cur (formatted_length x) buf_end x.type d >>= λ parsed.
    parse_all buf buf_end (cur + length (encode x)) xs (count_parsed parsed)

-- Where the structures end: at a marker of type 127, or where no header fits.
abbrev pub IsTableEnd : Bytes → ℕ → ℕ → Bytes → Type 0
IsTableEnd buf buf_end cur rest =
    (buf_end < cur + 4)
    ⊎ ((hlen : ℕ) × (tail : Bytes) × (rest ≡ 127 ∷ hlen ∷ tail)
        × (4 ≤ hlen)
        × (cur + hlen ≤ buf_end))

pub length-encode :
    (x : Structure) → length (encode x) ≡ formatted_length x + length (string_area x.strings)
length-encode x = omega (arith, length-append x.body (string_area x.strings))

bind_again :
    (m : Run SmbiosData) (next : ℕ) (go : ℕ → SmbiosData → Run SmbiosData)
    (k : SmbiosData → Run SmbiosData)
    → ((p : SmbiosData) → go next (count_parsed p) ≡ k p)
    → ((m >>= λ p. done (again next (count_parsed p))) >>= resume go) ≡ (m >>= k)
bind_again (done p) next go k h = h p
bind_again fault next go k h = refl
bind_again stuck next go k h = refl

module _ (buf : Bytes) (buf_end : ℕ) (inside : buf_end ≤ length buf) where
  -- One round at a structure.
  collect_turn_at :
      (x : Structure) (rest : Bytes) (cur : ℕ) (d : SmbiosData)
      → drop cur buf ≡ encode x ++ rest
      → IsStructure x
      → cur + length (encode x) ≤ buf_end
      → collect_turn buf buf_end cur d ≡ (
          parse_structure buf cur (formatted_length x) buf_end x.type d >>= λ parsed.
          done (again (cur + length (encode x)) (count_parsed parsed)))
  unfolding collect_turn advance load
  collect_turn_at x rest cur d e h room =
      rw (fits, get_elem?-drop buf cur e, hlen_at, in_table, not_end, next, ahead, rounds)
    where
      size : length (encode x) ≡ formatted_length x + length (string_area x.strings)
      size = length-encode x

      fits : leb (cur + 4) buf_end ≡ true
      fits = ground (arith, size, h.header)

      hlen_at : get_elem? buf (cur + 1) ≡ some (formatted_length x)
      hlen_at = rw add-one (get_elem?-drop buf (suc cur) (drop-suc buf cur e))

      in_table : (ltb (formatted_length x) 4 || ltb buf_end (cur + formatted_length x)) ≡ false
      in_table = ground (arith, size, h.header)

      not_end : (x.type == 127) ≡ false
      not_end = ground (arith, h.not_end)

      area_at : drop (cur + formatted_length x) buf ≡ string_area x.strings ++ rest
      area_at = rw (← shift) (
          drop_append buf (suc (suc cur)) x.body (
            drop-suc buf (suc cur) (drop-suc buf cur e)
            ∙ append_assoc x.body (string_area x.strings) rest))
        where
          shift : suc (suc cur) + length x.body ≡ cur + formatted_length x
          shift = omega arith

      next :
          next_structure buf cur (formatted_length x) buf_end
          ≡ done (some (cur + formatted_length x + length (string_area x.strings)))
      next =
          next_structure-string_area buf x.strings rest cur (formatted_length x) buf_end area_at
            h.strings (omega arith) (omega (arith, size)) inside

      ahead : leb (cur + formatted_length x + length (string_area x.strings)) cur ≡ false
      ahead = ground arith

      rounds : cur + formatted_length x + length (string_area x.strings) ≡ cur + length (encode x)
      rounds = omega (arith, size)

  -- The walk leaves at the end of the structures.
  stop_at :
      (rest : Bytes) (cur : ℕ) (d : SmbiosData)
      → drop cur buf ≡ rest
      → IsTableEnd buf buf_end cur rest
      → collect_turn buf buf_end cur d ≡ done (stop d)
  unfolding collect_turn load
  stop_at rest cur d e (inl short) = ground arith
  stop_at rest cur d e (inr (hlen, tail, marker, lo, hi)) =
      rw (fits, get_elem?-drop buf cur (e ∙ marker), hlen_at, in_table)
    where
      fits : leb (cur + 4) buf_end ≡ true
      fits = ground arith

      hlen_at : get_elem? buf (cur + 1) ≡ some hlen
      hlen_at = rw add-one (get_elem?-drop buf (suc cur) (drop-suc buf cur (e ∙ marker)))

      in_table : (ltb hlen 4 || ltb buf_end (cur + hlen)) ≡ false
      in_table = ground arith

  scan-encode_all :
      (xs : List Structure) (rest : Bytes) (fuel cur : ℕ) (d : SmbiosData)
      → drop cur buf ≡ encode_all xs ++ rest
      → All IsStructure xs
      → cur + length (encode_all xs) ≤ buf_end
      → IsTableEnd buf buf_end (cur + length (encode_all xs)) rest
      → buf_end - cur < fuel
      → scan fuel (collect_turn buf buf_end) cur d ≡ parse_all buf buf_end cur xs d
  unfolding scan
  scan-encode_all xs rest zero cur d e h room tail f = absurd (omega arith)
  scan-encode_all [] rest (suc fuel) cur d e h room tail f =
      rw (
        stop_at rest cur d e (subst (λ (k : ℕ). IsTableEnd buf buf_end k rest) (add-zero cur) tail))
  scan-encode_all (x ∷ xs) rest (suc fuel) cur d e h room tail f =
      rw
        (collect_turn_at x (encode_all xs ++ rest) cur d e' h.0
          (omega (arith, length-append (encode x) (encode_all xs))))
        (bind_again (parse_structure buf cur (formatted_length x) buf_end x.type d) _ _ _ λ parsed.
          scan-encode_all xs rest fuel _ (count_parsed parsed) next_at h.1 room'
            (subst (λ (k : ℕ). IsTableEnd buf buf_end k rest) total tail)
            (omega (arith, length-encode x, room')))
    where
      e' : drop cur buf ≡ encode x ++ (encode_all xs ++ rest)
      e' = e ∙ append_assoc (encode x) (encode_all xs) rest

      total : cur + length (encode_all (x ∷ xs)) ≡ cur + length (encode x) + length (encode_all xs)
      total = omega (arith, length-append (encode x) (encode_all xs))

      room' : cur + length (encode x) + length (encode_all xs) ≤ buf_end
      room' = omega (arith, total)

      next_at : drop (cur + length (encode x)) buf ≡ encode_all xs ++ rest
      next_at = drop_append buf cur (encode x) e'

  -- Where well-formed structures stand from `cur` on, inside the buffer, and an end marker or too
  -- short a rest follows, the loop of `smbios_collect` parses exactly these structures, in order
  -- and each at its own offset, and ends.
  pub walk-encode_all :
      (xs : List Structure) (rest : Bytes) (cur : ℕ) (d : SmbiosData)
      → drop cur buf ≡ encode_all xs ++ rest
      → All IsStructure xs
      → cur + length (encode_all xs) ≤ buf_end
      → IsTableEnd buf buf_end (cur + length (encode_all xs)) rest
      → walk buf buf_end cur d ≡ parse_all buf buf_end cur xs d
  unfolding walk
  walk-encode_all xs rest cur d e h room tail =
      scan-encode_all xs rest _ cur d e h room tail (omega arith)
