-- ===== src/Smbios/Walk/Table.antt =====
-- `smbios_next_structure` on a well-formed string area returns the offset behind that area.
use hardware_monitor_azk.Base.{
  ℕ, suc, ◌+◌, ◌≤◌, ◌<◌, ◌≡◌, ◌≢◌, refl, sym, ap, ◌∙◌, arith, List, [], ◌∷◌, ◌++◌, Option, some,
  length, drop, get_elem?, All,
}
use hardware_monitor_azk.Buffer.{done, Bytes}
use hardware_monitor_azk.Buffer.Returns.{Returns-eq}
use hardware_monitor_azk.Buffer.Text.{IsChar}
use hardware_monitor_azk.Smbios.Strings.Lookup.{IsEntry, string_table}
use hardware_monitor_azk.Smbios.Walk.Next.{
  NulPair, NoPair, IsNext, pair, one_byte, missing, next_structure-IsNext,
}
use native.Mathlib.Decide.{dec_lt}
use mathlib.Core.Path.{subst}
use mathlib.Core.List.{append_assoc}
use hardware_monitor_azk.Base.{drop-suc, drop_append, get_elem?-drop, length-append}
use hardware_monitor_azk.Smbios.Walk.{next_structure}

-- The bytes behind a formatted area: the table, or two NULs where there is no string.
abbrev pub string_area : List Bytes → Bytes
string_area [] = 0 ∷ 0 ∷ []
string_area (s ∷ ss) = string_table (s ∷ ss)

module _ (buf : Bytes) where
  NoPair-chars :
      (s rest : Bytes) (p : ℕ) → drop p buf ≡ s ++ rest → All IsChar s → NoPair buf p (p + length s)
  NoPair-chars [] rest p e h i le lt both = absurd (omega arith)
  NoPair-chars (c ∷ s) rest p e h i le lt both = elim (dec_lt p i) [
    | yes later ↦
        NoPair-chars s rest (suc p) (drop-suc buf p e) h.1 i (omega arith) (omega arith) both
    | no first ↦
        h.0 (char_zero (subst (λ (k : ℕ). get_elem? buf k ≡ some 0) (at_first first) both.0))
  ]
    where
      at_first : ¬ (p < i) → i ≡ p
      at_first first = omega arith

      char_zero : get_elem? buf p ≡ some 0 → c ≡ 0
      char_zero z = ground (arith, get_elem?-drop buf p e)

  NoPair-join : (a b c : ℕ) → NoPair buf a b → NoPair buf b c → NoPair buf a c
  NoPair-join a b c hab hbc i le lt both = elim (dec_lt i b) [
    | yes before ↦ hab i le before both
    | no after ↦ hbc i (omega arith) lt both
  ]

  NoPair-single : (p c : ℕ) → get_elem? buf (p + 1) ≡ some c → c ≢ 0 → NoPair buf p (p + 1)
  NoPair-single p c e ne i le lt both =
      let at : i ≡ p = omega arith in
      let z = subst (λ (k : ℕ). get_elem? buf (k + 1) ≡ some 0) at both.1 in ground (arith, e, z)

  byte_at :
      (p n : ℕ) (x : ℕ) (xs ys : Bytes)
      → n ≡ p + length xs
      → drop p buf ≡ xs ++ (x ∷ ys)
      → get_elem? buf n ≡ some x
  byte_at p n x xs ys e at = rw e (get_elem?-drop buf (p + length xs) (drop_append buf p xs at))

  -- The first pair of NULs is the last one's of the area.
  table_pair :
      (s : Bytes) (ss : List Bytes) (rest : Bytes) (p : ℕ)
      → drop p buf ≡ string_table (s ∷ ss) ++ rest
      → All IsEntry (s ∷ ss)
      → (q : ℕ) × (q + 2 ≡ p + length (string_table (s ∷ ss))) × NulPair buf q × NoPair buf p q
  table_pair s [] rest p e h = (
    p + length s,
    omega (arith, length-append s (0 ∷ 0 ∷ [])),
    (
      byte_at p (p + length s) 0 s (0 ∷ rest) refl e',
      byte_at p (p + length s + 1) 0 (s ++ (0 ∷ [])) rest (omega (arith, length-append s (0 ∷ [])))
          e'',
    ),
    NoPair-chars s (0 ∷ 0 ∷ rest) p e' h.0.0,
  )
    where
      e' : drop p buf ≡ s ++ (0 ∷ 0 ∷ rest)
      e' = e ∙ append_assoc s (0 ∷ 0 ∷ []) rest

      e'' : drop p buf ≡ (s ++ (0 ∷ [])) ++ (0 ∷ rest)
      e'' = e' ∙ sym (append_assoc s (0 ∷ []) (0 ∷ rest))
  table_pair s ([] ∷ ss) rest p e h = absurd (omega arith)
  table_pair s ((c ∷ t) ∷ ss) rest p e h =
      let (q, size, nuls, clear) = table_pair (c ∷ t) ss rest (p + length s + 1) next h.1 in
      (
        q,
        omega (arith, size, length-append s (0 ∷ string_table ((c ∷ t) ∷ ss))),
        nuls,
        NoPair-join p (p + length s) q (NoPair-chars s _ p e' h.0.0) (
            NoPair-join (p + length s) (p + length s + 1) q
              (NoPair-single (p + length s) c (get_elem?-drop buf (p + length s + 1) next)
                h.1.0.0.0)
              clear),
      )
    where
      e' : drop p buf ≡ s ++ (0 ∷ (string_table ((c ∷ t) ∷ ss) ++ rest))
      e' = e ∙ append_assoc s (0 ∷ string_table ((c ∷ t) ∷ ss)) rest

      past : p + length s + 1 ≡ suc (p + length s)
      past = omega arith

      next : drop (p + length s + 1) buf ≡ string_table ((c ∷ t) ∷ ss) ++ rest
      next = rw past (drop-suc buf (p + length s) (drop_append buf p s e'))

  area_pair :
      (ss : List Bytes) (rest : Bytes) (p : ℕ)
      → drop p buf ≡ string_area ss ++ rest
      → All IsEntry ss
      → (q : ℕ) × (q + 2 ≡ p + length (string_area ss)) × NulPair buf q × NoPair buf p q
  area_pair [] rest p e h = (
    p,
    refl,
    (get_elem?-drop buf p e, byte_at p (p + 1) 0 (0 ∷ []) rest refl e),
    λ i le lt. absurd (omega arith),
  )
  area_pair (s ∷ ss) rest p e h = table_pair s ss rest p e h

  IsNext-unique :
      (from buf_end q : ℕ) {r : Option ℕ}
      → from ≤ q
      → q + 1 < buf_end
      → NulPair buf q
      → NoPair buf from q
      → IsNext buf from buf_end r
      → r ≡ some (q + 2)
  IsNext-unique from buf_end q le lt nuls clear (pair i le' lt' nuls' clear' e) =
      e ∙ ap (λ (k : ℕ). some (k + 2)) (same i (λ h. clear i le' h nuls') (λ h. clear' q le h nuls))
    where
      same : (i : ℕ) → ¬ (i < q) → ¬ (q < i) → i ≡ q
      same i h k = omega arith
  IsNext-unique from buf_end q le lt nuls clear (one_byte e z z' e') = absurd (omega arith)
  IsNext-unique from buf_end q le lt nuls clear (missing c s e) = absurd (c q le (omega arith) nuls)

  -- Behind a formatted area with a well-formed string area that lies inside the table,
  -- `smbios_next_structure` returns the place behind the string area, whatever follows it.
  pub next_structure-string_area :
      (ss : List Bytes) (rest : Bytes) (struct_ptr formatted_len buf_end : ℕ)
      → drop (struct_ptr + formatted_len) buf ≡ string_area ss ++ rest
      → All IsEntry ss
      → 0 < formatted_len
      → struct_ptr + formatted_len + length (string_area ss) ≤ buf_end
      → buf_end ≤ length buf
      → next_structure buf struct_ptr formatted_len buf_end
        ≡ done (some (struct_ptr + formatted_len + length (string_area ss)))
  next_structure-string_area ss rest struct_ptr formatted_len buf_end e h pos room inside =
      let from = struct_ptr + formatted_len in
      let (q, size, nuls, clear) = area_pair ss rest from e h in
      let (r, run, n) = Returns-eq (
        next_structure-IsNext buf from buf_end inside (omega arith) struct_ptr formatted_len
          refl) in
      run
      ∙ ap done (
          IsNext-unique from buf_end q (omega (arith, area_size ss)) (omega arith) nuls clear n
          ∙ ap some size)
    where
      table_size : (ss : List Bytes) → 1 ≤ length (string_table ss)
      table_size [] = omega arith
      table_size (s ∷ ss) = omega (arith, length-append s (0 ∷ string_table ss))

      area_size : (ss : List Bytes) → 2 ≤ length (string_area ss)
      area_size [] = omega arith
      area_size (s ∷ ss) = omega (arith, length-append s (0 ∷ string_table ss), table_size ss)
