-- ===== src/Smbios/Strings/Lookup.antt =====
-- What the string functions return on a well-formed string table.
use hardware_monitor_azk.Base.{
  ℕ, zero, suc, ◌+◌, ◌-◌, ◌%◌, ◌≤◌, ◌<◌, ◌≡◌, refl, ◌∙◌, arith, true, false, List, [], ◌∷◌, ◌++◌,
  Option, none, some, inl, inr, ◌==◌, if◌then◌else◌, Bool-cases, tests, length, drop, get_elem?,
  All, length-append, drop_append, drop-suc, tests,
}
use hardware_monitor_azk.Buffer.{done, Bytes}
use hardware_monitor_azk.Buffer.Loop.{again, stop, scan}
use hardware_monitor_azk.Buffer.Text.{IsChar, strnlen-drop}
use mathlib.Core.List.{append_assoc}
use hardware_monitor_azk.Smbios.Strings.{get_string_turn, get_string}

-- A string that a table can hold.
abbrev pub IsEntry : Bytes → Type 0
IsEntry s = All IsChar s × (0 < length s)

-- The strings, each with its NUL, and one NUL behind the last.
abbrev pub string_table : List Bytes → Bytes
string_table [] = 0 ∷ []
string_table (s ∷ ss) = s ++ (0 ∷ string_table ss)

-- The offset found is that of the string wanted, or the table has no such string.
abbrev pub IsLocated : Bytes → ℕ → Option Bytes → Option ℕ → Type 0
IsLocated buf buf_end none r = r ≡ none
IsLocated buf buf_end (some s) r =
    (q : ℕ) × (rest : Bytes) × (r ≡ some q)
    × (drop q buf ≡ s ++ (0 ∷ rest))
    × (q + length s < buf_end)
    × All IsChar s

module _ (buf : Bytes) (buf_end : ℕ) where
  -- One round at a string of the table.
  turn_at :
      (index p current : ℕ) (s rest : Bytes)
      → drop p buf ≡ s ++ (0 ∷ rest)
      → All IsChar s
      → p + length s < buf_end
      → get_string_turn buf buf_end index p current ≡ (
          if length s == 0
          then done (stop none)
          else if current == index
          then done (stop (some p))
          else done (again (p + (length s + 1)) ((current + 1) % 256)))
  unfolding get_string_turn
  turn_at index p current s rest e h lt =
      ground (arith, strnlen-drop s buf p (buf_end - p) rest e h (omega arith))

  drop_past :
      (p : ℕ) (s rest : Bytes) → drop p buf ≡ s ++ (0 ∷ rest) → drop (p + (length s + 1)) buf ≡ rest
  drop_past p s rest e = rw past (drop-suc buf (p + length s) (drop_append buf p s e))
    where
      past : p + (length s + 1) ≡ suc (p + length s)
      past = omega arith

  scan-IsLocated :
      (ss : List Bytes) (rest : Bytes) (fuel index p current : ℕ)
      → drop p buf ≡ string_table ss ++ rest
      → All IsEntry ss
      → p + length (string_table ss) ≤ buf_end
      → buf_end - p < fuel
      → 0 < current
      → current ≤ index
      → index < 256
      → (r : Option ℕ) × (scan fuel (get_string_turn buf buf_end index) p current ≡ done r)
        × IsLocated buf buf_end (get_elem? ss (index - current)) r
  unfolding scan
  scan-IsLocated ss rest zero index p current e h lt f pos le b = absurd (omega arith)
  scan-IsLocated [] rest (suc fuel) index p current e h lt f pos le b =
      (none, rw (turn_at index p current [] rest e tt (omega arith)), refl)
  scan-IsLocated (s ∷ ss) rest (suc fuel) index p current e h lt f pos le b =
      elim (Bool-cases (current == index)) [
        | inl here ↦ (
          some p,
          rw (turn, here),
          rw (at_zero here) (p, string_table ss ++ rest, refl, e', in_table, h.0.0),
        )
        | inr later ↦
            let (r, run, loc) =
              scan-IsLocated ss rest fuel index (p + (length s + 1)) (current + 1)
                (drop_past p s _ e') h.1 room (omega (arith, in_table)) (omega arith) (omega tests)
                b in
            (r, rw (turn, later, wrap later) run, rw (at_suc later) loc)
      ]
    where
      e' : drop p buf ≡ s ++ (0 ∷ (string_table ss ++ rest))
      e' = e ∙ append_assoc s (0 ∷ string_table ss) rest

      in_table : p + length s < buf_end
      in_table = omega (arith, length-append s (0 ∷ string_table ss))

      room : p + (length s + 1) + length (string_table ss) ≤ buf_end
      room = omega (arith, length-append s (0 ∷ string_table ss))

      turn : get_string_turn buf buf_end index p current ≡ (
          if current == index
          then done (stop (some p))
          else done (again (p + (length s + 1)) ((current + 1) % 256)))
      turn = turn_at index p current s _ e' h.0.0 in_table ∙ ground (arith, h.0.1)

      at_zero : (current == index) ≡ true → index - current ≡ 0
      at_zero here = omega tests

      wrap : (current == index) ≡ false → (current + 1) % 256 ≡ current + 1
      wrap later = omega tests

      at_suc : (current == index) ≡ false → index - current ≡ suc (index - (current + 1))
      at_suc later = omega tests

pub get_string-IsLocated :
    (ss : List Bytes) (rest buf : Bytes) (struct_ptr formatted_len buf_end index : ℕ)
    → drop (struct_ptr + formatted_len) buf ≡ string_table ss ++ rest
    → All IsEntry ss
    → struct_ptr + formatted_len + length (string_table ss) ≤ buf_end
    → 0 < index
    → index < 256
    → (r : Option ℕ) × (get_string buf struct_ptr formatted_len buf_end index ≡ done r)
      × IsLocated buf buf_end (get_elem? ss (index - 1)) r
unfolding get_string
get_string-IsLocated ss rest buf struct_ptr formatted_len buf_end index e h room pos b =
    let p = struct_ptr + formatted_len in
    let (r, run, loc) =
      scan-IsLocated buf buf_end ss rest (suc (buf_end - p)) index p 1 e h room (omega arith)
        (omega arith) (omega arith) b in
    (r, ground (arith, run), loc)

pub get_string-zero :
    (buf : Bytes) (struct_ptr formatted_len buf_end : ℕ)
    → get_string buf struct_ptr formatted_len buf_end 0 ≡ done none
unfolding get_string
get_string-zero buf struct_ptr formatted_len buf_end = refl
