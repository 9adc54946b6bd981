-- ===== src/Smbios/Strings/Safety.antt =====
-- No access of the string functions leaves its object, and they end.
use hardware_monitor_azk.Base.{
  ℕ, ◌+◌, ◌-◌, ◌≤◌, ◌<◌, ◌≡◌, ◌∙◌, arith, [], ◌∷◌, ◌++◌, Option, none, some, ltb, leb, ◌==◌,
  if◌then◌else◌, tests, length, take, drop, All, length-take,
}
use hardware_monitor_azk.Buffer.{Bytes, IsByte, store_bytes}
use hardware_monitor_azk.Buffer.Returns.{
  Returns, returns, Returns->>=, Returns-if, Returns-mono, Returns-load_bytes,
}
use hardware_monitor_azk.Buffer.Loop.{TurnOk, scan-Returns}
use hardware_monitor_azk.Buffer.Text.{text_of, IsTextEnd, Returns-strnlen, Returns-store_bytes}
use hardware_monitor_azk.Smbios.Types.{IsField}
use hardware_monitor_azk.Smbios.Strings.{get_string_turn, get_string, copy_found, copy_string_field}

-- A string found lies behind the formatted area, is not empty, and ends in a NUL before `buf_end`.
pub data IsFound (buf : Bytes) (from buf_end : ℕ) : Option ℕ → Type 0 where
  nothing : IsFound buf from buf_end none
  string :
      (p k : ℕ)
      → from ≤ p
      → p + k < buf_end
      → 0 < k
      → IsTextEnd buf p (buf_end - p) k
      → IsFound buf from buf_end (some p)

module _ (buf : Bytes) (from buf_end : ℕ) (inside : buf_end ≤ length buf) where
  get_string_turn-Returns :
      (index p current : ℕ)
      → from ≤ p
      → Returns
          (TurnOk (λ q _. from ≤ q) (IsFound buf from buf_end) buf_end p)
          (get_string_turn buf buf_end index p current)
  unfolding get_string_turn
  get_string_turn-Returns index p current h =
      Returns-if (ltb p buf_end)
        (λ lt. Returns->>= (Returns-strnlen buf p (buf_end - p) (omega tests)) λ slen t.
          Returns-if (slen == (buf_end - p)) (λ _. returns _ nothing)
            (λ short.
              Returns-if (slen == 0) (λ _. returns _ nothing)
                (λ nonempty.
                  Returns-if (current == index)
                    (λ _. returns _ (string p slen h (omega (tests, t.within)) (omega tests) t))
                    (λ _. returns _ (omega arith, omega arith, omega (tests, t.within))))))
        (λ _. returns _ nothing)

  pub get_string-Returns :
      (struct_ptr formatted_len index : ℕ)
      → from ≤ struct_ptr + formatted_len
      → Returns (IsFound buf from buf_end) (get_string buf struct_ptr formatted_len buf_end index)
  unfolding get_string
  get_string-Returns struct_ptr formatted_len index h =
      Returns-if (index == 0) (λ _. returns _ nothing)
        (λ _.
          scan-Returns (λ q _. from ≤ q) (IsFound buf from buf_end) buf_end
            (get_string_turn buf buf_end index) (get_string_turn-Returns index) _ _ 1 (omega arith)
            h)

text_of_prefix : (xs ys : Bytes) → length (text_of (xs ++ (0 ∷ ys))) ≤ length xs
unfolding text_of
text_of_prefix [] ys = omega arith
text_of_prefix (x ∷ xs) ys = ground (arith, text_of_prefix xs ys)

-- A NUL written at `n` ends the array's string there at the latest.
store_nul-IsField :
    (array : Bytes) (size n : ℕ)
    → length array ≡ size
    → n < size
    → Returns (IsField size) (store_bytes array n (0 ∷ []))
store_nul-IsField array size n e lt =
    Returns-mono (Returns-store_bytes array n (0 ∷ []) (omega arith)) λ r h. record {
      size = h.1 ∙ e;
      terminated = rw (h.0) (
          omega (
            arith,
            text_of_prefix (take n array) (drop (n + 1) array),
            length-take n array (omega arith),
          ));
    }

module _ (buf : Bytes) (from buf_end : ℕ) (bytes : All IsByte buf)
    (inside : buf_end ≤ length buf) where
  copy_found-Returns :
      (out : Bytes) (out_size : ℕ) (found : Option ℕ)
      → IsField out_size out
      → IsFound buf from buf_end found
      → Returns (IsField out_size) (copy_found buf buf_end out out_size found)
  unfolding copy_found
  copy_found-Returns out out_size none f _ = returns out f
  copy_found-Returns out out_size (some s) f (string _ k from-le lt pos _) =
      Returns->>= (Returns-strnlen buf s (buf_end - s) (omega arith)) λ slen t.
        let n = if leb out_size slen then out_size - 1 else slen in
        let n-le : n ≤ slen = ground (arith, f.terminated) in
        let n-lt : n < out_size = ground (arith, f.terminated) in
        Returns->>= (Returns-load_bytes buf s n bytes (omega (arith, t.within))) λ src h.
          Returns->>= (Returns-store_bytes out 0 src (omega (arith, f.size, h.1)))
            λ copied c. store_nul-IsField copied out_size n (c.1 ∙ f.size) n-lt

  -- `copy_string_field` always ends, reads nothing at or behind `buf_end`, writes nothing outside
  -- `out`, and leaves a terminated string of at most `out_size - 1` bytes there.
  pub copy_string_field-Returns :
      (struct_ptr formatted_len index : ℕ) (out : Bytes) (out_size : ℕ)
      → from ≤ struct_ptr + formatted_len
      → 0 < out_size
      → length out ≡ out_size
      → Returns
          (IsField out_size)
          (copy_string_field buf struct_ptr formatted_len buf_end index out out_size)
  unfolding copy_string_field
  copy_string_field-Returns struct_ptr formatted_len index out out_size h pos e =
      Returns->>= (store_nul-IsField out out_size 0 e pos) λ cleared c.
        Returns->>= (get_string-Returns buf from buf_end inside struct_ptr formatted_len index h)
          λ found f. copy_found-Returns cleared out_size found c f
