-- ===== src/Smbios/Strings/Copy.antt =====
-- `copy_string_field` on a well-formed string table copies the string with that number.
use hardware_monitor_azk.Buffer.Returns.{Returns-eq}
use hardware_monitor_azk.Smbios.Strings.{copy_string_field, copy_found}
use hardware_monitor_azk.Buffer.Text.{
  IsChar, text_of, Returns-store_bytes, text_of-append, load_bytes-drop, strnlen-drop,
}
use hardware_monitor_azk.Smbios.Strings.Lookup.{
  IsEntry, string_table, IsLocated, get_string-IsLocated, get_string-zero,
}
use hardware_monitor_azk.Base.{
  ℕ, zero, suc, ◌+◌, ◌-◌, ◌≤◌, ◌<◌, ◌≡◌, refl, sym, ap, ◌∙◌, arith, List, [], ◌∷◌, ◌++◌, Option,
  none, some, leb, if◌then◌else◌, length, take, drop, get_elem?, All, take_length-append,
  take-append-drop,
}
use hardware_monitor_azk.Buffer.{done, ◌>>=◌, Bytes, load_bytes, store_bytes}
use mathlib.Core.List.{append_assoc}

-- The text that a table gives for a string number: none for 0 and beyond the last.
abbrev pub string_number : List Bytes → ℕ → Bytes
string_number ss zero = []
string_number ss (suc k) = elim (get_elem? ss k) [ none ↦ [] | some s ↦ s ]

All-take : (P : ℕ → Type 0) (n : ℕ) (xs : Bytes) → All P xs → All P (take n xs)
All-take P zero xs h = tt
All-take P (suc n) [] h = tt
All-take P (suc n) (x ∷ xs) h = (h.0, All-take P n xs h.1)

-- What is left in the array after the string's bytes and its NUL were copied.
copied_text :
    (out src : Bytes)
    → All IsChar src
    → length src < length out
    → (r : Bytes) × ((store_bytes out 0 src >>= λ copied. store_bytes copied (length src) (0 ∷ []))
        ≡ done r)
      × (text_of r ≡ src)
      × (length r ≡ length out)
copied_text out src h lt =
    let (first, run, first_lem) = Returns-eq (Returns-store_bytes out 0 src (omega arith)) in
    let (last, run', last_lem) =
      Returns-eq (Returns-store_bytes first (length src) (0 ∷ []) (omega arith)) in
    (
      last,
      rw run run',
      rw (last_lem.0, first_lem.0, front) (text_of-append src _ h),
      last_lem.1 ∙ first_lem.1,
    )
  where
    front : take (length src) (src ++ drop (0 + length src) out) ≡ src
    front = take_length-append src _

take-nil : (n : ℕ) → take {A = ℕ} n [] ≡ []
take-nil zero = refl
take-nil (suc n) = refl

length-take_le : (n : ℕ) (xs : Bytes) → length (take n xs) ≤ n
length-take_le zero xs = omega arith
length-take_le (suc n) [] = omega arith
length-take_le (suc n) (x ∷ xs) = omega (arith, length-take_le n xs)

-- The source's count of the bytes to copy.
length_cut :
    (size : ℕ) (s : Bytes)
    → 0 < size
    → (if leb size (length s) then size - 1 else length s) ≡ length (take (size - 1) s)
length_cut zero s h = absurd (omega arith)
length_cut (suc n) s h = rw pred_suc (cut n s)
  where
    pred_suc : suc n - 1 ≡ n
    pred_suc = omega arith

    cut : (n : ℕ) (s : Bytes) → (if leb (suc n) (length s) then n else length s) ≡ length (take n s)
    cut zero [] = refl
    cut zero (x ∷ s) = ground arith
    cut (suc n) [] = ground arith
    cut (suc n) (x ∷ s) = ground (arith, cut n s)

module _ (buf : Bytes) (buf_end : ℕ) (out : Bytes) (out_size : ℕ) where
  copy_found_text :
      (o : Option Bytes) (r : Option ℕ)
      → IsLocated buf buf_end o r
      → 0 < out_size
      → text_of out ≡ []
      → length out ≡ out_size
      → (result : Bytes) × (copy_found buf buf_end out out_size r ≡ done result)
        × (text_of result ≡ take (out_size - 1) (elim o [ none ↦ [] | some s ↦ s ]))
        × (length result ≡ out_size)
  unfolding copy_found
  copy_found_text none r e pos empty size = (out, rw e, empty ∙ sym (take-nil (out_size - 1)), size)
  copy_found_text (some s) r (q, rest, found, at, lt, chars) pos empty size =
      let m = out_size - 1 in
      let src = take m s in
      let short : length src < length out = omega (arith, length-take_le m s) in
      let (result, run, t, size') = copied_text out src (All-take IsChar m s chars) short in
      (
        result,
        rw
            (
              found,
              strnlen-drop s buf q (buf_end - q) rest at chars (omega arith),
              length_cut out_size s pos,
              load_text,
            )
            run,
        t,
        size' ∙ size,
      )
    where
      load_text : load_bytes buf q (length (take (out_size - 1) s)) ≡ done (take (out_size - 1) s)
      load_text =
          load_bytes-drop (take (out_size - 1) s) buf q (drop (out_size - 1) s ++ (0 ∷ rest)) (
            at
            ∙ ap (λ (xs : Bytes). xs ++ (0 ∷ rest)) (sym (take-append-drop (out_size - 1) s))
            ∙ append_assoc (take (out_size - 1) s) (drop (out_size - 1) s) (0 ∷ rest))

clear_text :
    (out : Bytes) (out_size : ℕ)
    → 0 < out_size
    → length out ≡ out_size
    → (r : Bytes) × (store_bytes out 0 (0 ∷ []) ≡ done r) × (text_of r ≡ []) × (length r ≡ out_size)
clear_text out out_size pos size =
    let (r, run, h) = Returns-eq (Returns-store_bytes out 0 (0 ∷ []) (omega arith)) in
    (r, run, rw (h.0) (text_of-append [] _ tt), h.1 ∙ size)

-- If a well-formed string table stands behind the formatted area, inside the buffer's end,
-- `copy_string_field` with a one-byte index leaves in an array of `out_size > 0` bytes the string
-- with that number, cut to `out_size - 1` bytes and terminated, or the empty string for 0 and for a
-- number beyond the last.
pub text_of-copy_string_field :
    (ss : List Bytes) (rest buf : Bytes) (struct_ptr formatted_len buf_end index : ℕ) (out : Bytes)
    (out_size : ℕ)
    → drop (struct_ptr + formatted_len) buf ≡ string_table ss ++ rest
    → All IsEntry ss
    → struct_ptr + formatted_len + length (string_table ss) ≤ buf_end
    → index < 256
    → 0 < out_size
    → length out ≡ out_size
    → (r : Bytes) × (copy_string_field buf struct_ptr formatted_len buf_end index out out_size
        ≡ done r)
      × (text_of r ≡ take (out_size - 1) (string_number ss index))
      × (length r ≡ out_size)
unfolding copy_string_field
text_of-copy_string_field ss rest buf struct_ptr formatted_len buf_end zero out out_size e h room b
      pos size =
    let (cleared, run, empty, size') = clear_text out out_size pos size in
    let (r, copy, t, size'') =
      copy_found_text buf buf_end cleared out_size none none refl pos empty size' in
    (r, rw run (rw (get_string-zero buf struct_ptr formatted_len buf_end) copy), t, size'')
text_of-copy_string_field ss rest buf struct_ptr formatted_len buf_end (suc k) out out_size e h room
      b pos size =
    let (cleared, run, empty, size') = clear_text out out_size pos size in
    let (found, search_run, loc) =
      get_string-IsLocated ss rest buf struct_ptr formatted_len buf_end (suc k) e h room
        (omega arith) b in
    let (r, copy, t, size'') =
      copy_found_text buf buf_end cleared out_size (get_elem? ss k) found (rw index_pred at loc) pos
        empty size' in
    (r, rw run (rw search_run copy), t, size'')
  where
    index_pred : suc k - 1 ≡ k
    index_pred = omega arith
