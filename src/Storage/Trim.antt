-- ===== src/Storage/Trim.antt =====
-- `trim_copy` of src/platform/windows/storage_enum_windows.c.
use hardware_monitor_azk.Smbios.Types.{IsField}
use hardware_monitor_azk.Base.{
  min, ℕ, zero, suc, ◌+◌, ◌-◌, ◌≤◌, ◌<◌, ◌≡◌, ◌≢◌, refl, sym, ap, ◌∙◌, arith, true, false, ◌||◌, [],
  ◌∷◌, ◌++◌, Option, some, ◌⊎◌, inl, inr, ltb, leb, ◌==◌, if◌then◌else◌, Bool-cases, tests, length,
  take, drop, set, get_elem?, le→leb,
}
use hardware_monitor_azk.Buffer.{Run, done, ◌>>=◌, Bytes, load, store, load_bytes, store_bytes}
use mathlib.Core.Path.{subst}
use hardware_monitor_azk.Base.{
  take-append-drop, Bool-cases, inl, inr, ltb, tests, ◌⊎◌, sym, ◌∙◌, set, min, take, drop, zero,
  suc, ap, length-append, length-take, length-drop,
}
use hardware_monitor_azk.Buffer.Returns.{
  Returns, returns, Returns->>=, Returns-if, Returns-mono, Returns-load,
}
use hardware_monitor_azk.Buffer.Text.{load_bytes-drop, text_of}

-- The loop over `src_len`.
unfoldable pub trim_end : Bytes → ℕ → ℕ → Run ℕ
trim_end src p zero = done 0
trim_end src p (suc n) = do
  b ← load src (p + n)
  let rest = trim_end src p n
  if (b == 32) || (b == 0) then rest else done (suc n)

-- The loop over `start`, for `n` characters from there.
unfoldable pub skip_blanks : Bytes → ℕ → ℕ → ℕ → Run ℕ
skip_blanks src p start zero = done start
skip_blanks src p start (suc n) = do
  b ← load src (p + start)
  let rest = skip_blanks src p (suc start) n
  if b == 32 then rest else done start

-- `src` is the object at whose offset `p` the source stands.
unfoldable pub trim_copy : Bytes → ℕ → Bytes → ℕ → ℕ → Run Bytes
unfolding trim_end skip_blanks
trim_copy dst dst_size src p src_len = do
  len ← trim_end src p src_len
  start ← skip_blanks src p 0 len
  let n = if leb dst_size (len - start) then dst_size - 1 else len - start
  text ← load_bytes src (p + start) n
  copied ← store_bytes dst 0 text
  store copied n 0

abbrev IsPad : Option ℕ → Type 0
IsPad b = (b ≡ some 32) ⊎ (b ≡ some 0)

-- Of the `len` characters at `p`, those from `start` to `stop` are the text, and around it is
-- nothing but blanks in front and blanks and NULs behind.
pub record IsText (src : Bytes) (p len start stop : ℕ) : Type 0 where
  pub ordered : (start ≤ stop) × (stop ≤ len)
  pub front : (i : ℕ) → i < start → get_elem? src (p + i) ≡ some 32
  pub back : (i : ℕ) → stop ≤ i → i < len → IsPad (get_elem? src (p + i))
  pub first : start < stop → get_elem? src (p + start) ≢ some 32
  pub last : (k : ℕ) → suc k ≡ stop → ¬ IsPad (get_elem? src (p + k))

record IsEnd (src : Bytes) (p len stop : ℕ) : Type 0 where
  within : stop ≤ len
  back : (i : ℕ) → stop ≤ i → i < len → IsPad (get_elem? src (p + i))
  last : (k : ℕ) → suc k ≡ stop → ¬ IsPad (get_elem? src (p + k))

blank_or_nul : (o : Option ℕ) (b : ℕ) → o ≡ some b → ((b == 32) || (b == 0)) ≡ true → IsPad o
blank_or_nul o b e pad = ground arith

neither : (o : Option ℕ) (b : ℕ) → o ≡ some b → ((b == 32) || (b == 0)) ≡ false → ¬ IsPad o
neither o b e other (inl blank) = ground arith
neither o b e other (inr nul) = ground arith

-- What holds below `n` and at `n` holds up to `n`.
up_to {ℓ} : (P : ℕ → Type ℓ) (n i : ℕ) → i < suc n → P n → (i < n → P i) → P i
up_to P n i h at below = elim (Bool-cases (ltb i n)) [
  | inl lt ↦ below (omega tests)
  | inr ge ↦ let same : n ≡ i = omega tests in subst P same at
]

trim_end-Returns :
    (src : Bytes) (p n : ℕ) → p + n ≤ length src → Returns (IsEnd src p n) (trim_end src p n)
unfolding trim_end
trim_end-Returns src p zero h = returns 0 (record {
  within = omega arith;
  back = λ i x y. absurd (omega arith);
  last = λ k e. absurd (omega arith);
})
trim_end-Returns src p (suc n) h = Returns->>= (Returns-load src (p + n) (omega arith)) λ b e.
    Returns-if ((b == 32) || (b == 0))
      (λ pad. Returns-mono (trim_end-Returns src p n (omega arith)) λ stop t. record {
        within = omega (arith, t.within);
        back = λ i x y.
            up_to (λ j. IsPad (get_elem? src (p + j))) n i y (blank_or_nul _ b e pad) (t.back i x);
        last = t.last;
      })
      (λ other. returns _ (record {
        within = omega arith;
        back = λ i x y. absurd (omega arith);
        last = λ k at.
            let same : n ≡ k = omega arith in
            subst (λ j. ¬ IsPad (get_elem? src (p + j))) same (neither _ b e other);
      }))

skip_blanks-Returns :
    (src : Bytes) (p start n : ℕ)
    → p + (start + n) ≤ length src
    → ((i : ℕ) → i < start → get_elem? src (p + i) ≡ some 32)
    → Returns
        (λ r.
          (r ≤ start + n)
          × ((i : ℕ) → i < r → get_elem? src (p + i) ≡ some 32)
          × (r < start + n → get_elem? src (p + r) ≢ some 32))
        (skip_blanks src p start n)
unfolding skip_blanks
skip_blanks-Returns src p start zero h front =
    returns start (omega arith, front, λ lt. absurd (omega arith))
skip_blanks-Returns src p start (suc n) h front =
    Returns->>= (Returns-load src (p + start) (omega arith)) λ b e.
      Returns-if (b == 32)
        (λ blank.
          Returns-mono
            (skip_blanks-Returns src p (suc start) n (omega arith) (λ i lt.
              up_to (λ j. get_elem? src (p + j) ≡ some 32) start i lt (ground arith) (front i)))
            λ r k. (omega (arith, k.0), k.1, λ lt. k.2 (omega arith)))
        (λ other. returns start (omega arith, front, λ lt blank. ground arith))

-- `memcpy` from inside an object takes those bytes.
pub load_bytes_inside :
    (src : Bytes) (q n : ℕ) → q + n ≤ length src → load_bytes src q n ≡ done (take n (drop q src))
load_bytes_inside src q n h =
    ap (load_bytes src q) (sym size)
    ∙ load_bytes-drop (take n (drop q src)) src q (drop n (drop q src))
        (sym (take-append-drop n (drop q src)))
  where
    size : length (take n (drop q src)) ≡ n
    size = length-take n (drop q src) (omega (arith, length-drop q src))

pub set_behind :
    (text dst : Bytes) (v : ℕ)
    → length text < length dst
    → set (text ++ drop (length text) dst) (length text) v
      ≡ text ++ (v ∷ drop (suc (length text)) dst)
set_behind [] [] v h = absurd (omega arith)
set_behind [] (y ∷ ys) v h = refl
set_behind (x ∷ xs) [] v h = absurd (omega arith)
set_behind (x ∷ xs) (y ∷ ys) v h = ap (◌∷◌ x) (set_behind xs ys v (omega arith))

store_text :
    (dst text : Bytes)
    → length text < length dst
    → (store_bytes dst 0 text >>= λ copied. store copied (length text) 0)
      ≡ done (text ++ (0 ∷ drop (suc (length text)) dst))
unfolding store_bytes store
store_text dst text h =
    rw (fits, from_zero, le→leb (suc (length text)) (length (text ++ drop (length text) dst)) room)
      (ap done (set_behind text dst 0 h))
  where
    from_zero : 0 + length text ≡ length text
    from_zero = omega arith

    fits : leb (0 + length text) (length dst) ≡ true
    fits = le→leb (0 + length text) (length dst) (omega arith)

    room : suc (length text) ≤ length (text ++ drop (length text) dst)
    room = omega (arith, length-append text (drop (length text) dst), length-drop (length text) dst)

put_text :
    (dst src : Bytes) (q n : ℕ)
    → q + n ≤ length src
    → n < length dst
    → (load_bytes src q n >>= λ text. store_bytes dst 0 text >>= λ copied. store copied n 0)
      ≡ done (take n (drop q src) ++ (0 ∷ drop (suc n) dst))
put_text dst src q n h room =
    ap (λ (m : Run Bytes). m >>= λ text. store_bytes dst 0 text >>= λ copied. store copied n 0)
      (load_bytes_inside src q n h)
    ∙ subst
        (λ m.
          (store_bytes dst 0 text >>= λ copied. store copied m 0)
          ≡ done (text ++ (0 ∷ drop (suc m) dst)))
        size (store_text dst text (omega (arith, size)))
  where
    text : Bytes
    text = take n (drop q src)

    size : length text ≡ n
    size = length-take n (drop q src) (omega (arith, length-drop q src))

-- What the copy leaves: the text, cut to the room in front of its NUL, and the rest as it was.
pub record IsTrimmed (dst : Bytes) (src : Bytes) (p len : ℕ) (copied : Bytes) : Type 0 where
  pub start : ℕ
  pub stop : ℕ
  pub text : IsText src p len start stop
  pub copy :
      let n = min (stop - start) (length dst - 1) in
      copied ≡ take n (drop (p + start) src) ++ (0 ∷ drop (suc n) dst)

-- If the source lies inside its object and the array has at least one byte, `trim_copy` ends inside
-- both and leaves in the array the source without the blanks in front of it and the blanks and NULs
-- behind it, cut to one byte less than the array holds, then a NUL, then what stood there before.
pub trim_copy-IsTrimmed :
    (dst src : Bytes) (dst_size p src_len : ℕ)
    → length dst ≡ dst_size
    → 0 < dst_size
    → p + src_len ≤ length src
    → Returns (IsTrimmed dst src p src_len) (trim_copy dst dst_size src p src_len)
unfolding trim_copy
trim_copy-IsTrimmed dst src dst_size p src_len size room h =
    Returns->>= (trim_end-Returns src p src_len h) λ stop t.
      Returns->>=
        (skip_blanks-Returns src p 0 stop (omega (arith, t.within)) (λ i lt. absurd (omega arith)))
        λ start k.
          let n = if leb dst_size (stop - start) then dst_size - 1 else stop - start in
          let cut : n ≡ min (stop - start) (length dst - 1) = ground arith in
          rw
            (put_text dst src (p + start) n (omega (arith, cut, k.0, t.within))
              (omega (arith, cut)))
            (returns _ (record {
              start = start;
              stop = stop;
              text = record {
                ordered = (omega (arith, k.0), t.within);
                front = k.1;
                back = t.back;
                first = λ lt. k.2 (omega arith);
                last = t.last;
              };
              copy = ap (λ m. take m (drop (p + start) src) ++ (0 ∷ drop (suc m) dst)) cut;
            }))

text_of_bound : (s rest : Bytes) → length (text_of (s ++ (0 ∷ rest))) ≤ length s
unfolding text_of
text_of_bound [] rest = omega arith
text_of_bound (b ∷ s) rest = ground (arith, text_of_bound s rest)

-- A trimmed text is terminated inside its array, whose size it keeps.
pub IsTrimmed-IsField :
    (dst src : Bytes) (p len : ℕ) (copied : Bytes)
    → 0 < length dst
    → p + len ≤ length src
    → IsTrimmed dst src p len copied
    → IsField (length dst) copied
IsTrimmed-IsField dst src p len copied room inside t =
    subst (IsField (length dst)) (sym t.copy) (record {
      size = omega (arith, whole, taken, length-drop (suc n) dst);
      terminated = omega (arith, taken, text_of_bound text (drop (suc n) dst));
    })
  where
    n : ℕ
    n = min (t.stop - t.start) (length dst - 1)

    text : Bytes
    text = take n (drop (p + t.start) src)

    taken : length text ≡ n
    taken =
        length-take n (drop (p + t.start) src)
          (omega (arith, length-drop (p + t.start) src, t.text.ordered.0, t.text.ordered.1))

    whole : length (text ++ (0 ∷ drop (suc n) dst)) ≡ length text + suc (length (drop (suc n) dst))
    whole = length-append text (0 ∷ drop (suc n) dst)
