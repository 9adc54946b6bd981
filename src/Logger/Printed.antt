-- ===== src/Logger/Printed.antt =====
-- The array behind the two calls of printf functions in `log_write`.
use hardware_monitor_azk.Logger.{snprintf, vsnprintf, level_name}
use hardware_monitor_azk.Base.{
  ℕ, suc, ◌+◌, ◌≤◌, ◌<◌, ◌≡◌, refl, ap, ◌∙◌, arith, [], ◌∷◌, ◌++◌, length, drop, set, le→leb,
  Option, min, take, length-take, ◌-◌, take_all, some, none, sym, zero,
}
use hardware_monitor_azk.Buffer.{done, ◌>>=◌, Bytes, store, store_bytes}
use hardware_monitor_azk.Base.{length-append, length-drop, take_length-append}
use mathlib.Core.Path.{subst}
use hardware_monitor_azk.Storage.Trim.{set_behind}

drop_length-append :
    (front rest : Bytes) (n : ℕ) → drop (length front + n) (front ++ rest) ≡ drop n rest
drop_length-append [] rest n = ap (λ k. drop k rest) (omega arith)
drop_length-append (x ∷ front) rest n =
    ap (λ k. drop k (x ∷ (front ++ rest))) more ∙ drop_length-append front rest n
  where
    more : suc (length front) + n ≡ suc (length front + n)
    more = omega arith

pub set_length-append :
    (front rest : Bytes) (n v : ℕ)
    → set (front ++ rest) (length front + n) v ≡ front ++ set rest n v
set_length-append [] rest n v = ap (λ k. set rest k v) (omega arith)
set_length-append (x ∷ front) rest n v =
    ap (λ k. set (x ∷ (front ++ rest)) k v) more ∙ ap (◌∷◌ x) (set_length-append front rest n v)
  where
    more : suc (length front) + n ≡ suc (length front + n)
    more = omega arith

-- Text put behind the front of an array, with a NUL.
put_behind :
    (front rest text : Bytes)
    → length text < length rest
    → (store_bytes (front ++ rest) (length front) text >>= λ copied.
        store copied (length front + length text) 0)
      ≡ done (front ++ (text ++ (0 ∷ drop (suc (length text)) rest)))
unfolding store_bytes store
put_behind front rest text h =
    rw
      (
        le→leb (length front + length text) (length (front ++ rest))
            (omega (arith, length-append front rest)),
        take_length-append front rest,
        drop_length-append front rest (length text),
        le→leb (suc (length front + length text))
            (length (front ++ (text ++ drop (length text) rest))) room,
        set_length-append front (text ++ drop (length text) rest) (length text) 0,
        set_behind text rest 0 h,
      )
      refl
  where
    room : suc (length front + length text) ≤ length (front ++ (text ++ drop (length text) rest))
    room = omega (
      arith,
      length-append front (text ++ drop (length text) rest),
      length-append text (drop (length text) rest),
      length-drop (length text) rest,
    )

-- How much of a text goes into `size` bytes with its NUL.
abbrev pub room_for : Bytes → ℕ → ℕ
room_for text size = min (length text) (size - 1)

pub snprintf_lem :
    (front rest text : Bytes) (size : ℕ)
    → 0 < size
    → size ≤ length rest
    → let n = room_for text size in
      snprintf (front ++ rest) (length front) size text
      ≡ done (front ++ (take n text ++ (0 ∷ drop (suc n) rest)))
unfolding snprintf
snprintf_lem front rest text size positive room =
    subst
      (λ m.
        (store_bytes (front ++ rest) (length front) (take n text) >>= λ copied.
        store copied (length front + m) 0)
        ≡ done (front ++ (take n text ++ (0 ∷ drop (suc m) rest))))
      taken (put_behind front rest (take n text) (omega (arith, taken)))
  where
    n : ℕ
    n = room_for text size

    taken : length (take n text) ≡ n
    taken = length-take n text (omega arith)

abbrev pub text_in : Option Bytes → Bytes
text_in none = []
text_in (some text) = text

pub take_behind :
    (front ys : Bytes) (n : ℕ) → take (length front + n) (front ++ ys) ≡ front ++ take n ys
take_behind [] ys n = ap (λ k. take k ys) (omega arith)
take_behind (x ∷ front) ys n =
    ap (λ k. take k (x ∷ (front ++ ys))) more ∙ ap (◌∷◌ x) (take_behind front ys n)
  where
    more : suc (length front) + n ≡ suc (length front + n)
    more = omega arith

take_nil : (n : ℕ) → take {A = ℕ} n [] ≡ []
take_nil zero = refl
take_nil (suc n) = refl

-- The array behind both calls: the prefix, as much of the text as there is room for, and a NUL.
pub printed_lem :
    (start : Bytes) (body : Option Bytes) (buf : Bytes)
    → length buf ≡ 512
    → length start < 511
    → let n = room_for (text_in body) (512 - length start) in
      (rest : Bytes) × ((snprintf buf 0 512 start >>= λ prefixed.
      vsnprintf prefixed (length start) (512 - length start) body)
        ≡ done (start ++ (take n (text_in body) ++ (0 ∷ rest))))
      × (length start + (n + suc (length rest)) ≡ 512)
unfolding vsnprintf
printed_lem start body buf size small = by_body body
  where
    rest : Bytes
    rest = 0 ∷ drop (suc (length start)) buf

    rest_size : length start + length rest ≡ 512
    rest_size = omega (arith, size, length-drop (suc (length start)) buf)

    prefixed : snprintf buf 0 512 start ≡ done (start ++ rest)
    prefixed =
        snprintf_lem [] buf start 512 (omega arith) (omega (arith, size))
        ∙ ap (λ m. done (take m start ++ (0 ∷ drop (suc m) buf))) whole
        ∙ ap (λ xs. done (xs ++ rest)) (take_all (length start) start (omega arith))
      where
        whole : room_for start 512 ≡ length start
        whole = omega arith

    by_body :
        (body : Option Bytes)
        → let n = room_for (text_in body) (512 - length start) in
          (left : Bytes) × ((snprintf buf 0 512 start >>= λ prefixed.
          vsnprintf prefixed (length start) (512 - length start) body)
            ≡ done (start ++ (take n (text_in body) ++ (0 ∷ left))))
          × (length start + (n + suc (length left)) ≡ 512)
    by_body none = (
      drop (suc (length start)) buf,
      rw prefixed (
          ap (λ (xs : Bytes). done (start ++ (xs ++ (0 ∷ drop (suc (length start)) buf))))
            (sym (take_nil (room_for [] (512 - length start))))),
      omega (arith, rest_size),
    )
    by_body (some text) =
        let n = room_for text (512 - length start) in
        (
          drop (suc n) rest,
          rw prefixed (
              snprintf_lem start rest text (512 - length start) (omega arith)
                (omega (arith, rest_size))),
          omega (arith, rest_size, length-drop (suc n) rest),
        )

pub level_name_bound : (level : ℕ) → length (level_name level) ≤ 7
unfolding level_name
level_name_bound level = ground arith
