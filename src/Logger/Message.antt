-- ===== src/Logger/Message.antt =====
-- The message that the logger's backend is given.
use hardware_monitor_azk.Logger.{
  finish_line, message, snprintf, vsnprintf, level_name, log_write, total_length, Logger, prefix,
}
use hardware_monitor_azk.Base.{
  ℕ, suc, ◌+◌, ◌≤◌, ◌<◌, ◌≡◌, refl, ap, ◌∙◌, arith, [], ◌∷◌, ◌++◌, length, set, le→leb, Option, min,
  take, length-take, ◌-◌, take_all, some, none, sym, if◌then◌else◌, ◌&&◌, leb,
}
use hardware_monitor_azk.Buffer.{Run, fault, stuck, load_bytes, done, ◌>>=◌, Bytes, store}
use mathlib.Core.List.{append_assoc}
use hardware_monitor_azk.Buffer.Text.{load_bytes-drop}
use hardware_monitor_azk.Base.{
  take-append, ltb, lt→ltb, le→ltb_false, lt→leb_false, ltb→lt, ltb_false→le, Bool-cases, inl, inr,
  length-append,
}
use hardware_monitor_azk.Logger.Printed.{
  text_in, set_length-append, room_for, take_behind, printed_lem, level_name_bound,
}

-- What is taken from the array behind the two calls.
finish_line-room :
    (text rest : Bytes)
    → length text + suc (length rest) ≡ 512
    → length text < 511
    → finish_line (text ++ (0 ∷ rest)) (length text) ≡ done (text ++ (10 ∷ []))
unfolding finish_line store
finish_line-room text rest size room =
    rw
      (
        lt→ltb (length text + 1) 512 (omega arith),
        le→leb (suc (length text)) (length (text ++ (0 ∷ rest)))
            (omega (arith, length-append text (0 ∷ rest))),
        line,
        loaded,
      )
      refl
  where
    line : set (text ++ (0 ∷ rest)) (length text) 10 ≡ text ++ (10 ∷ rest)
    line = ap (λ k. set (text ++ (0 ∷ rest)) k 10) zeroth ∙ set_length-append text (0 ∷ rest) 0 10
      where
        zeroth : length text ≡ length text + 0
        zeroth = omega arith

    loaded : load_bytes (text ++ (10 ∷ rest)) 0 (length text + 1) ≡ done (text ++ (10 ∷ []))
    loaded =
        ap (load_bytes (text ++ (10 ∷ rest)) 0) (sym (length-append text (10 ∷ [])))
        ∙ load_bytes-drop (text ++ (10 ∷ [])) (text ++ (10 ∷ rest)) 0 rest
            (sym (append_assoc text (10 ∷ []) rest))

finish_line-full :
    (text rest : Bytes)
    → length text ≡ 511
    → finish_line (text ++ (0 ∷ rest)) (length text) ≡ done text
unfolding finish_line
finish_line-full text rest full =
    rw (le→ltb_false (length text + 1) 512 (omega arith))
      (load_bytes-drop text (text ++ (0 ∷ rest)) 0 (0 ∷ rest) refl)

at_length : {m n : ℕ} {xs ys : Bytes} → m ≡ n → xs ≡ ys → finish_line ys n ≡ finish_line xs m
at_length {m} {n} {xs} {ys} p q = ap (finish_line ys) (sym p) ∙ ap (λ zs. finish_line zs m) (sym q)

-- With the whole text in the array, and with as much of it as there is room for.
whole_lem :
    (start text rest : Bytes)
    → length start + (length text + suc (length rest)) ≡ 512
    → length start + length text < 511
    → finish_line (start ++ (text ++ (0 ∷ rest))) (length start + length text)
      ≡ done (take 511 (start ++ (text ++ (10 ∷ []))))
whole_lem start text rest size room =
    at_length (length-append start text) (append_assoc start text (0 ∷ rest))
    ∙ finish_line-room (start ++ text) rest (omega (arith, length-append start text))
        (omega (arith, length-append start text))
    ∙ ap done (
        append_assoc start text (10 ∷ []) ∙ sym (take_all 511 (start ++ (text ++ (10 ∷ []))) bound))
  where
    bound : length (start ++ (text ++ (10 ∷ []))) ≤ 511
    bound = omega (arith, length-append start (text ++ (10 ∷ [])), length-append text (10 ∷ []))

cut_lem :
    (start text rest : Bytes) (n : ℕ)
    → length start + n ≡ 511
    → n ≤ length text
    → finish_line (start ++ (take n text ++ (0 ∷ rest))) 511
      ≡ done (take 511 (start ++ (text ++ (10 ∷ []))))
cut_lem start text rest n full most =
    at_length size (append_assoc start (take n text) (0 ∷ rest))
    ∙ finish_line-full (start ++ take n text) rest size
    ∙ ap done (sym kept)
  where
    size : length (start ++ take n text) ≡ 511
    size = omega (arith, length-append start (take n text), length-take n text most)

    kept : take 511 (start ++ (text ++ (10 ∷ []))) ≡ start ++ take n text
    kept =
        ap (λ k. take k (start ++ (text ++ (10 ∷ [])))) (sym full)
        ∙ take_behind start (text ++ (10 ∷ [])) n
        ∙ ap (◌++◌ start) (take-append n text (10 ∷ []) most)

ended_lem :
    (start text rest : Bytes) (n : ℕ)
    → n ≡ room_for text (512 - length start)
    → length start < 511
    → length start + (n + suc (length rest)) ≡ 512
    → finish_line (start ++ (take n text ++ (0 ∷ rest))) (min (length start + length text) 511)
      ≡ done (take 511 (start ++ (text ++ (10 ∷ []))))
ended_lem start text rest n e small size =
    elim (Bool-cases (ltb (length start + length text) 511)) [
      | inl room ↦
          let short = ltb→lt (length start + length text) 511 room in
          at_length (omega (arith, short))
            (ap (λ xs. start ++ (xs ++ (0 ∷ rest))) (sym (take_all n text (omega (arith, short)))))
          ∙ whole_lem start text rest (omega (arith, short)) short
      | inr full ↦
          let long = ltb_false→le (length start + length text) 511 full in
          ap (finish_line (start ++ (take n text ++ (0 ∷ rest)))) (omega (arith, long))
          ∙ cut_lem start text rest n (omega (arith, long)) (omega (arith, long))
    ]

-- What is behind the two calls, for a body that gives a text or none.
total_lem :
    (p : ℕ) (body : Option Bytes)
    → p ≤ 511
    → total_length p body ≡ min (p + length (text_in body)) 511
unfolding total_length
total_lem p none small = omega (arith, small)
total_lem p (some text) small = refl

regroup :
    (m : Run Bytes) (f : Bytes → Run Bytes) (g : Bytes → Run Bytes)
    → (m >>= λ x. f x >>= g) ≡ (m >>= f >>= g)
regroup (done x) f g = refl
regroup fault f g = refl
regroup stuck f g = refl

message_lem :
    (level : ℕ) (body : Option Bytes) (buf : Bytes)
    → length buf ≡ 512
    → message level body buf ≡ done (take 511 (prefix level ++ (text_in body ++ (10 ∷ []))))
unfolding message
message_lem level body buf size = finished (printed_lem start body buf size (omega (arith, small)))
  where
    start : Bytes
    start = prefix level

    n : ℕ
    n = room_for (text_in body) (512 - length start)

    small : length start < 500
    small = omega (arith, level_name_bound level, length-append (level_name level) (93 ∷ 32 ∷ []))

    uncut : min (length start) 511 ≡ length start
    uncut = omega (arith, small)

    finished :
        (rest : Bytes) × ((snprintf buf 0 512 start >>= λ prefixed.
        vsnprintf prefixed (length start) (512 - length start) body)
            ≡ done (start ++ (take n (text_in body) ++ (0 ∷ rest))))
          × (length start + (n + suc (length rest)) ≡ 512)
        → message level body buf ≡ done (take 511 (start ++ (text_in body ++ (10 ∷ []))))
    finished (rest, printed, left) =
        ap
          (λ m. snprintf buf 0 512 start >>= λ prefixed.
            vsnprintf prefixed m (512 - m) body >>= λ array.
            finish_line array (total_length m body))
          uncut
        ∙ regroup (snprintf buf 0 512 start)
            (λ prefixed. vsnprintf prefixed (length start) (512 - length start) body)
            (λ array. finish_line array (total_length (length start) body))
        ∙ ap (λ r. r >>= λ array. finish_line array (total_length (length start) body)) printed
        ∙ ap (finish_line (start ++ (take n (text_in body) ++ (0 ∷ rest))))
            (total_lem (length start) body (omega (arith, small)))
        ∙ ended_lem start (text_in body) rest n refl (omega (arith, small)) left

-- On an array of 512 bytes, `log_write` ends inside the array for every level and every text. With
-- a backend and a level that is not below the minimum it gives the backend the first 511 bytes of
-- the level's prefix, the text (nothing if `vsnprintf` fails and leaves the array) and a line end;
-- otherwise it gives it nothing.
pub log_write_lem :
    (l : Logger) (level : ℕ) (body : Option Bytes) (buf : Bytes)
    → length buf ≡ 512
    → log_write l level body buf
      ≡ done (
          if l.has_backend && leb l.min_level level
          then some (take 511 (prefix level ++ (text_in body ++ (10 ∷ []))))
          else none)
unfolding log_write
log_write_lem l level body buf size =
    rw (message_lem level body buf size) (elim (Bool-cases (l.has_backend)) [
      | inl has ↦ elim (Bool-cases (ltb level l.min_level)) [
        | inl below ↦
            rw (has, below, lt→leb_false l.min_level level (ltb→lt level l.min_level below)) refl
        | inr above ↦
            rw (has, above, le→leb l.min_level level (ltb_false→le level l.min_level above)) refl
      ]
      | inr lacks ↦ rw lacks refl
    ])
