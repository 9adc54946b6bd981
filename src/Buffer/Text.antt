-- ===== src/Buffer/Text.antt =====
-- C strings in arrays: what `strnlen` finds, and what a copy leaves in an array.
use hardware_monitor_azk.Base.{
  ℕ, zero, suc, ◌+◌, ◌≤◌, ◌<◌, ◌≡◌, ◌≢◌, refl, ap, ◌∙◌, arith, [], ◌∷◌, ◌++◌, some, leb, ◌==◌,
  if◌then◌else◌, tests, length, take, drop, get_elem?, All, length-append, length-take, length-drop,
  get_elem?-drop, drop-suc,
}
use hardware_monitor_azk.Buffer.{done, Bytes, load, load_bytes, store_bytes, strnlen}
use hardware_monitor_azk.Buffer.Returns.{Returns, returns, Returns->>=, Returns-if, Returns-load}

abbrev pub IsChar : ℕ → Type 0
IsChar b = b ≢ 0

-- The C string that an array holds: its bytes up to the first NUL.
unfoldable pub text_of : Bytes → Bytes
text_of [] = []
text_of (b ∷ bs) = let rest = text_of bs in if b == 0 then [] else b ∷ rest

pub text_of-append : (s rest : Bytes) → All IsChar s → text_of (s ++ (0 ∷ rest)) ≡ s
unfolding text_of
text_of-append [] rest h = refl
text_of-append (b ∷ s) rest h = ground (arith, text_of-append s rest h.1, h.0)

-- `k` is the result of `strnlen` on the `n` bytes at `p`.
pub record IsTextEnd (buf : Bytes) (p n k : ℕ) : Type 0 where
  pub within : k ≤ n
  pub before : (i : ℕ) → i < k → get_elem? buf (p + i) ≢ some 0
  pub at_end : k < n → get_elem? buf (p + k) ≡ some 0

IsTextEnd-zero : (buf : Bytes) (p : ℕ) → IsTextEnd buf p 0 0
IsTextEnd-zero buf p = record {
  within = omega arith;
  before = λ i h. absurd (omega arith);
  at_end = λ h. absurd (omega arith);
}

IsTextEnd-here : (buf : Bytes) (p n : ℕ) → get_elem? buf p ≡ some 0 → IsTextEnd buf p (suc n) 0
IsTextEnd-here buf p n e = record {
  within = omega arith;
  before = λ i h. absurd (omega arith);
  at_end = λ h. ap (get_elem? buf) (omega arith) ∙ e;
}

IsTextEnd-later :
    (buf : Bytes) (p n k b : ℕ)
    → get_elem? buf p ≡ some b
    → b ≢ 0
    → IsTextEnd buf (suc p) n k
    → IsTextEnd buf p (suc n) (suc k)
IsTextEnd-later buf p n k b e ne t = record {
  within = omega arith;
  before = early;
  at_end = λ h. ap (get_elem? buf) (omega arith) ∙ t.at_end (omega arith);
}
  where
    first : get_elem? buf p ≢ some 0
    first z = ground arith

    early : (i : ℕ) → i < suc k → get_elem? buf (p + i) ≢ some 0
    early zero h z = first (ap (get_elem? buf) (omega arith) ∙ z)
    early (suc i) h z = t.before i (omega arith) (ap (get_elem? buf) (omega arith) ∙ z)

pub Returns-strnlen :
    (buf : Bytes) (p n : ℕ) → p + n ≤ length buf → Returns (IsTextEnd buf p n) (strnlen buf p n)
unfolding strnlen
Returns-strnlen buf p zero h = returns 0 (IsTextEnd-zero buf p)
Returns-strnlen buf p (suc n) h = Returns->>= (Returns-load buf p (omega arith)) λ b e.
    Returns-if (b == 0) (λ z. returns 0 (IsTextEnd-here buf p n (ground arith)))
      (λ nz.
        Returns->>= (Returns-strnlen buf (suc p) n (omega arith))
          λ k t. returns (suc k) (IsTextEnd-later buf p n k b e (ground arith) t))

-- The calls on a string whose bytes are known.
pub strnlen-drop :
    (s buf : Bytes) (p n : ℕ) (rest : Bytes)
    → drop p buf ≡ s ++ (0 ∷ rest)
    → All IsChar s
    → length s < n
    → strnlen buf p n ≡ done (length s)
unfolding strnlen load
strnlen-drop s buf p zero rest e h lt = absurd (omega arith)
strnlen-drop [] buf p (suc n) rest e h lt = rw (get_elem?-drop buf p e)
strnlen-drop (b ∷ s) buf p (suc n) rest e h lt = ground (
  arith,
  get_elem?-drop buf p e,
  h.0,
  strnlen-drop s buf (suc p) n rest (drop-suc buf p e) h.1 (omega arith),
)

pub load_bytes-drop :
    (s buf : Bytes) (p : ℕ) (rest : Bytes)
    → drop p buf ≡ s ++ rest
    → load_bytes buf p (length s) ≡ done s
unfolding load_bytes load
load_bytes-drop [] buf p rest e = refl
load_bytes-drop (b ∷ s) buf p rest e =
    rw (get_elem?-drop buf p e, load_bytes-drop s buf (suc p) rest (drop-suc buf p e))

-- A copy inside the array keeps the array's size.
pub Returns-store_bytes :
    (array : Bytes) (i : ℕ) (bytes : Bytes)
    → i + length bytes ≤ length array
    → Returns
        (λ r.
          (r ≡ take i array ++ (bytes ++ drop (i + length bytes) array))
          × (length r ≡ length array))
        (store_bytes array i bytes)
unfolding store_bytes
Returns-store_bytes array i bytes h =
    Returns-if (leb (i + length bytes) (length array)) (λ _. returns _ (refl, size))
      (λ no. absurd (omega tests))
  where
    size : length (take i array ++ (bytes ++ drop (i + length bytes) array)) ≡ length array
    size =
        rw (length-append, length-append, length-take i array (omega arith), length-drop)
          (omega arith)
