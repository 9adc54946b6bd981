-- ===== src/Buffer/Words.antt =====
-- Integers as little-endian bytes, and arrays that are filled from the front.
use hardware_monitor_azk.Base.{
  ℕ, zero, suc, ◌/◌, ◌%◌, ◌^◌, ◌<◌, ◌≡◌, refl, ap, arith, List, [], ◌∷◌, ◌++◌, length, take, drop,
  set, ◌+◌,
}
use hardware_monitor_azk.Buffer.{done, Bytes, load, load_le}
use native.Mathlib.Nat.{pow-suc}
use hardware_monitor_azk.Base.{get_elem?-drop, drop-suc, drop_append}

-- The `n` bytes of an integer.
abbrev pub le_bytes : ℕ → ℕ → Bytes
le_bytes zero v = []
le_bytes (suc n) v = v % 256 ∷ le_bytes n (v / 256)

pub length-le_bytes : (n v : ℕ) → length (le_bytes n v) ≡ n
length-le_bytes zero v = refl
length-le_bytes (suc n) v = ap suc (length-le_bytes n (v / 256))

pub load_le-le_bytes :
    (n v : ℕ) (buf : Bytes) (p : ℕ) (rest : Bytes)
    → v < 256 ^ n
    → drop p buf ≡ le_bytes n v ++ rest
    → load_le buf p n ≡ done v
unfolding load_le load
load_le-le_bytes zero v buf p rest h e = ap done (omega arith)
load_le-le_bytes (suc n) v buf p rest h e =
    rw
      (
        get_elem?-drop buf p e,
        load_le-le_bytes n (v / 256) buf (suc p) rest below (drop-suc buf p e),
      )
      (ap done (omega arith))
  where
    below : v / 256 < 256 ^ n
    below = omega (arith, pow-suc 256 n)

module _ {ℓ} {A : Type ℓ} where
  pub load-drop :
      (xs : List A) (i : ℕ) (x : A) (rest : List A) → drop i xs ≡ x ∷ rest → load xs i ≡ done x
  unfolding load
  load-drop xs i x rest e = rw (get_elem?-drop xs i e)

  -- Writing the element behind the first `n` extends them by one.
  pub take-set :
      (xs : List A) (n : ℕ) (v : A)
      → n < length xs
      → take (suc n) (set xs n v) ≡ take n xs ++ (v ∷ [])
  take-set [] n v h = absurd (omega arith)
  take-set (x ∷ xs) zero v h = refl
  take-set (x ∷ xs) (suc n) v h = ap (◌∷◌ x) (take-set xs n v (omega arith))

module _ (table : Bytes) where
  -- An integer, and a byte, behind a part of a table that is known.
  pub load_le_at :
      (p n : ℕ) (front : Bytes) (v : ℕ) (rest : Bytes) (q : ℕ)
      → drop p table ≡ front ++ (le_bytes n v ++ rest)
      → v < 256 ^ n
      → q ≡ p + length front
      → load_le table q n ≡ done v
  load_le_at p n front v rest q e lt at =
      rw at (load_le-le_bytes n v table (p + length front) rest lt (drop_append table p front e))

  pub load_at :
      (p : ℕ) (front : Bytes) (v : ℕ) (rest : Bytes) (q : ℕ)
      → drop p table ≡ front ++ (v ∷ rest)
      → q ≡ p + length front
      → load table q ≡ done v
  load_at p front v rest q e at =
      rw at (load-drop table (p + length front) v rest (drop_append table p front e))
