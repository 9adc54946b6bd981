-- ===== src/Buffer/Returns.antt =====
-- Total correctness of a run: `Returns P m` says that `m` ends, accesses nothing outside its
-- objects, and that its result satisfies `P`.
use hardware_monitor_azk.Base.{
  ℕ, zero, suc, ◌+◌, ◌*◌, ◌≤◌, ◌<◌, ◌^◌, ◌≡◌, refl, arith, ap, Bool, true, false, List, [], ◌∷◌,
  if◌then◌else◌, length, get_elem?, get_elem?-lt, All, All-get_elem?, set, leb, tests,
}
use mathlib.Core.Option.{some}
use native.Mathlib.Nat.{pow-suc}
use hardware_monitor_azk.Buffer.{Run, done, ◌>>=◌, Bytes, IsByte, load, load_le, load_bytes, store}

pub data Returns {ℓ κ} {A : Type ℓ} (P : A → Type κ) : Run A → Type (ℓ ⊔ κ) where
  returns : (a : A) → P a → Returns P (done a)

module _ {ℓ κ} {A : Type ℓ} {P : A → Type κ} where
  pub Returns-eq : {m : Run A} → Returns P m → (a : A) × (m ≡ done a) × P a
  Returns-eq (returns a h) = (a, refl, h)

  pub Returns-of_eq : {m : Run A} (a : A) → m ≡ done a → P a → Returns P m
  Returns-of_eq a e h = rw e (returns a h)

  pub Returns-mono {μ} :
      {Q : A → Type μ} {m : Run A} → Returns P m → ((a : A) → P a → Q a) → Returns Q m
  Returns-mono (returns a h) f = returns a (f a h)

  pub Returns->>= {μ ν} :
      {B : Type μ} {Q : B → Type ν} {m : Run A} {f : A → Run B}
      → Returns P m
      → ((a : A) → P a → Returns Q (f a))
      → Returns Q (m >>= f)
  Returns->>= (returns a h) k = k a h

  pub Returns-if :
      (test : Bool) {then_run else_run : Run A}
      → (test ≡ true → Returns P then_run)
      → (test ≡ false → Returns P else_run)
      → Returns P (if test then then_run else else_run)
  Returns-if true h k = h refl
  Returns-if false h k = k refl

pub Returns-load {ℓ} :
    {A : Type ℓ} (array : List A) (i : ℕ)
    → i < length array
    → Returns (λ a. get_elem? array i ≡ some a) (load array i)
unfolding load
Returns-load array i h = let (a, e) = get_elem?-lt array i h in rw e (returns a refl)

-- Only that the access is inside the array.
pub Returns-load_any {ℓ} :
    {A : Type ℓ} (array : List A) (i : ℕ)
    → i < length array
    → Returns (λ _. Unit {0}) (load array i)
Returns-load_any array i h = Returns-mono (Returns-load array i h) (λ a e. tt)

pub Returns-load-All {ℓ κ} :
    {A : Type ℓ} (P : A → Type κ) (array : List A) (i : ℕ)
    → All P array
    → i < length array
    → Returns P (load array i)
Returns-load-All P array i h lt =
    Returns-mono (Returns-load array i lt) (λ a e. All-get_elem? P array i h e)

-- A load of `n` bytes gives a number of `n` bytes.
pub Returns-load_le :
    (buf : Bytes) (p n : ℕ)
    → All IsByte buf
    → p + n ≤ length buf
    → Returns (λ v. v < 256 ^ n) (load_le buf p n)
unfolding load_le
Returns-load_le buf p zero bytes h = returns 0 (omega arith)
Returns-load_le buf p (suc n) bytes h =
    Returns->>= (Returns-load-All IsByte buf p bytes (omega arith)) λ low hl.
      Returns->>= (Returns-load_le buf (suc p) n bytes (omega arith))
        λ high hh. returns (low + 256 * high) (omega (arith, pow-suc 256 n))

pub Returns-load_bytes :
    (buf : Bytes) (p n : ℕ)
    → All IsByte buf
    → p + n ≤ length buf
    → Returns (λ bytes. All IsByte bytes × (length bytes ≡ n)) (load_bytes buf p n)
unfolding load_bytes
Returns-load_bytes buf p zero bytes h = returns [] (tt, refl)
Returns-load_bytes buf p (suc n) bytes h =
    Returns->>= (Returns-load-All IsByte buf p bytes (omega arith)) λ b hb.
      Returns->>= (Returns-load_bytes buf (suc p) n bytes (omega arith))
        λ rest hr. returns (b ∷ rest) ((hb, hr.0), ap suc hr.1)

pub Returns-store {ℓ} :
    {A : Type ℓ} (array : List A) (i : ℕ) (v : A)
    → i < length array
    → Returns (λ r. r ≡ set array i v) (store array i v)
unfolding store
Returns-store array i v h =
    Returns-if (leb (suc i) (length array)) (λ _. returns _ refl) (λ no. absurd (omega tests))
