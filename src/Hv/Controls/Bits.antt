-- ===== src/Hv/Controls/Bits.antt =====
-- The fixed bits of a control field.
use hardware_monitor_azk.Hv.Controls.{adjust_control_value}
use hardware_monitor_azk.Base.{
  min, ℕ, zero, suc, ◌+◌, ◌*◌, ◌/◌, ◌%◌, ◌^◌, ◌≤◌, ◌≡◌, refl, ap, arith, ◌&&◌, ◌||◌, ◌==◌, bit, ◌<◌,
  true, false, Bool, ◌∙◌, sym,
}
use Prim.Native.Nat.{bit_and, bit_or, digits, bit_and-bitwise, bit_or-bitwise, max}
use native.Mathlib.Nat.{zero-div, div-div-eq-div-mul, pow-succ'}

shifted : (x k : ℕ) → x / 2 ^ suc k ≡ x / 2 / 2 ^ k
shifted x k = rw (pow-succ' 2 k, div-div-eq-div-mul x 2 (2 ^ k)) refl

pub bit-suc : (x k : ℕ) → bit x (suc k) ≡ bit (x / 2) k
bit-suc x k = ap (λ q. q % 2 == 1) (shifted x k)

bit-zero : (k : ℕ) → bit 0 k ≡ false
bit-zero k = ap (λ q. q % 2 == 1) (zero-div (2 ^ k))

-- A native operation on digits, seen bit by bit as `op`: digit by digit, and on what is left of
-- the second number when the first has run out.
module _ (tail : ℕ → ℕ) (digit : ℕ → ℕ → ℕ) (op : Bool → Bool → Bool)
    (is_op : (a b : ℕ)
      → (digit (a % 2) (b % 2) < 2) × ((digit (a % 2) (b % 2) == 1) ≡ op (a % 2 == 1) (b % 2 == 1)))
    (tail_op : (k b : ℕ) → bit (tail b) k ≡ op false (bit b k)) where
  ran_out : (k b : ℕ) → bit (tail b) k ≡ op (bit 0 k) (bit b k)
  ran_out k b = rw (bit-zero k) (tail_op k b)

  bit-digits :
      (fuel k a b : ℕ) → a ≤ fuel → bit (digits tail digit fuel a b) k ≡ op (bit a k) (bit b k)
  bit-digits zero k zero b enough = ran_out k b
  bit-digits (suc fuel) k zero b enough = ran_out k b
  bit-digits zero k (suc a) b enough = absurd (omega arith)
  bit-digits (suc fuel) zero (suc a) b enough =
      let (below, same) = is_op (suc a) b in
      let halves = bit-digits fuel zero (suc a / 2) (b / 2) (omega arith) in
      let lowest : digits tail digit (suc fuel) (suc a) b / 1 % 2 ≡ digit (suc a % 2) (b % 2) =
        omega arith in
      let a_lowest : suc a / 1 % 2 ≡ suc a % 2 = omega arith in
      let b_lowest : b / 1 % 2 ≡ b % 2 = omega arith in
      ap (λ q. q == 1) lowest
      ∙ same
      ∙ sym (
          ap (λ q. op (q == 1) (b / 1 % 2 == 1)) a_lowest
          ∙ ap (λ q. op (suc a % 2 == 1) (q == 1)) b_lowest)
  bit-digits (suc fuel) (suc k) (suc a) b enough =
      let (below, same) = is_op (suc a) b in
      let next = digits tail digit fuel (suc a / 2) (b / 2) in
      let half : digits tail digit (suc fuel) (suc a) b / 2 ≡ next = omega arith in
      bit-suc (digits tail digit (suc fuel) (suc a) b) k
      ∙ ap (λ q. bit q k) half
      ∙ bit-digits fuel k (suc a / 2) (b / 2) (omega arith)
      ∙ sym (
          ap (λ q. op q (bit b (suc k))) (bit-suc (suc a) k)
          ∙ ap (op (bit (suc a / 2) k)) (bit-suc b k))

pub bit-bit_and : (k a b : ℕ) → bit (bit_and a b) k ≡ bit a k && bit b k
bit-bit_and k a b =
    ap (λ q. bit q k) (bit_and-bitwise a b)
    ∙ bit-digits (λ b. zero) min ◌&&◌ (λ a b. ground arith) (λ k b. bit-zero k) a k a b
        (omega arith)

pub bit-bit_or : (k a b : ℕ) → bit (bit_or a b) k ≡ bit a k || bit b k
bit-bit_or k a b =
    ap (λ q. bit q k) (bit_or-bitwise a b)
    ∙ bit-digits (λ b. b) max ◌||◌ (λ a b. ground arith) (λ k b. refl) a k a b (omega arith)

-- The bounds, from the same recursion.
and_digits_bound : (fuel a b : ℕ) → digits (λ b. zero) min fuel a b ≤ b
and_digits_bound zero a b = omega arith
and_digits_bound (suc fuel) zero b = omega arith
and_digits_bound (suc fuel) (suc a) b = omega (arith, and_digits_bound fuel (suc a / 2) (b / 2))

bit_and_bound : (a b : ℕ) → bit_and a b ≤ b
bit_and_bound a b = omega (arith, bit_and-bitwise a b, and_digits_bound a a b)

or_digits_bound : (w fuel a b : ℕ) → a < 2 ^ w → b < 2 ^ w → digits (λ b. b) max fuel a b < 2 ^ w
or_digits_bound w zero a b ha hb = hb
or_digits_bound w (suc fuel) zero b ha hb = hb
or_digits_bound zero (suc fuel) (suc a) b ha hb = absurd (omega arith)
or_digits_bound (suc w) (suc fuel) (suc a) b ha hb = omega (
  arith,
  pow-succ' 2 w,
  or_digits_bound w fuel (suc a / 2) (b / 2) (omega (arith, pow-succ' 2 w))
      (omega (arith, pow-succ' 2 w)),
)

pub bit_or_bound : (w a b : ℕ) → a < 2 ^ w → b < 2 ^ w → bit_or a b < 2 ^ w
bit_or_bound w a b ha hb = omega (arith, bit_or-bitwise a b, or_digits_bound w a a b ha hb)

adjusted :
    (low high desired : ℕ)
    → low < 2 ^ 32
    → adjust_control_value (low + high * 2 ^ 32) desired ≡ bit_and (bit_or desired low) high
unfolding adjust_control_value
adjusted low high desired h =
    let low_eq : (low + high * 2 ^ 32) % 2 ^ 32 ≡ low = omega arith in
    let high_eq : (low + high * 2 ^ 32) / 2 ^ 32 ≡ high = omega arith in rw (low_eq, high_eq) refl

-- What a capability register asks of a control field's value.
pub record IsAdjusted (low high desired r : ℕ) : Type 0 where
  pub word : r < 2 ^ 32
  pub set_if_required : (k : ℕ) → bit low k ≡ true → bit r k ≡ true
  pub clear_if_forbidden : (k : ℕ) → bit high k ≡ false → bit r k ≡ false
  pub as_desired : (k : ℕ) → bit low k ≡ false → bit high k ≡ true → bit r k ≡ bit desired k

-- If a capability register allows every bit that it requires, the value that `AdjustControlValue`
-- makes fits 32 bits, has every bit that the register's low half requires, none that its high half
-- forbids, and the desired value in every bit that is free.
pub adjust_control_value-IsAdjusted :
    (low high desired : ℕ)
    → low < 2 ^ 32
    → high < 2 ^ 32
    → ((k : ℕ) → bit low k ≡ true → bit high k ≡ true)
    → IsAdjusted low high desired (adjust_control_value (low + high * 2 ^ 32) desired)
adjust_control_value-IsAdjusted low high desired hl hh consistent =
    rw (adjusted low high desired hl) (record {
      word = omega (arith, bit_and_bound (bit_or desired low) high);
      set_if_required =
          λ k required. rw (bits k, required, consistent k required) (or_true (bit desired k));
      clear_if_forbidden =
          λ k forbidden. rw (bits k, forbidden) (and_false (bit desired k || bit low k));
      as_desired = λ k free allowed. rw (bits k, free, allowed) (or_false (bit desired k));
    })
  where
    bits :
        (k : ℕ)
        → bit (bit_and (bit_or desired low) high) k ≡ (bit desired k || bit low k) && bit high k
    bits k = rw (bit-bit_and k (bit_or desired low) high, bit-bit_or k desired low) refl

    or_true : (b : Bool) → (b || true) && true ≡ true
    or_true true = refl
    or_true false = refl

    or_false : (b : Bool) → (b || false) && true ≡ b
    or_false true = refl
    or_false false = refl

    and_false : (b : Bool) → b && false ≡ false
    and_false true = refl
    and_false false = refl

pub adjust_control_value_bound :
    (value desired : ℕ) → value < 2 ^ 64 → adjust_control_value value desired < 2 ^ 32
unfolding adjust_control_value
adjust_control_value_bound value desired h =
    let merged = bit_or desired (value % 2 ^ 32) in
    omega (arith, bit_and_bound merged (value / 2 ^ 32))
