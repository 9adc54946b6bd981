-- ===== src/Buffer/Filled.antt =====
-- Arrays of a fixed size that a loop fills from the front, dropping what does not fit.
use hardware_monitor_azk.Base.{
  ℕ, zero, suc, ◌+◌, ◌≤◌, ◌<◌, ◌≡◌, refl, sym, ap, ◌∙◌, arith, List, [], ◌∷◌, ◌++◌, length, take,
  set, replicate,
}
use Prim.Native.Nat.{min}
use native.Mathlib.Numerals.{add-one}
use hardware_monitor_azk.Base.{length-append, length-set, length-replicate, take_all, take-append}
use hardware_monitor_azk.Buffer.Words.{take-set}

-- The first `count` of the array's `cap` places hold the first items, up to `cap` of them.
pub record IsFilled {ℓ} {A : Type ℓ} (cap : ℕ) (array : List A) (count : ℕ) (items : List A)
    : Type ℓ where
  pub size : length array ≡ cap
  pub counted : count ≡ min cap (length items)
  pub front : take count array ≡ take cap items

module _ {ℓ} {A : Type ℓ} (cap : ℕ) where
  pub IsFilled-replicate : (a : A) → IsFilled cap (replicate cap a) 0 []
  IsFilled-replicate a = record {
    size = length-replicate cap a;
    counted = omega arith;
    front = sym (none_taken cap);
  }
    where
      none_taken : (n : ℕ) → take {A = A} n [] ≡ []
      none_taken zero = refl
      none_taken (suc n) = refl

  pub IsFilled-set :
      (array : List A) (count : ℕ) (items : List A) (v : A)
      → IsFilled cap array count items
      → count < cap
      → IsFilled cap (set array count v) (count + 1) (items ++ (v ∷ []))
  IsFilled-set array count items v f lt = record {
    size = length-set array count v ∙ f.size;
    counted = omega (arith, f.counted, length-append items (v ∷ []));
    front =
        ap (λ (n : ℕ). take n (set array count v)) (add-one count)
        ∙ take-set array count v (omega (arith, f.size))
        ∙ ap (λ (xs : List A). xs ++ (v ∷ []))
            (f.front ∙ take_all cap items (omega (arith, f.counted)))
        ∙ sym (
            take_all cap (items ++ (v ∷ []))
              (omega (arith, f.counted, length-append items (v ∷ []))));
  }

  -- A full array takes nothing more.
  pub IsFilled-full :
      (array : List A) (count : ℕ) (items more : List A)
      → IsFilled cap array count items
      → cap ≤ count
      → IsFilled cap array count (items ++ more)
  IsFilled-full array count items more f full = record {
    size = f.size;
    counted = omega (arith, f.counted, length-append items more);
    front = f.front ∙ sym (take-append cap items more (omega (arith, f.counted)));
  }
