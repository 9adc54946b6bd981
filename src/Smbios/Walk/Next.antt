-- ===== src/Smbios/Walk/Next.antt =====
-- What `smbios_next_structure` returns, on every buffer.
use hardware_monitor_azk.Base.{
  ℕ, zero, suc, ◌+◌, ◌-◌, ◌≤◌, ◌<◌, ◌≡◌, ◌≢◌, ◌↔◌, refl, arith, Bool, true, false, Option, none,
  some, ◌⊎◌, inl, inr, ltb, ◌==◌, if◌then◌else◌, Bool-cases, tests, length, get_elem?,
}
use hardware_monitor_azk.Buffer.{Bytes}
use hardware_monitor_azk.Buffer.Returns.{Returns, returns, Returns->>=, Returns-if, Returns-load}
use hardware_monitor_azk.Buffer.Loop.{TurnOk, scan-Returns}
use native.Mathlib.Decide.{dec_lt}
use mathlib.Core.Path.{subst}
use hardware_monitor_azk.Smbios.Walk.{previous, two_nuls, next_structure_turn, next_structure}

-- Two NULs stand at `i` and behind it.
abbrev pub NulPair : Bytes → ℕ → Type 0
NulPair buf i = (get_elem? buf i ≡ some 0) × (get_elem? buf (i + 1) ≡ some 0)

-- No such pair begins in [from, to).
abbrev pub NoPair : Bytes → ℕ → ℕ → Type 0
NoPair buf from to = (i : ℕ) → from ≤ i → i < to → ¬ NulPair buf i

-- The next structure stands behind the first pair of NULs at or behind `from`. The special case
-- is a string area of one byte, a NUL, behind a formatted area that ends in 0. There is no next
-- structure in any other case.
pub data IsNext (buf : Bytes) (from buf_end : ℕ) (r : Option ℕ) : Type 0 where
  pair :
      (i : ℕ)
      → from ≤ i
      → i + 1 < buf_end
      → NulPair buf i
      → NoPair buf from i
      → r ≡ some (i + 2)
      → IsNext buf from buf_end r
  one_byte :
      from + 1 ≡ buf_end
      → get_elem? buf from ≡ some 0
      → get_elem? buf (from - 1) ≡ some 0
      → r ≡ some buf_end
      → IsNext buf from buf_end r
  missing :
      NoPair buf from (buf_end - 1)
      → (from + 1 ≡ buf_end → get_elem? buf from ≡ some 0 → get_elem? buf (from - 1) ≢ some 0)
      → r ≡ none
      → IsNext buf from buf_end r

two_nuls-Returns :
    (buf : Bytes) (p q : ℕ)
    → p < length buf
    → q < length buf
    → Returns
        (λ b. (b ≡ true) ↔ ((get_elem? buf p ≡ some 0) × (get_elem? buf q ≡ some 0)))
        (two_nuls buf p q)
unfolding two_nuls
two_nuls-Returns buf p q hp hq = Returns->>= (Returns-load buf p hp) λ a ea.
    Returns-if (a == 0)
      (λ z.
        Returns->>= (Returns-load buf q hq)
          λ b eb. returns _ ((λ t. (ground arith, ground arith)), (λ both. ground (arith, both.1))))
      (λ nz. returns _ ((λ t. cc), (λ both. ground (arith, both.0))))

NoPair-suc :
    (buf : Bytes) (from p : ℕ) → NoPair buf from p → ¬ NulPair buf p → NoPair buf from (p + 1)
NoPair-suc buf from p none_before not_here i le lt both = elim (dec_lt i p) [
  | yes before ↦ none_before i le before both
  | no after ↦ let at : i ≡ p = omega arith in not_here (subst (NulPair buf) at both)
]

previous-Returns :
    (buf : Bytes) (p : ℕ)
    → 0 < p
    → p < length buf
    → Returns
        (λ b. (b ≡ true) ↔ ((get_elem? buf p ≡ some 0) × (get_elem? buf (p - 1) ≡ some 0)))
        (previous buf p)
unfolding previous
previous-Returns buf zero pos h = absurd (omega arith)
previous-Returns buf (suc k) pos h = rw pred_suc (two_nuls-Returns buf (suc k) k h (omega arith))
  where
    pred_suc : suc k - 1 ≡ k
    pred_suc = omega arith

module _ (buf : Bytes) (from buf_end : ℕ) (inside : buf_end ≤ length buf) (behind : 0 < from) where
  -- The loop is where it began, or still inside the table.
  abbrev IsScanned : ℕ → Unit {0} → Type 0
  IsScanned p _ = (from ≤ p) × NoPair buf from p × ((p < buf_end) ⊎ (p ≡ from))

  at_last :
      (p : ℕ) (found : Bool)
      → from ≤ p
      → NoPair buf from p
      → p + 1 ≡ buf_end
      → (found ≡ true) ↔ ((get_elem? buf p ≡ some 0) × (get_elem? buf (p - 1) ≡ some 0))
      → IsNext buf from buf_end (if found then some buf_end else none)
  at_last p true le clear e iff = elim (dec_lt from p) [
    | yes later ↦
        let (z, z') = iff.0 refl in
        absurd (clear (p - 1) (omega arith) (omega arith) (z', rw (pred_add later) z))
    | no first ↦
        let at : p ≡ from = omega arith in
        let both =
          subst (λ (k : ℕ). (get_elem? buf k ≡ some 0) × (get_elem? buf (k - 1) ≡ some 0)) at
            (iff.0 refl) in
        one_byte (omega arith) both.0 both.1 refl
  ]
    where
      pred_add : from < p → p - 1 + 1 ≡ p
      pred_add later = omega arith
  at_last p false le clear e iff = missing (λ i h lt. clear i h (omega arith)) single refl
    where
      single : from + 1 ≡ buf_end → get_elem? buf from ≡ some 0 → get_elem? buf (from - 1) ≢ some 0
      single e' z z' = cc (
          iff.1 (
            subst (λ (k : ℕ). (get_elem? buf k ≡ some 0) × (get_elem? buf (k - 1) ≡ some 0)) at
              (z, z')))
        where
          at : from ≡ p
          at = omega arith

  next_structure_turn-Returns :
      (p : ℕ) (u : Unit {0})
      → IsScanned p u
      → Returns
          (TurnOk IsScanned (IsNext buf from buf_end) buf_end p)
          (next_structure_turn buf buf_end p u)
  unfolding next_structure_turn
  next_structure_turn-Returns p u (le, clear, place) =
      Returns-if (ltb (p + 1) buf_end)
        (λ more.
          Returns->>= (two_nuls-Returns buf p (p + 1) (omega tests) (omega tests)) λ found iff.
            elim (Bool-cases found) [
              | inl here ↦ rw here (returns _ (pair p le (omega tests) (iff.0 here) clear refl))
              | inr not_here ↦
                  let on = NoPair-suc buf from p clear (λ both. cc (iff.1 both, not_here)) in
                  rw not_here
                    (returns _ ((omega arith, on, inl (omega tests)), omega arith, omega tests))
            ])
        (λ last.
          Returns-if (p + 1 == buf_end)
            (λ at_end.
              Returns->>= (previous-Returns buf p (omega arith) (omega tests))
                λ found iff. returns _ (at_last p found le clear (omega tests) iff))
            (λ past.
              returns _
                (missing (λ i h lt. absurd (omega tests)) (λ e. absurd (omega tests)) refl)))

  -- For a formatted area of a buffer that does not begin at offset 0 together with its strings,
  -- `smbios_next_structure` ends and reads inside the buffer. It returns the place behind the first
  -- two NULs at or behind the formatted area; if there are none, the table's end in the case of a
  -- one-byte string area that is 0 behind a formatted area whose last byte is 0; and nothing
  -- otherwise.
  pub next_structure-IsNext :
      (struct_ptr formatted_len : ℕ)
      → struct_ptr + formatted_len ≡ from
      → Returns (IsNext buf from buf_end) (next_structure buf struct_ptr formatted_len buf_end)
  unfolding next_structure
  next_structure-IsNext struct_ptr formatted_len e =
      scan-Returns IsScanned (IsNext buf from buf_end) buf_end (next_structure_turn buf buf_end)
        next_structure_turn-Returns _ (struct_ptr + formatted_len) tt (omega arith)
        (omega arith, (λ i le lt. absurd (omega arith)), inr e)

-- The next structure lies ahead, inside the table.
pub IsNext-bounds :
    {buf : Bytes} {from buf_end : ℕ} {r : Option ℕ}
    → IsNext buf from buf_end r
    → (n : ℕ) → r ≡ some n
    → (from < n) × (n ≤ buf_end)
IsNext-bounds (pair i le lt p c e) n e' = ground arith
IsNext-bounds (one_byte e z z' e'') n e' = ground arith
IsNext-bounds (missing c s e) n e' = cc
