-- ===== src/FirmwareTable/Fetched.antt =====
-- What the platform functions hand over is a buffer of bytes that the system has filled.
use hardware_monitor_azk.FirmwareTable.{System, fetch}
use mathlib.Core.Path.{subst}
use hardware_monitor_azk.Base.{
  ℕ, zero, suc, ◌≤◌, ◌<◌, ◌≡◌, arith, Bool, false, ◌||◌, [], ◌∷◌, none, some, inl, inr, ltb, ◌==◌,
  Bool-cases, length, take, All, length-take,
}
use hardware_monitor_azk.Buffer.{Bytes, IsByte}

-- The buffer that a call fills has the size that it was given, and holds bytes.
abbrev pub IsFilling : (ℕ → ℕ × Bytes) → Type 0
IsFilling call = (size : ℕ) → (length (call size).1 ≡ size) × All IsByte (call size).1

pub record IsSystem (os : System) : Type 0 where
  pub tables : (provider table : ℕ) → IsFilling (os.get_system_firmware_table provider table)
  pub names : (provider : ℕ) → IsFilling (os.enum_system_firmware_tables provider)

-- A buffer from a call: some bytes, as many as the call says, and no more than were allocated.
pub record IsFetched (call : ℕ → ℕ × Bytes) (raw : Bytes) : Type 0 where
  pub bytes : All IsByte raw
  pub size : length raw ≡ (call (call 0).0).0
  pub some_bytes : 0 < length raw
  pub fits : length raw ≤ (call 0).0

All-take : (n : ℕ) (xs : Bytes) → All IsByte xs → All IsByte (take n xs)
All-take zero xs h = tt
All-take (suc n) [] h = tt
All-take (suc n) (x ∷ xs) h = (h.0, All-take n xs h.1)

-- If a call fills a buffer of the size it is given with bytes, a table that the platform functions
-- hand over is not empty, consists of bytes, is as long as the second call says, and is no longer
-- than what was allocated.
pub fetch-IsFetched :
    (malloc : ℕ → Bool) (call : ℕ → ℕ × Bytes) (raw : Bytes)
    → IsFilling call
    → fetch malloc call ≡ some raw
    → IsFetched call raw
unfolding fetch
fetch-IsFetched malloc call raw fills e = elim (Bool-cases ((call 0).0 == 0)) [
  | inl empty ↦ absurd (none-some (rw empty at e))
  | inr sized ↦ elim (Bool-cases (malloc (call 0).0)) [
    | inr out_of_memory ↦ absurd (none-some (rw (sized, out_of_memory) at e))
    | inl allocated ↦
        elim (Bool-cases ((call (call 0).0).0 == 0 || ltb (call 0).0 (call (call 0).0).0)) [
          | inl failed ↦ absurd (none-some (rw (sized, allocated, failed) at e))
          | inr good ↦
              let eq : take (call (call 0).0).0 (call (call 0).0).1 ≡ raw =
                some-injective (rw (sized, allocated, good) at e) in
              subst (IsFetched call) eq (taken good)
        ]
  ]
]
  where
    none-some : {x : Bytes} → none ≡ some x → ⊥
    none-some e = cc

    some-injective : {x y : Bytes} → some x ≡ some y → x ≡ y
    some-injective e = cc e

    taken :
        ((call (call 0).0).0 == 0 || ltb (call 0).0 (call (call 0).0).0) ≡ false
        → IsFetched call (take (call (call 0).0).0 (call (call 0).0).1)
    taken good = record {
      bytes = All-take _ _ (fills (call 0).0).1;
      size = size;
      some_bytes = rw size (ground (arith, good));
      fits = rw size (ground (arith, good));
    }
      where
        size : length (take (call (call 0).0).0 (call (call 0).0).1) ≡ (call (call 0).0).0
        size =
            length-take (call (call 0).0).0 (call (call 0).0).1
              (rw (fills (call 0).0).0 (ground (arith, good)))
