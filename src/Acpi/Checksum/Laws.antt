-- ===== src/Acpi/Checksum/Laws.antt =====
-- `checksum_ok` against the sum of the bytes, and what it detects.
use hardware_monitor_azk.Base.{
  ℕ, zero, suc, ◌+◌, ◌%◌, ◌≤◌, ◌<◌, ◌≡◌, ◌≢◌, ap, ◌∙◌, arith, true, false, [], ◌∷◌, some, ◌==◌,
  length, take, drop, set, get_elem?,
}
use hardware_monitor_azk.Buffer.{done, Bytes}
use hardware_monitor_azk.Base.{drop-lt, length-set}
use hardware_monitor_azk.Buffer.Words.{load-drop}
use hardware_monitor_azk.Acpi.Checksum.{sum_loop, checksum_ok}

unfoldable pub total : Bytes → ℕ
total [] = 0
total (b ∷ bs) = b + total bs

sum_loop-total :
    (table : Bytes) (i n sum : ℕ)
    → i + n ≤ length table
    → sum < 256
    → sum_loop table i n sum ≡ done ((sum + total (take n (drop i table))) % 256)
unfolding sum_loop total
sum_loop-total table i zero sum h lt = ap done (omega arith)
sum_loop-total table i (suc n) sum h lt =
    let (b, e) = drop-lt table i (omega arith) in
    rw (load-drop table i b _ e, e)
      (sum_loop-total table (suc i) n ((sum + b) % 256) (omega arith) (omega arith)
        ∙ ap done (omega arith))

-- `checksum_ok` over the first `len` bytes of a table that has that many, with its one-byte sum,
-- says whether the sum of these bytes as a number is 0 modulo 256.
pub checksum_ok-total :
    (table : Bytes) (len : ℕ)
    → len ≤ length table
    → checksum_ok table len ≡ done (total (take len table) % 256 == 0)
unfolding checksum_ok
checksum_ok-total table len h =
    rw (sum_loop-total table 0 len 0 (omega arith) (omega arith))
      (ap (λ (n : ℕ). done (n % 256 == 0)) (omega arith))

total-set :
    (table : Bytes) (len i old v : ℕ)
    → get_elem? table i ≡ some old
    → i < len
    → total (take len (set table i v)) + old ≡ total (take len table) + v
unfolding total
total-set [] len i old v e lt = cc
total-set (b ∷ bs) zero i old v e lt = absurd (omega arith)
total-set (b ∷ bs) (suc len) zero old v e lt = ground arith
total-set (b ∷ bs) (suc len) (suc i) old v e lt =
    omega (arith, total-set bs len i old v e (omega arith))

-- In a table whose checksum is good over its first `len` bytes, a change of any one of these bytes
-- to another byte makes the checksum bad.
pub checksum_ok-set :
    (table : Bytes) (len i old v : ℕ)
    → len ≤ length table
    → checksum_ok table len ≡ done true
    → i < len
    → get_elem? table i ≡ some old
    → old < 256
    → v < 256
    → v ≢ old
    → checksum_ok (set table i v) len ≡ done false
checksum_ok-set table len i old v h valid lt e ho hv ne =
    checksum_ok-total (set table i v) len (omega (arith, length-set table i v)) ∙ ap done changed
  where
    good : (total (take len table) % 256 == 0) ≡ true
    good = cc (checksum_ok-total table len h)

    changed : (total (take len (set table i v)) % 256 == 0) ≡ false
    changed = ground (arith, good, total-set table len i old v e lt)
