-- ===== src/Uefi/Agreement.antt =====
-- The UEFI application against the native program, which decodes and checks the same data: leaf 1
-- of CPUID in src/cpu/cpu_id.c, and the checksum of a table in src/firmware/acpi.c.
use hardware_monitor_azk.Base.{
  ℕ, zero, suc, ◌+◌, ◌*◌, ◌%◌, ◌≤◌, ◌<◌, ◌≡◌, refl, ap, ◌∙◌, arith, ◌==◌, length, get_elem?,
}
use mathlib.Core.Path.{fun_ext}
use hardware_monitor_azk.Buffer.{from_option, Run, done, ◌>>=◌, Bytes, load, load_le}
use hardware_monitor_azk.Acpi.Checksum.{sum_loop, checksum_ok}
use hardware_monitor_azk.Uefi.Types.{Memory}
use hardware_monitor_azk.Uefi.Tables.{byte_at, word_at, sum_at, checksum_ok_at}

-- The bytes stand in memory from an address on.
abbrev pub Holds : Memory → ℕ → Bytes → Type 0
Holds mem a table = (i : ℕ) → i < length table → mem (a + i) ≡ get_elem? table i

pub byte_at_lem :
    (mem : Memory) (a : ℕ) (table : Bytes) (i : ℕ)
    → Holds mem a table
    → i < length table
    → byte_at mem (a + i) ≡ load table i
unfolding byte_at load
byte_at_lem mem a table i h lt = ap from_option (h i lt)

module _ (mem : Memory) (a : ℕ) (table : Bytes) (h : Holds mem a table) where
  next : (i : ℕ) → suc (a + i) ≡ a + suc i
  next i = omega arith

  sum_at_lem :
      (n i sum : ℕ) → i + n ≤ length table → sum_at mem (a + i) n sum ≡ sum_loop table i n sum
  unfolding sum_at sum_loop
  sum_at_lem zero i sum room = refl
  sum_at_lem (suc n) i sum room =
      ap (λ (m : Run ℕ). m >>= λ b. sum_at mem (suc (a + i)) n ((sum + b) % 256))
        (byte_at_lem mem a table i h (omega arith))
      ∙ ap (λ (f : ℕ → Run ℕ). load table i >>= f)
          (fun_ext λ b.
            ap (λ j. sum_at mem j n ((sum + b) % 256)) (next i)
            ∙ sum_at_lem n (suc i) ((sum + b) % 256) (omega arith))

  pub checksum_ok_at_lem :
      (len : ℕ) → len ≤ length table → checksum_ok_at mem a len ≡ checksum_ok table len
  unfolding checksum_ok_at checksum_ok
  checksum_ok_at_lem len room =
      ap (λ (m : Run ℕ). m >>= λ sum. done (sum == 0))
        (ap (λ j. sum_at mem j len 0) start ∙ sum_at_lem len 0 0 (omega arith))
    where
      start : a ≡ a + 0
      start = omega arith

  pub word_at_lem : (n i : ℕ) → i + n ≤ length table → word_at mem (a + i) n ≡ load_le table i n
  unfolding word_at load_le
  word_at_lem zero i room = refl
  word_at_lem (suc n) i room =
      ap
        (λ (m : Run ℕ).
          m >>= λ low. word_at mem (suc (a + i)) n >>= λ high. done (low + 256 * high))
        (byte_at_lem mem a table i h (omega arith))
      ∙ ap (λ (m : Run ℕ). load table i >>= λ low. m >>= λ high. done (low + 256 * high))
          (ap (λ j. word_at mem j n) (next i) ∙ word_at_lem n (suc i) (omega arith))
