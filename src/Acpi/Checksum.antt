-- ===== src/Acpi/Checksum.antt =====
-- Checksums, summaries and signatures (src/firmware/acpi.c).
pub mod Laws
use hardware_monitor_azk.Base.{
  ℕ, zero, suc, ◌+◌, ◌-◌, ◌*◌, ◌/◌, ◌%◌, ◌^◌, ◌≤◌, ◌<◌, ◌≡◌, ◌≢◌, ◌↔◌, refl, sym, ap, ◌∙◌, arith,
  Bool, true, false, not, ◌&&◌, ◌||◌, List, [], ◌∷◌, ◌++◌, map, Option, none, some, ◌⊎◌, inl, inr,
  ltb, leb, ◌==◌, if◌then◌else◌, bit, low_bits, Bool-cases, tests, length, take, drop, set,
  replicate, get_elem?, All,
}
use hardware_monitor_azk.Buffer.{
  Run, done, fault, stuck, ◌>>=◌, Bytes, IsByte, load, store, load_le, load_bytes, store_bytes,
  strnlen,
}
use hardware_monitor_azk.Acpi.Types.{AcpiTableSummary}

-- The loop of `checksum_ok`: `n` bytes from `i` on; `sum` is a uint8_t.
unfoldable pub sum_loop : Bytes → ℕ → ℕ → ℕ → Run ℕ
sum_loop table i zero sum = done sum
sum_loop table i (suc n) sum = do b ← load table i; sum_loop table (suc i) n ((sum + b) % 256)

unfoldable pub checksum_ok : Bytes → ℕ → Run Bool
unfolding sum_loop
checksum_ok table len = do sum ← sum_loop table 0 len 0; done (sum == 0)

-- Each of the three arrays has room for the header's characters and the NUL written behind them.
unfoldable pub fill_summary : Bytes → ℕ → Bool → Run AcpiTableSummary
fill_summary raw actual_len checksum_valid = do
  signature ← load_bytes raw 0 4
  oem_id ← load_bytes raw 10 6
  oem_table_id ← load_bytes raw 16 8
  revision ← load raw 8
  done (record {
    signature = signature ++ (0 ∷ []);
    oem_id = oem_id ++ (0 ∷ []);
    oem_table_id = oem_table_id ++ (0 ∷ []);
    length = actual_len % 2 ^ 32;
    revision = revision;
    checksum_valid = checksum_valid;
  })

-- `memcmp(a, b, n) == 0` on arrays of n bytes.
unfoldable pub equal_bytes : Bytes → Bytes → Bool
equal_bytes [] [] = true
equal_bytes (x ∷ xs) (y ∷ ys) = x == y && equal_bytes xs ys
equal_bytes _ _ = false

unfoldable pub sig_is : Bytes → Bytes → Run Bool
unfolding equal_bytes
sig_is raw sig4 = do signature ← load_bytes raw 0 4; done (equal_bytes signature sig4)
