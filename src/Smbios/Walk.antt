-- ===== src/Smbios/Walk.antt =====
-- From one structure to the next (src/firmware/smbios.c, `smbios_next_structure`).
pub mod Next
pub mod Table
use hardware_monitor_azk.Base.{
  ℕ, zero, suc, ◌+◌, ◌-◌, ◌*◌, ◌/◌, ◌%◌, ◌^◌, ◌≤◌, ◌<◌, ◌≡◌, ◌≢◌, ◌↔◌, refl, sym, ap, ◌∙◌, arith,
  Bool, true, false, not, ◌&&◌, ◌||◌, List, [], ◌∷◌, ◌++◌, map, Option, none, some, ◌⊎◌, inl, inr,
  ltb, leb, ◌==◌, if◌then◌else◌, bit, low_bits, Bool-cases, tests, length, take, drop, set,
  replicate, get_elem?, All,
}
use hardware_monitor_azk.Buffer.{
  Run, done, fault, stuck, ◌>>=◌, Bytes, IsByte, load, store, load_le, load_bytes, store_bytes,
  strnlen,
}
use hardware_monitor_azk.Buffer.Loop.{Turn, again, stop, scan}

-- `p[0] == 0 && q[0] == 0`; the second byte is read only if the first is 0.
unfoldable pub two_nuls : Bytes → ℕ → ℕ → Run Bool
two_nuls buf p q = do
  a ← load buf p
  if a == 0 then (load buf q >>= λ b. done (b == 0)) else done false

-- `p[0] == 0 && p[-1] == 0`; there is no byte in front of offset 0.
unfoldable pub previous : Bytes → ℕ → Run Bool
unfolding two_nuls
previous buf zero = fault
previous buf (suc k) = two_nuls buf (suc k) k

-- One round of `while (p + 1 < buf_end)`, and the special case behind the loop.
unfoldable pub next_structure_turn : Bytes → ℕ → ℕ → Unit {0} → Run (Turn (Unit {0}) (Option ℕ))
unfolding two_nuls previous
next_structure_turn buf buf_end p _ =
    if ltb (p + 1) buf_end
    then (two_nuls buf p (p + 1) >>= λ found.
        done (if found then stop (some (p + 2)) else again (p + 1) tt))
    else if p + 1 == buf_end
    then (previous buf p >>= λ found. done (stop (if found then some buf_end else none)))
    else done (stop none)

unfoldable pub next_structure : Bytes → ℕ → ℕ → ℕ → Run (Option ℕ)
unfolding next_structure_turn
next_structure buf struct_ptr formatted_len buf_end =
    let p = struct_ptr + formatted_len in
    scan (suc (buf_end - p)) (next_structure_turn buf buf_end) p tt
