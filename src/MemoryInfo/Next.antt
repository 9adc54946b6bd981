-- ===== src/MemoryInfo/Next.antt =====
-- The walk of memory_info.c to the next structure is that of smbios.c, which it duplicates.
use mathlib.Core.Path.{fun_ext}
use hardware_monitor_azk.Base.{ℕ, zero, suc, ◌+◌, ◌-◌, ◌≡◌, refl, ap, arith, false, Option, ◌==◌}
use hardware_monitor_azk.Buffer.{Run, Bytes}
use hardware_monitor_azk.Buffer.Loop.{Turn, scan}
use hardware_monitor_azk.Smbios.Walk.{two_nuls, previous, next_structure_turn, next_structure}
use hardware_monitor_azk.MemoryInfo.{region_next_turn, region_next}

turn-eq :
    (buf : Bytes) (buf_end p : ℕ) (u : Unit {0})
    → region_next_turn buf buf_end p u ≡ next_structure_turn buf buf_end p u
unfolding region_next_turn next_structure_turn two_nuls previous
turn-eq buf buf_end zero u = refl
turn-eq buf buf_end (suc k) u = rw (not_zero, pred_suc) refl
  where
    not_zero : (suc k == 0) ≡ false
    not_zero = ground arith

    pred_suc : suc k - 1 ≡ k
    pred_suc = omega arith

-- `next_structure` of memory_info.c and `smbios_next_structure` of smbios.c agree on every input,
-- faults included.
pub region_next-next_structure :
    (buf : Bytes) (struct_ptr formatted_len buf_end : ℕ)
    → region_next buf struct_ptr formatted_len buf_end
      ≡ next_structure buf struct_ptr formatted_len buf_end
unfolding region_next next_structure
region_next-next_structure buf struct_ptr formatted_len buf_end =
    ap
      (λ (body : ℕ → Unit {0} → Run (Turn (Unit {0}) (Option ℕ))).
        scan (suc (buf_end - (struct_ptr + formatted_len))) body (struct_ptr + formatted_len) tt)
      (fun_ext λ p. fun_ext λ u. turn-eq buf buf_end p u)
