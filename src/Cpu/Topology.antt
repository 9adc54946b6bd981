-- ===== src/Cpu/Topology.antt =====
-- Processors per core and package, `collect_topology` (src/cpu/cpu_id.c).
pub mod Levels
use hardware_monitor_azk.Cpu.Types.{CpuidResult, CpuTopology, zero_topology}
use hardware_monitor_azk.Cpu.Trace.{Processor, Trace, pure, cpuid_asm, ◌>>=◌}
use hardware_monitor_azk.Base.{
  ℕ, zero, suc, ◌/◌, ◌%◌, ◌^◌, true, Option, none, some, ltb, leb, ◌==◌, if◌then◌else◌,
}

abbrev pub level_type : CpuidResult → ℕ
level_type r = r.ecx / 2 ^ 8 % 256

-- One round with the widths of a core and of the package so far; `rest` is the loop from the next
-- subleaf on.
unfoldable pub topology_round :
    ℕ → ℕ → ℕ → (ℕ → ℕ → Trace (Option (ℕ × ℕ))) → CpuidResult → Trace (Option (ℕ × ℕ))
topology_round subleaf smt_width package_width rest r =
    let logical = r.ebx % 2 ^ 16 in
    let smt_width' = if level_type r == 1 then logical else smt_width in
    if level_type r == 0
    then pure (some (smt_width, package_width))
    else if ltb 16 (suc subleaf)
    then pure (some (smt_width', logical))
    else rest smt_width' logical

-- The `for (;;)` loop. A subleaf beyond 16 ends it, so that 17 rounds are enough.
unfoldable pub topology_loop : Processor → ℕ → ℕ → ℕ → ℕ → ℕ → Trace (Option (ℕ × ℕ))
unfolding topology_round
topology_loop cpu leaf zero subleaf smt_width package_width = pure none
topology_loop cpu leaf (suc fuel) subleaf smt_width package_width =
    cpuid_asm cpu leaf subleaf
    >>= topology_round subleaf smt_width package_width (topology_loop cpu leaf fuel (suc subleaf))

-- The leaf to use, if one answers: 0x1F where it is announced, and 0x0B behind it.
unfoldable pub topology_leaf : Processor → ℕ → Trace (Option ℕ)
topology_leaf cpu max_basic_leaf =
    let leaf = if leb 0x1F max_basic_leaf then 0x1F else 0x0B in
    cpuid_asm cpu leaf 0 >>= λ r0.
    if level_type r0 == 0
    then (if leaf == 0x1F
        then (cpuid_asm cpu 0x0B 0 >>= λ r1.
            if level_type r1 == 0 then pure none else pure (some 0x0B))
        else pure none)
    else pure (some leaf)

abbrev pub topology_of : Option (ℕ × ℕ) → CpuTopology
topology_of none = zero_topology
topology_of (some (smt_width, package_width)) =
    if ltb 0 package_width
    then record {
      smt_per_core = smt_width;
      logical_per_package = package_width;
      topology_available = true;
    }
    else zero_topology

unfoldable pub walk_levels : Processor → Option ℕ → Trace CpuTopology
walk_levels cpu none = pure zero_topology
walk_levels cpu (some leaf) =
    topology_loop cpu leaf 17 0 0 0 >>= λ widths. pure (topology_of widths)

unfoldable pub collect_topology : Processor → ℕ → Trace CpuTopology
collect_topology cpu max_basic_leaf =
    if ltb max_basic_leaf 0x0B
    then pure zero_topology
    else (topology_leaf cpu max_basic_leaf >>= walk_levels cpu)
