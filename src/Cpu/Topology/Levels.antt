-- ===== src/Cpu/Topology/Levels.antt =====
-- What the topology loop makes of the levels that a processor reports.
use hardware_monitor_azk.Cpu.Trace.{
  ◌>>=◌, Processor, cpuid_asm, Gives, gives, Gives-result, Gives-if, Gives->>=,
}
use hardware_monitor_azk.Cpu.Topology.{
  level_type, topology_round, topology_loop, topology_leaf, collect_topology, walk_levels,
}
use hardware_monitor_azk.Base.{
  ℕ, zero, suc, ◌+◌, ◌%◌, ◌^◌, ◌≤◌, ◌≡◌, ◌≢◌, refl, arith, false, List, [], ◌∷◌, some, ltb, ◌==◌,
  length, All, ltb_false→le, le→ltb_false, if◌then◌else◌, leb, ◌<◌, true, lt→ltb,
}

module _ (cpu : Processor) (leaf : ℕ) where
  -- The loop leaves by one of its own exits, with the fuel that is left for the subleaves to 16.
  topology_loop-Gives :
      (fuel subleaf smt whole : ℕ)
      → 17 ≤ fuel + subleaf
      → subleaf ≤ 16
      → Gives
          (λ o. (widths : ℕ × ℕ) × (o ≡ some widths))
          (topology_loop cpu leaf fuel subleaf smt whole)
  unfolding topology_loop topology_round
  topology_loop-Gives zero subleaf smt whole enough small = absurd (omega arith)
  topology_loop-Gives (suc fuel) subleaf smt whole enough small =
      Gives->>= (cpuid_asm cpu leaf subleaf)
        (topology_round subleaf smt whole (topology_loop cpu leaf fuel (suc subleaf)))
        (Gives-if (level_type (cpu.cpuid_result leaf subleaf) == 0) (λ _. gives (_, refl))
          (λ _.
            Gives-if (ltb 16 (suc subleaf)) (λ _. gives (_, refl))
              (λ more.
                topology_loop-Gives fuel (suc subleaf) _ _ (omega arith)
                  (ltb_false→le 16 (suc subleaf) more))))

  -- For every processor and leaf, the topology loop leaves by one of its own exits within 17
  -- rounds, whatever the processor reports.
  pub topology_loop-ends :
      (widths : ℕ × ℕ) × ((topology_loop cpu leaf 17 0 0 0).result ≡ some widths)
  topology_loop-ends = Gives-result (topology_loop-Gives 17 0 0 0 (omega arith) (omega arith))

  -- From a subleaf on, the processor reports levels of these types and counts, and then no more.
  abbrev pub Reports : ℕ → List (ℕ × ℕ) → Type 0
  Reports subleaf [] = level_type (cpu.cpuid_result leaf subleaf) ≡ 0
  Reports subleaf (l ∷ ls) =
      ((level_type (cpu.cpuid_result leaf subleaf) ≡ l.0)
        × (l.0 ≢ 0)
        × ((cpu.cpuid_result leaf subleaf).ebx % 2 ^ 16 ≡ l.1))
      × Reports (suc subleaf) ls

  -- The count of the last level.
  abbrev pub last_count : ℕ → List (ℕ × ℕ) → ℕ
  last_count n [] = n
  last_count n (l ∷ ls) = last_count l.1 ls

  topology_loop-Reports :
      (ls : List (ℕ × ℕ)) (fuel subleaf smt whole : ℕ)
      → 17 ≤ fuel + subleaf
      → subleaf + length ls ≤ 16
      → Reports subleaf ls
      → All (λ l. l.0 ≢ 1) ls
      → Gives
          (λ o. o ≡ some (smt, last_count whole ls))
          (topology_loop cpu leaf fuel subleaf smt whole)
  unfolding topology_loop topology_round
  topology_loop-Reports ls zero subleaf smt whole enough room r others = absurd (omega arith)
  topology_loop-Reports [] (suc fuel) subleaf smt whole enough room r others =
      Gives->>= (cpuid_asm cpu leaf subleaf)
        (topology_round subleaf smt whole (topology_loop cpu leaf fuel (suc subleaf)))
        (rw r (gives refl))
  topology_loop-Reports (l ∷ ls) (suc fuel) subleaf smt whole enough room r others =
      Gives->>= (cpuid_asm cpu leaf subleaf)
        (topology_round subleaf smt whole (topology_loop cpu leaf fuel (suc subleaf)))
        (rw (r.0.0, is_level, not_smt, r.0.2, more)
          (topology_loop-Reports ls fuel (suc subleaf) smt l.1 (omega arith) (omega arith) r.1
            others.1))
    where
      is_level : (l.0 == 0) ≡ false
      is_level = ground (arith, r.0.1)

      not_smt : (l.0 == 1) ≡ false
      not_smt = ground (arith, others.0)

      more : ltb 16 (suc subleaf) ≡ false
      more = le→ltb_false 16 (suc subleaf) (omega (arith, room))

-- The leaf that is tried first.
abbrev pub preferred_leaf : ℕ → ℕ
preferred_leaf max_basic_leaf = if leb 0x1F max_basic_leaf then 0x1F else 0x0B

topology_leaf-Reports :
    (cpu : Processor) (max_basic_leaf : ℕ)
    → (level_type (cpu.cpuid_result (preferred_leaf max_basic_leaf) 0) == 0) ≡ false
    → (topology_leaf cpu max_basic_leaf).result ≡ some (preferred_leaf max_basic_leaf)
unfolding topology_leaf ◌>>=◌
topology_leaf-Reports cpu max_basic_leaf e = rw e refl

-- For a processor that announces leaf 0x0B and whose preferred leaf reports a thread level, at most
-- 15 levels of other types and then a level of type 0, `collect_topology` is available with the
-- thread level's count as the width of a core and the last level's count, if it is positive, as the
-- width of the package.
pub collect_topology-Reports :
    (cpu : Processor) (max_basic_leaf smt : ℕ) (upper : List (ℕ × ℕ))
    → 0x0B ≤ max_basic_leaf
    → length upper < 16
    → Reports cpu (preferred_leaf max_basic_leaf) 0 ((1, smt) ∷ upper)
    → All (λ l. l.0 ≢ 1) upper
    → 0 < last_count cpu (preferred_leaf max_basic_leaf) smt upper
    → (collect_topology cpu max_basic_leaf).result ≡ record {
      smt_per_core = smt;
      logical_per_package = last_count cpu (preferred_leaf max_basic_leaf) smt upper;
      topology_available = true;
    }
unfolding collect_topology walk_levels ◌>>=◌
collect_topology-Reports cpu max_basic_leaf smt upper hi few r others pos =
    rw (deep, topology_leaf-Reports cpu max_basic_leaf reports_zero, looped, available) refl
  where
    leaf : ℕ
    leaf = preferred_leaf max_basic_leaf

    deep : ltb max_basic_leaf 0x0B ≡ false
    deep = le→ltb_false max_basic_leaf 0x0B hi

    reports_zero : (level_type (cpu.cpuid_result (preferred_leaf max_basic_leaf) 0) == 0) ≡ false
    reports_zero = rw (r.0.0) refl

    looped :
        (topology_loop cpu (preferred_leaf max_basic_leaf) 17 0 0 0).result
        ≡ some (smt, last_count cpu (preferred_leaf max_basic_leaf) smt upper)
    looped = Gives-result (first_round)
      where
        first_round :
            Gives
              (λ o. o ≡ some (smt, last_count cpu (preferred_leaf max_basic_leaf) smt upper))
              (topology_loop cpu (preferred_leaf max_basic_leaf) 17 0 0 0)
        first_round =
            unfold topology_loop topology_round in
            Gives->>= (cpuid_asm cpu leaf 0) (topology_round 0 0 0 (topology_loop cpu leaf 16 1)) (
              rw (r.0.0, r.0.2)
                (topology_loop-Reports cpu leaf upper 16 1 smt smt (omega arith)
                  (omega (arith, few)) r.1 others))

    available : ltb 0 (last_count cpu (preferred_leaf max_basic_leaf) smt upper) ≡ true
    available = lt→ltb 0 (last_count cpu (preferred_leaf max_basic_leaf) smt upper) pos
