-- ===== src/Cpu/Collect/Safety.antt =====
-- Which instructions `cpu_id_collect` executes.
use hardware_monitor_azk.Cpu.Types.{CpuidResult, CpuVendor, CpuFeatures, CpuIdentity}
use hardware_monitor_azk.Cpu.Trace.{
  Instruction, cpuid, xgetbv, Processor, Trace, cpuid_asm, Executes, executes, Executes-pure,
  Executes-if, Executes->>=, Gives, Gives-result, Gives->>=, Gives-if, gives,
}
use hardware_monitor_azk.Cpu.Signature.{collect_brand_string, brand_leaf}
use hardware_monitor_azk.Cpu.Features.{
  leaf7_features, extended_features, invariant_tsc_feature, os_features, collect_features,
  leaf1_features,
}
use hardware_monitor_azk.Cpu.Topology.{
  topology_round, level_type, topology_loop, walk_levels, collect_topology, topology_leaf,
}
use hardware_monitor_azk.Cpu.Collect.{extended_leaf, cpu_id_collect, collect_identity}
use hardware_monitor_azk.Base.{
  ℕ, zero, suc, ◌≤◌, ◌<◌, ◌≡◌, refl, arith, true, List, Option, none, some, ◌⊎◌, inl, inr, ltb, leb,
  ◌==◌, bit, ltb_false→le, leb→le, if◌then◌else◌,
}

-- The highest leaves that the processor announces, the extended one in a processor that has them.
abbrev pub max_basic : Processor → ℕ
max_basic cpu = (cpu.cpuid_result 0 0).eax

abbrev pub max_extended : Processor → ℕ
max_extended cpu = extended_leaf (cpu.cpuid_result 0x80000000 0).eax

-- CPUID is asked for the leaves that announce others and for announced leaves, with a subleaf of at
-- most 16, and XGETBV for XCR0 where the system has enabled it.
abbrev pub IsAnnounced : Processor → Instruction → Type 0
IsAnnounced cpu (cpuid leaf subleaf) =
    ((leaf ≤ max_basic cpu)
      ⊎ ((leaf ≡ 0x80000000) ⊎ ((0x80000000 < leaf) × (leaf ≤ max_extended cpu))))
    × (subleaf ≤ 16)
IsAnnounced cpu (xgetbv index) = (index ≡ 0) × (bit (cpu.cpuid_result 1 0).ecx 27 ≡ true)

module _ (cpu : Processor) where
  basic :
      (leaf subleaf : ℕ)
      → leaf ≤ max_basic cpu
      → subleaf ≤ 16
      → Executes (IsAnnounced cpu) (cpuid_asm cpu leaf subleaf)
  basic leaf subleaf le small = executes ((inl le, small), tt)

  extended :
      (leaf : ℕ)
      → 0x80000000 < leaf
      → leaf ≤ max_extended cpu
      → Executes (IsAnnounced cpu) (cpuid_asm cpu leaf 0)
  extended leaf lo hi = executes ((inr (inr (lo, hi)), omega arith), tt)

  brand_leaf-Executes :
      (leaf : ℕ)
      → 0x80000000 < leaf
      → leaf ≤ max_extended cpu
      → Executes (IsAnnounced cpu) (brand_leaf cpu leaf)
  brand_leaf-Executes leaf lo hi = Executes->>= _ _ (extended leaf lo hi) (executes tt)

  collect_brand_string-Executes :
      (out : List ℕ) → Executes (IsAnnounced cpu) (collect_brand_string cpu (max_extended cpu) out)
  unfolding collect_brand_string
  collect_brand_string-Executes out =
      Executes-if (ltb (max_extended cpu) 0x80000004) (λ _. executes tt)
        (λ all.
          let hi = ltb_false→le (max_extended cpu) 0x80000004 all in
          Executes->>= _ _ (brand_leaf-Executes 0x80000002 (omega arith) (omega (arith, hi))) (
            Executes->>= _ _ (brand_leaf-Executes 0x80000003 (omega arith) (omega (arith, hi)))
              (Executes->>= _ _ (brand_leaf-Executes 0x80000004 (omega arith) hi) (executes tt))))

  collect_features-Executes :
      (vendor : CpuVendor)
      → Executes
          (IsAnnounced cpu)
          (collect_features cpu (max_basic cpu) (max_extended cpu) (cpu.cpuid_result 1 0) vendor)
  unfolding collect_features leaf7_features extended_features invariant_tsc_feature os_features
  collect_features-Executes vendor =
      let f7 =
        (leaf7_features cpu (max_basic cpu) (leaf1_features (cpu.cpuid_result 1 0))).result in
      let f81 = (extended_features cpu (max_extended cpu) vendor f7).result in
      let f87 = (invariant_tsc_feature cpu (max_extended cpu) f81).result in
      Executes->>= _ _ (leaf7 (leaf1_features (cpu.cpuid_result 1 0)))
        (Executes->>= _ _ (leaf81 f7) (Executes->>= _ _ (leaf87 f81) (os f87)))
    where
      leaf7 : (f : CpuFeatures) → Executes (IsAnnounced cpu) (leaf7_features cpu (max_basic cpu) f)
      leaf7 f =
          Executes-if (leb 7 (max_basic cpu))
            (λ h.
              Executes->>= _ _ (basic 7 0 (leb→le 7 (max_basic cpu) h) (omega arith)) (executes tt))
            (λ _. Executes-pure f)

      leaf81 :
          (f : CpuFeatures)
          → Executes (IsAnnounced cpu) (extended_features cpu (max_extended cpu) vendor f)
      leaf81 f =
          Executes-if (leb 0x80000001 (max_extended cpu))
            (λ h.
              Executes->>= _ _
                (extended 0x80000001 (omega arith) (leb→le 0x80000001 (max_extended cpu) h))
                (executes tt))
            (λ _. Executes-pure f)

      leaf87 :
          (f : CpuFeatures)
          → Executes (IsAnnounced cpu) (invariant_tsc_feature cpu (max_extended cpu) f)
      leaf87 f =
          Executes-if (leb 0x80000007 (max_extended cpu))
            (λ h.
              Executes->>= _ _
                (extended 0x80000007 (omega arith) (leb→le 0x80000007 (max_extended cpu) h))
                (executes tt))
            (λ _. Executes-pure f)

      os : (f : CpuFeatures) → Executes (IsAnnounced cpu) (os_features cpu (cpu.cpuid_result 1 0) f)
      os f =
          Executes-if (bit (cpu.cpuid_result 1 0).ecx 27)
            (λ h. Executes->>= _ _ (executes ((refl, h), tt)) (executes tt)) (λ _. executes tt)

  topology_round-Executes :
      (subleaf smt whole : ℕ) (rest : ℕ → ℕ → Trace (Option (ℕ × ℕ))) (r : CpuidResult)
      → (subleaf < 16 → (smt' whole' : ℕ) → Executes (IsAnnounced cpu) (rest smt' whole'))
      → Executes (IsAnnounced cpu) (topology_round subleaf smt whole rest r)
  unfolding topology_round
  topology_round-Executes subleaf smt whole rest r h =
      Executes-if (level_type r == 0) (λ _. executes tt)
        (λ _.
          Executes-if (ltb 16 (suc subleaf)) (λ _. executes tt)
            (λ more. h (ltb_false→le 16 (suc subleaf) more) _ _))

  topology_loop-Executes :
      (leaf fuel subleaf smt whole : ℕ)
      → leaf ≤ max_basic cpu
      → subleaf ≤ 16
      → Executes (IsAnnounced cpu) (topology_loop cpu leaf fuel subleaf smt whole)
  unfolding topology_loop
  topology_loop-Executes leaf zero subleaf smt whole le small = Executes-pure none
  topology_loop-Executes leaf (suc fuel) subleaf smt whole le small =
      Executes->>= (cpuid_asm cpu leaf subleaf)
        (topology_round subleaf smt whole (topology_loop cpu leaf fuel (suc subleaf)))
        (basic leaf subleaf le small)
        (topology_round-Executes subleaf smt whole _ (cpu.cpuid_result leaf subleaf)
          λ more smt' whole'. topology_loop-Executes leaf fuel (suc subleaf) smt' whole' le more)

  walk_levels-Executes :
      (o : Option ℕ)
      → ((leaf : ℕ) → o ≡ some leaf → leaf ≤ max_basic cpu)
      → Executes (IsAnnounced cpu) (walk_levels cpu o)
  unfolding walk_levels
  walk_levels-Executes none h = executes tt
  walk_levels-Executes (some leaf) h =
      Executes->>= _ _ (topology_loop-Executes leaf 17 0 0 0 (h leaf refl) (omega arith))
        (executes tt)

  first_leaf : ℕ
  first_leaf = if leb 0x1F (max_basic cpu) then 0x1F else 0x0B

  first_leaf-le : 0x0B ≤ max_basic cpu → first_leaf ≤ max_basic cpu
  unfolding first_leaf
  first_leaf-le hi = ground arith

  abbrev IsBelow : Option ℕ → Type 0
  IsBelow o = (leaf : ℕ) → o ≡ some leaf → leaf ≤ max_basic cpu

  topology_leaf-Gives : 0x0B ≤ max_basic cpu → Gives IsBelow (topology_leaf cpu (max_basic cpu))
  unfolding topology_leaf first_leaf
  topology_leaf-Gives hi = Gives->>= (cpuid_asm cpu first_leaf 0) _ (
      Gives-if (level_type (cpu.cpuid_result first_leaf 0) == 0)
        (λ _.
          Gives-if (first_leaf == 0x1F)
            (λ _. Gives->>= (cpuid_asm cpu 0x0B 0) _ (
              Gives-if (level_type (cpu.cpuid_result 0x0B 0) == 0) (λ _. gives (λ leaf e. cc))
                (λ _. gives (λ leaf e. let at : 0x0B ≡ leaf = cc e in omega (arith, at, hi)))))
            (λ _. gives (λ leaf e. cc)))
        (λ _.
          gives
            (λ leaf e. let at : first_leaf ≡ leaf = cc e in omega (arith, at, first_leaf-le hi))))

  collect_topology-Executes : Executes (IsAnnounced cpu) (collect_topology cpu (max_basic cpu))
  unfolding collect_topology topology_leaf first_leaf
  collect_topology-Executes =
      Executes-if (ltb (max_basic cpu) 0x0B) (λ _. executes tt)
        (λ deep.
          let hi = ltb_false→le (max_basic cpu) 0x0B deep in
          Executes->>= (topology_leaf cpu (max_basic cpu)) (walk_levels cpu) (leaf hi)
            (walk_levels-Executes _ (Gives-result (topology_leaf-Gives hi))))
    where
      leaf : 0x0B ≤ max_basic cpu → Executes (IsAnnounced cpu) (topology_leaf cpu (max_basic cpu))
      leaf hi =
          Executes->>= (cpuid_asm cpu first_leaf 0) _
            (basic first_leaf 0 (first_leaf-le hi) (omega arith))
            (Executes-if (level_type (cpu.cpuid_result first_leaf 0) == 0)
              (λ _.
                Executes-if (first_leaf == 0x1F)
                  (λ _. Executes->>= _ _ (basic 0x0B 0 hi (omega arith)) (
                    Executes-if (level_type (cpu.cpuid_result 0x0B 0) == 0) (λ _. executes tt)
                      (λ _. executes tt)))
                  (λ _. executes tt))
              (λ _. executes tt))

  collect_identity-Executes :
      (processors : ℕ) (out : CpuIdentity)
      → out.max_basic_leaf ≡ max_basic cpu
      → 1 ≤ max_basic cpu
      → Executes (IsAnnounced cpu) (collect_identity cpu processors out)
  unfolding collect_identity
  collect_identity-Executes processors out e long = rw e (
      Executes->>= _ _ (basic 1 0 long (omega arith)) (
        Executes->>= _ _ (executes ((inr (inl refl), omega arith), tt)) (
          Executes->>= _ _ (collect_brand_string-Executes out.brand_string) (
            Executes->>= _ _ (collect_features-Executes out.vendor)
              (Executes->>= _ _ collect_topology-Executes (executes tt))))))

  -- On every processor, `cpu_id_collect` executes CPUID only for leaves up to the basic maximum
  -- that leaf 0 announces, for 0x80000000, and for extended leaves up to the maximum that this leaf
  -- announces, with subleaves of at most 16; and XGETBV only for register 0 and only if bit 27 of
  -- leaf 1's ECX says that the system has enabled it.
  pub cpu_id_collect-Executes :
      (active system_info : ℕ) → Executes (IsAnnounced cpu) (cpu_id_collect cpu active system_info)
  unfolding cpu_id_collect
  cpu_id_collect-Executes active system_info =
      Executes->>= _ _ (basic 0 0 (omega arith) (omega arith)) (
        Executes-if (ltb (max_basic cpu) 1) (λ _. executes tt)
          (λ long. collect_identity-Executes _ _ refl (ltb_false→le (max_basic cpu) 1 long)))
