-- ===== src/Examples/Cpu.antt =====
-- A processor with two cores of two threads, as src/cpu/cpu_id.c reads it.
use hardware_monitor_azk.Cpu.Features.{collect_features}
use hardware_monitor_azk.Cpu.Features.System.{saves_avx, saves_avx512, collect_features-os}
use hardware_monitor_azk.Cpu.Types.{intel, CpuidResult}
use hardware_monitor_azk.Cpu.Trace.{Processor, Executes}
use hardware_monitor_azk.Cpu.Signature.{decode_family_model_stepping}
use hardware_monitor_azk.Cpu.Signature.Decode.{signature_word, decode-signature_word}
use hardware_monitor_azk.Cpu.Topology.{topology_loop, collect_topology}
use hardware_monitor_azk.Cpu.Topology.Levels.{topology_loop-ends, collect_topology-Reports}
use hardware_monitor_azk.Cpu.Collect.{cpu_id_collect}
use hardware_monitor_azk.Cpu.Collect.Safety.{IsAnnounced, cpu_id_collect-Executes}
use hardware_monitor_azk.Base.{
  ℕ, zero, suc, ◌≡◌, refl, arith, true, [], ◌∷◌, some, inl, inr, bit, ◌&&◌,
}

abbrev zero_result : CpuidResult
zero_result = record { eax = 0; ebx = 0; ecx = 0; edx = 0 }

-- The subleaves of the topology leaf: threads of a core, cores of the package.
abbrev level_result : ℕ → CpuidResult
level_result zero = record { eax = 1; ebx = 2; ecx = 0x100; edx = 0 }
level_result (suc zero) = record { eax = 2; ebx = 4; ecx = 0x201; edx = 0 }
level_result (suc (suc n)) = zero_result

abbrev two_cores : Processor
two_cores = record { cpuid_result = λ leaf subleaf. level_result subleaf; xcr = λ index. 7 }

cpu_id_collect_example : Executes (IsAnnounced two_cores) (cpu_id_collect two_cores 4 4)
cpu_id_collect_example = cpu_id_collect-Executes two_cores 4 4

topology_loop_example :
    (widths : ℕ × ℕ) × ((topology_loop two_cores 11 17 0 0 0).result ≡ some widths)
topology_loop_example = topology_loop-ends two_cores 11

collect_topology_example :
    (collect_topology two_cores 0x16).result
    ≡ record { smt_per_core = 2; logical_per_package = 4; topology_available = true }
collect_topology_example =
    collect_topology-Reports two_cores 0x16 2 ((2, 4) ∷ []) (omega arith) (omega arith)
      ((refl, (omega arith), refl), ((refl, (omega arith), refl), refl)) (omega arith) (omega arith)

decode-signature_word_example :
    decode_family_model_stepping (signature_word 6 158 10) ≡ (6, 158, 10)
decode-signature_word_example =
    decode-signature_word 6 158 10 (omega arith) (omega arith) (omega arith) (inr (inl refl))

collect_features_example :
    let f = (collect_features two_cores 0x16 0 (level_result 0) intel).result in
    (f.osxsave ≡ bit 0x100 27)
    × (f.avx_os_enabled ≡ (bit 0x100 27 && saves_avx 7))
    × (f.avx512_os_enabled ≡ (bit 0x100 27 && saves_avx512 7))
collect_features_example = collect_features-os two_cores (level_result 0) 0x16 0 intel
