-- ===== src/Examples/Hv.antt =====
-- The hypervisor skeleton (driver/hv/hwmon_hv.c) on a small processor.
use hardware_monitor_azk.Base.{
  ℕ, zero, suc, ◌+◌, ◌-◌, ◌*◌, ◌/◌, ◌%◌, ◌^◌, ◌≤◌, ◌<◌, ◌≡◌, ◌≢◌, refl, arith, true, false, List,
  [], ◌∷◌, ◌++◌, some, ◌==◌, bit, replicate,
}
use hardware_monitor_azk.Buffer.{done, Bytes}
use native.Mathlib.Nat.{zero-div}
use hardware_monitor_azk.Cpu.Types.{CpuidResult}
use hardware_monitor_azk.Buffer.Returns.{Returns}
use hardware_monitor_azk.Hv.Types.{Processor, DescriptorTableRegister}
use hardware_monitor_azk.Hv.Segments.{compute_segment_access_rights, compute_segment_base}
use hardware_monitor_azk.Hv.Segments.Descriptor.{
  Descriptor, descriptor_bytes, short_bytes, compute_segment-descriptor_bytes,
}
use hardware_monitor_azk.Hv.Controls.{adjust_control_value}
use hardware_monitor_azk.Hv.Controls.Bits.{bit-suc, IsAdjusted, adjust_control_value-IsAdjusted}
use hardware_monitor_azk.Hv.Exits.{Guest, Exit, run_guest}
use hardware_monitor_azk.Hv.Exits.Native.{RunOf, run_guest-RunOf}
use hardware_monitor_azk.Hv.Setup.{setup_vmcs_fields}
use hardware_monitor_azk.Hv.Setup.Fields.{IsProcessor, IsSetup, setup_vmcs_fields-Returns}
use hardware_monitor_azk.Hv.Launch.{hv_try_launch}
use hardware_monitor_azk.Hv.Launch.Cleanup.{Ends, unused, hv_try_launch-Ends}
use hardware_monitor_azk.Hv.Launch.Diagnosis.{Says, needs, hv_try_launch-Says}

abbrev task_state : Descriptor
task_state = record { base = 0xFFFFF80012345000; limit = 0x67; access = 0x8B; flags = 0 }

abbrev gdt : Bytes
gdt = replicate 8 0 ++ (descriptor_bytes task_state ++ [])

abbrev registers : DescriptorTableRegister
registers = record { limit = 23; base = 0x1000 }

abbrev cpuid_result : ℕ → ℕ → CpuidResult
cpuid_result leaf subleaf = record { eax = 0x506E3; ebx = 0; ecx = 0x20; edx = 0 }

-- VMX is supported, enabled and locked; VMLAUNCH fails with error 7.
abbrev processor : Processor
processor = record {
  cpuid_result = λ leaf. cpuid_result leaf 0;
  msr = λ index. 5;
  es = 0;
  cs = 8;
  ss = 0;
  ds = 0;
  fs = 0;
  gs = 0;
  ldtr = 0;
  tr = 8;
  gdtr = registers;
  idtr = registers;
  gdt = gdt;
  cr0 = 0x80050033;
  cr3 = 0x1AA000;
  cr4 = 0x6F8;
  context_rsp = 0x7000;
  context_rip = 0x8000;
  context_eflags = 2;
  exit_handler = 0x9000;
  page_size = 4096;
  contiguous_memory = some 0x10000;
  physical_address = λ a. a;
  vmx_on_result = λ a. 0;
  vmclear_result = λ a. 0;
  vmptrld_result = λ a. 0;
  vmlaunch_error = some 7;
}

processor-IsProcessor : IsProcessor processor
unfolding descriptor_bytes short_bytes
processor-IsProcessor = record {
  selectors = (
    omega arith,
    omega arith,
    omega arith,
    omega arith,
    omega arith,
    omega arith,
    omega arith,
    omega arith,
  );
  tables = (omega arith, omega arith, omega arith, omega arith);
  registers =
      (omega arith, omega arith, omega arith, omega arith, omega arith, omega arith, omega arith);
  msrs = λ index. omega arith;
  gdt_bytes = ground arith;
  descriptors = (null, (λ ne. omega arith), null, null, null, null, λ ne. omega arith);
}
  where
    null : ◌≢◌ {A = ℕ} 0 0 → 8 ≤ 24
    null ne = omega arith

memory_fits : (a : ℕ) → some 0x10000 ≡ some a → a + 2 * 4096 + 16 * 1024 - 0x20 < 2 ^ 64
memory_fits a e = let at : 0x10000 ≡ a = cc e in omega (arith, at)

hv_try_launch-Ends_example : Returns (Ends processor (unused false)) (hv_try_launch processor)
hv_try_launch-Ends_example = hv_try_launch-Ends processor processor-IsProcessor memory_fits

hv_try_launch-Says_example : Returns (Says (needs processor)) (hv_try_launch processor)
hv_try_launch-Says_example = hv_try_launch-Says processor processor-IsProcessor memory_fits

setup_vmcs_fields_example : Returns IsSetup (setup_vmcs_fields processor 0x26F8 0x10000)
setup_vmcs_fields_example =
    setup_vmcs_fields-Returns processor 0x26F8 0x10000 processor-IsProcessor (omega arith)
      (omega arith)

compute_segment_example :
    (compute_segment_access_rights gdt 8 ≡ done 0x8B)
    × (compute_segment_base gdt 8 false ≡ done 0x12345000)
    × (compute_segment_base gdt 8 true ≡ done 0xFFFFF80012345000)
compute_segment_example =
    compute_segment-descriptor_bytes gdt 8 task_state [] (λ e. omega arith)
      (record {
        base_fits = omega arith;
        limit_fits = omega arith;
        access_fits = omega arith;
        flags_fits = omega arith;
      })
      refl

only_bit0 : (k : ℕ) → bit 1 k ≡ true → bit 0x203 k ≡ true
only_bit0 zero h = refl
only_bit0 (suc k) h =
    let none_left : (0 / 2 ^ k % 2 == 1) ≡ true = rw (← bit-suc 1 k) h in
    absurd (ground (arith, zero-div (2 ^ k)))

-- Bit 0 has to be set, and no other bit may be but bits 0, 1 and 9.
adjust_control_value_example :
    IsAdjusted 1 0x203 0x200 (adjust_control_value (1 + 0x203 * 2 ^ 32) 0x200)
adjust_control_value_example =
    adjust_control_value-IsAdjusted 1 0x203 0x200 (omega arith) (omega arith) only_bit0

abbrev guest : Guest
guest = record {
  registers = record {
    r15 = 15;
    r14 = 14;
    r13 = 13;
    r12 = 12;
    r11 = 11;
    r10 = 10;
    r9 = 9;
    r8 = 8;
    rdi = 7;
    rsi = 6;
    rbp = 5;
    rbx = 4;
    rdx = 3;
    rcx = 0;
    rax = 0x100000001;
  };
  rip = 0x8000;
}

-- A CPUID, then an access to a control register.
abbrev exits : List Exit
exits =
    record { reason = 10; instruction_length = 2 }
    ∷ record { reason = 28; instruction_length = 3 }
    ∷ []

run_guest_example : RunOf cpuid_result guest exits (run_guest cpuid_result guest exits)
run_guest_example =
    run_guest-RunOf cpuid_result
      (λ leaf subleaf. (omega arith, omega arith, omega arith, omega arith)) guest exits
