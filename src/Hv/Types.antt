-- ===== src/Hv/Types.antt =====
-- What driver/hv/hwmon_hv.c sees of the processor and the kernel, and what it does to them.
use hardware_monitor_azk.Base.{ℕ, Option}
use hardware_monitor_azk.Buffer.{Bytes}
use hardware_monitor_azk.Cpu.Types.{CpuidResult}
use hardware_monitor_azk.Hv.Field.{Field}

-- HV_GUEST_REGISTERS
pub record GuestRegisters : Type 0 where
  pub r15 : ℕ
  pub r14 : ℕ
  pub r13 : ℕ
  pub r12 : ℕ
  pub r11 : ℕ
  pub r10 : ℕ
  pub r9 : ℕ
  pub r8 : ℕ
  pub rdi : ℕ
  pub rsi : ℕ
  pub rbp : ℕ
  pub rbx : ℕ
  pub rdx : ℕ
  pub rcx : ℕ
  pub rax : ℕ

-- HV_DESCRIPTOR_TABLE_REGISTER
pub record DescriptorTableRegister : Type 0 where
  pub limit : ℕ
  pub base : ℕ

-- The processor that runs `HvTryLaunch`, and the kernel: the results of `__cpuid` and `__readmsr`,
-- of the functions `HvRead...` of asm/hwmon_hv_asm.asm, of `__readcr0`, `__readcr3` and, before the
-- launch, `__readcr4`, of `RtlCaptureContext`; the bytes from the GDT's base on; the address of
-- `HvExitHandler`; `PAGE_SIZE`, `MmAllocateContiguousMemory` (`none` is NULL) and
-- `MmGetPhysicalAddress`; the results of VMXON, VMCLEAR and VMPTRLD by the physical address; and the
-- VM-instruction error that VMLAUNCH leaves, `none` if it enters the guest.
pub record Processor : Type 0 where
  pub cpuid_result : ℕ → CpuidResult
  pub msr : ℕ → ℕ
  pub es : ℕ
  pub cs : ℕ
  pub ss : ℕ
  pub ds : ℕ
  pub fs : ℕ
  pub gs : ℕ
  pub ldtr : ℕ
  pub tr : ℕ
  pub gdtr : DescriptorTableRegister
  pub idtr : DescriptorTableRegister
  pub gdt : Bytes
  pub cr0 : ℕ
  pub cr3 : ℕ
  pub cr4 : ℕ
  pub context_rsp : ℕ
  pub context_rip : ℕ
  pub context_eflags : ℕ
  pub exit_handler : ℕ
  pub page_size : ℕ
  pub contiguous_memory : Option ℕ
  pub physical_address : ℕ → ℕ
  pub vmx_on_result : ℕ → ℕ
  pub vmclear_result : ℕ → ℕ
  pub vmptrld_result : ℕ → ℕ
  pub vmlaunch_error : Option ℕ

-- What `DbgPrint` says.
pub data Message : Type 0 where
  no_vmx_support : Message
  not_enabled_by_firmware : Message
  allocation_failed : Message
  region_not_aligned : Message
  vmxon_failed : ℕ → Message
  vmclear_failed : Message
  vmptrld_failed : Message
  vmlaunch_failed : ℕ → Message

-- What is done to the kernel and the processor, in the order of execution: the allocation gives an
-- address and a size; a word is written to an address; VMXON, VMCLEAR and VMPTRLD have a physical
-- address and their result.
pub data Event : Type 0 where
  printed : Message → Event
  allocated : ℕ → Event
  zeroed : ℕ → Event
  word_written : ℕ → ℕ → Event
  cr4_written : ℕ → Event
  vmxon_executed : ℕ → ℕ → Event
  vmclear_executed : ℕ → ℕ → Event
  vmptrld_executed : ℕ → ℕ → Event
  vmwrite_executed : Field → ℕ → Event
  vmlaunch_executed : Event
  vmread_executed : Field → Event
  vmxoff_executed : Event
  freed : ℕ → Event
