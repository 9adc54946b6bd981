-- ===== src/Hv/Exits.antt =====
-- VM exits (`HvHandleVmExit` of driver/hv/hwmon_hv.c).
pub mod Native
use hardware_monitor_azk.Base.{ℕ, ◌+◌, ◌%◌, ◌^◌, not, List, [], ◌∷◌, ◌==◌, if◌then◌else◌}
use hardware_monitor_azk.Cpu.Types.{CpuidResult}
use hardware_monitor_azk.Hv.Field.{Field, vm_exit_reason, vm_exit_instruction_len, guest_rip}
use hardware_monitor_azk.Hv.Types.{GuestRegisters}
use hardware_monitor_azk.Hv.Stack.{
  Stack, save_registers, registers_at, with_registers, restore_registers,
}

-- EXIT_REASON_CPUID
abbrev pub exit_reason_cpuid : ℕ
exit_reason_cpuid = 10

-- The result, the guest's registers, and the VMCS fields that were written.
pub record Handled : Type 0 where
  pub result : ℕ
  pub registers : GuestRegisters
  pub written : List (Field × ℕ)

-- `vmread` gives the fields of the current VMCS, `cpuidex` is the instruction by leaf and subleaf.
-- The casts to INT32 take the registers' low 32 bits.
unfoldable pub hv_handle_vm_exit : (ℕ → ℕ → CpuidResult) → (Field → ℕ) → GuestRegisters → Handled
hv_handle_vm_exit cpuidex vmread regs =
    if not (vmread vm_exit_reason % 2 ^ 16 == exit_reason_cpuid)
    then record { result = 1; registers = regs; written = [] }
    else (let r = cpuidex (regs.rax % 2 ^ 32) (regs.rcx % 2 ^ 32) in
        record {
          result = 0;
          registers = record regs {
            rax = r.eax % 2 ^ 32;
            rbx = r.ebx % 2 ^ 32;
            rcx = r.ecx % 2 ^ 32;
            rdx = r.edx % 2 ^ 32;
          };
          written = (guest_rip, (vmread guest_rip + vmread vm_exit_instruction_len) % 2 ^ 64) ∷ [];
        })

-- `HvExitHandler` of asm/hwmon_hv_asm.asm: VMRESUME at 0, else INT 3.
pub data Next : Type 0 where
  resumed : Next
  trapped : Next

-- The guest: its registers, its RIP (which stands in the VMCS), and an exit that it takes: the exit
-- reason's field and the instruction's length.
pub record Guest : Type 0 where
  pub registers : GuestRegisters
  pub rip : ℕ

pub record Exit : Type 0 where
  pub reason : ℕ
  pub instruction_length : ℕ

-- The VMCS at an exit; the fields that the handler does not read are 0 here.
abbrev vmcs_at : Guest → Exit → Field → ℕ
vmcs_at g e guest_rip = g.rip
vmcs_at g e vm_exit_reason = e.reason
vmcs_at g e vm_exit_instruction_len = e.instruction_length
vmcs_at g e _ = 0

abbrev rip_after : ℕ → List (Field × ℕ) → ℕ
rip_after rip [] = rip
rip_after rip ((guest_rip, v) ∷ ws) = rip_after v ws
rip_after rip (w ∷ ws) = rip_after rip ws

-- The handler pushes all registers, calls `HvHandleVmExit` on the structure at RSP, and pops them.
-- Where it traps they are still on the stack, as `HvHandleVmExit` found them. `below` is what the
-- host's stack holds already.
abbrev below : Stack
below i = 0

unfoldable pub hv_exit_handler : (ℕ → ℕ → CpuidResult) → Guest → Exit → Next × Guest
unfolding hv_handle_vm_exit
hv_exit_handler cpuidex g e =
    let saved = save_registers g.registers below in
    let h = hv_handle_vm_exit cpuidex (vmcs_at g e) (registers_at saved) in
    let left = with_registers h.registers saved in
    let g' : Guest = record {
      registers = restore_registers left;
      rip = rip_after g.rip h.written;
    } in
    (if h.result == 0 then resumed else trapped, g')

abbrev pub unless_trapped : (Guest → Next × Guest) → Next × Guest → Next × Guest
unless_trapped go (resumed, g) = go g
unless_trapped go (trapped, g) = (trapped, g)

-- The exits that a guest takes, up to the first that traps.
unfoldable pub run_guest : (ℕ → ℕ → CpuidResult) → Guest → List Exit → Next × Guest
unfolding hv_exit_handler
run_guest cpuidex g [] = (resumed, g)
run_guest cpuidex g (e ∷ es) =
    unless_trapped (λ g'. run_guest cpuidex g' es) (hv_exit_handler cpuidex g e)
