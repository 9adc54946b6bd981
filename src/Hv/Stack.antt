-- ===== src/Hv/Stack.antt =====
-- The guest's registers on the host's stack (`HvExitHandler` of driver/hv/hwmon_hv_asm.asm).
use hardware_monitor_azk.Base.{ℕ, zero, suc, List, [], ◌∷◌}
use hardware_monitor_azk.Hv.Types.{GuestRegisters}

-- The 8-byte words from RSP on.
abbrev pub Stack : Type 0
Stack = ℕ → ℕ

abbrev push : ℕ → Stack → Stack
push v stack zero = v
push v stack (suc i) = stack i

abbrev push_all : List ℕ → Stack → Stack
push_all [] stack = stack
push_all (v ∷ vs) stack = push_all vs (push v stack)

-- The fifteen pushes, from RAX to R15.
abbrev pub save_registers : GuestRegisters → Stack → Stack
save_registers g = push_all (
    g.rax ∷ g.rcx ∷ g.rdx ∷ g.rbx ∷ g.rbp ∷ g.rsi ∷ g.rdi ∷ g.r8 ∷ g.r9 ∷ g.r10 ∷ g.r11 ∷ g.r12
    ∷ g.r13 ∷ g.r14 ∷ g.r15 ∷ [])

-- What `HvHandleVmExit` finds behind its pointer to RSP: the structure's fields in their order.
abbrev pub registers_at : Stack → GuestRegisters
registers_at stack = record {
  r15 = stack 0;
  r14 = stack 1;
  r13 = stack 2;
  r12 = stack 3;
  r11 = stack 4;
  r10 = stack 5;
  r9 = stack 6;
  r8 = stack 7;
  rdi = stack 8;
  rsi = stack 9;
  rbp = stack 10;
  rbx = stack 11;
  rdx = stack 12;
  rcx = stack 13;
  rax = stack 14;
}

abbrev overwrite : List ℕ → Stack → Stack
overwrite [] stack i = stack i
overwrite (v ∷ vs) stack zero = v
overwrite (v ∷ vs) stack (suc i) = overwrite vs (λ j. stack (suc j)) i

-- The stack with the structure's fields as `HvHandleVmExit` leaves them.
abbrev pub with_registers : GuestRegisters → Stack → Stack
with_registers g = overwrite (
    g.r15 ∷ g.r14 ∷ g.r13 ∷ g.r12 ∷ g.r11 ∷ g.r10 ∷ g.r9 ∷ g.r8 ∷ g.rdi ∷ g.rsi ∷ g.rbp ∷ g.rbx
    ∷ g.rdx ∷ g.rcx ∷ g.rax ∷ [])

-- The fifteen pops, from R15 to RAX.
abbrev pub restore_registers : Stack → GuestRegisters
restore_registers stack = record {
  r15 = stack 0;
  r14 = stack 1;
  r13 = stack 2;
  r12 = stack 3;
  r11 = stack 4;
  r10 = stack 5;
  r9 = stack 6;
  r8 = stack 7;
  rdi = stack 8;
  rsi = stack 9;
  rbp = stack 10;
  rbx = stack 11;
  rdx = stack 12;
  rcx = stack 13;
  rax = stack 14;
}
