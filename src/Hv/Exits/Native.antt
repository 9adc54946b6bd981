-- ===== src/Hv/Exits/Native.antt =====
-- A guest under the exit handler, against CPUID executed by the processor itself.
use hardware_monitor_azk.Base.{
  ℕ, ◌+◌, ◌%◌, ◌^◌, ◌<◌, ◌≡◌, ◌≢◌, refl, arith, true, false, List, [], ◌∷◌, ◌++◌, inl, inr, ◌==◌,
  Bool-cases,
}
use hardware_monitor_azk.Cpu.Types.{CpuidResult}
use hardware_monitor_azk.Hv.Exits.{
  hv_handle_vm_exit, Next, resumed, trapped, Guest, Exit, hv_exit_handler, run_guest,
}

-- CPUID of a given length in 64-bit mode, by the processor's manual: it reads EAX and ECX, writes
-- the four results to the low halves of RAX, RBX, RCX and RDX and clears the high halves, changes
-- no other register, and goes on behind itself.
pub record IsCpuid (cpuidex : ℕ → ℕ → CpuidResult) (size : ℕ) (g g' : Guest) : Type 0 where
  pub eax : g'.registers.rax ≡ (cpuidex (g.registers.rax % 2 ^ 32) (g.registers.rcx % 2 ^ 32)).eax
  pub ebx : g'.registers.rbx ≡ (cpuidex (g.registers.rax % 2 ^ 32) (g.registers.rcx % 2 ^ 32)).ebx
  pub ecx : g'.registers.rcx ≡ (cpuidex (g.registers.rax % 2 ^ 32) (g.registers.rcx % 2 ^ 32)).ecx
  pub edx : g'.registers.rdx ≡ (cpuidex (g.registers.rax % 2 ^ 32) (g.registers.rcx % 2 ^ 32)).edx
  pub others :
      record g'.registers { rax = 0; rbx = 0; rcx = 0; rdx = 0 }
      ≡ record g.registers { rax = 0; rbx = 0; rcx = 0; rdx = 0 }
  pub next : g'.rip ≡ (g.rip + size) % 2 ^ 64

-- CPUIDs one after the other, of the lengths of the exits, all of which are for CPUID.
pub data Natively (cpuidex : ℕ → ℕ → CpuidResult) : Guest → List Exit → Guest → Type 0 where
  nothing : (g : Guest) → Natively cpuidex g [] g
  executes :
      {g middle last : Guest} {e : Exit} {es : List Exit}
      → e.reason % 2 ^ 16 ≡ 10
      → IsCpuid cpuidex e.instruction_length g middle
      → Natively cpuidex middle es last
      → Natively cpuidex g (e ∷ es) last

-- Either all exits are for CPUID, and the guest has gone on as it would have natively; or it has
-- until the first other exit, which traps and changes nothing.
pub data RunOf (cpuidex : ℕ → ℕ → CpuidResult) (g : Guest) : List Exit → Next × Guest → Type 0 where
  runs_all :
      {es : List Exit} {last : Guest}
      → Natively cpuidex g es last
      → RunOf cpuidex g es (resumed, last)
  runs_until :
      (before rest : List Exit) (e : Exit) {last : Guest}
      → Natively cpuidex g before last
      → e.reason % 2 ^ 16 ≢ 10
      → RunOf cpuidex g (before ++ (e ∷ rest)) (trapped, last)

abbrev pub AreWords : (ℕ → ℕ → CpuidResult) → Type 0
AreWords cpuidex =
    (leaf subleaf : ℕ)
    → ((cpuidex leaf subleaf).eax < 2 ^ 32)
      × ((cpuidex leaf subleaf).ebx < 2 ^ 32)
      × ((cpuidex leaf subleaf).ecx < 2 ^ 32)
      × ((cpuidex leaf subleaf).edx < 2 ^ 32)

module _ (cpuidex : ℕ → ℕ → CpuidResult) (words : AreWords cpuidex) where
  resumes_once :
      (g : Guest) (e : Exit)
      → (e.reason % 2 ^ 16 == 10) ≡ true
      → (g' : Guest) × (hv_exit_handler cpuidex g e ≡ (resumed, g'))
        × IsCpuid cpuidex e.instruction_length g g'
  unfolding hv_exit_handler hv_handle_vm_exit
  resumes_once g e is = rw is (
    _,
    refl,
    record {
      eax = omega (arith, w.0);
      ebx = omega (arith, w.1);
      ecx = omega (arith, w.2);
      edx = omega (arith, w.3);
      others = refl;
      next = refl;
    },
  )
    where
      w :
          ((cpuidex (g.registers.rax % 2 ^ 32) (g.registers.rcx % 2 ^ 32)).eax < 2 ^ 32)
          × ((cpuidex (g.registers.rax % 2 ^ 32) (g.registers.rcx % 2 ^ 32)).ebx < 2 ^ 32)
          × ((cpuidex (g.registers.rax % 2 ^ 32) (g.registers.rcx % 2 ^ 32)).ecx < 2 ^ 32)
          × ((cpuidex (g.registers.rax % 2 ^ 32) (g.registers.rcx % 2 ^ 32)).edx < 2 ^ 32)
      w = words (g.registers.rax % 2 ^ 32) (g.registers.rcx % 2 ^ 32)

  traps_once :
      (g : Guest) (e : Exit)
      → (e.reason % 2 ^ 16 == 10) ≡ false
      → hv_exit_handler cpuidex g e ≡ (trapped, g)
  unfolding hv_exit_handler hv_handle_vm_exit
  traps_once g e is = rw is refl

  RunOf-before :
      {g middle : Guest} {e : Exit} {es : List Exit} {r : Next × Guest}
      → e.reason % 2 ^ 16 ≡ 10
      → IsCpuid cpuidex e.instruction_length g middle
      → RunOf cpuidex middle es r
      → RunOf cpuidex g (e ∷ es) r
  RunOf-before is h (runs_all k) = runs_all (executes is h k)
  RunOf-before {e = e} is h (runs_until before rest e' k other) =
      runs_until (e ∷ before) rest e' (executes is h k) other

  -- If CPUID gives 32-bit results, a guest under the exit handler has, over any list of exits for
  -- CPUID, the registers and the RIP that the instruction executed natively would leave, and is
  -- resumed; if another exit is in the list, it traps there with the state that it has reached
  -- natively until then, and no later exit is handled.
  pub run_guest-RunOf : (g : Guest) (es : List Exit) → RunOf cpuidex g es (run_guest cpuidex g es)
  unfolding run_guest
  run_guest-RunOf g [] = runs_all (nothing g)
  run_guest-RunOf g (e ∷ es) = elim (Bool-cases (e.reason % 2 ^ 16 == 10)) [
    | inl is ↦
        let (g', step, h) = resumes_once g e is in
        rw step (RunOf-before (ground arith) h (run_guest-RunOf g' es))
    | inr is ↦ rw (traps_once g e is) (runs_until [] es e (nothing g) (λ same. ground arith))
  ]
