-- ===== src/Hv/Launch/Diagnosis.antt =====
-- What `HvTryLaunch` needs, in order, and what it says when that is missing.
use hardware_monitor_azk.Base.{
  ℕ, ◌+◌, ◌%◌, ◌^◌, ◌<◌, ◌≡◌, refl, ◌∙◌, arith, Bool, true, false, not, ◌&&◌, ◌||◌, List, [], ◌∷◌,
  ◌++◌, Option, none, some, ◌==◌, if◌then◌else◌, bit,
}
use hardware_monitor_azk.Buffer.{Run}
use Prim.Native.Nat.{bit_or}
use native.Mathlib.Nat.{add-mod_right}
use hardware_monitor_azk.Buffer.Returns.{Returns, returns, Returns->>=, Returns-mono}
use hardware_monitor_azk.Hv.Types.{
  Processor, Message, no_vmx_support, not_enabled_by_firmware, allocation_failed,
  region_not_aligned, vmxon_failed, vmclear_failed, vmptrld_failed, vmlaunch_failed, Event, printed,
  allocated, zeroed, word_written, cr4_written, vmxon_executed, vmclear_executed, vmptrld_executed,
  vmwrite_executed, vmlaunch_executed, vmread_executed, vmxoff_executed, freed,
}
use hardware_monitor_azk.Hv.Controls.{vmx_is_supported_by_cpuid, vmx_is_enabled_by_bios}
use hardware_monitor_azk.Hv.Controls.Bits.{bit_or_bound}
use hardware_monitor_azk.Hv.Setup.{Writes, setup_vmcs_fields, host_stack_top}
use hardware_monitor_azk.Hv.Setup.Fields.{IsProcessor, setup_vmcs_fields-Returns}
use hardware_monitor_azk.Hv.Launch.{
  Outcome, returned, in_guest, Attempt, after, written, vmlaunch, with_vmx_on, with_memory,
  with_allocation, hv_try_launch,
}

-- A need, and the message when it is not met.
abbrev pub Needs : Type 0
Needs = List (Bool × Message)

abbrev needs_to_launch : Option ℕ → Needs
needs_to_launch none = []
needs_to_launch (some error) = (false, vmlaunch_failed error) ∷ []

abbrev needs_of_memory : Processor → Option ℕ → Needs
needs_of_memory p none = (false, allocation_failed) ∷ []
needs_of_memory p (some a) =
    let vmxon = p.vmx_on_result (p.physical_address a) in
    let vmcs = p.physical_address (a + p.page_size) in
    (a % p.page_size == 0, region_not_aligned)
    ∷ (vmxon == 0, vmxon_failed vmxon)
    ∷ (p.vmclear_result vmcs == 0, vmclear_failed)
    ∷ (p.vmptrld_result vmcs == 0, vmptrld_failed)
    ∷ needs_to_launch p.vmlaunch_error

abbrev pub needs : Processor → Needs
needs p =
    (bit (p.cpuid_result 1).ecx 5, no_vmx_support)
    ∷ (bit (p.msr 0x3A) 0 && bit (p.msr 0x3A) 2, not_enabled_by_firmware)
    ∷ needs_of_memory p p.contiguous_memory

-- The messages of the needs that are not met, up to the first.
abbrev pub first_unmet : Needs → List Message
first_unmet [] = []
first_unmet ((true, m) ∷ ns) = first_unmet ns
first_unmet ((false, m) ∷ ns) = m ∷ []

abbrev pub messages : List Event → List Message
messages [] = []
messages (printed m ∷ es) = m ∷ messages es
messages (_ ∷ es) = messages es

abbrev pub verdict : List Message → Outcome
verdict [] = in_guest
verdict (m ∷ ms) = returned false

pub record Says (needed : Needs) (a : Attempt) : Type 0 where
  pub told : messages a.events ≡ first_unmet needed
  pub judged : a.outcome ≡ verdict (first_unmet needed)

messages-append : (es fs : List Event) → messages es ≡ [] → messages (es ++ fs) ≡ messages fs
messages-append [] fs e = refl
messages-append (printed m ∷ es) fs e = cc
messages-append (allocated a ∷ es) fs e = messages-append es fs e
messages-append (zeroed a ∷ es) fs e = messages-append es fs e
messages-append (word_written a v ∷ es) fs e = messages-append es fs e
messages-append (cr4_written v ∷ es) fs e = messages-append es fs e
messages-append (vmxon_executed a v ∷ es) fs e = messages-append es fs e
messages-append (vmclear_executed a v ∷ es) fs e = messages-append es fs e
messages-append (vmptrld_executed a v ∷ es) fs e = messages-append es fs e
messages-append (vmwrite_executed f v ∷ es) fs e = messages-append es fs e
messages-append (vmlaunch_executed ∷ es) fs e = messages-append es fs e
messages-append (vmread_executed f ∷ es) fs e = messages-append es fs e
messages-append (vmxoff_executed ∷ es) fs e = messages-append es fs e
messages-append (freed a ∷ es) fs e = messages-append es fs e

messages-written : (ws : Writes) → messages (written ws) ≡ []
messages-written [] = refl
messages-written (w ∷ ws) = messages-written ws

Says-after :
    {needed : Needs} (first : List Event) {a : Attempt}
    → messages first ≡ []
    → Says needed a
    → Says needed (after first a)
Says-after first {a} quiet h = record {
  told = messages-append first a.events quiet ∙ h.told;
  judged = h.judged;
}

-- A need that is met, and one that is not.
Returns-need :
    {m : Message} {needed : Needs} (met : Bool) {go stop : Run Attempt}
    → (met ≡ true → Returns (Says needed) go)
    → (met ≡ false → Returns (Says ((false, m) ∷ [])) stop)
    → Returns (Says ((met, m) ∷ needed)) (if not met then stop else go)
Returns-need true go stop =
    Returns-mono (go refl) λ a h. record { told = h.told; judged = h.judged }
Returns-need false go stop =
    Returns-mono (stop refl) λ a h. record { told = h.told; judged = h.judged }

module _ (p : Processor) (a : ℕ) where
  vmlaunch-Says : Returns (Says (needs_to_launch p.vmlaunch_error)) (vmlaunch p a)
  unfolding vmlaunch
  vmlaunch-Says = by_error p.vmlaunch_error refl
    where
      by_error :
          (error : Option ℕ)
          → p.vmlaunch_error ≡ error
          → Returns (Says (needs_to_launch p.vmlaunch_error)) (vmlaunch p a)
      by_error none e = rw e (returns _ (record { told = refl; judged = refl }))
      by_error (some error) e = rw e (returns _ (record { told = refl; judged = refl }))

  with_vmx_on-Says :
      (cr4 : ℕ)
      → Returns (λ ws. Unit {0}) (setup_vmcs_fields p cr4 a)
      → let vmcs = p.physical_address (a + p.page_size) in
        Returns
          (Says (
            (p.vmclear_result vmcs == 0, vmclear_failed)
            ∷ (p.vmptrld_result vmcs == 0, vmptrld_failed)
            ∷ needs_to_launch p.vmlaunch_error))
          (with_vmx_on p cr4 a)
  unfolding with_vmx_on
  with_vmx_on-Says cr4 setup =
      Returns-need (p.vmclear_result vmcs == 0)
        (λ _.
          Returns-need (p.vmptrld_result vmcs == 0)
            (λ _. Returns->>= setup λ ws _. Returns->>= vmlaunch-Says λ attempt h. returns _ (
              Says-after
                (vmclear_executed vmcs (p.vmclear_result vmcs)
                  ∷ vmptrld_executed vmcs (p.vmptrld_result vmcs)
                  ∷ written ws)
                (messages-written ws) h))
            (λ _. returns _ (record { told = refl; judged = refl })))
        (λ _. returns _ (record { told = refl; judged = refl }))
    where
      vmcs : ℕ
      vmcs = p.physical_address (a + p.page_size)

  with_memory-Says :
      Returns (λ ws. Unit {0}) (setup_vmcs_fields p (bit_or p.cr4 (2 ^ 13)) a)
      → let vmxon = p.vmx_on_result (p.physical_address a) in
        let vmcs = p.physical_address (a + p.page_size) in
        Returns
          (Says (
            (vmxon == 0, vmxon_failed vmxon)
            ∷ (p.vmclear_result vmcs == 0, vmclear_failed)
            ∷ (p.vmptrld_result vmcs == 0, vmptrld_failed)
            ∷ needs_to_launch p.vmlaunch_error))
          (with_memory p a)
  unfolding with_memory
  with_memory-Says setup =
      Returns-need (p.vmx_on_result (p.physical_address a) == 0)
        (λ _. Returns->>= (with_vmx_on-Says (bit_or p.cr4 (2 ^ 13)) setup) λ attempt h. returns _ (
          Says-after
            (word_written a (p.msr 0x480 % 2 ^ 32)
              ∷ word_written (a + p.page_size) (p.msr 0x480 % 2 ^ 32)
              ∷ cr4_written (bit_or p.cr4 (2 ^ 13))
              ∷ vmxon_executed (p.physical_address a) (p.vmx_on_result (p.physical_address a))
              ∷ [])
            refl h))
        (λ _. returns _ (record { told = refl; judged = refl }))

  -- The two regions are aligned together.
  aligned :
      not (a % p.page_size == 0) || not ((a + p.page_size) % p.page_size == 0)
      ≡ not (a % p.page_size == 0)
  aligned = rw (add-mod_right a p.page_size) (idempotent (not (a % p.page_size == 0)))
    where
      idempotent : (b : Bool) → b || b ≡ b
      idempotent true = refl
      idempotent false = refl

-- Under the same conditions on the processor and the memory, `HvTryLaunch` prints the message of
-- the first of its needs that is not met, in the order of CPUID, firmware, memory, alignment,
-- VMXON, VMCLEAR, VMPTRLD and VMLAUNCH, and no other, and returns FALSE; if all are met it prints
-- nothing and the guest is entered.
pub hv_try_launch-Says :
    (p : Processor)
    → IsProcessor p
    → ((a : ℕ) → p.contiguous_memory ≡ some a → host_stack_top p a < 2 ^ 64)
    → Returns (Says (needs p)) (hv_try_launch p)
unfolding hv_try_launch vmx_is_supported_by_cpuid vmx_is_enabled_by_bios
hv_try_launch-Says p h room =
    Returns-need (bit (p.cpuid_result 1).ecx 5)
      (λ _.
        Returns-need (bit (p.msr 0x3A) 0 && bit (p.msr 0x3A) 2)
          (λ _. by_memory p.contiguous_memory refl)
          (λ _. returns _ (record { told = refl; judged = refl })))
      (λ _. returns _ (record { told = refl; judged = refl }))
  where
    by_memory :
        (memory : Option ℕ)
        → p.contiguous_memory ≡ memory
        → Returns (Says (needs_of_memory p memory)) (with_allocation p memory)
    by_memory none e = returns _ (record { told = refl; judged = refl })
    by_memory (some a) e = rw (aligned p a) (
        Returns-need (a % p.page_size == 0)
          (λ _.
            Returns->>= (with_memory-Says p a (setup a (room a e)))
              λ attempt k. returns _ (Says-after (allocated a ∷ zeroed a ∷ []) refl k))
          (λ _. returns _ (record { told = refl; judged = refl })))
      where
        setup :
            (a : ℕ)
            → host_stack_top p a < 2 ^ 64
            → Returns (λ ws. Unit {0}) (setup_vmcs_fields p (bit_or p.cr4 (2 ^ 13)) a)
        setup a top =
            Returns-mono
              (setup_vmcs_fields-Returns p _ a h
                (bit_or_bound 64 p.cr4 (2 ^ 13) h.registers.2 (omega arith)) top)
              (λ ws _. tt)
