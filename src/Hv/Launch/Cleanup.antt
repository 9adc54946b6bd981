-- ===== src/Hv/Launch/Cleanup.antt =====
-- `HvTryLaunch` keeps to the rules, and leaves nothing behind when it fails.
use hardware_monitor_azk.Base.{
  ℕ, ◌+◌, ◌^◌, ◌<◌, ◌≡◌, refl, arith, Bool, true, false, not, ◌||◌, List, [], ◌∷◌, ◌++◌, Option,
  none, some, ◌==◌, bit,
}
use Prim.Native.Nat.{bit_or}
use mathlib.Core.List.{Memᴰ}
use hardware_monitor_azk.Buffer.Returns.{Returns, returns, Returns->>=, Returns-if, Returns-mono}
use hardware_monitor_azk.Hv.Field.{vm_instruction_error}
use hardware_monitor_azk.Hv.Types.{
  Processor, no_vmx_support, not_enabled_by_firmware, allocation_failed, region_not_aligned,
  vmclear_failed, vmptrld_failed, vmlaunch_failed, Event,
}
use hardware_monitor_azk.Hv.Controls.{vmx_is_supported_by_cpuid, vmx_is_enabled_by_bios}
use hardware_monitor_azk.Hv.Controls.Bits.{bit-bit_or, bit_or_bound}
use hardware_monitor_azk.Hv.Setup.{Writes, setup_vmcs_fields, host_stack_top}
use hardware_monitor_azk.Hv.Setup.Fields.{IsProcessor, setup_vmcs_fields-Returns}
use hardware_monitor_azk.Hv.Launch.Rules.{
  Platform, Obeys, finished, ◌⨾◌, Obeys-append, prints, allocates, zeroes, identifies, enables,
  enters, enters_not, clears, clears_not, loads, loads_not, writes, launches, reads, leaves, frees,
}
use hardware_monitor_azk.Hv.Launch.{
  returned, in_guest, Attempt, after, written, vmlaunch, with_vmx_on, with_memory, with_allocation,
  hv_try_launch,
}

-- Outside VMX operation, with no memory.
abbrev pub unused : Bool → Platform
unused vmxe = record {
  vmx = false;
  vmxe = vmxe;
  held = none;
  regions = [];
  cleared = none;
  current = none;
}

-- A failed attempt returns FALSE and leaves no VMX operation and no memory, and `g_HvState` is
-- NULL. A guest runs in VMX operation on a current VMCS, in the memory of `g_HvState`.
pub data IsEnd : Attempt → Platform → Type 0 where
  failed :
      (events : List Event) (vmxe : Bool)
      → IsEnd (record { outcome = returned false; hv_state = none; events = events }) (unused vmxe)
  running :
      (events : List Event) (a : ℕ) (s : Platform) (vmcs : ℕ)
      → s.vmx ≡ true
      → s.held ≡ some a
      → s.current ≡ some vmcs
      → IsEnd (record { outcome = in_guest; hv_state = some a; events = events }) s

-- From a platform on, the attempt keeps to the rules and comes to such an end.
pub data Ends (p : Processor) (s : Platform) (a : Attempt) : Type 0 where
  ends : (last : Platform) → Obeys p s a.events last → IsEnd a last → Ends p s a

IsEnd-after :
    (first : List Event) {a : Attempt} {s : Platform} → IsEnd a s → IsEnd (after first a) s
IsEnd-after first (failed events vmxe) = failed (first ++ events) vmxe
IsEnd-after first (running events a s vmcs x y z) = running (first ++ events) a s vmcs x y z

Ends-after :
    {p : Processor} {s middle : Platform} (first : List Event) {a : Attempt}
    → Obeys p s first middle
    → Ends p middle a
    → Ends p s (after first a)
Ends-after first h (ends last k e) = ends last (Obeys-append h k) (IsEnd-after first e)

Obeys-written :
    (p : Processor) (s : Platform) (vmcs : ℕ) (ws : Writes)
    → s.vmx ≡ true
    → s.current ≡ some vmcs
    → Obeys p s (written ws) s
Obeys-written p s vmcs [] x y = finished s
Obeys-written p s vmcs (w ∷ ws) x y = writes s w.0 w.1 vmcs x y ⨾ Obeys-written p s vmcs ws x y

module _ (p : Processor) (a : ℕ) where
  -- With the two revision identifiers written, and in VMX operation; then with a current VMCS.
  identified : Platform
  identified = record {
    vmx = false;
    vmxe = true;
    held = some a;
    regions = p.physical_address (a + p.page_size) ∷ p.physical_address a ∷ [];
    cleared = none;
    current = none;
  }

  current_at : ℕ → Platform
  unfolding identified
  current_at vmcs = record identified { vmx = true; cleared = some vmcs; current = some vmcs }

  vmlaunch-Ends : (vmcs : ℕ) → Returns (Ends p (current_at vmcs)) (vmlaunch p a)
  unfolding vmlaunch current_at identified
  vmlaunch-Ends vmcs = by_error p.vmlaunch_error refl
    where
      by_error :
          (error : Option ℕ)
          → p.vmlaunch_error ≡ error
          → Returns (Ends p (current_at vmcs)) (vmlaunch p a)
      by_error none e = rw e (
          returns _ (
            ends _ (launches _ vmcs refl refl refl ⨾ finished _)
              (running _ a _ vmcs refl refl refl)))
      by_error (some error) e = rw e (
          returns _ (
            ends _
              (launches _ vmcs refl refl refl
                ⨾ reads _ vm_instruction_error vmcs refl refl
                ⨾ prints _ (vmlaunch_failed error)
                ⨾ leaves _ refl
                ⨾ frees _ a refl refl
                ⨾ finished _)
              (failed _ true)))

  with_vmx_on-Ends :
      (cr4 : ℕ)
      → Returns (λ ws. Unit {0}) (setup_vmcs_fields p cr4 a)
      → Returns (Ends p (record identified { vmx = true })) (with_vmx_on p cr4 a)
  unfolding with_vmx_on identified current_at
  with_vmx_on-Ends cr4 setup =
      Returns-if (not (p.vmclear_result vmcs == 0))
        (λ bad. returns _ (
          ends _
            (clears_not _ vmcs _ refl (Memᴰ.head refl) (λ z. ground arith)
              ⨾ prints _ vmclear_failed
              ⨾ leaves _ refl
              ⨾ frees _ a refl refl
              ⨾ finished _)
            (failed _ true)))
        λ good.
          let zero_clear : p.vmclear_result vmcs ≡ 0 = ground arith in
          Returns-if (not (p.vmptrld_result vmcs == 0))
            (λ bad. returns _ (
              ends _
                (clears _ vmcs _ refl (Memᴰ.head refl) zero_clear
                  ⨾ loads_not _ vmcs _ refl refl (λ z. ground arith)
                  ⨾ prints _ vmptrld_failed
                  ⨾ leaves _ refl
                  ⨾ frees _ a refl refl
                  ⨾ finished _)
                (failed _ true)))
            λ loaded.
              let zero_load : p.vmptrld_result vmcs ≡ 0 = ground arith in
              Returns->>= setup λ ws _. Returns->>= (vmlaunch-Ends vmcs) λ attempt h. returns _ (
                Ends-after _
                  (Obeys-append
                    (clears _ vmcs _ refl (Memᴰ.head refl) zero_clear
                      ⨾ loads _ vmcs _ refl refl zero_load
                      ⨾ finished _)
                    (Obeys-written p (current_at vmcs) vmcs ws refl refl))
                  h)
    where
      vmcs : ℕ
      vmcs = p.physical_address (a + p.page_size)

  cr4_bit : bit (bit_or p.cr4 (2 ^ 13)) 13 ≡ true
  cr4_bit = rw (bit-bit_or 13 p.cr4 (2 ^ 13)) (or_true (bit p.cr4 13))
    where
      or_true : (b : Bool) → b || true ≡ true
      or_true true = refl
      or_true false = refl

  with_memory-Ends :
      (vmxe : Bool)
      → Returns (λ ws. Unit {0}) (setup_vmcs_fields p (bit_or p.cr4 (2 ^ 13)) a)
      → Returns (Ends p (record (unused vmxe) { held = some a })) (with_memory p a)
  unfolding with_memory identified
  with_memory-Ends vmxe setup =
      Returns-if (not (p.vmx_on_result vmxon == 0))
        (λ bad. returns _ (
          ends _
            (identifies _ a a refl (omega arith) (omega arith) refl
              ⨾ identifies _ (a + p.page_size) a refl (omega arith) (omega arith) refl
              ⨾ enables _ _ cr4_bit
              ⨾ enters_not _ vmxon _ refl refl (Memᴰ.tail (Memᴰ.head refl)) (λ z. ground arith)
              ⨾ prints _ _
              ⨾ frees _ a refl refl
              ⨾ finished _)
            (failed _ true)))
        λ good.
          let zero_on : p.vmx_on_result vmxon ≡ 0 = ground arith in
          Returns->>= (with_vmx_on-Ends (bit_or p.cr4 (2 ^ 13)) setup) λ attempt h. returns _ (
            Ends-after _
              (identifies _ a a refl (omega arith) (omega arith) refl
                ⨾ identifies _ (a + p.page_size) a refl (omega arith) (omega arith) refl
                ⨾ enables _ _ cr4_bit
                ⨾ enters _ vmxon _ refl refl (Memᴰ.tail (Memᴰ.head refl)) zero_on
                ⨾ finished _)
              h)
    where
      vmxon : ℕ
      vmxon = p.physical_address a

-- For registers of their width, a GDT of bytes that holds the selectors' descriptors, and memory
-- below the end of the address space, `HvTryLaunch` ends without a read outside the GDT, and its
-- events obey the rules of VMX operation and of the kernel's memory from a start outside VMX
-- operation: VMXON comes only with CR4.VMXE set and a revision identifier in the region, VMWRITE
-- and VMLAUNCH only with a current VMCS, and memory is freed only by its holder, outside VMX
-- operation. Either it returns FALSE with VMX operation left, nothing held and `g_HvState` NULL, or
-- the guest runs in VMX operation on a current VMCS, in the memory of `g_HvState`.
pub hv_try_launch-Ends :
    (p : Processor)
    → IsProcessor p
    → ((a : ℕ) → p.contiguous_memory ≡ some a → host_stack_top p a < 2 ^ 64)
    → Returns (Ends p (unused (bit p.cr4 13))) (hv_try_launch p)
unfolding hv_try_launch
hv_try_launch-Ends p h room =
    Returns-if (not (vmx_is_supported_by_cpuid p))
      (λ _. returns _ (ends _ (prints _ no_vmx_support ⨾ finished _) (failed _ vmxe)))
      λ _.
        Returns-if (not (vmx_is_enabled_by_bios p))
          (λ _. returns _ (ends _ (prints _ not_enabled_by_firmware ⨾ finished _) (failed _ vmxe)))
          λ _. by_memory p.contiguous_memory refl
  where
    vmxe : Bool
    vmxe = bit p.cr4 13

    by_memory :
        (memory : Option ℕ)
        → p.contiguous_memory ≡ memory
        → Returns (Ends p (unused vmxe)) (with_allocation p memory)
    by_memory none e = returns _ (ends _ (prints _ allocation_failed ⨾ finished _) (failed _ vmxe))
    by_memory (some a) e =
        Returns-if _
          (λ _. returns _ (
            ends _
              (allocates _ a refl
                ⨾ zeroes _ a refl
                ⨾ prints _ region_not_aligned
                ⨾ frees _ a refl refl
                ⨾ finished _)
              (failed _ vmxe)))
          λ _.
            Returns->>=
              (with_memory-Ends p a vmxe (
                Returns-mono
                  (setup_vmcs_fields-Returns p _ a h
                    (bit_or_bound 64 p.cr4 (2 ^ 13) h.registers.2 (omega arith)) (room a e))
                  (λ ws _. tt)))
              λ attempt k.
                returns _ (Ends-after _ (allocates _ a refl ⨾ zeroes _ a refl ⨾ finished _) k)
