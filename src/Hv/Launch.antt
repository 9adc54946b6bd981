-- ===== src/Hv/Launch.antt =====
-- `HvTryLaunch` of driver/hv/hwmon_hv.c.
pub mod Rules
pub mod Cleanup
pub mod Diagnosis
use hardware_monitor_azk.Base.{
  min, ℕ, zero, suc, ◌+◌, ◌-◌, ◌*◌, ◌/◌, ◌%◌, ◌^◌, ◌≤◌, ◌<◌, ◌≡◌, ◌≢◌, ◌↔◌, refl, sym, ap, ◌∙◌,
  arith, Bool, true, false, not, ◌&&◌, ◌||◌, List, [], ◌∷◌, ◌++◌, map, Option, none, some, ◌⊎◌, inl,
  inr, ltb, leb, ◌==◌, if◌then◌else◌, bit, low_bits, Bool-cases, tests, length, take, drop, set,
  replicate, get_elem?, All,
}
use hardware_monitor_azk.Buffer.{
  Run, done, fault, stuck, ◌>>=◌, Bytes, IsByte, load, store, load_le, load_bytes, store_bytes,
  strnlen,
}
use Prim.Native.Nat.{bit_or}
use hardware_monitor_azk.Cpu.Types.{CpuidResult}
use hardware_monitor_azk.Hv.Field.{Field, vm_instruction_error}
use hardware_monitor_azk.Hv.Types.{
  Processor, Message, no_vmx_support, not_enabled_by_firmware, allocation_failed,
  region_not_aligned, vmxon_failed, vmclear_failed, vmptrld_failed, vmlaunch_failed, Event, printed,
  allocated, word_written, cr4_written, vmxon_executed, vmclear_executed, vmptrld_executed,
  vmwrite_executed, vmlaunch_executed, vmread_executed, vmxoff_executed, freed, zeroed,
}
use hardware_monitor_azk.Hv.Controls.{vmx_is_supported_by_cpuid, vmx_is_enabled_by_bios}
use hardware_monitor_azk.Hv.Setup.{Writes, setup_vmcs_fields}

-- Control either comes back with the function's result, or is in the guest.
pub data Outcome : Type 0 where
  returned : Bool → Outcome
  in_guest : Outcome

-- The outcome, `g_HvState` (`none` is NULL), and what was done, in order.
pub record Attempt : Type 0 where
  pub outcome : Outcome
  pub hv_state : Option ℕ
  pub events : List Event

-- `first`, then what `rest` does.
abbrev pub after : List Event → Attempt → Attempt
after first rest = record rest { events = first ++ rest.events }

-- A way out by `return FALSE` with `g_HvState` NULL.
abbrev failing : List Event → Run Attempt
failing events = done (record { outcome = returned false; hv_state = none; events = events })

abbrev pub written : Writes → List Event
written [] = []
written (w ∷ ws) = vmwrite_executed w.0 w.1 ∷ written ws

-- From `__vmx_vmlaunch()` on.
unfoldable pub vmlaunch : Processor → ℕ → Run Attempt
vmlaunch p hv_state = elim p.vmlaunch_error [
  | none ↦
      done
        (record { outcome = in_guest; hv_state = some hv_state; events = vmlaunch_executed ∷ [] })
  | some error ↦ failing (
      vmlaunch_executed
      ∷ vmread_executed vm_instruction_error
      ∷ printed (vmlaunch_failed error)
      ∷ vmxoff_executed
      ∷ freed hv_state
      ∷ [])
]

-- From VMCLEAR on, in VMX operation; `cr4` is the register's new value.
unfoldable pub with_vmx_on : Processor → ℕ → ℕ → Run Attempt
with_vmx_on p cr4 hv_state =
    let vmcs = p.physical_address (hv_state + p.page_size) in
    let cleared = vmclear_executed vmcs (p.vmclear_result vmcs) ∷ [] in
    let loaded = cleared ++ (vmptrld_executed vmcs (p.vmptrld_result vmcs) ∷ []) in
    if not (p.vmclear_result vmcs == 0)
    then failing (cleared ++ (printed vmclear_failed ∷ vmxoff_executed ∷ freed hv_state ∷ []))
    else if not (p.vmptrld_result vmcs == 0)
    then failing (loaded ++ (printed vmptrld_failed ∷ vmxoff_executed ∷ freed hv_state ∷ []))
    else (do
      writes ← setup_vmcs_fields p cr4 hv_state
      attempt ← vmlaunch p hv_state
      done (after (loaded ++ written writes) attempt))

-- From the revision identifier on, in the memory of HV_STATE: VmxonRegion, VmcsRegion, HostStack.
unfoldable pub with_memory : Processor → ℕ → Run Attempt
with_memory p hv_state =
    let revision_id = p.msr 0x480 % 2 ^ 32 in
    let cr4 = bit_or p.cr4 (2 ^ 13) in
    let vmxon = p.physical_address hv_state in
    let begun =
      word_written hv_state revision_id
      ∷ word_written (hv_state + p.page_size) revision_id
      ∷ cr4_written cr4
      ∷ vmxon_executed vmxon (p.vmx_on_result vmxon)
      ∷ [] in
    if not (p.vmx_on_result vmxon == 0)
    then failing (begun ++ (printed (vmxon_failed (p.vmx_on_result vmxon)) ∷ freed hv_state ∷ []))
    else (do attempt ← with_vmx_on p cr4 hv_state; done (after begun attempt))

-- From the allocation of HV_STATE on, with its result.
unfoldable pub with_allocation : Processor → Option ℕ → Run Attempt
with_allocation p none = failing (printed allocation_failed ∷ [])
with_allocation p (some hv_state) =
    let held = allocated hv_state ∷ zeroed hv_state ∷ [] in
    if not (hv_state % p.page_size == 0) || not ((hv_state + p.page_size) % p.page_size == 0)
    then failing (held ++ (printed region_not_aligned ∷ freed hv_state ∷ []))
    else (do attempt ← with_memory p hv_state; done (after held attempt))

unfoldable pub hv_try_launch : Processor → Run Attempt
unfolding with_allocation
hv_try_launch p =
    if not (vmx_is_supported_by_cpuid p)
    then failing (printed no_vmx_support ∷ [])
    else if not (vmx_is_enabled_by_bios p)
    then failing (printed not_enabled_by_firmware ∷ [])
    else with_allocation p p.contiguous_memory
