-- ===== src/Hv/Setup.antt =====
-- `SetupVmcsFields` of driver/hv/hwmon_hv.c: the VMWRITEs in their order.
pub mod Fields
use hardware_monitor_azk.Base.{
  min, ℕ, zero, suc, ◌+◌, ◌-◌, ◌*◌, ◌/◌, ◌%◌, ◌^◌, ◌≤◌, ◌<◌, ◌≡◌, ◌≢◌, ◌↔◌, refl, sym, ap, ◌∙◌,
  arith, Bool, true, false, not, ◌&&◌, ◌||◌, List, [], ◌∷◌, ◌++◌, map, Option, none, some, ◌⊎◌, inl,
  inr, ltb, leb, ◌==◌, if◌then◌else◌, bit, low_bits, Bool-cases, tests, length, take, drop, set,
  replicate, get_elem?, All,
}
use hardware_monitor_azk.Buffer.{
  Run, done, fault, stuck, ◌>>=◌, Bytes, IsByte, load, store, load_le, load_bytes, store_bytes,
  strnlen,
}
use hardware_monitor_azk.Hv.Field.{
  Field, guest_es_selector, guest_cs_selector, guest_ss_selector, guest_ds_selector,
  guest_fs_selector, guest_gs_selector, guest_ldtr_selector, guest_tr_selector, host_es_selector,
  host_cs_selector, host_ss_selector, host_ds_selector, host_fs_selector, host_gs_selector,
  host_tr_selector, msr_bitmap, vmcs_link_pointer, pin_based_controls, proc_based_controls,
  exception_bitmap, cr3_target_count, exit_controls, exit_msr_store_count, exit_msr_load_count,
  entry_controls, entry_msr_load_count, entry_interrupt_info, entry_instruction_len,
  vm_instruction_error, vm_exit_reason, vm_exit_instruction_len, guest_es_limit, guest_cs_limit,
  guest_ss_limit, guest_ds_limit, guest_fs_limit, guest_gs_limit, guest_ldtr_limit, guest_tr_limit,
  guest_gdtr_limit, guest_idtr_limit, guest_es_access_rights, guest_cs_access_rights,
  guest_ss_access_rights, guest_ds_access_rights, guest_fs_access_rights, guest_gs_access_rights,
  guest_ldtr_access_rights, guest_tr_access_rights, guest_interruptibility, guest_activity_state,
  guest_sysenter_cs, host_sysenter_cs, cr0_guest_host_mask, cr4_guest_host_mask, cr0_read_shadow,
  cr4_read_shadow, guest_cr0, guest_cr3, guest_cr4, guest_es_base, guest_cs_base, guest_ss_base,
  guest_ds_base, guest_fs_base, guest_gs_base, guest_ldtr_base, guest_tr_base, guest_gdtr_base,
  guest_idtr_base, guest_dr7, guest_rsp, guest_rip, guest_rflags, guest_sysenter_esp,
  guest_sysenter_eip, host_cr0, host_cr3, host_cr4, host_fs_base, host_gs_base, host_tr_base,
  host_gdtr_base, host_idtr_base, host_sysenter_esp, host_sysenter_eip, host_rsp, host_rip,
}
use hardware_monitor_azk.Hv.Types.{Processor, DescriptorTableRegister}
use hardware_monitor_azk.Hv.Segments.{compute_segment_access_rights, compute_segment_base}
use hardware_monitor_azk.Hv.Controls.{adjust_control_value}

abbrev pub Writes : Type 0
Writes = List (Field × ℕ)

-- A selector `& 0xF8`.
abbrev host_selector : ℕ → ℕ
host_selector selector = selector / 8 % 32 * 8

unfoldable pub guest_selectors : Processor → Writes
guest_selectors p =
    (guest_es_selector, p.es)
    ∷ (guest_cs_selector, p.cs)
    ∷ (guest_ss_selector, p.ss)
    ∷ (guest_ds_selector, p.ds)
    ∷ (guest_fs_selector, p.fs)
    ∷ (guest_gs_selector, p.gs)
    ∷ (guest_ldtr_selector, p.ldtr)
    ∷ (guest_tr_selector, p.tr)
    ∷ []

unfoldable pub guest_limits : Processor → Writes
guest_limits p =
    (guest_es_limit, 0xFFFFFFFF)
    ∷ (guest_cs_limit, 0xFFFFFFFF)
    ∷ (guest_ss_limit, 0xFFFFFFFF)
    ∷ (guest_ds_limit, 0xFFFFFFFF)
    ∷ (guest_fs_limit, 0xFFFFFFFF)
    ∷ (guest_gs_limit, 0xFFFFFFFF)
    ∷ (guest_ldtr_limit, 0)
    ∷ (guest_tr_limit, 0x67)
    ∷ (guest_gdtr_limit, p.gdtr.limit)
    ∷ (guest_idtr_limit, p.idtr.limit)
    ∷ []

unfoldable pub guest_access_rights : Processor → Run Writes
guest_access_rights p = do
  es ← compute_segment_access_rights p.gdt p.es
  cs ← compute_segment_access_rights p.gdt p.cs
  ss ← compute_segment_access_rights p.gdt p.ss
  ds ← compute_segment_access_rights p.gdt p.ds
  fs ← compute_segment_access_rights p.gdt p.fs
  gs ← compute_segment_access_rights p.gdt p.gs
  tr ← compute_segment_access_rights p.gdt p.tr
  done (
      (guest_es_access_rights, es)
      ∷ (guest_cs_access_rights, cs)
      ∷ (guest_ss_access_rights, ss)
      ∷ (guest_ds_access_rights, ds)
      ∷ (guest_fs_access_rights, fs)
      ∷ (guest_gs_access_rights, gs)
      ∷ (guest_ldtr_access_rights, 0x10000)
      ∷ (guest_tr_access_rights, tr)
      ∷ [])

unfoldable pub guest_bases : Processor → Run Writes
guest_bases p = do
  tr ← compute_segment_base p.gdt p.tr true
  done (
      (guest_es_base, 0)
      ∷ (guest_cs_base, 0)
      ∷ (guest_ss_base, 0)
      ∷ (guest_ds_base, 0)
      ∷ (guest_fs_base, p.msr 0xC0000100)
      ∷ (guest_gs_base, p.msr 0xC0000101)
      ∷ (guest_ldtr_base, 0)
      ∷ (guest_tr_base, tr)
      ∷ (guest_gdtr_base, p.gdtr.base)
      ∷ (guest_idtr_base, p.idtr.base)
      ∷ [])

-- `cr4` is what `__readcr4` gives now.
unfoldable pub guest_registers : Processor → ℕ → Writes
guest_registers p cr4 =
    (guest_cr0, p.cr0)
    ∷ (guest_cr3, p.cr3)
    ∷ (guest_cr4, cr4)
    ∷ (guest_dr7, 0x400)
    ∷ (guest_rsp, p.context_rsp)
    ∷ (guest_rip, p.context_rip)
    ∷ (guest_rflags, p.context_eflags)
    ∷ (guest_sysenter_cs, p.msr 0x174 % 2 ^ 32)
    ∷ (guest_sysenter_esp, p.msr 0x175)
    ∷ (guest_sysenter_eip, p.msr 0x176)
    ∷ (guest_interruptibility, 0)
    ∷ (guest_activity_state, 0)
    ∷ (vmcs_link_pointer, 0xFFFFFFFFFFFFFFFF)
    ∷ []

unfoldable pub host_selectors : Processor → Writes
host_selectors p =
    (host_es_selector, host_selector p.es)
    ∷ (host_cs_selector, host_selector p.cs)
    ∷ (host_ss_selector, host_selector p.ss)
    ∷ (host_ds_selector, host_selector p.ds)
    ∷ (host_fs_selector, host_selector p.fs)
    ∷ (host_gs_selector, host_selector p.gs)
    ∷ (host_tr_selector, host_selector p.tr)
    ∷ []

-- `g_HvState->HostStack + HV_HOST_STACK_SIZE - 0x20`: the stack stands behind two pages.
abbrev pub host_stack_top : Processor → ℕ → ℕ
host_stack_top p hv_state = hv_state + 2 * p.page_size + 16 * 1024 - 0x20

unfoldable pub host_registers : Processor → ℕ → ℕ → Run Writes
host_registers p cr4 hv_state = do
  tr ← compute_segment_base p.gdt p.tr true
  done (
      (host_cr0, p.cr0)
      ∷ (host_cr3, p.cr3)
      ∷ (host_cr4, cr4)
      ∷ (host_fs_base, p.msr 0xC0000100)
      ∷ (host_gs_base, p.msr 0xC0000101)
      ∷ (host_tr_base, tr)
      ∷ (host_gdtr_base, p.gdtr.base)
      ∷ (host_idtr_base, p.idtr.base)
      ∷ (host_sysenter_cs, p.msr 0x174 % 2 ^ 32)
      ∷ (host_sysenter_esp, p.msr 0x175)
      ∷ (host_sysenter_eip, p.msr 0x176)
      ∷ (host_rsp, host_stack_top p hv_state)
      ∷ (host_rip, p.exit_handler)
      ∷ [])

-- 1u << 9
abbrev pub bit9 : ℕ
bit9 = 0x200

unfoldable pub controls : Processor → ℕ → Writes
controls p cr4 =
    (pin_based_controls, adjust_control_value (p.msr 0x481) 0)
    ∷ (proc_based_controls, adjust_control_value (p.msr 0x482) 0)
    ∷ (exit_controls, adjust_control_value (p.msr 0x483) bit9)
    ∷ (entry_controls, adjust_control_value (p.msr 0x484) bit9)
    ∷ (exception_bitmap, 0)
    ∷ (cr3_target_count, 0)
    ∷ (exit_msr_store_count, 0)
    ∷ (exit_msr_load_count, 0)
    ∷ (entry_msr_load_count, 0)
    ∷ (entry_interrupt_info, 0)
    ∷ (entry_instruction_len, 0)
    ∷ (cr0_guest_host_mask, 0)
    ∷ (cr4_guest_host_mask, 0)
    ∷ (cr0_read_shadow, p.cr0)
    ∷ (cr4_read_shadow, cr4)
    ∷ []

-- The function always returns TRUE; its result here is what it has written.
unfoldable pub setup_vmcs_fields : Processor → ℕ → ℕ → Run Writes
setup_vmcs_fields p cr4 hv_state = do
  access_rights ← guest_access_rights p
  bases ← guest_bases p
  host ← host_registers p cr4 hv_state
  done (
      guest_selectors p
      ++ (guest_limits p
          ++ (access_rights
              ++ (bases
                  ++ (guest_registers p cr4 ++ (host_selectors p ++ (host ++ controls p cr4)))))))
