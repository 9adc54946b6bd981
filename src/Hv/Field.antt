-- ===== src/Hv/Field.antt =====
-- The fields of the VMCS that driver/hv/hwmon_hv.c names (`VMCS_...`).
use hardware_monitor_azk.Base.{ℕ}

-- A field per `#define`, under its name without the prefix.
pub data Field : Type 0 where
  guest_es_selector : Field
  guest_cs_selector : Field
  guest_ss_selector : Field
  guest_ds_selector : Field
  guest_fs_selector : Field
  guest_gs_selector : Field
  guest_ldtr_selector : Field
  guest_tr_selector : Field
  host_es_selector : Field
  host_cs_selector : Field
  host_ss_selector : Field
  host_ds_selector : Field
  host_fs_selector : Field
  host_gs_selector : Field
  host_tr_selector : Field
  msr_bitmap : Field
  vmcs_link_pointer : Field
  pin_based_controls : Field
  proc_based_controls : Field
  exception_bitmap : Field
  cr3_target_count : Field
  exit_controls : Field
  exit_msr_store_count : Field
  exit_msr_load_count : Field
  entry_controls : Field
  entry_msr_load_count : Field
  entry_interrupt_info : Field
  entry_instruction_len : Field
  vm_instruction_error : Field
  vm_exit_reason : Field
  vm_exit_instruction_len : Field
  guest_es_limit : Field
  guest_cs_limit : Field
  guest_ss_limit : Field
  guest_ds_limit : Field
  guest_fs_limit : Field
  guest_gs_limit : Field
  guest_ldtr_limit : Field
  guest_tr_limit : Field
  guest_gdtr_limit : Field
  guest_idtr_limit : Field
  guest_es_access_rights : Field
  guest_cs_access_rights : Field
  guest_ss_access_rights : Field
  guest_ds_access_rights : Field
  guest_fs_access_rights : Field
  guest_gs_access_rights : Field
  guest_ldtr_access_rights : Field
  guest_tr_access_rights : Field
  guest_interruptibility : Field
  guest_activity_state : Field
  guest_sysenter_cs : Field
  host_sysenter_cs : Field
  cr0_guest_host_mask : Field
  cr4_guest_host_mask : Field
  cr0_read_shadow : Field
  cr4_read_shadow : Field
  guest_cr0 : Field
  guest_cr3 : Field
  guest_cr4 : Field
  guest_es_base : Field
  guest_cs_base : Field
  guest_ss_base : Field
  guest_ds_base : Field
  guest_fs_base : Field
  guest_gs_base : Field
  guest_ldtr_base : Field
  guest_tr_base : Field
  guest_gdtr_base : Field
  guest_idtr_base : Field
  guest_dr7 : Field
  guest_rsp : Field
  guest_rip : Field
  guest_rflags : Field
  guest_sysenter_esp : Field
  guest_sysenter_eip : Field
  host_cr0 : Field
  host_cr3 : Field
  host_cr4 : Field
  host_fs_base : Field
  host_gs_base : Field
  host_tr_base : Field
  host_gdtr_base : Field
  host_idtr_base : Field
  host_sysenter_esp : Field
  host_sysenter_eip : Field
  host_rsp : Field
  host_rip : Field

-- The fields' encodings, as VMREAD and VMWRITE take them.
unfoldable pub encoding : Field → ℕ
encoding guest_es_selector = 0x0800
encoding guest_cs_selector = 0x0802
encoding guest_ss_selector = 0x0804
encoding guest_ds_selector = 0x0806
encoding guest_fs_selector = 0x0808
encoding guest_gs_selector = 0x080A
encoding guest_ldtr_selector = 0x080C
encoding guest_tr_selector = 0x080E
encoding host_es_selector = 0x0C00
encoding host_cs_selector = 0x0C02
encoding host_ss_selector = 0x0C04
encoding host_ds_selector = 0x0C06
encoding host_fs_selector = 0x0C08
encoding host_gs_selector = 0x0C0A
encoding host_tr_selector = 0x0C0C
encoding msr_bitmap = 0x2004
encoding vmcs_link_pointer = 0x2800
encoding pin_based_controls = 0x4000
encoding proc_based_controls = 0x4002
encoding exception_bitmap = 0x4004
encoding cr3_target_count = 0x400A
encoding exit_controls = 0x400C
encoding exit_msr_store_count = 0x400E
encoding exit_msr_load_count = 0x4010
encoding entry_controls = 0x4012
encoding entry_msr_load_count = 0x4014
encoding entry_interrupt_info = 0x4016
encoding entry_instruction_len = 0x401A
encoding vm_instruction_error = 0x4400
encoding vm_exit_reason = 0x4402
encoding vm_exit_instruction_len = 0x440C
encoding guest_es_limit = 0x4800
encoding guest_cs_limit = 0x4802
encoding guest_ss_limit = 0x4804
encoding guest_ds_limit = 0x4806
encoding guest_fs_limit = 0x4808
encoding guest_gs_limit = 0x480A
encoding guest_ldtr_limit = 0x480C
encoding guest_tr_limit = 0x480E
encoding guest_gdtr_limit = 0x4810
encoding guest_idtr_limit = 0x4812
encoding guest_es_access_rights = 0x4814
encoding guest_cs_access_rights = 0x4816
encoding guest_ss_access_rights = 0x4818
encoding guest_ds_access_rights = 0x481A
encoding guest_fs_access_rights = 0x481C
encoding guest_gs_access_rights = 0x481E
encoding guest_ldtr_access_rights = 0x4820
encoding guest_tr_access_rights = 0x4822
encoding guest_interruptibility = 0x4824
encoding guest_activity_state = 0x4826
encoding guest_sysenter_cs = 0x482A
encoding host_sysenter_cs = 0x4C00
encoding cr0_guest_host_mask = 0x6000
encoding cr4_guest_host_mask = 0x6004
encoding cr0_read_shadow = 0x6008
encoding cr4_read_shadow = 0x600A
encoding guest_cr0 = 0x6800
encoding guest_cr3 = 0x6802
encoding guest_cr4 = 0x6804
encoding guest_es_base = 0x6806
encoding guest_cs_base = 0x6808
encoding guest_ss_base = 0x680A
encoding guest_ds_base = 0x680C
encoding guest_fs_base = 0x680E
encoding guest_gs_base = 0x6810
encoding guest_ldtr_base = 0x6812
encoding guest_tr_base = 0x6814
encoding guest_gdtr_base = 0x6816
encoding guest_idtr_base = 0x6818
encoding guest_dr7 = 0x681A
encoding guest_rsp = 0x681C
encoding guest_rip = 0x681E
encoding guest_rflags = 0x6820
encoding guest_sysenter_esp = 0x6824
encoding guest_sysenter_eip = 0x6826
encoding host_cr0 = 0x6C00
encoding host_cr3 = 0x6C02
encoding host_cr4 = 0x6C04
encoding host_fs_base = 0x6C06
encoding host_gs_base = 0x6C08
encoding host_tr_base = 0x6C0A
encoding host_gdtr_base = 0x6C0C
encoding host_idtr_base = 0x6C0E
encoding host_sysenter_esp = 0x6C10
encoding host_sysenter_eip = 0x6C12
encoding host_rsp = 0x6C14
encoding host_rip = 0x6C16
