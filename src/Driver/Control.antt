-- ===== src/Driver/Control.antt =====
-- The device control handler, `HwmonDeviceControl` (driver/hwmon_driver.c), with the requests of
-- driver/hwmon_ioctl.h.
pub mod Safety
pub mod Replies
use hardware_monitor_azk.Driver.Types.{
  Status, success, buffer_too_small, access_denied, invalid_device_request, Event, Kernel, Reply,
}
use hardware_monitor_azk.Driver.Access.{
  msr_is_whitelisted, safe_read_msr, read_pci_config_dword_legacy, read_pcie_config_dword_ecam,
}
use hardware_monitor_azk.Buffer.Words.{le_bytes}
use hardware_monitor_azk.Base.{ℕ, not, ◌||◌, List, [], Option, none, some, ltb, ◌==◌, if◌then◌else◌}
use hardware_monitor_azk.Buffer.{Run, done, ◌>>=◌, Bytes, load, load_le, store_bytes}

abbrev pub hwmon_device_type : ℕ
hwmon_device_type = 0x8000

abbrev pub hwmon_code : Kernel → ℕ → ℕ
hwmon_code k function = k.ctl_code hwmon_device_type function k.method_buffered k.file_read_access

abbrev pub ioctl_hwmon_read_msr : Kernel → ℕ
ioctl_hwmon_read_msr k = hwmon_code k 0x800

abbrev pub ioctl_hwmon_read_pci_config : Kernel → ℕ
ioctl_hwmon_read_pci_config k = hwmon_code k 0x801

abbrev pub ioctl_hwmon_read_pcie_ecam : Kernel → ℕ
ioctl_hwmon_read_pcie_ecam k = hwmon_code k 0x802

-- A request that ends with an error and no bytes.
abbrev pub refuse : Status → Bytes → List Event → Reply
refuse status buffer events = record {
  status = status;
  information = 0;
  buffer = buffer;
  events = events;
}

-- A value of `n` bytes goes to the front of the buffer.
unfoldable pub answer : Status → ℕ → Option ℕ → Bytes → List Event → Run Reply
answer status n none buffer events = done (refuse status buffer events)
answer status n (some value) buffer events = do
  written ← store_bytes buffer 0 (le_bytes n value)
  done (record { status = status; information = n; buffer = written; events = events })

unfoldable pub control_msr : Kernel → ℕ → ℕ → Bytes → Run Reply
unfolding answer
control_msr k in_len out_len buffer =
    if ltb in_len 4 || ltb out_len 8 then done (refuse buffer_too_small buffer []) else (do
      msr ← load_le buffer 0 4
      if not (msr_is_whitelisted msr)
          then done (refuse access_denied buffer [])
          else (let a = safe_read_msr k msr in answer a.status 8 a.value buffer a.events))

unfoldable pub control_pci_config : Kernel → ℕ → ℕ → Bytes → Run Reply
unfolding answer
control_pci_config k in_len out_len buffer =
    if ltb in_len 4 || ltb out_len 4 then done (refuse buffer_too_small buffer []) else (do
      bus ← load buffer 0
      device ← load buffer 1
      function ← load buffer 2
      offset ← load buffer 3
      let r = read_pci_config_dword_legacy k bus device function offset
      answer success 4 (some r.0) buffer r.1)

unfoldable pub control_pcie_ecam : Kernel → ℕ → ℕ → Bytes → Run Reply
unfolding answer
control_pcie_ecam k in_len out_len buffer =
    if ltb in_len 13 || ltb out_len 4 then done (refuse buffer_too_small buffer []) else (do
      ecam_base ← load_le buffer 0 8
      bus ← load buffer 8
      device ← load buffer 9
      function ← load buffer 10
      offset ← load_le buffer 11 2
      let a = read_pcie_config_dword_ecam k ecam_base bus device function offset
      answer a.status 4 a.value buffer a.events)

-- The `switch (code)`; the reply is what `IoCompleteRequest` is called with.
unfoldable pub device_control : Kernel → ℕ → ℕ → ℕ → Bytes → Run Reply
device_control k code in_len out_len buffer =
    if code == ioctl_hwmon_read_msr k
    then control_msr k in_len out_len buffer
    else if code == ioctl_hwmon_read_pci_config k
    then control_pci_config k in_len out_len buffer
    else if code == ioctl_hwmon_read_pcie_ecam k
    then control_pcie_ecam k in_len out_len buffer
    else done (refuse invalid_device_request buffer [])

-- `HwmonCreateClose`
abbrev pub create_close : Bytes → Reply
create_close buffer = record { status = success; information = 0; buffer = buffer; events = [] }
