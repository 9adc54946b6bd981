-- ===== src/Driver/Types.antt =====
-- What the driver (driver/hwmon_driver.c) sees of the kernel and the hardware, and what it does
-- to them.
use hardware_monitor_azk.Base.{ℕ, List, Option}
use hardware_monitor_azk.Buffer.{Bytes}

-- The `NTSTATUS` values that the driver returns itself.
pub data Status : Type 0 where
  success : Status
  not_supported : Status
  invalid_parameter : Status
  unsuccessful : Status
  buffer_too_small : Status
  access_denied : Status
  invalid_device_request : Status

-- The accesses to hardware, in the order of their execution.
pub data Event : Type 0 where
  msr_read : ℕ → Event
  lock_acquired : Event
  port_out : ℕ → ℕ → Event
  port_in : ℕ → Event
  lock_released : Event
  map_requested : ℕ → ℕ → Event
  page_read : ℕ → Event
  page_unmapped : ℕ → Event

-- The kernel's headers and functions: `CTL_CODE`, `METHOD_BUFFERED`, `FILE_READ_ACCESS` and
-- `PAGE_SIZE`; `__readmsr`, which may raise; the data port's value by the address port's; and
-- `MmMapIoSpaceEx`, whose page gives a dword by its offset or raises.
pub record Kernel : Type 0 where
  pub ctl_code : ℕ → ℕ → ℕ → ℕ → ℕ
  pub method_buffered : ℕ
  pub file_read_access : ℕ
  pub page_size : ℕ
  pub readmsr : ℕ → Option ℕ
  pub config : ℕ → ℕ
  pub map_page : ℕ → Option (ℕ → Option ℕ)

-- What a request leaves: `IoStatus`, the system buffer, and the accesses on the way.
pub record Reply : Type 0 where
  pub status : Status
  pub information : ℕ
  pub buffer : Bytes
  pub events : List Event
