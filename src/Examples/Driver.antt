-- ===== src/Examples/Driver.antt =====
-- Requests to a small kernel, as driver/hwmon_driver.c serves them.
use hardware_monitor_azk.Driver.Types.{
  Status, success, unsuccessful, Kernel, Reply, lock_acquired, port_out, port_in, lock_released,
}
use hardware_monitor_azk.Driver.Access.{config_address, ecam_page}
use hardware_monitor_azk.Driver.Access.Addresses.{config_address-injective, ecam_page-apart}
use hardware_monitor_azk.Driver.Control.{
  device_control, ioctl_hwmon_read_msr, ioctl_hwmon_read_pci_config,
}
use hardware_monitor_azk.Driver.Control.Safety.{IsReply, device_control-Returns}
use hardware_monitor_azk.Driver.Control.Replies.{
  MsrReply, IsConfigAddress, Answered, device_control-msr, device_control-pci_config,
}
use hardware_monitor_azk.Driver.Ports.{
  Machine, idle, waiting, holding, addressed, loaded, returned, update, call, acquire, out,
  load_data, release, start, Reaches, begin, then_step,
}
use hardware_monitor_azk.Driver.Ports.Isolation.{Reaches-returned}
use hardware_monitor_azk.Driver.Entry.{
  absent, driver_entry, hwmon_unload, driver_entry-hwmon_unload,
}
use hardware_monitor_azk.Buffer.Returns.{Returns}
use hardware_monitor_azk.Buffer.Words.{le_bytes}
use hardware_monitor_azk.Base.{
  ℕ, ◌+◌, ◌*◌, ◌/◌, ◌%◌, ◌^◌, ◌<◌, ◌≡◌, ◌≢◌, ◌↔◌, refl, arith, true, [], ◌∷◌, ◌++◌, Option, none,
  some,
}
use hardware_monitor_azk.Buffer.{done, Bytes}

abbrev kernel : Kernel
kernel = record {
  ctl_code = λ type function method access. type * 2 ^ 16 + access * 2 ^ 14 + function * 4 + method;
  method_buffered = 0;
  file_read_access = 1;
  page_size = 4096;
  readmsr = λ msr. some 5;
  config = λ address. address % 2 ^ 32;
  map_page = λ page. some (λ offset. some offset);
}

abbrev request : Bytes
request = le_bytes 4 0x10 ++ (0 ∷ 0 ∷ 0 ∷ 0 ∷ [])

device_control-Returns_example :
    Returns (IsReply kernel 8 request) (device_control kernel 7 4 8 request)
device_control-Returns_example =
    device_control-Returns kernel 4 8 request (omega arith) (omega arith) (omega arith)
      (omega arith) 7

device_control-msr_example :
    (r : Reply) × (device_control kernel (ioctl_hwmon_read_msr kernel) 4 8 request ≡ done r)
    × MsrReply kernel 0x10 request r
device_control-msr_example =
    device_control-msr kernel 4 8 0x10 (0 ∷ 0 ∷ 0 ∷ 0 ∷ []) five (omega arith) (omega arith)
  where
    five : (m v : ℕ) → some 5 ≡ some v → v < 2 ^ 64
    five m v e = let at : 5 ≡ v = cc e in omega (arith, at)

device_control-pci_config_example :
    (r : Reply) × (device_control kernel
        (ioctl_hwmon_read_pci_config kernel)
        4
        4
        (0 ∷ 2 ∷ 0 ∷ 4 ∷ [])
      ≡ done r)
    × (a : ℕ) × IsConfigAddress 0 2 0 4 a
    × Answered 4
        (a % 2 ^ 32)
        (lock_acquired ∷ port_out 0xCF8 a ∷ port_in 0xCFC ∷ lock_released ∷ [])
        r
device_control-pci_config_example =
    device_control-pci_config kernel 4 4 0 2 0 4 [] (omega arith) (λ a. omega arith) (omega arith)
      (omega arith)

-- One processor reads the dword at offset 0 of function 0 of device 0 of bus 1.
abbrev machine : Machine
machine = record {
  lock = none;
  address_port = 0x80010000;
  stages =
      update
        (update
          (update (update (update (λ cpu. idle) 0 (waiting 0x80010000)) 0 (holding 0x80010000)) 0
            (addressed 0x80010000))
          0 (loaded 0x80010000 0x80010000))
        0 (returned 0x80010000 0x80010000);
}

machine-Reaches : Reaches kernel.config 7 machine
unfolding config_address
machine-Reaches =
    then_step _ _
      (then_step _ _
        (then_step _ _
          (then_step _ _ (then_step _ _ begin (call (start 7) 0 1 0 0 0 refl))
            (acquire _ 0 0x80010000 refl refl))
          (out _ 0 0x80010000 refl))
        (load_data _ 0 0x80010000 refl))
      (release _ 0 0x80010000 0x80010000 refl)

Reaches-returned_example : 0x80010000 ≡ kernel.config 0x80010000
Reaches-returned_example =
    Reaches-returned kernel.config 7 machine 0 0x80010000 0x80010000 machine-Reaches refl

config_address-injective_example :
    (◌≡◌ {A = ℕ} 1 1) × (◌≡◌ {A = ℕ} 2 2) × (◌≡◌ {A = ℕ} 3 3) × (◌≡◌ {A = ℕ} (5 / 4) (6 / 4))
unfolding config_address
config_address-injective_example =
    config_address-injective 1 2 3 5 1 2 3 6 (omega arith) (omega arith) refl

ecam_page-apart_example : (◌≡◌ {A = ℕ} 1 1) × (◌≡◌ {A = ℕ} 2 2) × (◌≡◌ {A = ℕ} 3 3)
unfolding ecam_page
ecam_page-apart_example =
    ecam_page-apart 0xE0000000 1 2 3 1 2 3 (omega arith) (omega arith) (omega arith) (omega arith)
      (omega arith)

abbrev no_error : Option Status
no_error = none

abbrev link_error : Option Status
link_error = some unsuccessful

driver_entry-hwmon_unload_example :
    let r = driver_entry no_error link_error absent in
    ((r.1 ≡ success) ↔ ((no_error ≡ none) × (link_error ≡ none)))
    × (r.1 ≡ success → (r.0.device ≡ true) × (r.0.symlink ≡ true) × (r.0.ready ≡ true))
    × (r.1 ≢ success → r.0 ≡ absent)
    × (hwmon_unload r.0 ≡ absent)
driver_entry-hwmon_unload_example =
    driver_entry-hwmon_unload no_error link_error (λ e. cc) (λ e. cc)
