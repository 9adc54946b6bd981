-- ===== src/Driver/Entry.antt =====
-- Loading and unloading (driver/hwmon_driver.c): `DriverEntry` and `HwmonUnload`.
use hardware_monitor_azk.Driver.Types.{Status, success}
use hardware_monitor_azk.Base.{
  ◌≡◌, ◌≢◌, ◌↔◌, refl, ap, Bool, true, false, not, Option, none, some, if◌then◌else◌,
}

-- What the driver has made in the system: its device, which is ready once it may take requests, and
-- the symbolic link.
pub record Driver : Type 0 where
  pub device : Bool
  pub symlink : Bool
  pub ready : Bool

abbrev pub absent : Driver
absent = record { device = false; symlink = false; ready = false }

-- `IoDeleteDevice`
abbrev delete_device : Driver → Driver
delete_device d = record d { device = false; ready = false }

abbrev pub succeeded : Option Status → Bool
succeeded none = true
succeeded (some error) = false

abbrev pub status_of : Option Status → Status
status_of none = success
status_of (some error) = error

-- The results of `IoCreateDevice` and `IoCreateSymbolicLink`: `none` is success, `some` the error
-- that the call returned, and then it has changed nothing.
unfoldable pub driver_entry : Option Status → Option Status → Driver → Driver × Status
driver_entry created linked d =
    if not (succeeded created)
    then (d, status_of created)
    else (let with_device = record d { device = true } in
        if not (succeeded linked)
        then (delete_device with_device, status_of linked)
        else (record with_device { symlink = true; ready = true }, success))

-- `IoDeleteSymbolicLink`, then `IoDeleteDevice` if there is a device.
unfoldable pub hwmon_unload : Driver → Driver
hwmon_unload d =
    let unlinked = record d { symlink = false } in
    if unlinked.device then delete_device unlinked else unlinked

-- `DriverEntry` succeeds exactly if both calls of the kernel do; then device and link exist and the
-- device is ready. On failure nothing is left, with errors that are not success. `HwmonUnload`
-- leaves nothing in either case.
pub driver_entry-hwmon_unload :
    (created linked : Option Status)
    → (created ≢ some success)
    → (linked ≢ some success)
    → let r = driver_entry created linked absent in
      ((r.1 ≡ success) ↔ ((created ≡ none) × (linked ≡ none)))
      × (r.1 ≡ success → (r.0.device ≡ true) × (r.0.symlink ≡ true) × (r.0.ready ≡ true))
      × (r.1 ≢ success → r.0 ≡ absent)
      × (hwmon_unload r.0 ≡ absent)
unfolding driver_entry hwmon_unload
driver_entry-hwmon_unload none none hc hl =
    ((λ _. (refl, refl), λ _. refl), λ _. (refl, refl, refl), (λ ne. absurd (ne refl)), refl)
driver_entry-hwmon_unload none (some e) hc hl = (
  (λ x. absurd (hl (ap some x)), λ both. cc (both.1)),
  (λ x. absurd (hl (ap some x))),
  (λ _. refl),
  refl,
)
driver_entry-hwmon_unload (some e) linked hc hl = (
  (λ x. absurd (hc (ap some x)), λ both. cc (both.0)),
  (λ x. absurd (hc (ap some x))),
  (λ _. refl),
  refl,
)
