-- ===== src/Storage/Enumerate/Drives.antt =====
-- Which drives `storage_enumerate` reports.
use hardware_monitor_azk.Base.{ℕ, ◌≤◌, ◌<◌, ◌≡◌, List, [], Option, none, some, length, get_elem?}
use hardware_monitor_azk.Buffer.Returns.{Returns}
use hardware_monitor_azk.Storage.Types.{
  StorageDevice, StorageEnumeration, System, Drive, HandleEvent, storage_max_devices,
}
use hardware_monitor_azk.Storage.Query.Device.{IsDrive}
use hardware_monitor_azk.Storage.Query.Answer.{IsDevice, Balanced}

-- The first `n` places of the array hold the devices of the first `n` drives.
pub record HoldsDrives (sys : System) (n : ℕ) (devices : List StorageDevice) : Type 0 where
  pub size : length devices ≡ storage_max_devices
  pub each :
      (k : ℕ)
      → k < n
      → (d : Drive) × (dev : StorageDevice) × (sys.drive k ≡ some d)
        × (get_elem? devices k ≡ some dev)
        × IsDevice sys k d dev

-- Those are all drives from number 0 on, up to the first gap or to the array's size.
pub record IsEnumeration (sys : System) (out : StorageEnumeration) : Type 0 where
  pub drives : HoldsDrives sys out.device_count out.devices
  pub bound : out.device_count ≤ storage_max_devices
  pub gap : out.device_count < storage_max_devices → sys.drive out.device_count ≡ none

-- What a query gives.
data Asked (sys : System) (i : ℕ) : Option StorageDevice × List HandleEvent → Type 0 where
  missing : sys.drive i ≡ none → Asked sys i (none, [])
  present :
      (d : Drive) (dev : StorageDevice) (events : List HandleEvent)
      → sys.drive i ≡ some d
      → IsDevice sys i d dev
      → Balanced events
      → Asked sys i (some dev, events)

module _ (sys : System) (drives : (k : ℕ) (d : Drive) → sys.drive k ≡ some d → IsDrive d) where
  IsResult : StorageEnumeration × List HandleEvent → Type 0
  IsResult r = IsEnumeration sys r.0 × Balanced r.1
