-- ===== src/Storage/Enumerate.antt =====
-- `storage_enumerate` of src/platform/windows/storage_enum_windows.c.
pub mod Drives
use hardware_monitor_azk.Base.{
  min, ℕ, zero, suc, ◌+◌, ◌-◌, ◌*◌, ◌/◌, ◌%◌, ◌^◌, ◌≤◌, ◌<◌, ◌≡◌, ◌≢◌, ◌↔◌, refl, sym, ap, ◌∙◌,
  arith, Bool, true, false, not, ◌&&◌, ◌||◌, List, [], ◌∷◌, ◌++◌, map, Option, none, some, ◌⊎◌, inl,
  inr, ltb, leb, ◌==◌, if◌then◌else◌, bit, low_bits, Bool-cases, tests, length, take, drop, set,
  replicate, get_elem?, All,
}
use hardware_monitor_azk.Buffer.{
  Run, done, fault, stuck, ◌>>=◌, Bytes, IsByte, load, store, load_le, load_bytes, store_bytes,
  strnlen,
}
use hardware_monitor_azk.Storage.Types.{
  StorageDevice, StorageEnumeration, System, HandleEvent, zero_device, storage_max_devices,
}
use hardware_monitor_azk.Storage.Query.{query_device}

-- A turn of the loop behind the query; `go` is the next turn.
unfoldable pub add_found :
    (StorageEnumeration → Run (StorageEnumeration × List HandleEvent))
    → StorageEnumeration
    → Option StorageDevice × List HandleEvent
    → Run (StorageEnumeration × List HandleEvent)
add_found go out (none, events) = done (out, events)
add_found go out (some dev, events) = do
  devices ← store out.devices out.device_count dev
  (last, later) ← go (record { devices = devices; device_count = out.device_count + 1 })
  done (last, events ++ later)

-- The loop over `i`, with `n` turns to go; the handles of all the turns.
unfoldable pub enumerate_from :
    System → ℕ → ℕ → StorageEnumeration → Run (StorageEnumeration × List HandleEvent)
enumerate_from sys i zero out = done (out, [])
enumerate_from sys i (suc n) out =
    query_device sys i >>= add_found (enumerate_from sys (suc i) n) out

unfoldable pub storage_enumerate : System → Run (StorageEnumeration × List HandleEvent)
unfolding enumerate_from
storage_enumerate sys =
    enumerate_from sys 0 storage_max_devices
      (record { devices = replicate storage_max_devices zero_device; device_count = 0 })
