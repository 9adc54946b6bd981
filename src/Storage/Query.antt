-- ===== src/Storage/Query.antt =====
-- `query_device` of src/platform/windows/storage_enum_windows.c.
pub mod Device
pub mod Answer
use hardware_monitor_azk.Base.{
  ℕ, ◌-◌, ◌%◌, ◌^◌, Bool, true, false, not, ◌&&◌, List, [], ◌∷◌, ◌++◌, Option, none, some, ltb,
  ◌==◌, if◌then◌else◌,
}
use hardware_monitor_azk.Buffer.{Run, done, ◌>>=◌, Bytes, strnlen}
use hardware_monitor_azk.Storage.Types.{
  StorageBusType, storage_bus_ata, storage_bus_sata, storage_bus_nvme, storage_bus_scsi,
  storage_bus_usb, storage_bus_other, StorageDevice, zero_device, Descriptor, Drive, System,
  query_handle, read_handle, HandleEvent, opened, closed,
}
use hardware_monitor_azk.Storage.Trim.{trim_copy}

unfoldable pub map_bus_type : ℕ → StorageBusType
map_bus_type wbt =
    if wbt == 0x03
    then storage_bus_ata
    else if wbt == 0x0B
    then storage_bus_sata
    else if wbt == 0x11
    then storage_bus_nvme
    else if wbt == 0x01
    then storage_bus_scsi
    else if wbt == 0x07
    then storage_bus_usb
    else storage_bus_other

abbrev is_nvme : StorageBusType → Bool
is_nvme storage_bus_nvme = true
is_nvme _ = false

-- `offset && offset < returned`
abbrev is_present : Descriptor → ℕ → Bool
is_present d offset = not (offset == 0) && ltb offset d.bytes_returned

-- The string at an offset of the buffer, trimmed into an array.
unfoldable pub copy_text : Descriptor → ℕ → Bytes → ℕ → Run Bytes
copy_text d offset dst dst_size = do
  n ← strnlen d.buffer offset (d.bytes_returned - offset)
  trim_copy dst dst_size d.buffer offset n

-- The same if the offset is present, else the array as it is.
unfoldable pub copy_present : Descriptor → ℕ → Bytes → ℕ → Run Bytes
unfolding copy_text
copy_present d offset dst dst_size =
    if is_present d offset then copy_text d offset dst dst_size else done dst

unfoldable pub read_descriptor : Option Descriptor → StorageDevice → Run StorageDevice
unfolding copy_text copy_present map_bus_type
read_descriptor none dev = done dev
read_descriptor (some d) dev = do
  model ←
      if is_present d d.product_id_offset
      then copy_text d d.product_id_offset dev.model 80
      else copy_present d d.vendor_id_offset dev.model 80
  firmware_revision ← copy_present d d.product_revision_offset dev.firmware_revision 32
  serial ← copy_present d d.serial_number_offset dev.serial 80
  done (record dev {
    bus_type = map_bus_type d.descriptor_bus_type;
    model = model;
    firmware_revision = firmware_revision;
    serial = serial;
  })

-- The result of the function is not used.
unfoldable pub try_nvme_identify : Bool → Option Bytes → StorageDevice → Run StorageDevice
try_nvme_identify false identify dev = done dev
try_nvme_identify true none dev = done dev
try_nvme_identify true (some identify) dev = do
  serial ← trim_copy dev.serial 80 identify 4 20
  model ← trim_copy dev.model 80 identify 24 40
  firmware_revision ← trim_copy dev.firmware_revision 32 identify 64 8
  done (record dev {
    serial = serial;
    model = model;
    firmware_revision = firmware_revision;
    nvme_identify_used = true;
  })

abbrev with_length : Option ℕ → StorageDevice → StorageDevice
with_length none dev = dev
with_length (some bytes) dev = record dev {
  capacity_available = true;
  capacity_bytes = bytes % 2 ^ 64;
}

-- By the first handle, else by a second one that is closed again.
unfoldable pub read_capacity :
    Option ℕ → Option (Option ℕ) → StorageDevice → StorageDevice × List HandleEvent
read_capacity (some bytes) readable dev = (with_length (some bytes) dev, [])
read_capacity none none dev = (dev, [])
read_capacity none (some info) dev =
    (with_length info dev, opened read_handle ∷ closed read_handle ∷ [])

-- The device, or `none` where `*exists` is false; and the handles that are opened and closed. The
-- last argument is the drive, if its handle is valid.
unfoldable pub query_drive :
    System → ℕ → Option Drive → Run (Option StorageDevice × List HandleEvent)
unfolding read_descriptor try_nvme_identify read_capacity
query_drive sys index none = done (none, [])
query_drive sys index (some d) = do
  described ← read_descriptor d.device_property (record zero_device { index = index })
  identified ←
      if is_nvme described.bus_type
      then try_nvme_identify sys.has_protocol_data d.nvme_identify described
      else done described
  let (dev, events) = read_capacity d.length_info d.readable_length_info identified
  done (some dev, opened query_handle ∷ (events ++ (closed query_handle ∷ [])))

unfoldable pub query_device : System → ℕ → Run (Option StorageDevice × List HandleEvent)
unfolding query_drive
query_device sys index = query_drive sys index (sys.drive index)
