-- ===== src/Storage/Types.antt =====
-- The data of include/storage.h, and the calls of Windows that
-- src/platform/windows/storage_enum_windows.c makes.
use hardware_monitor_azk.Base.{ℕ, Bool, false, List, Option, replicate}
use hardware_monitor_azk.Buffer.{Bytes}

pub data StorageBusType : Type 0 where
  storage_bus_unknown : StorageBusType
  storage_bus_ata : StorageBusType
  storage_bus_sata : StorageBusType
  storage_bus_nvme : StorageBusType
  storage_bus_scsi : StorageBusType
  storage_bus_usb : StorageBusType
  storage_bus_other : StorageBusType

pub record StorageDevice : Type 0 where
  pub index : ℕ
  pub bus_type : StorageBusType
  pub model : Bytes
  pub firmware_revision : Bytes
  pub serial : Bytes
  pub capacity_available : Bool
  pub capacity_bytes : ℕ
  pub nvme_identify_used : Bool

abbrev pub storage_max_devices : ℕ
storage_max_devices = 32

pub record StorageEnumeration : Type 0 where
  pub devices : List StorageDevice
  pub device_count : ℕ

-- What `memset(…, 0, sizeof …)` leaves.
abbrev pub zero_device : StorageDevice
zero_device = record {
  index = 0;
  bus_type = storage_bus_unknown;
  model = replicate 80 0;
  firmware_revision = replicate 32 0;
  serial = replicate 80 0;
  capacity_available = false;
  capacity_bytes = 0;
  nvme_identify_used = false;
}

-- The answer to `IOCTL_STORAGE_QUERY_PROPERTY`: the buffer of 1024 bytes after the call, the bytes
-- returned, and the fields of the STORAGE_DEVICE_DESCRIPTOR that lies over the buffer.
pub record Descriptor : Type 0 where
  pub buffer : Bytes
  pub bytes_returned : ℕ
  pub descriptor_bus_type : ℕ
  pub vendor_id_offset : ℕ
  pub product_id_offset : ℕ
  pub product_revision_offset : ℕ
  pub serial_number_offset : ℕ

-- A drive that can be opened without access rights: the answers to its queries, where `none` is a
-- call that fails: the device property; `req.identify` after the query for the NVMe identify
-- structure; the length; and the length by a second handle with the right to read, where the outer
-- `none` is a handle that is refused.
pub record Drive : Type 0 where
  pub device_property : Option Descriptor
  pub nvme_identify : Option Bytes
  pub length_info : Option ℕ
  pub readable_length_info : Option (Option ℕ)

-- `drive` is by the number in the name `\\.\PhysicalDrive…`. `has_protocol_data` tells whether the
-- preprocessor knows STORAGE_PROTOCOL_SPECIFIC_DATA as a macro.
pub record System : Type 0 where
  pub drive : ℕ → Option Drive
  pub has_protocol_data : Bool

-- The two handles that `query_device` opens, and what it does with them.
pub data Handle : Type 0 where
  query_handle : Handle
  read_handle : Handle

pub data HandleEvent : Type 0 where
  opened : Handle → HandleEvent
  closed : Handle → HandleEvent
