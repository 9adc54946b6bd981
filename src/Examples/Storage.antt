-- ===== src/Examples/Storage.antt =====
-- Storage enumeration (src/platform/windows/storage_enum_windows.c) on a system with one drive.
use hardware_monitor_azk.Base.{
  ℕ, zero, suc, refl, arith, true, [], ◌∷◌, ◌++◌, Option, none, some, replicate,
}
use hardware_monitor_azk.Buffer.{Bytes}
use hardware_monitor_azk.Buffer.Returns.{Returns}
use hardware_monitor_azk.Storage.Types.{Descriptor, Drive, System}
use hardware_monitor_azk.Storage.Trim.{IsTrimmed, trim_copy, trim_copy-IsTrimmed}

-- " ab \0"
abbrev padded : Bytes
padded = 32 ∷ 97 ∷ 98 ∷ 32 ∷ 0 ∷ []

trim_copy_example :
    Returns (IsTrimmed (replicate 3 7) padded 0 5) (trim_copy (replicate 3 7) 3 padded 0 5)
trim_copy_example =
    trim_copy-IsTrimmed (replicate 3 7) padded 3 0 5 refl (omega arith) (omega arith)

abbrev descriptor : Descriptor
descriptor = record {
  buffer = replicate 40 0 ++ (padded ++ replicate 979 0);
  bytes_returned = 45;
  descriptor_bus_type = 0x11;
  vendor_id_offset = 0;
  product_id_offset = 40;
  product_revision_offset = 0;
  serial_number_offset = 1000;
}

abbrev drive : Drive
drive = record {
  device_property = some descriptor;
  nvme_identify = none;
  length_info = none;
  readable_length_info = some (some 512110190592);
}

abbrev drives : ℕ → Option Drive
drives zero = some drive
drives (suc k) = none

abbrev system : System
system = record { drive = drives; has_protocol_data = true }
