-- ===== src/Pci/Types.antt =====
-- The data of include/pci.h, and the calls of Windows that src/platform/windows/pci_enum_windows.c
-- makes.
use hardware_monitor_azk.Base.{ℕ, Bool, false, List, Option, replicate}
use hardware_monitor_azk.Buffer.{Bytes}

pub record PciResource : Type 0 where
  pub is_memory : Bool
  pub is_prefetchable : Bool
  pub base : ℕ
  pub length : ℕ

abbrev pub pci_max_resources : ℕ
pci_max_resources = 12

pub record PciDevice : Type 0 where
  pub bus : ℕ
  pub device : ℕ
  pub function : ℕ
  pub vendor_id : ℕ
  pub device_id : ℕ
  pub class_info_available : Bool
  pub class_code : ℕ
  pub subclass : ℕ
  pub prog_if : ℕ
  pub revision : ℕ
  pub bar : List ℕ
  pub bar_available : Bool
  pub resources : List PciResource
  pub resource_count : ℕ
  pub interrupt_available : Bool
  pub interrupt_line : ℕ
  pub description : Bytes

abbrev pub pci_max_devices : ℕ
pci_max_devices = 512

pub record PciEnumeration : Type 0 where
  pub devices : List PciDevice
  pub device_count : ℕ
  pub truncated : ℕ

-- What `memset(…, 0, sizeof …)` leaves.
abbrev pub zero_resource : PciResource
zero_resource = record { is_memory = false; is_prefetchable = false; base = 0; length = 0 }

abbrev pub zero_pci_device : PciDevice
zero_pci_device = record {
  bus = 0;
  device = 0;
  function = 0;
  vendor_id = 0;
  device_id = 0;
  class_info_available = false;
  class_code = 0;
  subclass = 0;
  prog_if = 0;
  revision = 0;
  bar = replicate 6 0;
  bar_available = false;
  resources = replicate pci_max_resources zero_resource;
  resource_count = 0;
  interrupt_available = false;
  interrupt_line = 0;
  description = replicate 128 0;
}

-- The identifiers `ResType_…` of a resource descriptor.
pub data ResourceId : Type 0 where
  res_mem : ResourceId
  res_io : ResourceId
  res_irq : ResourceId
  res_other : ResourceId

-- The fields that the program reads of MEM_RESOURCE, IO_RESOURCE or IRQ_RESOURCE; `prefetch_allowed`
-- is the test of `MD_Flags`.
pub record ResourceData : Type 0 where
  pub prefetch_allowed : Bool
  pub alloc_base : ℕ
  pub alloc_end : ℕ
  pub alloc_num : ℕ

-- A resource descriptor: its identifier, what CM_Get_Res_Des_Data_Size gives, and the data, where
-- `none` is a failed call or a failed allocation; `large_enough` compares the size with the
-- structure's.
pub record ResDes : Type 0 where
  pub res_id : ResourceId
  pub data_size : Option ℕ
  pub large_enough : Bool
  pub res_data : Option ResourceData

-- A device node: the answers for its properties, where `none` is a failed call. A property is the
-- buffer after the call and the length that the call reports. `log_conf` are the descriptors of
-- the allocated configuration.
pub record DevNode : Type 0 where
  pub hardware_ids : Option (Bytes × ℕ)
  pub compatible_ids : Option (Bytes × ℕ)
  pub bus_number : Option ℕ
  pub address : Option ℕ
  pub description : Option (Bytes × ℕ)
  pub log_conf : Option (List ResDes)

-- The handles of a device's resources: the k-th descriptor is handed out, a descriptor's or the
-- configuration's handle is freed.
pub data ResEvent : Type 0 where
  handed_out : ℕ → ResEvent
  res_des_freed : ℕ → ResEvent
  log_conf_freed : ResEvent
