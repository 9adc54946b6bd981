-- ===== src/Pci/Enumerate.antt =====
-- `pci_enumerate` of src/platform/windows/pci_enum_windows.c. The list holds the present devices in
-- the order of SetupDiEnumDeviceInfo; the handles of their resources are the events of
-- `collect_resources`, and are not kept here.
pub mod Devices
pub mod Report
pub mod Listing
use hardware_monitor_azk.Base.{
  min, ℕ, zero, suc, ◌+◌, ◌-◌, ◌*◌, ◌/◌, ◌%◌, ◌^◌, ◌≤◌, ◌<◌, ◌≡◌, ◌≢◌, ◌↔◌, refl, sym, ap, ◌∙◌,
  arith, Bool, true, false, not, ◌&&◌, ◌||◌, List, [], ◌∷◌, ◌++◌, map, Option, none, some, ◌⊎◌, inl,
  inr, ltb, leb, ◌==◌, if◌then◌else◌, bit, low_bits, Bool-cases, tests, length, take, drop, set,
  replicate, get_elem?, All,
}
use hardware_monitor_azk.Buffer.{
  Run, done, fault, stuck, ◌>>=◌, Bytes, IsByte, load, store, load_le, load_bytes, store_bytes,
  strnlen,
}
use hardware_monitor_azk.Pci.Types.{
  PciDevice, PciEnumeration, pci_max_devices, zero_pci_device, DevNode, ResEvent,
}
use hardware_monitor_azk.Pci.Strings.{extract_hex_token}
use hardware_monitor_azk.Pci.ClassCode.{extract_class_code}
use hardware_monitor_azk.Pci.Resources.{collect_resources}

-- "VEN_", "DEV_" and "REV_"
abbrev pub ven_key : Bytes
ven_key = 86 ∷ 69 ∷ 78 ∷ 95 ∷ []

abbrev pub dev_key : Bytes
dev_key = 68 ∷ 69 ∷ 86 ∷ 95 ∷ []

abbrev pub rev_key : Bytes
rev_key = 82 ∷ 69 ∷ 86 ∷ 95 ∷ []

unfoldable pub set_revision : Option ℕ → PciDevice → PciDevice
set_revision none dev = dev
set_revision (some rev) dev = record dev { revision = rev % 256 }

unfoldable pub set_class_info : Option (Bytes × ℕ) → PciDevice → Run PciDevice
set_class_info none dev = done dev
set_class_info (some (multi, len)) dev = extract_class_code multi len dev

unfoldable pub set_bus : Option ℕ → PciDevice → PciDevice
set_bus none dev = dev
set_bus (some number) dev = record dev { bus = number % 256 }

-- The device number is above bit 16, the function number below.
unfoldable pub set_address : Option ℕ → PciDevice → PciDevice
set_address none dev = dev
set_address (some address) dev = record dev {
  device = address / 2 ^ 16 % 256;
  function = address % 256;
}

-- `strncpy_s` with `_TRUNCATE`: up to 127 characters, then a NUL.
unfoldable pub set_description : Option (Bytes × ℕ) → PciDevice → Run PciDevice
set_description none dev = done dev
set_description (some (desc, len)) dev = do
  let copied = do
    n ← strnlen desc 0 127
    text ← load_bytes desc 0 n
    array ← store_bytes dev.description 0 text
    terminated ← store array n 0
    done (record dev { description = terminated })
  if ltb 0 len then copied else done dev

-- The device of a node, from its two identifiers on.
unfoldable pub build_device : DevNode → Bytes → ℕ → ℕ → Run PciDevice
unfolding set_revision set_class_info set_bus set_address set_description
build_device node hwid ven devid = do
  rev ← extract_hex_token hwid rev_key
  classed ← set_class_info node.compatible_ids (
      set_revision rev
        (record zero_pci_device { vendor_id = ven % 2 ^ 16; device_id = devid % 2 ^ 16 }))
  described ←
      set_description node.description (set_address node.address (set_bus node.bus_number classed))
  (dev, events) ← collect_resources node.log_conf described
  done dev

-- `!have_ven || !have_dev` skips the node.
unfoldable pub with_tokens : DevNode → Bytes → Option ℕ → Option ℕ → Run (Option PciDevice)
unfolding build_device
with_tokens node hwid (some ven) (some devid) = do
  dev ← build_device node hwid ven devid
  done (some dev)
with_tokens node hwid ven devid = done none

unfoldable pub with_hardware_ids : DevNode → Option (Bytes × ℕ) → Run (Option PciDevice)
unfolding with_tokens
with_hardware_ids node none = done none
with_hardware_ids node (some (hwid, len)) = do
  ven ← extract_hex_token hwid ven_key
  devid ← extract_hex_token hwid dev_key
  with_tokens node hwid ven devid

-- The end of a turn.
unfoldable pub add_device : PciEnumeration → Option PciDevice → Run PciEnumeration
add_device out none = done out
add_device out (some dev) = do
  devices ← store out.devices out.device_count dev
  done (record out { devices = devices; device_count = out.device_count + 1 })

-- The loop over the nodes.
unfoldable pub enumerate_nodes : List DevNode → PciEnumeration → Run PciEnumeration
unfolding with_hardware_ids add_device
enumerate_nodes [] out = done out
enumerate_nodes (node ∷ nodes) out = do
  let skipped = enumerate_nodes nodes (record out { truncated = (out.truncated + 1) % 2 ^ 32 })
  let turn = do
    found ← with_hardware_ids node node.hardware_ids
    out' ← add_device out found
    enumerate_nodes nodes out'
  if leb pci_max_devices out.device_count then skipped else turn

abbrev pub zero_enumeration : PciEnumeration
zero_enumeration = record {
  devices = replicate pci_max_devices zero_pci_device;
  device_count = 0;
  truncated = 0;
}

-- `none` is an invalid handle of the device list, where the function returns false.
unfoldable pub pci_enumerate : Option (List DevNode) → Run (Bool × PciEnumeration)
unfolding enumerate_nodes
pci_enumerate none = done (false, zero_enumeration)
pci_enumerate (some nodes) = do out ← enumerate_nodes nodes zero_enumeration; done (true, out)
