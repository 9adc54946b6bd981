-- ===== src/Examples/Pci.antt =====
-- PCI enumeration (src/platform/windows/pci_enum_windows.c) on a system with one device.
use hardware_monitor_azk.Base.{◌≡◌, refl, true, List, [], ◌∷◌, none, some}
use hardware_monitor_azk.Buffer.{done, Bytes, load}
use hardware_monitor_azk.Buffer.Returns.{Returns}
use hardware_monitor_azk.Buffer.Filled.{IsFilled-replicate}
use hardware_monitor_azk.Pci.Types.{
  ResDes, res_mem, res_irq, DevNode, zero_pci_device, zero_resource,
}
use hardware_monitor_azk.Pci.Strings.{
  extract_hex_token, strstr, strstr_from, starts_with, strtoul, skip_space, skip_sign, skip_prefix,
  read_hex, token_behind,
}
use hardware_monitor_azk.Pci.Resources.{collect_resources}
use hardware_monitor_azk.Pci.Resources.Handles.{AreCollected, collect_resources-AreCollected}
use hardware_monitor_azk.Pci.Enumerate.{ven_key, pci_enumerate}
use hardware_monitor_azk.Pci.Enumerate.Devices.{IsNode}
use hardware_monitor_azk.Pci.Enumerate.Listing.{IsEnumeration, pci_enumerate-Returns}

-- "VEN_10DE&DEV_2704"
abbrev ids : Bytes
ids =
    86 ∷ 69 ∷ 78 ∷ 95 ∷ 49 ∷ 48 ∷ 68 ∷ 69 ∷ 38 ∷ 68 ∷ 69 ∷ 86 ∷ 95 ∷ 50 ∷ 55 ∷ 48 ∷ 52 ∷ 0 ∷ 0 ∷ []

-- "CC_0300"
abbrev class_ids : Bytes
class_ids = 67 ∷ 67 ∷ 95 ∷ 48 ∷ 51 ∷ 48 ∷ 48 ∷ 0 ∷ []

ven_found : extract_hex_token ids ven_key ≡ done (some 0x10DE)
unfolding extract_hex_token token_behind strstr strstr_from starts_with strtoul skip_space skip_sign
    skip_prefix read_hex load
ven_found = refl

abbrev resources : List ResDes
resources =
    record {
      res_id = res_mem;
      data_size = some 64;
      large_enough = true;
      res_data = some (record {
        prefetch_allowed = true;
        alloc_base = 0xE0000000;
        alloc_end = 0xE0FFFFFF;
        alloc_num = 0;
      });
    }
    ∷ record { res_id = res_irq; data_size = none; large_enough = true; res_data = none }
    ∷ []

collect_resources_example :
    Returns
      (AreCollected zero_pci_device resources)
      (collect_resources (some resources) zero_pci_device)
collect_resources_example =
    collect_resources-AreCollected resources zero_pci_device
      (IsFilled-replicate 12 zero_resource, (refl, refl, refl))

abbrev node : DevNode
node = record {
  hardware_ids = some (ids, 19);
  compatible_ids = some (class_ids, 8);
  bus_number = some 1;
  address = some 0x20001;
  description = none;
  log_conf = some resources;
}

node-IsNode : IsNode node
node-IsNode = record {
  hardware = λ given len e. (17, cc e);
  compatible = λ given len e. (7, cc e, cc e);
  text = λ desc len e. cc e;
}

pci_enumerate_example :
    Returns (λ r. (r.0 ≡ true) × IsEnumeration (node ∷ []) r.1) (pci_enumerate (some (node ∷ [])))
pci_enumerate_example = pci_enumerate-Returns (node ∷ []) (node-IsNode, tt)
