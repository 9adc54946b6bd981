-- ===== src/Pci/Enumerate/Report.antt =====
-- What `pci_enumerate` makes of one node.
use hardware_monitor_azk.Base.{
  ℕ, ◌%◌, ◌^◌, ◌≡◌, ◌≢◌, refl, sym, ap, ◌∙◌, arith, List, [], ◌∷◌, Option, none, some, length, All,
}
use hardware_monitor_azk.Buffer.{done, Bytes}
use mathlib.Core.Path.{subst}
use hardware_monitor_azk.Buffer.Returns.{Returns, returns, Returns->>=, Returns-mono, Returns-eq}
use hardware_monitor_azk.Buffer.Text.{IsChar}
use hardware_monitor_azk.Buffer.Filled.{IsFilled, IsFilled-replicate}
use hardware_monitor_azk.Pci.Types.{
  PciDevice, pci_max_resources, zero_resource, zero_pci_device, DevNode, ResDes,
}
use hardware_monitor_azk.Pci.Strings.{extract_hex_token}
use hardware_monitor_azk.Pci.Strings.Bounds.{EndsAt, extract_hex_token-Returns}
use hardware_monitor_azk.Pci.Resources.{collect_resources}
use hardware_monitor_azk.Pci.Resources.Ranges.{HoldsResources}
use hardware_monitor_azk.Pci.Resources.Handles.{collect_resources-AreCollected}
use hardware_monitor_azk.Pci.Enumerate.{
  ven_key, dev_key, rev_key, set_revision, set_bus, set_address, build_device, with_tokens,
  with_hardware_ids,
}
use hardware_monitor_azk.Pci.Enumerate.Devices.{
  IsNode, Keeps, Keeps-then, Keeps-set_revision, Keeps-set_bus, Keeps-set_address,
  set_class_info-Returns, set_description-Returns, node_resources,
}

-- The device has the two numbers that are given, the resources of the node, and room for its text.
pub record IsBuilt (node : DevNode) (ven devid : ℕ) (dev : PciDevice) : Type 0 where
  pub vendor : dev.vendor_id ≡ ven % 2 ^ 16
  pub device : dev.device_id ≡ devid % 2 ^ 16
  pub resources :
      IsFilled pci_max_resources dev.resources dev.resource_count (node_resources node.log_conf)
  pub description : length dev.description ≡ 128

collect-Returns :
    (found : Option (List ResDes)) (dev : PciDevice)
    → HoldsResources dev [] dev
    → Returns (λ r. HoldsResources dev (node_resources found) r.0) (collect_resources found dev)
unfolding collect_resources
collect-Returns none dev h = returns _ h
collect-Returns (some rs) dev h =
    Returns-mono (collect_resources-AreCollected rs dev h) λ r k. k.resources

chars : (a b c d : ℕ) → (a ≢ 0) × (b ≢ 0) × (c ≢ 0) × (d ≢ 0) → All IsChar (a ∷ b ∷ c ∷ d ∷ [])
chars a b c d h = (h.0, (h.1, (h.2, (h.3, tt))))

build_device-Returns :
    (node : DevNode) (ids : Bytes) (z ven devid : ℕ)
    → IsNode node
    → EndsAt ids z
    → Returns (IsBuilt node ven devid) (build_device node ids ven devid)
unfolding build_device
build_device-Returns node ids z ven devid h nul =
    Returns->>=
      (extract_hex_token-Returns ids rev_key z nul (
        chars 82 69 86 95
          ((λ e. omega arith), (λ e. omega arith), (λ e. omega arith), λ e. omega arith)))
      λ rev _.
        Returns->>=
          (set_class_info-Returns node.compatible_ids (set_revision rev start) h.compatible)
          λ classed kc.
            let kb =
              Keeps-then
                (Keeps-then (Keeps-then (Keeps-set_revision rev start) kc)
                  (Keeps-set_bus node.bus_number classed))
                (Keeps-set_address node.address (set_bus node.bus_number classed)) in
            Returns->>=
              (set_description-Returns node.description
                (set_address node.address (set_bus node.bus_number classed)) kb.description h.text)
              λ described kd.
                let k = Keeps-then kb kd in
                Returns->>=
                  (collect-Returns node.log_conf described (empty described k, (refl, refl, refl)))
                  λ r c. returns _ (record {
                    vendor = c.1.0 ∙ k.vendor_id;
                    device = c.1.1 ∙ k.device_id;
                    resources = c.0;
                    description = ap length c.1.2 ∙ k.description;
                  })
  where
    start : PciDevice
    start = record zero_pci_device { vendor_id = ven % 2 ^ 16; device_id = devid % 2 ^ 16 }

    empty :
        (d : PciDevice) → Keeps start d → IsFilled pci_max_resources d.resources d.resource_count []
    empty d k =
        subst (λ xs. IsFilled pci_max_resources xs d.resource_count []) (sym k.resources)
          (subst (λ n. IsFilled pci_max_resources start.resources n []) (sym k.resource_count)
            (IsFilled-replicate pci_max_resources zero_resource))

-- The two identifiers of a node.
pub record Identifies (node : DevNode) (ven devid : ℕ) : Type 0 where
  pub ids : Bytes
  pub len : ℕ
  pub hardware : node.hardware_ids ≡ some (ids, len)
  pub ven_token : extract_hex_token ids ven_key ≡ done (some ven)
  pub dev_token : extract_hex_token ids dev_key ≡ done (some devid)

-- What becomes of a node.
pub data Found (node : DevNode) : Option PciDevice → Type 0 where
  skipped : ((ven devid : ℕ) → ¬ Identifies node ven devid) → Found node none
  built :
      (ven devid : ℕ) (dev : PciDevice)
      → Identifies node ven devid
      → IsBuilt node ven devid dev
      → Found node (some dev)

with_tokens-Found :
    (node : DevNode) (ids : Bytes) (len z : ℕ) (ven devid : Option ℕ)
    → IsNode node
    → EndsAt ids z
    → node.hardware_ids ≡ some (ids, len)
    → extract_hex_token ids ven_key ≡ done ven
    → extract_hex_token ids dev_key ≡ done devid
    → Returns (Found node) (with_tokens node ids ven devid)
unfolding with_tokens
with_tokens-Found node ids len z none devid h nul e ev ed =
    returns none (skipped λ v d i. cc (i.hardware, i.ven_token))
with_tokens-Found node ids len z (some ven) none h nul e ev ed =
    returns none (skipped λ v d i. cc (i.hardware, i.dev_token))
with_tokens-Found node ids len z (some ven) (some devid) h nul e ev ed =
    Returns->>= (build_device-Returns node ids z ven devid h nul) λ dev k. returns _ (
      built ven devid dev
        (record { ids = ids; len = len; hardware = e; ven_token = ev; dev_token = ed }) k)

pub with_hardware_ids-Found :
    (node : DevNode) (found : Option (Bytes × ℕ))
    → IsNode node
    → node.hardware_ids ≡ found
    → Returns (Found node) (with_hardware_ids node found)
unfolding with_hardware_ids
with_hardware_ids-Found node none h e = returns none (skipped λ v d i. cc (i.hardware))
with_hardware_ids-Found node (some (ids, len)) h e =
    let (z, nul) = h.hardware ids len e in
    let (ven, ev, _) = Returns-eq (
      extract_hex_token-Returns ids ven_key z nul (
        chars 86 69 78 95
          ((λ e. omega arith), (λ e. omega arith), (λ e. omega arith), λ e. omega arith))) in
    let (devid, ed, _) = Returns-eq (
      extract_hex_token-Returns ids dev_key z nul (
        chars 68 69 86 95
          ((λ e. omega arith), (λ e. omega arith), (λ e. omega arith), λ e. omega arith))) in
    rw (ev, ed) (with_tokens-Found node ids len z ven devid h nul e ev ed)
