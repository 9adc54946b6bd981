-- ===== src/Pci/Enumerate/Listing.antt =====
-- Which devices `pci_enumerate` reports.
use hardware_monitor_azk.Base.{
  ℕ, ◌+◌, ◌%◌, ◌^◌, ◌≤◌, ◌<◌, ◌≡◌, refl, sym, arith, true, List, [], ◌∷◌, ◌++◌, Option, some, leb,
  tests, length, All,
}
use mathlib.Core.Path.{subst}
use mathlib.Core.List.{append_assoc}
use hardware_monitor_azk.Buffer.Returns.{
  Returns, returns, Returns->>=, Returns-if, Returns-mono, Returns-store,
}
use hardware_monitor_azk.Buffer.Filled.{IsFilled, IsFilled-replicate, IsFilled-set}
use hardware_monitor_azk.Pci.Types.{
  PciDevice, PciEnumeration, pci_max_devices, zero_pci_device, DevNode,
}
use hardware_monitor_azk.Pci.Enumerate.{
  add_device, enumerate_nodes, zero_enumeration, pci_enumerate,
}
use hardware_monitor_azk.Pci.Enumerate.Report.{
  IsBuilt, Identifies, Found, skipped, built, with_hardware_ids-Found,
}
use hardware_monitor_azk.Pci.Enumerate.Devices.{IsNode}

-- The devices of a list of nodes, in order: one for each node with both identifiers.
pub data Reports : List DevNode → List PciDevice → Type 0 where
  nothing : Reports [] []
  skips :
      {nodes : List DevNode} {devices : List PciDevice} (node : DevNode)
      → Reports nodes devices
      → ((ven devid : ℕ) → ¬ Identifies node ven devid)
      → Reports (nodes ++ (node ∷ [])) devices
  reports :
      {nodes : List DevNode} {devices : List PciDevice} (node : DevNode) (ven devid : ℕ)
      (dev : PciDevice)
      → Reports nodes devices
      → Identifies node ven devid
      → IsBuilt node ven devid dev
      → Reports (nodes ++ (node ∷ [])) (devices ++ (dev ∷ []))

-- The nodes that were seen give the devices in front of the array; the rest is counted, and there
-- is a rest only if the array is full.
pub record IsEnumeration (nodes : List DevNode) (out : PciEnumeration) : Type 0 where
  pub seen : List DevNode
  pub rest : List DevNode
  pub split : nodes ≡ seen ++ rest
  pub devices : List PciDevice
  pub reported : Reports seen devices
  pub filled : IsFilled pci_max_devices out.devices out.device_count devices
  pub counted : out.truncated ≡ length rest % 2 ^ 32
  pub full : 0 < length rest → out.device_count ≡ pci_max_devices

truncates :
    (nodes : List DevNode) (out : PciEnumeration)
    → pci_max_devices ≤ out.device_count
    → out.truncated < 2 ^ 32
    → Returns
        (λ r.
          (r.devices ≡ out.devices)
          × (r.device_count ≡ out.device_count)
          × (r.truncated ≡ (out.truncated + length nodes) % 2 ^ 32))
        (enumerate_nodes nodes out)
unfolding enumerate_nodes
truncates [] out full small = returns out (refl, refl, omega arith)
truncates (node ∷ nodes) out full small =
    Returns-if (leb pci_max_devices out.device_count)
      (λ _.
        Returns-mono
          (truncates nodes (record out { truncated = (out.truncated + 1) % 2 ^ 32 }) full
            (omega arith))
          λ r k. (k.0, k.1, omega (arith, k.2)))
      (λ room. absurd (omega tests))

add_device-Returns :
    (node : DevNode) (seen : List DevNode) (devices : List PciDevice) (out : PciEnumeration)
    (found : Option PciDevice)
    → Reports seen devices
    → IsFilled pci_max_devices out.devices out.device_count devices
    → out.truncated ≡ 0
    → out.device_count < pci_max_devices
    → Found node found
    → Returns
        (λ r.
          (devices' : List PciDevice) × Reports (seen ++ (node ∷ [])) devices'
          × IsFilled pci_max_devices r.devices r.device_count devices'
          × (r.truncated ≡ 0))
        (add_device out found)
unfolding add_device
add_device-Returns node seen devices out _ k f t room (skipped none_of) =
    returns out (devices, skips node k none_of, f, t)
add_device-Returns node seen devices out _ k f t room (built ven devid dev ids is) =
    Returns->>= (Returns-store out.devices out.device_count dev (omega (arith, f.size)))
      λ array stored. returns _ (
        devices ++ (dev ∷ []),
        reports node ven devid dev k ids is,
        subst (λ xs. IsFilled pci_max_devices xs (out.device_count + 1) (devices ++ (dev ∷ [])))
            (sym stored)
            (IsFilled-set pci_max_devices out.devices out.device_count devices dev f room),
        t,
      )

enumerate_nodes-Returns :
    (nodes seen : List DevNode) (devices : List PciDevice) (out : PciEnumeration)
    → All IsNode nodes
    → Reports seen devices
    → IsFilled pci_max_devices out.devices out.device_count devices
    → out.truncated ≡ 0
    → Returns (IsEnumeration (seen ++ nodes)) (enumerate_nodes nodes out)
unfolding enumerate_nodes
enumerate_nodes-Returns [] seen devices out h k f t = returns out (record {
  seen = seen;
  rest = [];
  split = refl;
  devices = devices;
  reported = k;
  filled = f;
  counted = t;
  full = λ more. absurd (omega arith);
})
enumerate_nodes-Returns (node ∷ nodes) seen devices out h k f t =
    Returns-if (leb pci_max_devices out.device_count)
      (λ full.
        Returns-mono
          (truncates nodes (record out { truncated = (out.truncated + 1) % 2 ^ 32 }) (omega tests)
            (omega arith))
          λ r c. record {
            seen = seen;
            rest = node ∷ nodes;
            split = refl;
            devices = devices;
            reported = k;
            filled =
                subst (λ xs. IsFilled pci_max_devices xs r.device_count devices) (sym c.0)
                  (subst (λ n. IsFilled pci_max_devices out.devices n devices) (sym c.1) f);
            counted = omega (arith, c.2, t);
            full = λ _. omega (tests, c.1, f.counted);
          })
      (λ room. Returns->>= (with_hardware_ids-Found node node.hardware_ids h.0 refl) λ found fnd.
        Returns->>= (add_device-Returns node seen devices out found k f t (omega tests) fnd)
          λ out' g.
            let (devices', k', f', t') = g in
            Returns-mono
              (enumerate_nodes-Returns nodes (seen ++ (node ∷ [])) devices' out' h.1 k' f' t')
              λ r e. subst (λ all. IsEnumeration all r) (append_assoc seen (node ∷ []) nodes) e)

-- On a list of nodes whose identifiers end with a NUL, which the reported length of the compatible
-- ones includes, and whose descriptions come in 128 bytes, `pci_enumerate` ends inside its buffers
-- and returns true. It reports one device for each node whose hardware identifiers have a VEN and a
-- DEV token, in order, with these numbers in 16 bits, and with the memory and port ranges of its
-- resources, 12 at most, until the array of 512 devices is full; the nodes behind that, with
-- identifiers or without, are counted in `truncated`.
pub pci_enumerate-Returns :
    (nodes : List DevNode)
    → All IsNode nodes
    → Returns (λ r. (r.0 ≡ true) × IsEnumeration nodes r.1) (pci_enumerate (some nodes))
unfolding pci_enumerate
pci_enumerate-Returns nodes h =
    Returns->>=
      (enumerate_nodes-Returns nodes [] [] zero_enumeration h nothing
        (IsFilled-replicate pci_max_devices zero_pci_device) refl)
      λ out k. returns _ (refl, k)
