-- ===== src/Pci/Enumerate/Devices.antt =====
-- The device that is made of a node.
use hardware_monitor_azk.Pci.Resources.Ranges.{resources_of}
use hardware_monitor_azk.Base.{
  ℕ, suc, ◌≤◌, ◌≡◌, refl, sym, ap, ◌∙◌, arith, Option, none, some, inl, inr, ltb, leb, Bool-cases,
  length, drop, List, [],
}
use hardware_monitor_azk.Buffer.{Bytes, load_bytes}
use mathlib.Core.Path.{subst}
use hardware_monitor_azk.Storage.Trim.{load_bytes_inside}
use hardware_monitor_azk.Base.{length-take, length-drop, length-set}
use hardware_monitor_azk.Buffer.Returns.{
  Returns, returns, Returns->>=, Returns-if, Returns-mono, Returns-store,
}
use hardware_monitor_azk.Buffer.Text.{Returns-strnlen, Returns-store_bytes}
use hardware_monitor_azk.Pci.Types.{PciDevice, DevNode, ResDes, PciResource}
use hardware_monitor_azk.Pci.Strings.Bounds.{EndsAt}
use hardware_monitor_azk.Pci.ClassCode.{Best, set_class}
use hardware_monitor_azk.Pci.ClassCode.Digits.{extract_class_code-Returns}
use hardware_monitor_azk.Pci.Enumerate.{
  set_revision, set_class_info, set_bus, set_address, set_description,
}

-- What Windows promises of a node: the identifiers end with a NUL, which the reported length of
-- the compatible ones includes, and the description's buffer has 128 bytes.
pub record IsNode (node : DevNode) : Type 0 where
  pub hardware :
      (ids : Bytes) (len : ℕ) → node.hardware_ids ≡ some (ids, len) → (z : ℕ) × EndsAt ids z
  pub compatible :
      (ids : Bytes) (len : ℕ)
      → node.compatible_ids ≡ some (ids, len)
      → (z : ℕ) × (len ≡ suc z) × EndsAt ids z
  pub text : (desc : Bytes) (len : ℕ) → node.description ≡ some (desc, len) → length desc ≡ 128

-- What the steps behind the identifiers leave as it was.
pub record Keeps (old new : PciDevice) : Type 0 where
  pub vendor_id : new.vendor_id ≡ old.vendor_id
  pub device_id : new.device_id ≡ old.device_id
  pub resources : new.resources ≡ old.resources
  pub resource_count : new.resource_count ≡ old.resource_count
  pub description : length new.description ≡ length old.description

Keeps-self : (dev : PciDevice) → Keeps dev dev
Keeps-self dev = record {
  vendor_id = refl;
  device_id = refl;
  resources = refl;
  resource_count = refl;
  description = refl;
}

pub Keeps-then : {a b c : PciDevice} → Keeps a b → Keeps b c → Keeps a c
Keeps-then h k = record {
  vendor_id = k.vendor_id ∙ h.vendor_id;
  device_id = k.device_id ∙ h.device_id;
  resources = k.resources ∙ h.resources;
  resource_count = k.resource_count ∙ h.resource_count;
  description = k.description ∙ h.description;
}

pub Keeps-set_class : (best : Best) (dev : PciDevice) → Keeps dev (set_class best dev)
unfolding set_class
Keeps-set_class best dev = elim (Bool-cases (leb 2 best.digits)) [
  | inl e ↦ rw e (record {
    vendor_id = refl;
    device_id = refl;
    resources = refl;
    resource_count = refl;
    description = refl;
  })
  | inr e ↦ rw e (Keeps-self dev)
]

pub Keeps-set_revision : (rev : Option ℕ) (dev : PciDevice) → Keeps dev (set_revision rev dev)
unfolding set_revision
Keeps-set_revision none dev = Keeps-self dev
Keeps-set_revision (some rev) dev = record {
  vendor_id = refl;
  device_id = refl;
  resources = refl;
  resource_count = refl;
  description = refl;
}

pub Keeps-set_bus : (number : Option ℕ) (dev : PciDevice) → Keeps dev (set_bus number dev)
unfolding set_bus
Keeps-set_bus none dev = Keeps-self dev
Keeps-set_bus (some number) dev = record {
  vendor_id = refl;
  device_id = refl;
  resources = refl;
  resource_count = refl;
  description = refl;
}

pub Keeps-set_address : (address : Option ℕ) (dev : PciDevice) → Keeps dev (set_address address dev)
unfolding set_address
Keeps-set_address none dev = Keeps-self dev
Keeps-set_address (some address) dev = record {
  vendor_id = refl;
  device_id = refl;
  resources = refl;
  resource_count = refl;
  description = refl;
}

pub set_class_info-Returns :
    (found : Option (Bytes × ℕ)) (dev : PciDevice)
    → ((ids : Bytes) (len : ℕ) → found ≡ some (ids, len) → (z : ℕ) × (len ≡ suc z) × EndsAt ids z)
    → Returns (Keeps dev) (set_class_info found dev)
unfolding set_class_info
set_class_info-Returns none dev h = returns dev (Keeps-self dev)
set_class_info-Returns (some (ids, len)) dev h =
    let (z, at, nul) = h ids len refl in
    rw at (
      Returns-mono (extract_class_code-Returns ids z dev nul)
        λ d k. subst (Keeps dev) (sym k.2) (Keeps-set_class k.0 dev))

pub set_description-Returns :
    (found : Option (Bytes × ℕ)) (dev : PciDevice)
    → length dev.description ≡ 128
    → ((desc : Bytes) (len : ℕ) → found ≡ some (desc, len) → length desc ≡ 128)
    → Returns (Keeps dev) (set_description found dev)
unfolding set_description
set_description-Returns none dev size h = returns dev (Keeps-self dev)
set_description-Returns (some (desc, len)) dev size h =
    Returns-if (ltb 0 len)
      (λ _. Returns->>= (Returns-strnlen desc 0 127 (omega (arith, h desc len refl))) λ n t.
        Returns->>= (text n (omega (arith, t.within))) λ text ht.
          Returns->>=
            (Returns-store_bytes dev.description 0 text (omega (arith, ht, size, t.within)))
            λ array ha.
              Returns->>= (Returns-store array n 0 (omega (arith, ha.1, size, t.within)))
                λ terminated stored. returns _ (record {
                  vendor_id = refl;
                  device_id = refl;
                  resources = refl;
                  resource_count = refl;
                  description = ap length stored ∙ length-set array n 0 ∙ ha.1;
                }))
      (λ _. returns dev (Keeps-self dev))
  where
    text : (n : ℕ) → n ≤ 127 → Returns (λ text. length text ≡ n) (load_bytes desc 0 n)
    text n le = rw (load_bytes_inside desc 0 n (omega (arith, h desc len refl))) (
        returns _
          (length-take n (drop 0 desc) (omega (arith, length-drop 0 desc, h desc len refl))))

abbrev pub node_resources : Option (List ResDes) → List PciResource
node_resources none = []
node_resources (some rs) = resources_of rs
