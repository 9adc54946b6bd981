-- ===== src/Pci/Resources/Ranges.antt =====
-- The resources that are collected.
use hardware_monitor_azk.Base.{
  ℕ, zero, suc, ◌+◌, ◌-◌, ◌%◌, ◌^◌, ◌<◌, ◌≡◌, refl, sym, arith, Bool, true, false, ◌&&◌, List, [],
  ◌∷◌, ◌++◌, Option, none, some,
}
use mathlib.Core.List.{append-nil}
use mathlib.Core.Path.{subst}
use hardware_monitor_azk.Buffer.Returns.{Returns, returns, Returns->>=, Returns-store}
use hardware_monitor_azk.Buffer.Filled.{IsFilled, IsFilled-set}
use hardware_monitor_azk.Pci.Types.{
  PciResource, PciDevice, pci_max_resources, ResourceId, res_mem, res_io, res_irq, res_other,
  ResourceData, ResDes,
}
use hardware_monitor_azk.Pci.Resources.{
  range_length, add_resource, take_data, take_descriptor, with_data, some_data,
}

-- The resource of a descriptor of memory or ports whose data can be read: its base and the number
-- of its addresses, 0 if it ends before it begins.
abbrev pub resource_of : ResourceId → ResourceData → List PciResource
resource_of res_mem d =
    record {
      is_memory = true;
      is_prefetchable = d.prefetch_allowed;
      base = d.alloc_base;
      length = (suc d.alloc_end - d.alloc_base) % 2 ^ 64;
    }
    ∷ []
resource_of res_io d =
    record {
      is_memory = false;
      is_prefetchable = false;
      base = d.alloc_base;
      length = (suc d.alloc_end - d.alloc_base) % 2 ^ 64;
    }
    ∷ []
resource_of _ d = []

abbrev pub readable : Option ℕ → Bool → Bool
readable none large = false
readable (some zero) large = false
readable (some (suc size)) large = large

abbrev pub resource_in : Bool → ResourceId → Option ResourceData → List PciResource
resource_in false kind d = []
resource_in true kind none = []
resource_in true kind (some d) = resource_of kind d

abbrev pub resources_of : List ResDes → List PciResource
resources_of [] = []
resources_of (r ∷ rs) =
    resource_in (readable r.data_size r.large_enough) r.res_id r.res_data ++ resources_of rs

-- The array holds the items, up to its size; the rest of the device that has a name is as in
-- `origin`.
abbrev pub HoldsResources : PciDevice → List PciResource → PciDevice → Type 0
HoldsResources origin items dev =
    IsFilled pci_max_resources dev.resources dev.resource_count items
    × ((dev.vendor_id ≡ origin.vendor_id)
        × (dev.device_id ≡ origin.device_id)
        × (dev.description ≡ origin.description))

range_length_lem : (base last : ℕ) → range_length base last ≡ (suc last - base) % 2 ^ 64
unfolding range_length
range_length_lem base last = ground arith

add_resource-Returns :
    (r : PciResource) (dev : PciDevice) (items : List PciResource) (origin : PciDevice)
    → HoldsResources origin items dev
    → dev.resource_count < pci_max_resources
    → Returns (HoldsResources origin (items ++ (r ∷ []))) (add_resource r dev)
unfolding add_resource
add_resource-Returns r dev items origin h room =
    Returns->>= (Returns-store dev.resources dev.resource_count r (omega (arith, h.0.size)))
      λ resources stored. returns _ (
        subst (λ xs. IsFilled pci_max_resources xs (dev.resource_count + 1) (items ++ (r ∷ [])))
            (sym stored)
            (IsFilled-set pci_max_resources dev.resources dev.resource_count items r h.0 room),
        h.1,
      )

take_data-Returns :
    (kind : ResourceId) (d : ResourceData) (dev : PciDevice) (items : List PciResource)
    (origin : PciDevice)
    → HoldsResources origin items dev
    → dev.resource_count < pci_max_resources
    → Returns (HoldsResources origin (items ++ resource_of kind d)) (take_data kind d dev)
unfolding take_data
take_data-Returns res_mem d dev items origin h room =
    rw (range_length_lem d.alloc_base d.alloc_end) (add_resource-Returns _ dev items origin h room)
take_data-Returns res_io d dev items origin h room =
    rw (range_length_lem d.alloc_base d.alloc_end) (add_resource-Returns _ dev items origin h room)
take_data-Returns res_irq d dev items origin h room = returns _ (rw (append-nil items) h)
take_data-Returns res_other d dev items origin h room = returns _ (rw (append-nil items) h)

some_data_lem : (size : Option ℕ) (large : Bool) → some_data size && large ≡ readable size large
some_data_lem none large = refl
some_data_lem (some zero) large = refl
some_data_lem (some (suc size)) large = ground arith

pub take_descriptor-Returns :
    (r : ResDes) (dev : PciDevice) (items : List PciResource) (origin : PciDevice)
    → HoldsResources origin items dev
    → dev.resource_count < pci_max_resources
    → Returns
        (HoldsResources origin
          (items ++ resource_in (readable r.data_size r.large_enough) r.res_id r.res_data))
        (take_descriptor r dev)
unfolding take_descriptor with_data
take_descriptor-Returns r dev items origin h room =
    rw (some_data_lem r.data_size r.large_enough)
      (by_data r.res_data (readable r.data_size r.large_enough))
  where
    by_data :
        (found : Option ResourceData) (readable : Bool)
        → Returns
            (HoldsResources origin (items ++ resource_in readable r.res_id found))
            (with_data readable r.res_id found dev)
    by_data none true = returns dev (rw (append-nil items) h)
    by_data none false = returns dev (rw (append-nil items) h)
    by_data (some d) false = returns dev (rw (append-nil items) h)
    by_data (some d) true = take_data-Returns r.res_id d dev items origin h room
