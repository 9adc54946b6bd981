-- ===== src/Pci/Resources.antt =====
-- `collect_resources` of src/platform/windows/pci_enum_windows.c.
pub mod Ranges
pub mod Handles
use hardware_monitor_azk.Base.{
  min, ℕ, zero, suc, ◌+◌, ◌-◌, ◌*◌, ◌/◌, ◌%◌, ◌^◌, ◌≤◌, ◌<◌, ◌≡◌, ◌≢◌, ◌↔◌, refl, sym, ap, ◌∙◌,
  arith, Bool, true, false, not, ◌&&◌, ◌||◌, List, [], ◌∷◌, ◌++◌, map, Option, none, some, ◌⊎◌, inl,
  inr, ltb, leb, ◌==◌, if◌then◌else◌, bit, low_bits, Bool-cases, tests, length, take, drop, set,
  replicate, get_elem?, All,
}
use hardware_monitor_azk.Buffer.{
  Run, done, fault, stuck, ◌>>=◌, Bytes, IsByte, load, store, load_le, load_bytes, store_bytes,
  strnlen,
}
use hardware_monitor_azk.Pci.Types.{
  PciResource, PciDevice, pci_max_resources, ResourceId, res_mem, res_io, res_irq, res_other,
  ResourceData, ResDes, ResEvent, handed_out, res_des_freed, log_conf_freed,
}

-- In 64 bits, like `last - base + 1` in the source.
unfoldable pub range_length : ℕ → ℕ → ℕ
range_length base last = if leb base last then (last - base + 1) % 2 ^ 64 else 0

-- `dev->resources[dev->resource_count++] = …`
unfoldable pub add_resource : PciResource → PciDevice → Run PciDevice
add_resource r dev = do
  resources ← store dev.resources dev.resource_count r
  done (record dev { resources = resources; resource_count = dev.resource_count + 1 })

-- The data of one descriptor.
unfoldable pub take_data : ResourceId → ResourceData → PciDevice → Run PciDevice
unfolding add_resource range_length
take_data res_mem d dev =
    add_resource
      (record {
        is_memory = true;
        is_prefetchable = d.prefetch_allowed;
        base = d.alloc_base;
        length = range_length d.alloc_base d.alloc_end;
      })
      dev
take_data res_io d dev =
    add_resource
      (record {
        is_memory = false;
        is_prefetchable = false;
        base = d.alloc_base;
        length = range_length d.alloc_base d.alloc_end;
      })
      dev
take_data res_irq d dev =
    done (record dev { interrupt_available = true; interrupt_line = d.alloc_num % 2 ^ 32 })
take_data res_other d dev = done dev

abbrev pub some_data : Option ℕ → Bool
some_data none = false
some_data (some size) = ltb 0 size

-- The data, if there is any and it is read.
unfoldable pub with_data : Bool → ResourceId → Option ResourceData → PciDevice → Run PciDevice
unfolding take_data
with_data false kind found dev = done dev
with_data true kind none dev = done dev
with_data true kind (some d) dev = take_data kind d dev

-- One descriptor: its size, then its data, then the structure that its identifier names.
unfoldable pub take_descriptor : ResDes → PciDevice → Run PciDevice
unfolding with_data
take_descriptor r dev = with_data (some_data r.data_size && r.large_enough) r.res_id r.res_data dev

-- CM_Free_Res_Des_Handle, unless the handle is the configuration's.
abbrev pub free_previous : Option ℕ → List ResEvent
free_previous none = []
free_previous (some k) = res_des_freed k ∷ []

-- What is behind the loop.
abbrev pub finish : Option ℕ → List ResEvent
finish previous = free_previous previous ++ (log_conf_freed ∷ [])

-- The loop, where the next descriptor is the k-th and `previous` is the handle before it.
unfoldable pub collect_from :
    Option ℕ → ℕ → List ResDes → PciDevice → Run (PciDevice × List ResEvent)
unfolding take_descriptor
collect_from previous k [] dev =
    if ltb dev.resource_count pci_max_resources
    then done (dev, free_previous previous ++ finish previous)
    else done (dev, finish previous)
collect_from previous k (r ∷ rs) dev = do
  let rest = do
    taken ← take_descriptor r dev
    (last, events) ← collect_from (some k) (suc k) rs taken
    done (last, handed_out k ∷ (free_previous previous ++ events))
  if ltb dev.resource_count pci_max_resources then rest else done (dev, finish previous)

unfoldable pub collect_resources :
    Option (List ResDes) → PciDevice → Run (PciDevice × List ResEvent)
unfolding collect_from
collect_resources none dev = done (dev, [])
collect_resources (some rs) dev = collect_from none 0 rs dev
