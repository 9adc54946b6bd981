-- ===== src/Pci/Resources/Handles.antt =====
-- The resources that are collected, and the handles that are freed.
use hardware_monitor_azk.Base.{
  ℕ, suc, ◌+◌, ◌≤◌, ◌<◌, ◌≡◌, refl, ap, arith, Bool, true, false, List, [], ◌∷◌, ◌++◌, some, ltb,
  ◌==◌, if◌then◌else◌, tests,
}
use mathlib.Core.List.{append-nil, append_assoc}
use mathlib.Core.Path.{subst}
use hardware_monitor_azk.Buffer.Returns.{Returns, returns, Returns->>=, Returns-if}
use hardware_monitor_azk.Buffer.Filled.{IsFilled-full}
use hardware_monitor_azk.Pci.Types.{
  PciResource, PciDevice, pci_max_resources, ResDes, ResEvent, handed_out, res_des_freed,
  log_conf_freed,
}
use hardware_monitor_azk.Pci.Resources.{free_previous, finish, collect_from, collect_resources}
use hardware_monitor_azk.Pci.Resources.Ranges.{
  resource_in, readable, resources_of, HoldsResources, take_descriptor-Returns,
}

-- How often the handle of a descriptor, and of the configuration, is freed; how many are handed out.
unfoldable pub frees : ℕ → List ResEvent → ℕ
frees j [] = 0
frees j (res_des_freed k ∷ es) = let rest = frees j es in if j == k then suc rest else rest
frees j (_ ∷ es) = frees j es

unfoldable pub config_frees : List ResEvent → ℕ
config_frees [] = 0
config_frees (log_conf_freed ∷ es) = suc (config_frees es)
config_frees (_ ∷ es) = config_frees es

unfoldable pub handed : List ResEvent → ℕ
handed [] = 0
handed (handed_out k ∷ es) = suc (handed es)
handed (_ ∷ es) = handed es

-- After the handle `p`, and with it: `m` more are handed out; the last of them all is freed twice
-- if the list of descriptors has ended, and the others once.
record IsTail (p m : ℕ) (ended : Bool) (events : List ResEvent) : Type 0 where
  count : handed events ≡ m
  config : config_frees events ≡ 1
  before : (j : ℕ) → j < p → frees j events ≡ 0
  once : (j : ℕ) → p ≤ j → j < p + m → frees j events ≡ 1
  last : frees (p + m) events ≡ (if ended then 2 else 1)

IsTail-end : (p : ℕ) → IsTail p 0 true (free_previous (some p) ++ finish (some p))
unfolding frees config_frees handed
IsTail-end p = record {
  count = refl;
  config = refl;
  before = λ j lt. ground arith;
  once = λ j le lt. absurd (omega arith);
  last = ground arith;
}

IsTail-full : (p : ℕ) → IsTail p 0 false (finish (some p))
unfolding frees config_frees handed
IsTail-full p = record {
  count = refl;
  config = refl;
  before = λ j lt. ground arith;
  once = λ j le lt. absurd (omega arith);
  last = ground arith;
}

IsTail-next :
    (p m : ℕ) (ended : Bool) (events : List ResEvent)
    → IsTail (suc p) m ended events
    → IsTail p (suc m) ended (handed_out (suc p) ∷ (free_previous (some p) ++ events))
unfolding frees config_frees handed
IsTail-next p m ended events t = record {
  count = ap suc t.count;
  config = t.config;
  before = λ j lt. ground (arith, t.before j);
  once = λ j le lt. ground (arith, t.before j, t.once j);
  last =
      let same : suc p + m ≡ p + suc m = omega arith in
      ground (arith, subst (λ q. frees q events ≡ (if ended then 2 else 1)) same t.last);
}

-- The list of descriptors has ended if there is room left.
abbrev pub ended_early : PciDevice → Bool
ended_early dev = ltb dev.resource_count pci_max_resources

record IsCollected (origin : PciDevice) (items : List PciResource) (p : ℕ)
    (r : PciDevice × List ResEvent) : Type 0 where
  holds : HoldsResources origin items r.0
  handles : (m : ℕ) × IsTail p m (ended_early r.0) r.1

collect_from-Returns :
    (rs : List ResDes) (p : ℕ) (dev : PciDevice) (items : List PciResource) (origin : PciDevice)
    → HoldsResources origin items dev
    → Returns
        (IsCollected origin (items ++ resources_of rs) p)
        (collect_from (some p) (suc p) rs dev)
unfolding collect_from
collect_from-Returns [] p dev items origin h =
    Returns-if (ltb dev.resource_count pci_max_resources)
      (λ room.
        returns _
          (record { holds = rw (append-nil items) h; handles = (0, rw room (IsTail-end p)) }))
      (λ full.
        returns _
          (record { holds = rw (append-nil items) h; handles = (0, rw full (IsTail-full p)) }))
collect_from-Returns (r ∷ rs) p dev items origin h =
    Returns-if (ltb dev.resource_count pci_max_resources)
      (λ room. Returns->>= (take_descriptor-Returns r dev items origin h (omega tests)) λ taken k.
        Returns->>= (collect_from-Returns rs (suc p) taken _ origin k) λ last c.
          let (m, t) = c.handles in
          returns _ (record {
            holds =
                subst (λ xs. HoldsResources origin xs last.0)
                  (append_assoc items
                    (resource_in (readable r.data_size r.large_enough) r.res_id r.res_data)
                    (resources_of rs))
                  c.holds;
            handles = (suc m, IsTail-next p m (ended_early last.0) last.1 t);
          }))
      (λ full. returns _ (record {
        holds = (
          IsFilled-full pci_max_resources dev.resources dev.resource_count items _ h.0
              (omega tests),
          h.1,
        );
        handles = (0, rw full (IsTail-full p));
      }))

-- What becomes of the handles of a configuration: `n` descriptors are handed out, and each of them
-- is freed once, but the last twice if the list ended before the device was full.
pub record AreFreed (n : ℕ) (ended : Bool) (events : List ResEvent) : Type 0 where
  pub count : handed events ≡ n
  pub config : config_frees events ≡ 1
  pub once : (j : ℕ) → suc j < n → frees j events ≡ 1
  pub last : (j : ℕ) → suc j ≡ n → frees j events ≡ (if ended then 2 else 1)

pub record AreCollected (origin : PciDevice) (rs : List ResDes) (r : PciDevice × List ResEvent)
    : Type 0 where
  pub resources : HoldsResources origin (resources_of rs) r.0
  pub handles : (n : ℕ) × AreFreed n (ended_early r.0) r.1

-- For a device that has no resources yet, `collect_resources` ends inside the array and leaves in
-- it the ranges of the memory and port descriptors whose data can be read, in order, 12 at most. It
-- frees the handle of the configuration once, and the handle of each descriptor that was handed out
-- once, but the last of them twice if the list of descriptors ends before the array is full.
pub collect_resources-AreCollected :
    (rs : List ResDes) (dev : PciDevice)
    → HoldsResources dev [] dev
    → Returns (AreCollected dev rs) (collect_resources (some rs) dev)
unfolding collect_resources collect_from frees config_frees handed
collect_resources-AreCollected [] dev h =
    Returns-if (ltb dev.resource_count pci_max_resources)
      (λ room. returns _ (record {
        resources = h;
        handles = (
          0,
          record {
            count = refl;
            config = refl;
            once = λ j lt. absurd (omega arith);
            last = λ j e. absurd (omega arith);
          },
        );
      }))
      (λ full. returns _ (record {
        resources = h;
        handles = (
          0,
          record {
            count = refl;
            config = refl;
            once = λ j lt. absurd (omega arith);
            last = λ j e. absurd (omega arith);
          },
        );
      }))
collect_resources-AreCollected (r ∷ rs) dev h =
    Returns-if (ltb dev.resource_count pci_max_resources)
      (λ room. Returns->>= (take_descriptor-Returns r dev [] dev h (omega tests)) λ taken k.
        Returns->>= (collect_from-Returns rs 0 taken _ dev k) λ last c.
          let (m, t) = c.handles in
          returns _ (record {
            resources = c.holds;
            handles = (
              suc m,
              record {
                count = ap suc t.count;
                config = t.config;
                once = λ j lt. t.once j (omega arith) (omega arith);
                last = λ j e.
                    let same : 0 + m ≡ j = omega arith in
                    subst (λ q. frees q last.1 ≡ (if ended_early last.0 then 2 else 1)) same t.last;
              },
            );
          }))
      (λ full. absurd (ground (arith, h.0.counted)))
