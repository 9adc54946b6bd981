-- ===== src/Driver/Control/Safety.antt =====
-- Every request to the driver stays inside its buffer and on the accesses that are allowed.
use hardware_monitor_azk.Buffer.Returns.{
  Returns, Returns-if, Returns->>=, returns, Returns-load-All, Returns-load_le,
}
use hardware_monitor_azk.Driver.Types.{
  Status, success, not_supported, unsuccessful, Event, msr_read, lock_acquired, port_out, port_in,
  lock_released, map_requested, page_read, page_unmapped, Kernel, Reply,
}
use hardware_monitor_azk.Driver.Access.{
  Access, msr_whitelist, is_listed, msr_is_whitelisted, safe_read_msr, config_address,
  read_pci_config_dword_legacy, read_page, ecam_page, read_pcie_config_dword_ecam,
}
use hardware_monitor_azk.Driver.Control.{
  refuse, answer, control_msr, control_pci_config, control_pcie_ecam, device_control,
  ioctl_hwmon_read_msr, ioctl_hwmon_read_pci_config, ioctl_hwmon_read_pcie_ecam,
}
use hardware_monitor_azk.Buffer.Words.{le_bytes, length-le_bytes}
use hardware_monitor_azk.Buffer.Text.{Returns-store_bytes}
use hardware_monitor_azk.Base.{
  ℕ, suc, ◌+◌, ◌*◌, ◌/◌, ◌%◌, ◌≤◌, ◌<◌, ◌≡◌, ◌≢◌, refl, ap, arith, Bool, true, false, not, ◌||◌,
  List, [], ◌∷◌, Option, none, some, ◌⊎◌, inl, inr, ltb, ◌==◌, Bool-cases, length, get_elem?, All,
  ==→eq,
}
use hardware_monitor_azk.Buffer.{Bytes, IsByte}

-- An access that only reads: a listed register, configuration space by its address and data port,
-- or a dword inside one mapped page.
abbrev pub IsAllowed : Kernel → Event → Type 0
IsAllowed k (msr_read m) = (i : ℕ) × (get_elem? msr_whitelist i ≡ some m)
IsAllowed k lock_acquired = Unit
IsAllowed k (port_out port value) = (port ≡ 0xCF8) × (0x80000000 ≤ value) × (value < 0x81000000)
IsAllowed k (port_in port) = port ≡ 0xCFC
IsAllowed k lock_released = Unit
IsAllowed k (map_requested page size) = size ≡ k.page_size
IsAllowed k (page_read offset) = offset + 4 ≤ k.page_size
IsAllowed k (page_unmapped size) = size ≡ k.page_size

-- A reply either has bytes and success, or an error, no bytes and the buffer as it was.
pub record IsReply (k : Kernel) (out_len : ℕ) (buffer : Bytes) (r : Reply) : Type 0 where
  pub size : length r.buffer ≡ length buffer
  pub fits : r.information ≤ out_len
  pub outcome :
      ((r.status ≡ success) × (0 < r.information))
      ⊎ ((r.status ≢ success) × (r.information ≡ 0) × (r.buffer ≡ buffer))
  pub allowed : All (IsAllowed k) r.events

record IsAccess (k : Kernel) (a : Access) : Type 0 where
  outcome :
      ((a.status ≡ success) × (v : ℕ) × (a.value ≡ some v))
      ⊎ ((a.status ≢ success) × (a.value ≡ none))
  allowed : All (IsAllowed k) a.events

is_listed-get_elem? :
    (ms : List ℕ) (m : ℕ) → is_listed ms m ≡ true → (i : ℕ) × (get_elem? ms i ≡ some m)
unfolding is_listed
is_listed-get_elem? [] m e = cc
is_listed-get_elem? (x ∷ ms) m e = elim (Bool-cases (x == m)) [
  | inl here ↦ (0, ap some (==→eq x m here))
  | inr not_here ↦ let (i, at) = is_listed-get_elem? ms m (rw not_here at e) in (suc i, at)
]

module _ (k : Kernel) (out_len : ℕ) (buffer : Bytes) where
  refuse-IsReply :
      (status : Status) (events : List Event)
      → status ≢ success
      → All (IsAllowed k) events
      → IsReply k out_len buffer (refuse status buffer events)
  refuse-IsReply status events ne all = record {
    size = refl;
    fits = omega arith;
    outcome = inr (ne, refl, refl);
    allowed = all;
  }

  answer-Returns :
      (status : Status) (n : ℕ) (value : Option ℕ) (events : List Event)
      → 0 < n
      → n ≤ out_len
      → n ≤ length buffer
      → ((status ≡ success) × (v : ℕ) × (value ≡ some v)) ⊎ ((status ≢ success) × (value ≡ none))
      → All (IsAllowed k) events
      → Returns (IsReply k out_len buffer) (answer status n value buffer events)
  unfolding answer
  answer-Returns status n value events pos le room (inl (ok, v, e)) all = rw e (
      Returns->>= (Returns-store_bytes buffer 0 (le_bytes n v) (omega (arith, length-le_bytes n v)))
        λ written h.
          returns _ (record { size = h.1; fits = le; outcome = inl (ok, pos); allowed = all }))
  answer-Returns status n value events pos le room (inr (ne, e)) all =
      rw e (returns _ (refuse-IsReply status events ne all))

safe_read_msr-IsAccess :
    (k : Kernel) (msr : ℕ) → msr_is_whitelisted msr ≡ true → IsAccess k (safe_read_msr k msr)
unfolding safe_read_msr msr_is_whitelisted
safe_read_msr-IsAccess k msr e = from (k.readmsr msr)
  where
    listed : All (IsAllowed k) (msr_read msr ∷ [])
    listed = (is_listed-get_elem? msr_whitelist msr e, tt)

    from :
        (o : Option ℕ)
        → IsAccess k (elim o [
          | none ↦ record { status = not_supported; value = none; events = msr_read msr ∷ [] }
          | some v ↦ record { status = success; value = some v; events = msr_read msr ∷ [] }
        ])
    from none = record { outcome = inr ((λ c. cc), refl); allowed = listed }
    from (some v) = record { outcome = inl (refl, v, refl); allowed = listed }

read_page-IsAccess :
    (k : Kernel) (page offset : ℕ) → 4096 ≤ k.page_size → IsAccess k (read_page k page offset)
unfolding read_page
read_page-IsAccess k page offset whole = from (k.map_page page)
  where
    at : ℕ
    at = offset / 4 % 1024 * 4

    events : List Event
    events = map_requested page k.page_size ∷ page_read at ∷ page_unmapped k.page_size ∷ []

    inside : All (IsAllowed k) events
    inside = (refl, (omega (arith, whole), (refl, tt)))

    read :
        (o : Option ℕ)
        → IsAccess k (elim o [
          | none ↦ record { status = unsuccessful; value = none; events = events }
          | some v ↦ record { status = success; value = some v; events = events }
        ])
    read none = record { outcome = inr ((λ c. cc), refl); allowed = inside }
    read (some v) = record { outcome = inl (refl, v, refl); allowed = inside }

    from :
        (o : Option (ℕ → Option ℕ))
        → IsAccess k (elim o [
          | none ↦ record {
            status = unsuccessful;
            value = none;
            events = map_requested page k.page_size ∷ [];
          }
          | some dword_at ↦ elim (dword_at at) [
            | none ↦ record { status = unsuccessful; value = none; events = events }
            | some v ↦ record { status = success; value = some v; events = events }
          ]
        ])
    from none = record { outcome = inr ((λ c. cc), refl); allowed = (refl, tt) }
    from (some dword_at) = read (dword_at at)

read_pcie_config_dword_ecam-IsAccess :
    (k : Kernel) (ecam_base bus device function offset : ℕ)
    → 4096 ≤ k.page_size
    → IsAccess k (read_pcie_config_dword_ecam k ecam_base bus device function offset)
unfolding read_pcie_config_dword_ecam
read_pcie_config_dword_ecam-IsAccess k ecam_base bus device function offset whole =
    elim (Bool-cases (ltb 4092 offset || ltb 0x1F device || ltb 0x7 function)) [
      | inl bad ↦ rw bad (record { outcome = inr ((λ c. cc), refl); allowed = tt })
      | inr good ↦
          rw good (read_page-IsAccess k (ecam_page ecam_base bus device function) offset whole)
    ]

module _ (k : Kernel) (in_len out_len : ℕ) (buffer : Bytes) (bytes : All IsByte buffer)
    (whole : 4096 ≤ k.page_size) (in_room : in_len ≤ length buffer)
    (out_room : out_len ≤ length buffer) where
  control_msr-Returns : Returns (IsReply k out_len buffer) (control_msr k in_len out_len buffer)
  unfolding control_msr
  control_msr-Returns =
      Returns-if (ltb in_len 4 || ltb out_len 8)
        (λ _. returns _ (refuse-IsReply k out_len buffer _ [] (λ c. cc) tt))
        (λ long. Returns->>= (Returns-load_le buffer 0 4 bytes (ground arith)) λ msr _.
          Returns-if (not (msr_is_whitelisted msr))
            (λ _. returns _ (refuse-IsReply k out_len buffer _ [] (λ c. cc) tt))
            (λ listed.
              let a = safe_read_msr-IsAccess k msr (not_not (msr_is_whitelisted msr) listed) in
              answer-Returns k out_len buffer _ 8 _ _ (omega arith) (ground arith) (ground arith)
                a.outcome a.allowed))
    where
      not_not : (b : Bool) → not b ≡ false → b ≡ true
      not_not true e = refl
      not_not false e = cc

  control_pci_config-Returns :
      Returns (IsReply k out_len buffer) (control_pci_config k in_len out_len buffer)
  unfolding control_pci_config read_pci_config_dword_legacy config_address
  control_pci_config-Returns =
      Returns-if (ltb in_len 4 || ltb out_len 4)
        (λ _. returns _ (refuse-IsReply k out_len buffer _ [] (λ c. cc) tt))
        (λ long. Returns->>= (Returns-load-All IsByte buffer 0 bytes (ground arith)) λ bus lb.
          Returns->>= (Returns-load-All IsByte buffer 1 bytes (ground arith)) λ device _.
            Returns->>= (Returns-load-All IsByte buffer 2 bytes (ground arith)) λ function _.
              Returns->>= (Returns-load-All IsByte buffer 3 bytes (ground arith)) λ offset _.
                answer-Returns k out_len buffer success 4 _ _ (omega arith) (ground arith)
                  (ground arith) (inl (refl, _, refl))
                  (tt, ((refl, omega arith, omega arith), (refl, (tt, tt)))))

  control_pcie_ecam-Returns :
      Returns (IsReply k out_len buffer) (control_pcie_ecam k in_len out_len buffer)
  unfolding control_pcie_ecam
  control_pcie_ecam-Returns =
      Returns-if (ltb in_len 13 || ltb out_len 4)
        (λ _. returns _ (refuse-IsReply k out_len buffer _ [] (λ c. cc) tt))
        (λ long. Returns->>= (Returns-load_le buffer 0 8 bytes (ground arith)) λ ecam_base _.
          Returns->>= (Returns-load-All IsByte buffer 8 bytes (ground arith)) λ bus _.
            Returns->>= (Returns-load-All IsByte buffer 9 bytes (ground arith)) λ device _.
              Returns->>= (Returns-load-All IsByte buffer 10 bytes (ground arith)) λ function _.
                Returns->>= (Returns-load_le buffer 11 2 bytes (ground arith)) λ offset _.
                  let a =
                    read_pcie_config_dword_ecam-IsAccess k ecam_base bus device function offset
                      whole in
                  answer-Returns k out_len buffer _ 4 _ _ (omega arith) (ground arith)
                    (ground arith) a.outcome a.allowed)

  -- For every kernel with pages of at least 4096 bytes, every request code and a system buffer of
  -- bytes that holds the input and output lengths, `HwmonDeviceControl` accesses only its buffer
  -- and answers either with success and a positive number of bytes within the output length, or
  -- with an error, no bytes and the buffer unchanged. On the way it reads only registers of the
  -- whitelist, writes only an address with the enable bit to port 0xCF8, reads only port 0xCFC and
  -- dwords inside one mapped page.
  pub device_control-Returns :
      (code : ℕ) → Returns (IsReply k out_len buffer) (device_control k code in_len out_len buffer)
  unfolding device_control
  device_control-Returns code =
      Returns-if (code == ioctl_hwmon_read_msr k) (λ _. control_msr-Returns)
        (λ _.
          Returns-if (code == ioctl_hwmon_read_pci_config k) (λ _. control_pci_config-Returns)
            (λ _.
              Returns-if (code == ioctl_hwmon_read_pcie_ecam k) (λ _. control_pcie_ecam-Returns)
                (λ _. returns _ (refuse-IsReply k out_len buffer _ [] (λ c. cc) tt))))
