-- ===== src/Driver/Access.antt =====
-- The accesses to model specific registers and configuration space (driver/hwmon_driver.c).
pub mod Addresses
use hardware_monitor_azk.Driver.Types.{
  Status, success, not_supported, invalid_parameter, unsuccessful, Event, msr_read, lock_acquired,
  port_out, port_in, lock_released, map_requested, page_read, page_unmapped, Kernel,
}
use hardware_monitor_azk.Base.{
  ℕ, ◌+◌, ◌*◌, ◌/◌, ◌%◌, ◌^◌, Bool, true, false, ◌||◌, List, [], ◌∷◌, Option, none, some, ltb, ◌==◌,
  if◌then◌else◌,
}

-- `g_msr_whitelist`
abbrev pub msr_whitelist : List ℕ
msr_whitelist = 0x10 ∷ 0xE7 ∷ 0xE8 ∷ 0x198 ∷ 0x19C ∷ 0x1A2 ∷ 0x1B1 ∷ []

-- The loop of `MsrIsWhitelisted`.
unfoldable pub is_listed : List ℕ → ℕ → Bool
is_listed [] msr = false
is_listed (m ∷ ms) msr = if m == msr then true else is_listed ms msr

unfoldable pub msr_is_whitelisted : ℕ → Bool
unfolding is_listed
msr_is_whitelisted msr = is_listed msr_whitelist msr

-- A status, the value written where there is one, and the accesses.
pub record Access : Type 0 where
  pub status : Status
  pub value : Option ℕ
  pub events : List Event

unfoldable pub safe_read_msr : Kernel → ℕ → Access
safe_read_msr k msr = elim (k.readmsr msr) [
  | none ↦ record { status = not_supported; value = none; events = msr_read msr ∷ [] }
  | some v ↦ record { status = success; value = some v; events = msr_read msr ∷ [] }
]

-- The fields have no bit in common, so that `|` is a sum.
unfoldable pub config_address : ℕ → ℕ → ℕ → ℕ → ℕ
config_address bus device function offset =
    0x80000000 + bus * 2 ^ 16 + device % 32 * 2 ^ 11 + function % 8 * 2 ^ 8 + offset / 4 % 64 * 4

unfoldable pub read_pci_config_dword_legacy : Kernel → ℕ → ℕ → ℕ → ℕ → ℕ × List Event
unfolding config_address
read_pci_config_dword_legacy k bus device function offset =
    let address = config_address bus device function offset in
    (k.config address, lock_acquired ∷ port_out 0xCF8 address ∷ port_in 0xCFC ∷ lock_released ∷ [])

-- Behind the check the fields have no bit in common, so that `|` is a sum.
unfoldable pub ecam_page : ℕ → ℕ → ℕ → ℕ → ℕ
ecam_page ecam_base bus device function =
    (ecam_base + (bus * 2 ^ 20 + device * 2 ^ 15 + function * 2 ^ 12)) % 2 ^ 64

-- The read from the mapped page; the page is unmapped whether it raises or not.
unfoldable pub read_page : Kernel → ℕ → ℕ → Access
read_page k page offset = elim (k.map_page page) [
  | none ↦ record {
    status = unsuccessful;
    value = none;
    events = map_requested page k.page_size ∷ [];
  }
  | some dword_at ↦
      let at = offset / 4 % 1024 * 4 in
      let events = map_requested page k.page_size ∷ page_read at ∷ page_unmapped k.page_size ∷ [] in
      elim (dword_at at) [
        | none ↦ record { status = unsuccessful; value = none; events = events }
        | some v ↦ record { status = success; value = some v; events = events }
      ]
]

unfoldable pub read_pcie_config_dword_ecam : Kernel → ℕ → ℕ → ℕ → ℕ → ℕ → Access
unfolding read_page ecam_page
read_pcie_config_dword_ecam k ecam_base bus device function offset =
    if ltb 4092 offset || ltb 0x1F device || ltb 0x7 function
    then record { status = invalid_parameter; value = none; events = [] }
    else read_page k (ecam_page ecam_base bus device function) offset
