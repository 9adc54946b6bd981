-- ===== src/Driver/Access/Addresses.antt =====
-- Each function's registers have addresses of their own.
use hardware_monitor_azk.Driver.Access.{config_address, ecam_page}
use hardware_monitor_azk.Base.{ℕ, ◌+◌, ◌/◌, ◌^◌, ◌≤◌, ◌<◌, ◌≡◌, arith}

-- For a bus and an offset below 256, a device below 32 and a function below 8, two requests have
-- one address in port 0xCF8 only if they name the same dword of the same function.
pub config_address-injective :
    (bus device function offset bus' device' function' offset' : ℕ)
    → (bus < 256) × (device < 32) × (function < 8) × (offset < 256)
    → (bus' < 256) × (device' < 32) × (function' < 8) × (offset' < 256)
    → config_address bus device function offset ≡ config_address bus' device' function' offset'
    → (bus ≡ bus') × (device ≡ device') × (function ≡ function') × (offset / 4 ≡ offset' / 4)
unfolding config_address
config_address-injective bus device function offset bus' device' function' offset' h h' e =
    omega arith

-- If the 256 MB at the segment's base fit the address space, the 4 KB pages of two functions
-- overlap only if these are the same function.
pub ecam_page-apart :
    (ecam_base bus device function bus' device' function' : ℕ)
    → ecam_base + 2 ^ 28 ≤ 2 ^ 64
    → (bus < 256) × (device < 32) × (function < 8)
    → (bus' < 256) × (device' < 32) × (function' < 8)
    → ecam_page ecam_base bus device function < ecam_page ecam_base bus' device' function' + 4096
    → ecam_page ecam_base bus' device' function' < ecam_page ecam_base bus device function + 4096
    → (bus ≡ bus') × (device ≡ device') × (function ≡ function')
unfolding ecam_page
ecam_page-apart ecam_base bus device function bus' device' function' room h h' lo hi = omega arith
