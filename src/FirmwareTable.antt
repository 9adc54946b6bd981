-- ===== src/FirmwareTable.antt =====
-- The firmware tables of the operating system (src/platform/windows/firmware_table.c,
-- include/platform_firmware.h).
pub mod Fetched
pub mod Clients
use hardware_monitor_azk.Base.{
  min, ℕ, zero, suc, ◌+◌, ◌-◌, ◌*◌, ◌/◌, ◌%◌, ◌^◌, ◌≤◌, ◌<◌, ◌≡◌, ◌≢◌, ◌↔◌, refl, sym, ap, ◌∙◌,
  arith, Bool, true, false, not, ◌&&◌, ◌||◌, List, [], ◌∷◌, ◌++◌, map, Option, none, some, ◌⊎◌, inl,
  inr, ltb, leb, ◌==◌, if◌then◌else◌, bit, low_bits, Bool-cases, tests, length, take, drop, set,
  replicate, get_elem?, All,
}
use hardware_monitor_azk.Buffer.{
  Run, done, fault, stuck, ◌>>=◌, Bytes, IsByte, load, store, load_le, load_bytes, store_bytes,
  strnlen,
}

-- `GetSystemFirmwareTable` by provider, table and buffer size, with 0 for no buffer;
-- `EnumSystemFirmwareTables` by provider and size; both give their result and the buffer that they
-- filled. `malloc` succeeds or not by the size.
pub record System : Type 0 where
  pub get_system_firmware_table : ℕ → ℕ → ℕ → ℕ × Bytes
  pub enum_system_firmware_tables : ℕ → ℕ → ℕ × Bytes
  pub malloc : ℕ → Bool

-- The multi-character constants 'RSMB' and 'ACPI', as the compiler packs them.
abbrev pub rsmb : ℕ
rsmb = 0x52534D42

abbrev pub acpi_provider : ℕ
acpi_provider = 0x41435049

-- The size, the buffer, the contents: what the three functions have in common.
unfoldable pub fetch : (ℕ → Bool) → (ℕ → ℕ × Bytes) → Option Bytes
fetch malloc call =
    let needed = (call 0).0 in
    if needed == 0
    then none
    else if not (malloc needed)
    then none
    else (let written = (call needed).0 in
        if written == 0 || ltb needed written then none else some (take written (call needed).1))

unfoldable pub platform_get_smbios_table : System → Option Bytes
platform_get_smbios_table os = fetch os.malloc (os.get_system_firmware_table rsmb 0)

unfoldable pub platform_get_acpi_table : System → ℕ → Option Bytes
platform_get_acpi_table os signature =
    fetch os.malloc (os.get_system_firmware_table acpi_provider signature)

-- The `memcpy` of `count` signatures.
unfoldable pub load_signatures : Bytes → ℕ → ℕ → Run (List ℕ)
load_signatures buf p zero = done []
load_signatures buf p (suc count) = do
  signature ← load_le buf p 4
  signatures ← load_signatures buf (p + 4) count
  done (signature ∷ signatures)

abbrev pub unpack : (ℕ → Bool) → Option Bytes → Run (Option (List ℕ))
unpack malloc none = done none
unpack malloc (some buf) =
    let count = length buf / 4 in
    if not (malloc (count * 4))
    then done none
    else (load_signatures buf 0 count >>= λ signatures. done (some signatures))

unfoldable pub platform_enum_acpi_signatures : System → Run (Option (List ℕ))
platform_enum_acpi_signatures os =
    unpack os.malloc (fetch os.malloc (os.enum_system_firmware_tables acpi_provider))
