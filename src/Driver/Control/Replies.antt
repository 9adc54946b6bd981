-- ===== src/Driver/Control/Replies.antt =====
-- What the driver replies to a request for a register or a configuration dword.
use hardware_monitor_azk.Buffer.Returns.{Returns-eq}
use hardware_monitor_azk.Driver.Types.{
  Status, success, not_supported, access_denied, Event, msr_read, lock_acquired, port_out, port_in,
  lock_released, Kernel, Reply,
}
use hardware_monitor_azk.Driver.Access.{
  msr_is_whitelisted, safe_read_msr, config_address, read_pci_config_dword_legacy,
}
use hardware_monitor_azk.Driver.Control.{
  answer, control_msr, control_pci_config, device_control, ioctl_hwmon_read_msr,
  ioctl_hwmon_read_pci_config,
}
use hardware_monitor_azk.Buffer.Words.{le_bytes, length-le_bytes, load_le-le_bytes}
use hardware_monitor_azk.Buffer.Text.{Returns-store_bytes}
use hardware_monitor_azk.Base.{
  ℕ, ◌-◌, ◌/◌, ◌%◌, ◌^◌, ◌≤◌, ◌<◌, ◌≡◌, ◌≢◌, refl, arith, true, false, ◌||◌, List, [], ◌∷◌, ◌++◌,
  Option, none, some, ◌⊎◌, inl, inr, ltb, ◌==◌, length,
}
use hardware_monitor_azk.Buffer.{done, Bytes, load, load_le}

-- A value that was written to the front of the buffer is read back.
answer-value :
    (status : Status) (n v : ℕ) (buffer : Bytes) (events : List Event)
    → v < 256 ^ n
    → n ≤ length buffer
    → (written : Bytes) × (answer status n (some v) buffer events
        ≡ done (record { status = status; information = n; buffer = written; events = events }))
      × (load_le written 0 n ≡ done v)
unfolding answer
answer-value status n v buffer events lt room =
    let (written, run, (at, _)) =
      Returns-eq
        (Returns-store_bytes buffer 0 (le_bytes n v) (omega (arith, length-le_bytes n v))) in
    (written, rw run, load_le-le_bytes n v written 0 _ lt at)

option_cases : (o : Option ℕ) → (o ≡ none) ⊎ ((v : ℕ) × (o ≡ some v))
option_cases none = inl refl
option_cases (some v) = inr (v, refl)

-- IA32_TSC, IA32_MPERF, IA32_APERF, IA32_PERF_STATUS, IA32_THERM_STATUS, IA32_TEMPERATURE_TARGET
-- and IA32_PACKAGE_THERM_STATUS.
abbrev pub IsReadable : ℕ → Type 0
IsReadable msr =
    (msr ≡ 0x10)
    ⊎ ((msr ≡ 0xE7)
        ⊎ ((msr ≡ 0xE8) ⊎ ((msr ≡ 0x198) ⊎ ((msr ≡ 0x19C) ⊎ ((msr ≡ 0x1A2) ⊎ (msr ≡ 0x1B1))))))

-- An error, with the buffer as it was.
abbrev pub Refused : Status → Bytes → List Event → Reply → Type 0
Refused status buffer events r =
    (r.status ≡ status) × (r.information ≡ 0) × (r.buffer ≡ buffer) × (r.events ≡ events)

-- A number of `n` bytes at the front of the buffer.
abbrev pub Answered : ℕ → ℕ → List Event → Reply → Type 0
Answered n v events r =
    (r.status ≡ success)
    × (r.information ≡ n)
    × (load_le r.buffer 0 n ≡ done v)
    × (r.events ≡ events)

-- The reply to a request for a register.
pub data MsrReply (k : Kernel) (msr : ℕ) (request : Bytes) (r : Reply) : Type 0 where
  denied : ¬ IsReadable msr → Refused access_denied request [] r → MsrReply k msr request r
  raised :
      IsReadable msr
      → k.readmsr msr ≡ none
      → Refused not_supported request (msr_read msr ∷ []) r
      → MsrReply k msr request r
  read :
      (v : ℕ)
      → IsReadable msr
      → k.readmsr msr ≡ some v
      → Answered 8 v (msr_read msr ∷ []) r
      → MsrReply k msr request r

msr_is_whitelisted-cases :
    (msr : ℕ)
    → (IsReadable msr × (msr_is_whitelisted msr ≡ true))
      ⊎ ((¬ IsReadable msr) × (msr_is_whitelisted msr ≡ false))
unfolding msr_is_whitelisted
msr_is_whitelisted-cases msr = ground arith

-- If the instruction gives 64-bit values, a request for the 32-bit register `msr` with room for
-- input and output is answered as follows. If the register is none of the seven that the driver
-- documents, 0x10, 0xE7, 0xE8, 0x198, 0x19C, 0x1A2 and 0x1B1, the status is `STATUS_ACCESS_DENIED`
-- and nothing is accessed. Otherwise the register is read once, and the status is
-- `STATUS_NOT_SUPPORTED` if the instruction raises, and else success with 8 bytes of information,
-- the value at the front of the buffer. With an error there is no information, and the buffer is as
-- it was.
pub device_control-msr :
    (k : Kernel) (in_len out_len msr : ℕ) (rest : Bytes)
    → ((m v : ℕ) → k.readmsr m ≡ some v → v < 2 ^ 64)
    → msr < 2 ^ 32
    → (4 ≤ in_len) × (8 ≤ out_len) × (4 ≤ length rest)
    → (r : Reply) × (device_control k
          (ioctl_hwmon_read_msr k)
          in_len
          out_len
          (le_bytes 4 msr ++ rest)
        ≡ done r)
      × MsrReply k msr (le_bytes 4 msr ++ rest) r
unfolding device_control control_msr answer safe_read_msr
device_control-msr k in_len out_len msr rest words lt lens =
    rw (this_code, long, msr_at)
      (elim (msr_is_whitelisted-cases msr) [
        | inr (unlisted, hidden) ↦ rw hidden (_, refl, denied unlisted (refl, refl, refl, refl))
        | inl (readable, listed) ↦ elim (option_cases (k.readmsr msr)) [
          | inl raises ↦
              rw (listed, safe_read_msr, raises)
                (_, refl, raised readable raises (refl, refl, refl, refl))
          | inr (v, reads) ↦
              let (written, run, back) =
                answer-value success 8 v (le_bytes 4 msr ++ rest) (msr_read msr ∷ [])
                  (words msr v reads) (omega (arith, lens)) in
              rw (listed, safe_read_msr, reads)
                (_, run, read v readable reads (refl, refl, back, refl))
        ]
      ])
  where
    this_code : (ioctl_hwmon_read_msr k == ioctl_hwmon_read_msr k) ≡ true
    this_code = ground arith

    long : (ltb in_len 4 || ltb out_len 8) ≡ false
    long = ground (arith, lens)

    msr_at : load_le (le_bytes 4 msr ++ rest) 0 4 ≡ done msr
    msr_at = load_le-le_bytes 4 msr (le_bytes 4 msr ++ rest) 0 rest lt refl

-- The address of PCI's configuration mechanism 1, by its bits: 31 the enable bit, 24 to 30 zero,
-- 16 to 23 the bus, 11 to 15 the device, 8 to 10 the function, and below them the offset of a
-- whole dword.
pub record IsConfigAddress (bus device function offset a : ℕ) : Type 0 where
  enabled : a / 2 ^ 31 ≡ 1
  reserved : a / 2 ^ 24 % 2 ^ 7 ≡ 0
  bus_bits : a / 2 ^ 16 % 2 ^ 8 ≡ bus
  device_bits : a / 2 ^ 11 % 2 ^ 5 ≡ device % 2 ^ 5
  function_bits : a / 2 ^ 8 % 2 ^ 3 ≡ function % 2 ^ 3
  dword : a % 2 ^ 8 ≡ offset - offset % 4

config_address-IsConfigAddress :
    (bus device function offset : ℕ)
    → bus < 256
    → offset < 256
    → IsConfigAddress bus device function offset (config_address bus device function offset)
unfolding config_address
config_address-IsConfigAddress bus device function offset lt lt' = record {
  enabled = omega arith;
  reserved = omega arith;
  bus_bits = omega arith;
  device_bits = omega arith;
  function_bits = omega arith;
  dword = omega arith;
}

-- If the codes of the two requests differ and the data port gives 32-bit values, a request for a
-- configuration dword with room for input and output, and a bus and an offset of one byte, is
-- answered with success and 4 bytes of information, the data port's value at an address that has,
-- by its bits, the enable bit, the bus, the device modulo 32, the function modulo 8, the offset
-- rounded down to a multiple of 4, and 0 elsewhere. The accesses are, in order, the lock, this
-- address to port 0xCF8, a read of port 0xCFC, and the unlock.
pub device_control-pci_config :
    (k : Kernel) (in_len out_len bus device function offset : ℕ) (rest : Bytes)
    → ioctl_hwmon_read_pci_config k ≢ ioctl_hwmon_read_msr k
    → ((a : ℕ) → k.config a < 2 ^ 32)
    → (bus < 256) × (offset < 256)
    → (4 ≤ in_len) × (4 ≤ out_len)
    → (r : Reply) × (device_control k
          (ioctl_hwmon_read_pci_config k)
          in_len
          out_len
          (bus ∷ device ∷ function ∷ offset ∷ rest)
        ≡ done r)
      × (a : ℕ) × IsConfigAddress bus device function offset a
      × Answered 4
          (k.config a)
          (lock_acquired ∷ port_out 0xCF8 a ∷ port_in 0xCFC ∷ lock_released ∷ [])
          r
unfolding device_control control_pci_config read_pci_config_dword_legacy load
device_control-pci_config k in_len out_len bus device function offset rest differs words byte lens =
    let r = read_pci_config_dword_legacy k bus device function offset in
    let (written, run, back) =
      answer-value success 4 r.0 (bus ∷ device ∷ function ∷ offset ∷ rest) r.1
        (words (config_address bus device function offset)) (omega arith) in
    rw (not_msr, this_code, long)
      (
        _,
        run,
        config_address bus device function offset,
        config_address-IsConfigAddress bus device function offset byte.0 byte.1,
        (refl, refl, back, refl),
      )
  where
    not_msr : (ioctl_hwmon_read_pci_config k == ioctl_hwmon_read_msr k) ≡ false
    not_msr = ground (arith, differs)

    this_code : (ioctl_hwmon_read_pci_config k == ioctl_hwmon_read_pci_config k) ≡ true
    this_code = ground arith

    long : (ltb in_len 4 || ltb out_len 4) ≡ false
    long = ground (arith, lens)
