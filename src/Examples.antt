-- ===== src/Examples.antt =====
-- Runs on small firmware tables, and the theorems at them.
pub mod Smbios
pub mod Acpi
pub mod MemoryInfo
pub mod Driver
pub mod Cpu
pub mod FirmwareTable
pub mod Hv
pub mod Storage
pub mod Pci
pub mod Uefi
pub mod Logger
pub mod Report
