-- ===== src/Pci.antt =====
-- PCI enumeration (src/platform/windows/pci_enum_windows.c, include/pci.h).
pub mod Types
pub mod Strings
pub mod ClassCode
pub mod Resources
pub mod Enumerate
