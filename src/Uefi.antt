-- ===== src/Uefi.antt =====
-- The UEFI application (uefi/HwMonPkg/Application/HwMonUefi/HwMonUefi.c).
pub mod Types
pub mod Inventory
pub mod Tables
pub mod Selection
pub mod Agreement
pub mod Walk
