-- ===== src/Acpi.antt =====
-- The ACPI parser (src/firmware/acpi.c, include/acpi.h): its data, checksums and summaries, the
-- four table parsers, and the enumeration of the platform's tables.
pub mod Types
pub mod Checksum
pub mod Madt
pub mod Mcfg
pub mod Fixed
pub mod Collect
