-- ===== src/Smbios.antt =====
-- The SMBIOS parser (src/firmware/smbios.c, include/smbios.h): its data, string tables, structure
-- parsers and the walk over the table.
pub mod Types
pub mod Strings
pub mod Walk
pub mod Parse
pub mod Device
pub mod Collect
