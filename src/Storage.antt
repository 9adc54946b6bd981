-- ===== src/Storage.antt =====
-- Storage enumeration (src/platform/windows/storage_enum_windows.c, include/storage.h).
pub mod Types
pub mod Trim
pub mod Query
pub mod Enumerate
