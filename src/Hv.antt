-- ===== src/Hv.antt =====
-- The hypervisor skeleton (driver/hv/hwmon_hv.c, driver/hv/hwmon_hv.h).
pub mod Field
pub mod Types
pub mod Segments
pub mod Controls
pub mod Stack
pub mod Exits
pub mod Setup
pub mod Launch
