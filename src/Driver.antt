-- ===== src/Driver.antt =====
-- The kernel driver (driver/hwmon_driver.c, driver/hwmon_ioctl.h).
pub mod Types
pub mod Access
pub mod Control
pub mod Ports
pub mod Entry
