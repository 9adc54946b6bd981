-- ===== src/Lib.antt =====
-- HardwareMonitorAZK reads what a PC says about itself: SMBIOS and ACPI tables, memory, processor,
-- PCI and storage.
--
-- The modules:
--   * Base, Base/Tests and Base/Lists: Boolean tests on numbers, bits, lists as arrays.
--   * Buffer and its children: reads and writes that may leave an array, loops over a cursor,
--     strings with a NUL, little-endian words.
--   * Smbios and its children: src/firmware/smbios.c and include/smbios.h. Strings is
--     `smbios_get_string` and `copy_string_field`, Walk is `smbios_next_structure`, Parse and
--     Device are the `parse_...` functions, Collect is `smbios_collect`.
--   * Acpi and its children: src/firmware/acpi.c and include/acpi.h. Checksum, Madt, Mcfg and
--     Fixed (FADT and HPET) are the functions of these names, Collect is `acpi_collect`.
--   * MemoryInfo and its children: src/memory/memory_info.c and include/memory_info.h. Its SMBIOS
--     walk repeats the one of smbios.c.
--   * Driver and its children: driver/hwmon_driver.c and driver/hwmon_ioctl.h. Access is the
--     functions that touch hardware, Control is `HwmonDeviceControl`, Ports is the configuration
--     ports under their spin lock as a step relation, Entry is `DriverEntry` and `HwmonUnload`.
--   * Cpu and its children: src/cpu/cpu_id.c, include/cpu_id.h and include/x86_asm.h. A `Trace`
--     records the instructions that a function executes; Signature is vendor, family, model and
--     brand string, Features, Topology and Collect are the functions of these names.
--   * FirmwareTable and its children: src/platform/windows/firmware_table.c and
--     include/platform_firmware.h. Clients joins `acpi_collect` with them.
--   * Hv and its children: driver/hv/hwmon_hv.c, driver/hv/hwmon_hv.h and `HvExitHandler` of
--     driver/hv/hwmon_hv_asm.asm. Field, Segments, Controls, Exits, Setup and Launch follow the
--     file's order, Stack is the stack of `HvExitHandler`; what is done to the kernel and the
--     processor is a list of events, and Launch/Rules states what is allowed of them.
--   * Storage and its children: src/platform/windows/storage_enum_windows.c and include/storage.h.
--     Trim is `trim_copy`, Query `query_device`, Enumerate `storage_enumerate`.
--   * Pci and its children: src/platform/windows/pci_enum_windows.c and include/pci.h. Strings has
--     the C library's functions and `extract_hex_token`, ClassCode `extract_class_code`, Resources
--     `collect_resources`, Enumerate `pci_enumerate`.
--   * Uefi and its children: uefi/HwMonPkg/Application/HwMonUefi/HwMonUefi.c. Inventory has
--     `PrintCpuInfo` and `PrintMemoryMap`, Tables the tables in memory, Selection `UefiMain`;
--     Agreement and Walk compare it with src/firmware/acpi.c.
--   * Logger and its children: src/output/logger.c and include/logger.h. Printed has the array
--     behind the two printf calls, Message what the backend is given.
--   * Report and Report/Features: the line of processor features of src/output/report.c, from the
--     record of Cpu/Types and with the `snprintf` of Logger.
--   * Examples: small tables, and the theorems at them.
--
-- A byte buffer is the list of its bytes, a pointer into it an offset. A `Run` is done with a
-- result, is a fault (an access outside an array) or is stuck (a loop without fuel). `load`,
-- `store` and the functions on top of them fault outside the array, so that a theorem `Returns P
-- m` says that m ends, has no fault and that its result has P. A structure that the code changes
-- in place is a record that is passed on and returned. `uint8_t`, `uint16_t`, `uint32_t` and
-- `uint64_t` are natural numbers whose additions are taken modulo the power of two where the code
-- can wrap.
--
-- Every loop of the parsers moves a cursor towards the end of a buffer. Its fuel is the distance
-- plus one, and `scan-Returns` of Buffer/Loop shows that this is enough when each round moves the
-- cursor forward and not past the end.
--
-- Parameters: the buffers that `platform_get_smbios_table`, `platform_enum_acpi_signatures` and
-- `platform_get_acpi_table` give, and what `GlobalMemoryStatusEx` gives. Pointers of the caller
-- are valid: the null checks at the top of the collecting functions are left out. `free` has no
-- counterpart. The driver's parameters are the record `Kernel` of Driver/Types: the macros
-- `CTL_CODE` and `PAGE_SIZE`, what `__readmsr` and `MmMapIoSpaceEx` do, and the data port's value
-- by the address port's. The processor's are the record `Processor` of Cpu/Trace: what CPUID and
-- XGETBV give. The system's are the record `System` of FirmwareTable: `GetSystemFirmwareTable`,
-- `EnumSystemFirmwareTables` and `malloc`. The hypervisor's are the record `Processor` of
-- Hv/Types. The drives of storage are the record `System` of Storage/Types. The PCI devices are
-- the list of `DevNode` of Pci/Types. The firmware's tables and answers are the record `Firmware`
-- of Uefi/Types.
--
-- Bounds: the topology loop has fuel for 17 rounds, since it leaves by itself behind subleaf 16;
-- the loops over strings in Pci have fuel for each byte of the object or, over the list of
-- strings, for each byte of its length and two more. In Driver/Ports any number of processors take
-- their steps in any order.
--
-- Not modelled: driver/hv/hwmon_hv_driver.c, which never calls the hypervisor,
-- src/cpu/cpu_telemetry.c, whose results are floating-point numbers, and the console backend, the
-- rest of the report and the main program, which print.
pub mod Base
pub mod Buffer
pub mod Smbios
pub mod Acpi
pub mod MemoryInfo
pub mod Driver
pub mod Cpu
pub mod FirmwareTable
pub mod Hv
pub mod Storage
pub mod Pci
pub mod Uefi
pub mod Logger
pub mod Report
pub mod Examples
