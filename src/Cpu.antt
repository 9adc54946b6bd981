-- ===== src/Cpu.antt =====
-- Processor identification (src/cpu/cpu_id.c, include/cpu_id.h, include/x86_asm.h).
pub mod Types
pub mod Trace
pub mod Signature
pub mod Features
pub mod Topology
pub mod Collect
