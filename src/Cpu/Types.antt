-- ===== src/Cpu/Types.antt =====
-- The data of include/cpu_id.h and include/x86_asm.h. A `char[n]` is the list of its n bytes.
use hardware_monitor_azk.Base.{ℕ, Bool, false, replicate}
use hardware_monitor_azk.Buffer.{Bytes}

pub record CpuidResult : Type 0 where
  pub eax : ℕ
  pub ebx : ℕ
  pub ecx : ℕ
  pub edx : ℕ

pub data CpuVendor : Type 0 where
  unknown_vendor : CpuVendor
  intel : CpuVendor
  amd : CpuVendor

pub record CpuFeatures : Type 0 where
  pub sse : Bool
  pub sse2 : Bool
  pub sse3 : Bool
  pub ssse3 : Bool
  pub sse4_1 : Bool
  pub sse4_2 : Bool
  pub avx : Bool
  pub avx2 : Bool
  pub avx512f : Bool
  pub aes : Bool
  pub bmi1 : Bool
  pub bmi2 : Bool
  pub fma : Bool
  pub sha : Bool
  pub vmx : Bool
  pub svm : Bool
  pub rdtscp : Bool
  pub invariant_tsc : Bool
  pub hypervisor_present : Bool
  pub osxsave : Bool
  pub avx_os_enabled : Bool
  pub avx512_os_enabled : Bool

pub record CpuTopology : Type 0 where
  pub smt_per_core : ℕ
  pub logical_per_package : ℕ
  pub topology_available : Bool

pub record CpuIdentity : Type 0 where
  pub vendor : CpuVendor
  pub vendor_string : Bytes
  pub brand_string : Bytes
  pub brand_string_available : Bool
  pub family : ℕ
  pub model : ℕ
  pub stepping : ℕ
  pub max_basic_leaf : ℕ
  pub max_extended_leaf : ℕ
  pub logical_processors_system : ℕ
  pub features : CpuFeatures
  pub topology : CpuTopology

-- What `memset(…, 0, sizeof …)` leaves.
abbrev pub zero_features : CpuFeatures
zero_features = record {
  sse = false;
  sse2 = false;
  sse3 = false;
  ssse3 = false;
  sse4_1 = false;
  sse4_2 = false;
  avx = false;
  avx2 = false;
  avx512f = false;
  aes = false;
  bmi1 = false;
  bmi2 = false;
  fma = false;
  sha = false;
  vmx = false;
  svm = false;
  rdtscp = false;
  invariant_tsc = false;
  hypervisor_present = false;
  osxsave = false;
  avx_os_enabled = false;
  avx512_os_enabled = false;
}

abbrev pub zero_topology : CpuTopology
zero_topology = record { smt_per_core = 0; logical_per_package = 0; topology_available = false }

abbrev pub zero_identity : CpuIdentity
zero_identity = record {
  vendor = unknown_vendor;
  vendor_string = replicate 13 0;
  brand_string = replicate 49 0;
  brand_string_available = false;
  family = 0;
  model = 0;
  stepping = 0;
  max_basic_leaf = 0;
  max_extended_leaf = 0;
  logical_processors_system = 0;
  features = zero_features;
  topology = zero_topology;
}
