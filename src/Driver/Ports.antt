-- ===== src/Driver/Ports.antt =====
-- Processors that read configuration space at the same time. The address port and the data port
-- are shared; `ReadPciConfigDwordLegacy` (driver/hwmon_driver.c) takes a spin lock around them.
pub mod Isolation
use hardware_monitor_azk.Driver.Access.{config_address}
use hardware_monitor_azk.Base.{ℕ, ◌≡◌, Option, none, some, ◌==◌, if◌then◌else◌}

-- Where a processor stands in the function, with its address, and the value once it has read it.
pub data Stage : Type 0 where
  idle : Stage
  waiting : ℕ → Stage
  holding : ℕ → Stage
  addressed : ℕ → Stage
  loaded : ℕ → ℕ → Stage
  returned : ℕ → ℕ → Stage

-- The lock's holder, the address port, and the processors.
pub record Machine : Type 0 where
  pub lock : Option ℕ
  pub address_port : ℕ
  pub stages : ℕ → Stage

abbrev pub update : (ℕ → Stage) → ℕ → Stage → ℕ → Stage
update stages cpu stage other = if other == cpu then stage else stages other

-- One processor takes one step: it calls the function, `KeAcquireSpinLock`, `__outdword`,
-- `__indword`, `KeReleaseSpinLock` and the way back, in this order. The lock is taken when it is
-- free. `config` is the data port's value by the address port's.
pub data Step (config : ℕ → ℕ) : Machine → Machine → Type 0 where
  call :
      (m : Machine) (cpu bus device function offset : ℕ)
      → m.stages cpu ≡ idle
      → Step config m (record m {
        stages = update m.stages cpu (waiting (config_address bus device function offset));
      })
  acquire :
      (m : Machine) (cpu a : ℕ)
      → m.stages cpu ≡ waiting a
      → m.lock ≡ none
      → Step config m (record m { lock = some cpu; stages = update m.stages cpu (holding a) })
  out :
      (m : Machine) (cpu a : ℕ)
      → m.stages cpu ≡ holding a
      → Step config m (record m { address_port = a; stages = update m.stages cpu (addressed a) })
  load_data :
      (m : Machine) (cpu a : ℕ)
      → m.stages cpu ≡ addressed a
      → Step config m (record m { stages = update m.stages cpu (loaded a (config m.address_port)) })
  release :
      (m : Machine) (cpu a v : ℕ)
      → m.stages cpu ≡ loaded a v
      → Step config m (record m { lock = none; stages = update m.stages cpu (returned a v) })
  leave :
      (m : Machine) (cpu a v : ℕ)
      → m.stages cpu ≡ returned a v
      → Step config m (record m { stages = update m.stages cpu idle })

-- `KeInitializeSpinLock` leaves the lock free; no processor is in the function.
abbrev pub start : ℕ → Machine
start port = record { lock = none; address_port = port; stages = λ cpu. idle }

pub data Reaches (config : ℕ → ℕ) (port : ℕ) : Machine → Type 0 where
  begin : Reaches config port (start port)
  then_step : (m m' : Machine) → Reaches config port m → Step config m m' → Reaches config port m'

-- What a stage says of the machine: who is between the lock's two calls holds it, an address that
-- was written is still there, and a value that was read is the one at the address.
abbrev pub IsStage : (ℕ → ℕ) → Machine → ℕ → Stage → Type 0
IsStage config m cpu idle = Unit
IsStage config m cpu (waiting a) = Unit
IsStage config m cpu (holding a) = m.lock ≡ some cpu
IsStage config m cpu (addressed a) = (m.lock ≡ some cpu) × (m.address_port ≡ a)
IsStage config m cpu (loaded a v) = (m.lock ≡ some cpu) × (v ≡ config a)
IsStage config m cpu (returned a v) = v ≡ config a

abbrev IsMachine : (ℕ → ℕ) → Machine → Type 0
IsMachine config m = (cpu : ℕ) → IsStage config m cpu (m.stages cpu)
