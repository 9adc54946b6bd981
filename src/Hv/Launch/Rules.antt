-- ===== src/Hv/Launch/Rules.antt =====
-- The rules that VMX operation and the kernel's memory lay down for what a program does, stated
-- without regard to driver/hv/hwmon_hv.c.
use hardware_monitor_azk.Base.{
  ℕ, ◌%◌, ◌^◌, ◌≤◌, ◌≡◌, ◌≢◌, Bool, true, false, List, [], ◌∷◌, ◌++◌, Option, none, some, bit, ◌+◌,
  ◌*◌,
}
use mathlib.Core.List.{Memᴰ}
use hardware_monitor_azk.Hv.Field.{Field}
use hardware_monitor_azk.Hv.Types.{
  Processor, Message, Event, printed, allocated, zeroed, word_written, cr4_written, vmxon_executed,
  vmclear_executed, vmptrld_executed, vmwrite_executed, vmlaunch_executed, vmread_executed,
  vmxoff_executed, freed,
}

-- VMX operation, CR4.VMXE, the memory that is held, the physical addresses in it where a revision
-- identifier stands, the VMCS that VMCLEAR has initialised, and the current VMCS.
pub record Platform : Type 0 where
  pub vmx : Bool
  pub vmxe : Bool
  pub held : Option ℕ
  pub regions : List ℕ
  pub cleared : Option ℕ
  pub current : Option ℕ

-- A step that the rules allow. A VMX instruction that fails changes nothing; memory is given up
-- only outside VMX operation, and by its holder.
pub data Step (p : Processor) : Platform → Event → Platform → Type 0 where
  prints : (s : Platform) (m : Message) → Step p s (printed m) s
  allocates :
      (s : Platform) (a : ℕ) → s.held ≡ none → Step p s (allocated a) (record s { held = some a })
  zeroes :
      (s : Platform) (a : ℕ) → s.held ≡ some a → Step p s (zeroed a) (record s { regions = [] })
  identifies :
      (s : Platform) (a base : ℕ)
      → s.held ≡ some base
      → base ≤ a
      → a + 4 ≤ base + (2 * p.page_size + 16 * 1024)
      → s.vmx ≡ false
      → Step p s
          (word_written a (p.msr 0x480 % 2 ^ 32))
          (record s { regions = p.physical_address a ∷ s.regions })
  enables :
      (s : Platform) (value : ℕ)
      → bit value 13 ≡ true
      → Step p s (cr4_written value) (record s { vmxe = true })
  enters :
      (s : Platform) (region code : ℕ)
      → s.vmxe ≡ true
      → s.vmx ≡ false
      → Memᴰ region s.regions
      → code ≡ 0
      → Step p s (vmxon_executed region code) (record s { vmx = true })
  enters_not :
      (s : Platform) (region code : ℕ)
      → s.vmxe ≡ true
      → s.vmx ≡ false
      → Memᴰ region s.regions
      → code ≢ 0
      → Step p s (vmxon_executed region code) s
  clears :
      (s : Platform) (region code : ℕ)
      → s.vmx ≡ true
      → Memᴰ region s.regions
      → code ≡ 0
      → Step p s (vmclear_executed region code) (record s { cleared = some region })
  clears_not :
      (s : Platform) (region code : ℕ)
      → s.vmx ≡ true
      → Memᴰ region s.regions
      → code ≢ 0
      → Step p s (vmclear_executed region code) s
  loads :
      (s : Platform) (region code : ℕ)
      → s.vmx ≡ true
      → s.cleared ≡ some region
      → code ≡ 0
      → Step p s (vmptrld_executed region code) (record s { current = some region })
  loads_not :
      (s : Platform) (region code : ℕ)
      → s.vmx ≡ true
      → s.cleared ≡ some region
      → code ≢ 0
      → Step p s (vmptrld_executed region code) s
  writes :
      (s : Platform) (f : Field) (v vmcs : ℕ)
      → s.vmx ≡ true
      → s.current ≡ some vmcs
      → Step p s (vmwrite_executed f v) s
  launches :
      (s : Platform) (vmcs : ℕ)
      → s.vmx ≡ true
      → s.current ≡ some vmcs
      → s.cleared ≡ some vmcs
      → Step p s vmlaunch_executed s
  reads :
      (s : Platform) (f : Field) (vmcs : ℕ)
      → s.vmx ≡ true
      → s.current ≡ some vmcs
      → Step p s (vmread_executed f) s
  leaves :
      (s : Platform)
      → s.vmx ≡ true
      → Step p s vmxoff_executed (record s { vmx = false; cleared = none; current = none })
  frees :
      (s : Platform) (a : ℕ)
      → s.held ≡ some a
      → s.vmx ≡ false
      → Step p s (freed a) (record s { held = none; regions = [] })

infixr 5 ◌⨾◌
pub data Obeys (p : Processor) : Platform → List Event → Platform → Type 0 where
  finished : (s : Platform) → Obeys p s [] s
  ◌⨾◌ :
      {s next last : Platform} {e : Event} {es : List Event}
      → Step p s e next
      → Obeys p next es last
      → Obeys p s (e ∷ es) last

pub Obeys-append :
    {p : Processor} {s middle last : Platform} {es fs : List Event}
    → Obeys p s es middle
    → Obeys p middle fs last
    → Obeys p s (es ++ fs) last
Obeys-append (finished s) k = k
Obeys-append (h ⨾ hs) k = h ⨾ Obeys-append hs k
