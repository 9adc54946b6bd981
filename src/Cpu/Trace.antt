-- ===== src/Cpu/Trace.antt =====
-- Runs that execute instructions of the processor (asm/primitives.asm), each recorded in order.
use hardware_monitor_azk.Cpu.Types.{CpuidResult}
use hardware_monitor_azk.Base.{
  ℕ, ◌≡◌, refl, Bool, true, false, List, [], ◌∷◌, ◌++◌, if◌then◌else◌, All, All-append,
}

pub data Instruction : Type 0 where
  cpuid : ℕ → ℕ → Instruction
  xgetbv : ℕ → Instruction

-- What the instructions give: `cpuid_asm` by leaf and subleaf, `xgetbv_asm` by index.
pub record Processor : Type 0 where
  pub cpuid_result : ℕ → ℕ → CpuidResult
  pub xcr : ℕ → ℕ

pub record Trace {ℓ} (A : Type ℓ) : Type ℓ where
  pub executed : List Instruction
  pub result : A

abbrev pub pure {ℓ} : {A : Type ℓ} → A → Trace A
pure a = record { executed = []; result = a }

infixl 5 ◌>>=◌
unfoldable pub ◌>>=◌ {ℓ κ} : {A : Type ℓ} {B : Type κ} → Trace A → (A → Trace B) → Trace B
m >>= f = record { executed = m.executed ++ (f m.result).executed; result = (f m.result).result }

abbrev pub cpuid_asm : Processor → ℕ → ℕ → Trace CpuidResult
cpuid_asm cpu leaf subleaf = record {
  executed = cpuid leaf subleaf ∷ [];
  result = cpu.cpuid_result leaf subleaf;
}

abbrev pub xgetbv_asm : Processor → ℕ → Trace ℕ
xgetbv_asm cpu index = record { executed = xgetbv index ∷ []; result = cpu.xcr index }

-- Every instruction that a run executes satisfies `P`.
pub data Executes {ℓ κ} (P : Instruction → Type κ) {A : Type ℓ} (m : Trace A) : Type (ℓ ⊔ κ) where
  executes : All P m.executed → Executes P m

module _ {ℓ κ} {P : Instruction → Type κ} {A : Type ℓ} where
  pub Executes-pure : (a : A) → Executes P (pure a)
  Executes-pure a = executes tt

  pub Executes-if :
      (b : Bool) {m k : Trace A}
      → (b ≡ true → Executes P m)
      → (b ≡ false → Executes P k)
      → Executes P (if b then m else k)
  Executes-if true h k = h refl
  Executes-if false h k = k refl

  pub Executes->>= {μ} :
      {B : Type μ} (m : Trace A) (f : A → Trace B)
      → Executes P m
      → Executes P (f m.result)
      → Executes P (m >>= f)
  unfolding ◌>>=◌
  Executes->>= m f (executes h) (executes k) =
      executes (All-append P m.executed (f m.result).executed h k)

-- The result of a run satisfies `Q`.
pub data Gives {ℓ κ} {A : Type ℓ} (Q : A → Type κ) (m : Trace A) : Type (ℓ ⊔ κ) where
  gives : Q m.result → Gives Q m

module _ {ℓ κ} {A : Type ℓ} {Q : A → Type κ} where
  pub Gives-result : {m : Trace A} → Gives Q m → Q m.result
  Gives-result (gives q) = q

  pub Gives-if :
      (b : Bool) {m k : Trace A}
      → (b ≡ true → Gives Q m)
      → (b ≡ false → Gives Q k)
      → Gives Q (if b then m else k)
  Gives-if true h k = h refl
  Gives-if false h k = k refl

  pub Gives->>= {μ} :
      {B : Type μ} (m : Trace B) (f : B → Trace A) → Gives Q (f m.result) → Gives Q (m >>= f)
  unfolding ◌>>=◌
  Gives->>= m f (gives q) = gives q
