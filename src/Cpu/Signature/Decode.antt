-- ===== src/Cpu/Signature/Decode.antt =====
-- Family, model and stepping are read back from the register that they were packed into.
use hardware_monitor_azk.Cpu.Signature.{decode_family_model_stepping}
use hardware_monitor_azk.Base.{
  ℕ, ◌+◌, ◌-◌, ◌*◌, ◌/◌, ◌%◌, ◌^◌, ◌≤◌, ◌<◌, ◌≡◌, arith, ◌⊎◌, leb, if◌then◌else◌,
}

-- Leaf 1's EAX for a displayed family, model and stepping: a family beyond 15 has the rest in the
-- extended field, and a model beyond 15 its high bits.
pub signature_word : ℕ → ℕ → ℕ → ℕ
signature_word family model stepping =
    let base_family = if leb 15 family then 15 else family in
    stepping
    + model % 16 * 2 ^ 4
    + base_family * 2 ^ 8
    + model / 16 * 2 ^ 16
    + (family - base_family) * 2 ^ 20

-- A family below 271, a model below 256 and a stepping below 16 are read back from the register
-- that they were packed into, if the model is below 16 or the family is 6 or at least 15.
pub decode-signature_word :
    (family model stepping : ℕ)
    → family < 271
    → model < 256
    → stepping < 16
    → (model < 16) ⊎ ((family ≡ 6) ⊎ (15 ≤ family))
    → decode_family_model_stepping (signature_word family model stepping)
      ≡ (family, model, stepping)
unfolding decode_family_model_stepping signature_word
decode-signature_word family model stepping hf hm hs wide = ground arith
