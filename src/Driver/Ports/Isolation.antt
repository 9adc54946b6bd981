-- ===== src/Driver/Ports/Isolation.antt =====
-- No interleaving mixes the reads of two processors.
use hardware_monitor_azk.Driver.Access.{config_address}
use hardware_monitor_azk.Driver.Ports.{
  Stage, idle, waiting, holding, addressed, loaded, returned, Machine, update, Step, call, acquire,
  out, load_data, release, leave, Reaches, begin, then_step, IsStage, IsMachine,
}
use mathlib.Core.Path.{subst}
use hardware_monitor_azk.Base.{
  ℕ, ◌≡◌, ◌≢◌, refl, sym, ap, ◌∙◌, none, some, inl, inr, ◌==◌, Bool-cases, ==→eq, ==_false→ne,
}

module _ (config : ℕ → ℕ) where
  -- A stage outside the lock says nothing of the machine.
  outside_lock :
      (m m' : Machine) (other : ℕ) (s : Stage)
      → m.lock ≢ some other
      → IsStage config m other s
      → IsStage config m' other s
  outside_lock m m' other idle ne h = tt
  outside_lock m m' other (waiting a) ne h = tt
  outside_lock m m' other (holding a) ne h = absurd (ne h)
  outside_lock m m' other (addressed a) ne h = absurd (ne h.0)
  outside_lock m m' other (loaded a v) ne h = absurd (ne h.0)
  outside_lock m m' other (returned a v) ne h = h

  same_ports :
      (m m' : Machine) (other : ℕ) (s : Stage)
      → m'.lock ≡ m.lock
      → m'.address_port ≡ m.address_port
      → IsStage config m other s
      → IsStage config m' other s
  same_ports m m' other idle el ea h = tt
  same_ports m m' other (waiting a) el ea h = tt
  same_ports m m' other (holding a) el ea h = el ∙ h
  same_ports m m' other (addressed a) el ea h = (el ∙ h.0, ea ∙ h.1)
  same_ports m m' other (loaded a v) el ea h = (el ∙ h.0, h.1)
  same_ports m m' other (returned a v) el ea h = h

  -- The processor that took the step is at its new stage, every other one where it was.
  update-IsStage :
      (m m' : Machine) (cpu : ℕ) (s : Stage)
      → IsStage config m' cpu s
      → ((other : ℕ) → other ≢ cpu → IsStage config m' other (m.stages other))
      → (other : ℕ) → IsStage config m' other (update m.stages cpu s other)
  update-IsStage m m' cpu s here others other = elim (Bool-cases (other == cpu)) [
    | inl same ↦
        rw same (subst (λ (c : ℕ). IsStage config m' c s) (sym (==→eq other cpu same)) here)
    | inr differs ↦ rw differs (others other (==_false→ne other cpu differs))
  ]

  stage_at :
      (m : Machine) (cpu : ℕ) (s : Stage)
      → IsMachine config m
      → m.stages cpu ≡ s
      → IsStage config m cpu s
  stage_at m cpu s h e = subst (IsStage config m cpu) e (h cpu)

  holder : (m : Machine) (cpu other : ℕ) → m.lock ≡ some cpu → other ≢ cpu → m.lock ≢ some other
  holder m cpu other e ne e' = ne (cc (e, e'))

  Step-IsMachine : (m m' : Machine) → IsMachine config m → Step config m m' → IsMachine config m'
  Step-IsMachine _ _ h (call m cpu bus device function offset e) =
      let m' : Machine = record m {
        stages = update m.stages cpu (waiting (config_address bus device function offset));
      } in
      update-IsStage m m' cpu _ tt λ other _. same_ports m m' other _ refl refl (h other)
  Step-IsMachine _ _ h (acquire m cpu a e free) =
      let m' : Machine = record m { lock = some cpu; stages = update m.stages cpu (holding a) } in
      update-IsStage m m' cpu _ refl
        λ other _. outside_lock m m' other _ (λ e'. cc (free, e')) (h other)
  Step-IsMachine _ _ h (out m cpu a e) =
      let m' : Machine = record m {
        address_port = a;
        stages = update m.stages cpu (addressed a);
      } in
      let held : m.lock ≡ some cpu = stage_at m cpu (holding a) h e in
      update-IsStage m m' cpu _ (held, refl)
        λ other ne. outside_lock m m' other _ (holder m cpu other held ne) (h other)
  Step-IsMachine _ _ h (load_data m cpu a e) =
      let m' : Machine = record m {
        stages = update m.stages cpu (loaded a (config m.address_port));
      } in
      let (held, at) = stage_at m cpu (addressed a) h e in
      update-IsStage m m' cpu _ (held, ap config at)
        λ other _. same_ports m m' other _ refl refl (h other)
  Step-IsMachine _ _ h (release m cpu a v e) =
      let m' : Machine = record m { lock = none; stages = update m.stages cpu (returned a v) } in
      let (held, value) = stage_at m cpu (loaded a v) h e in
      update-IsStage m m' cpu _ value
        λ other ne. outside_lock m m' other _ (holder m cpu other held ne) (h other)
  Step-IsMachine _ _ h (leave m cpu a v e) =
      let m' : Machine = record m { stages = update m.stages cpu idle } in
      update-IsStage m m' cpu _ tt λ other _. same_ports m m' other _ refl refl (h other)

  Reaches-IsMachine : (port : ℕ) (m : Machine) → Reaches config port m → IsMachine config m
  Reaches-IsMachine port _ begin = λ cpu. tt
  Reaches-IsMachine port _ (then_step m m' r s) = Step-IsMachine m m' (Reaches-IsMachine port m r) s

  -- In every interleaving of any number of processors in `ReadPciConfigDwordLegacy`, a call that
  -- returns gives the data port's value at the address that this call computed, if the data port's
  -- value depends only on the address port.
  pub Reaches-returned :
      (port : ℕ) (m : Machine) (cpu a v : ℕ)
      → Reaches config port m
      → m.stages cpu ≡ returned a v
      → v ≡ config a
  Reaches-returned port m cpu a v r e = stage_at m cpu (returned a v) (Reaches-IsMachine port m r) e
