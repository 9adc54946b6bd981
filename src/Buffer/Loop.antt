-- ===== src/Buffer/Loop.antt =====
-- A loop over a cursor that moves forward. A turn of the body goes on at a new cursor, with a new
-- state of the loop's variables, or leaves the loop with a result.
use hardware_monitor_azk.Base.{ℕ, zero, suc, ◌-◌, ◌≤◌, ◌<◌, arith}
use hardware_monitor_azk.Buffer.{Run, done, stuck, ◌>>=◌}
use hardware_monitor_azk.Buffer.Returns.{Returns, returns, Returns->>=}

pub data Turn {ℓ κ} (S : Type ℓ) (R : Type κ) : Type (ℓ ⊔ κ) where
  again : ℕ → S → Turn S R
  stop : R → Turn S R

module _ {ℓ κ} {S : Type ℓ} {R : Type κ} where
  abbrev pub resume : (ℕ → S → Run R) → Turn S R → Run R
  resume go (again next s) = go next s
  resume go (stop r) = done r

  -- A round takes one unit of fuel.
  unfoldable pub scan : ℕ → (ℕ → S → Run (Turn S R)) → ℕ → S → Run R
  scan zero body cur s = stuck
  scan (suc fuel) body cur s = body cur s >>= resume (scan fuel body)

-- What a turn at `cur` has to establish: a way on moves the cursor forward, up to `limit` at most.
abbrev pub TurnOk {ℓ κ μ} :
    {S : Type ℓ} {R : Type κ} → (ℕ → S → Type μ) → (R → Type μ) → ℕ → ℕ → Turn S R → Type μ
TurnOk P Q limit cur (again next s) = P next s × (cur < next) × (next ≤ limit)
TurnOk P Q limit cur (stop r) = Q r

module _ {ℓ κ μ} {S : Type ℓ} {R : Type κ} (P : ℕ → S → Type μ) (Q : R → Type μ) (limit : ℕ) where
  resume-Returns :
      (go : ℕ → S → Run R) (cur : ℕ) (t : Turn S R)
      → ((next : ℕ) (s : S) → P next s → cur < next → next ≤ limit → Returns Q (go next s))
      → TurnOk P Q limit cur t
      → Returns Q (resume go t)
  resume-Returns go cur (again next s) k (p, lt, le) = k next s p lt le
  resume-Returns go cur (stop r) k q = returns r q

  -- The invariant rule: with more fuel than the cursor has places to go, the loop ends.
  pub scan-Returns :
      (body : ℕ → S → Run (Turn S R))
      → ((cur : ℕ) (s : S) → P cur s → Returns (TurnOk P Q limit cur) (body cur s))
      → (fuel cur : ℕ) (s : S) → limit - cur < fuel
      → P cur s
      → Returns Q (scan fuel body cur s)
  unfolding scan
  scan-Returns body ok zero cur s h p = absurd (omega arith)
  scan-Returns body ok (suc fuel) cur s h p = Returns->>= (ok cur s p) λ t.
      resume-Returns (scan fuel body) cur t
        λ next s' p' lt le. scan-Returns body ok fuel next s' (omega arith) p'
