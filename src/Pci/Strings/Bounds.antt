-- ===== src/Pci/Strings/Bounds.antt =====
-- On a string that ends inside its object, the string functions stay inside it.
use hardware_monitor_azk.Base.{
  ℕ, zero, suc, ◌+◌, ◌-◌, ◌^◌, ◌≤◌, ◌<◌, ◌≡◌, ◌≢◌, refl, sym, ap, ◌∙◌, arith, true, false, ◌||◌, [],
  ◌∷◌, Option, none, some, inl, inr, ◌==◌, Bool-cases, tests, length, get_elem?, All,
  get_elem?-some, ==→eq,
}
use hardware_monitor_azk.Buffer.{Bytes}
use mathlib.Core.Option.{some-injective}
use hardware_monitor_azk.Buffer.Text.{IsChar}
use hardware_monitor_azk.Buffer.Returns.{
  Returns, returns, Returns->>=, Returns-if, Returns-mono, Returns-load,
}
use hardware_monitor_azk.Pci.Strings.{
  starts_with, strstr_from, strstr, is_space, is_xdigit, skip_space, read_hex, skip_sign,
  skip_prefix, strtoul, extract_hex_token, token_behind,
}

-- A NUL stands at `z`.
abbrev pub EndsAt : Bytes → ℕ → Type 0
EndsAt buf z = get_elem? buf z ≡ some 0

module _ (buf : Bytes) (z : ℕ) (nul : EndsAt buf z) where
  inside : z < length buf
  inside = get_elem?-some buf z nul

  -- A character other than NUL is in front of the NUL, if it was not behind.
  pub front : (q b : ℕ) → q ≤ z → get_elem? buf q ≡ some b → b ≢ 0 → suc q ≤ z
  front q b le e ne = elim (Bool-cases (q == z)) [
    | inl same ↦
        absurd (ne (some-injective _ _ (sym e ∙ ap (get_elem? buf) (==→eq q z same) ∙ nul)))
    | inr other ↦ omega (tests)
  ]

  pub starts_with-Returns :
      (key : Bytes) (q : ℕ)
      → All IsChar key
      → q ≤ z
      → Returns (λ found. found ≡ true → q + length key ≤ z) (starts_with buf q key)
  unfolding starts_with
  starts_with-Returns [] q chars le = returns true (λ _. omega arith)
  starts_with-Returns (k ∷ ks) q chars le =
      Returns->>= (Returns-load buf q (omega (arith, inside))) λ b e.
        Returns-if (b == k)
          (λ same.
            let next : suc q ≤ z = front q b le e (λ zero_b. chars.0 (ground arith)) in
            Returns-mono (starts_with-Returns ks (suc q) chars.1 next)
              λ found h yes. omega (arith, h yes))
          (λ other. returns false (λ no_match. cc))

  pub strstr_from-Returns :
      (n q : ℕ) (key : Bytes)
      → All IsChar key
      → q ≤ z
      → z < q + n
      → Returns (λ r. (i : ℕ) → r ≡ some i → i + length key ≤ z) (strstr_from n buf q key)
  unfolding strstr_from
  strstr_from-Returns zero q key chars le fuel = absurd (omega arith)
  strstr_from-Returns (suc n) q key chars le fuel =
      Returns->>= (starts_with-Returns key q chars le) λ here h.
        Returns->>= (Returns-load buf q (omega (arith, inside))) λ b e.
          Returns-if here
            (λ yes. returns (some q) (λ i at. omega (arith, h yes, some-injective _ _ at)))
            (λ _.
              Returns-if (b == 0) (λ _. returns none (λ i at. cc))
                (λ more.
                  strstr_from-Returns n (suc q) key chars (front q b le e (λ zero_b. ground arith))
                    (omega arith)))

  pub strstr-Returns :
      (p : ℕ) (key : Bytes)
      → All IsChar key
      → p ≤ z
      → Returns (λ r. (i : ℕ) → r ≡ some i → i + length key ≤ z) (strstr buf p key)
  unfolding strstr
  strstr-Returns p key chars le =
      strstr_from-Returns (length buf - p) p key chars le (omega (arith, inside))

  skip_space-Returns : (n q : ℕ) → q ≤ z → z < q + n → Returns (λ r. r ≤ z) (skip_space n buf q)
  unfolding skip_space
  skip_space-Returns zero q le fuel = absurd (omega arith)
  skip_space-Returns (suc n) q le fuel =
      Returns->>= (Returns-load buf q (omega (arith, inside))) λ b e.
        Returns-if (is_space b)
          (λ space.
            skip_space-Returns n (suc q) (front q b le e (λ zero_b. ground arith)) (omega arith))
          (λ _. returns q le)

  skip_sign-Returns : (q : ℕ) → q ≤ z → Returns (λ r. r.0 ≤ z) (skip_sign buf q)
  unfolding skip_sign
  skip_sign-Returns q le =
      Returns->>= (Returns-load buf q (omega (arith, inside)))
        λ b e. returns _ (ground (arith, front q b le e))

  skip_prefix-Returns : (q : ℕ) → q ≤ z → Returns (λ r. r ≤ z) (skip_prefix buf q)
  unfolding skip_prefix
  skip_prefix-Returns q le = Returns->>= (Returns-load buf q (omega (arith, inside))) λ c e.
      Returns-if (c == 48)
        (λ digit.
          let one : q + 1 ≤ z = omega (arith, front q c le e (λ z. ground arith)) in
          Returns->>= (Returns-load buf (q + 1) (omega (arith, inside))) λ x ex.
            Returns-if ((x == 120) || (x == 88))
              (λ marked.
                let two : q + 2 ≤ z = omega (arith, front (q + 1) x one ex (λ z. ground arith)) in
                Returns->>= (Returns-load buf (q + 2) (omega (arith, inside)))
                  λ b eb. returns _ (ground arith))
              (λ _. returns q le))
        (λ _. returns q le)

  read_hex-Returns : (n q v : ℕ) → q ≤ z → z < q + n → Returns (λ r. r.0 ≤ z) (read_hex n buf q v)
  unfolding read_hex
  read_hex-Returns zero q v le fuel = absurd (omega arith)
  read_hex-Returns (suc n) q v le fuel =
      Returns->>= (Returns-load buf q (omega (arith, inside))) λ b e.
        Returns-if (is_xdigit b)
          (λ digit.
            read_hex-Returns n (suc q) _ (front q b le e (λ zero_b. ground arith)) (omega arith))
          (λ _. returns _ le)

  pub strtoul-Returns : (p : ℕ) → p ≤ z → Returns (λ r. r.0 < 2 ^ 32) (strtoul buf p)
  unfolding strtoul
  strtoul-Returns p le =
      Returns->>= (skip_space-Returns (length buf - p) p le (omega (arith, inside))) λ q hq.
        Returns->>= (skip_sign-Returns q hq) λ s hs.
          Returns->>= (skip_prefix-Returns s.0 hs) λ start h.
            Returns->>= (read_hex-Returns (length buf - start) start 0 h (omega (arith, inside)))
              λ r hr. returns _ (ground arith)

-- `extract_hex_token` stays inside its string.
pub extract_hex_token-Returns :
    (buf key : Bytes) (z : ℕ)
    → EndsAt buf z
    → All IsChar key
    → Returns (λ r. (v : ℕ) → r ≡ some v → v < 2 ^ 32) (extract_hex_token buf key)
unfolding extract_hex_token token_behind
extract_hex_token-Returns buf key z nul chars =
    Returns->>= (strstr-Returns buf z nul 0 key chars (omega arith)) by_found
  where
    by_found :
        (found : Option ℕ)
        → ((i : ℕ) → found ≡ some i → i + length key ≤ z)
        → Returns (λ r. (v : ℕ) → r ≡ some v → v < 2 ^ 32) (token_behind buf key found)
    by_found none h = returns none (λ v e. cc)
    by_found (some i) h =
        Returns->>= (strtoul-Returns buf z nul (i + length key) (h i refl))
          λ r hr. returns _ (λ v e. ground arith)
