-- ===== src/Pci/ClassCode/Digits.antt =====
-- `extract_class_code` stays inside its strings, and ends.
use hardware_monitor_azk.Base.{
  ℕ, zero, suc, ◌+◌, ◌-◌, ◌≤◌, ◌≡◌, refl, arith, [], ◌∷◌, ◌++◌, Option, none, some, ltb, leb, ◌==◌,
  tests, length, take, drop, replicate, get_elem?,
}
use hardware_monitor_azk.Buffer.{Bytes}
use mathlib.Core.Path.{subst}
use hardware_monitor_azk.Buffer.Loop.{TurnOk, scan-Returns}
use hardware_monitor_azk.Buffer.Text.{Returns-strnlen}
use hardware_monitor_azk.Buffer.Returns.{Returns, returns, Returns->>=, Returns-if, Returns-load}
use hardware_monitor_azk.Base.{get_elem?-some, length-take, length-drop}
use hardware_monitor_azk.Storage.Trim.{load_bytes_inside}
use hardware_monitor_azk.Pci.Types.{PciDevice}
use hardware_monitor_azk.Pci.Strings.{is_xdigit}
use hardware_monitor_azk.Pci.Strings.Bounds.{EndsAt, front, strstr-Returns, strtoul-Returns}
use hardware_monitor_azk.Pci.ClassCode.{
  cc_key, count_xdigits, Best, take_digits, take_found, take_string, string_turn, set_class,
  extract_class_code,
}

abbrev pub IsBest : Best → Type 0
IsBest best = best.digits ≤ 6

get_elem?-append :
    (xs : Bytes) (y : ℕ) (ys : Bytes) → get_elem? (xs ++ (y ∷ ys)) (length xs) ≡ some y
get_elem?-append [] y ys = refl
get_elem?-append (x ∷ xs) y ys = get_elem?-append xs y ys

-- The array of seven characters ends behind six digits at most.
EndsAt-digits :
    (text : Bytes) (n : ℕ) → length text ≡ n → n ≤ 6 → EndsAt (text ++ replicate (7 - n) 0) n
EndsAt-digits text n size le =
    subst (λ k. EndsAt (text ++ replicate k 0) n) more
      (subst (EndsAt (text ++ replicate (suc (6 - n)) 0)) size (get_elem?-append text 0 _))
  where
    more : suc (6 - n) ≡ 7 - n
    more = omega arith

module _ (buf : Bytes) (z : ℕ) (nul : EndsAt buf z) where
  count_xdigits-Returns :
      (limit q : ℕ) → q ≤ z → Returns (λ n. (n ≤ limit) × (q + n ≤ z)) (count_xdigits limit buf q)
  unfolding count_xdigits
  count_xdigits-Returns zero q le = returns 0 (omega arith, omega arith)
  count_xdigits-Returns (suc limit) q le =
      Returns->>= (Returns-load buf q (omega (arith, get_elem?-some buf z nul))) λ b e.
        Returns-if (is_xdigit b)
          (λ digit.
            Returns->>=
              (count_xdigits-Returns limit (suc q)
                (front buf z nul q b le e (λ zero_b. ground arith)))
              λ n h. returns (suc n) (omega (arith, h.0), omega (arith, h.1)))
          (λ _. returns 0 (omega arith, omega arith))

  take_digits-Returns :
      (q : ℕ) (best : Best) → q ≤ z → IsBest best → Returns IsBest (take_digits buf q best)
  unfolding take_digits
  take_digits-Returns q best le h = Returns->>= (count_xdigits-Returns 6 q le) λ n k.
      Returns-if (leb 2 n)
        (λ _. rw (load_bytes_inside buf q n (omega (arith, k.1, get_elem?-some buf z nul))) (
          Returns->>=
            (strtoul-Returns (take n (drop q buf) ++ replicate (7 - n) 0) n
              (EndsAt-digits (take n (drop q buf)) n (size n k.1) k.0) 0 (omega arith))
            λ r _. returns _ (ground (arith, k.0))))
        (λ _. returns best h)
    where
      size : (n : ℕ) → q + n ≤ z → length (take n (drop q buf)) ≡ n
      size n room =
          length-take n (drop q buf) (omega (arith, length-drop q buf, get_elem?-some buf z nul))

  take_found-Returns :
      (limit : ℕ) (best : Best) (found : Option ℕ)
      → IsBest best
      → ((i : ℕ) → found ≡ some i → i + 3 ≤ z)
      → Returns IsBest (take_found buf limit best found)
  unfolding take_found
  take_found-Returns limit best none h k = returns best h
  take_found-Returns limit best (some i) h k =
      Returns-if (ltb i limit) (λ _. take_digits-Returns (i + 3) best (k i refl) h)
        (λ _. returns best h)

  string_turn-Returns :
      (end p : ℕ) (best : Best)
      → end ≡ suc z
      → IsBest best
      → Returns (TurnOk (λ _ b. IsBest b) IsBest (suc end) p) (string_turn buf end p best)
  unfolding string_turn take_string
  string_turn-Returns end p best at h =
      Returns-if (ltb p end)
        (λ below.
          let le : p ≤ z = omega tests in
          let room : p + (end - p) ≤ length buf = omega (tests, get_elem?-some buf z nul) in
          Returns->>= (Returns-load buf p (omega (arith, get_elem?-some buf z nul))) λ b e.
            Returns-if (b == 0) (λ _. returns _ h)
              (λ _. Returns->>= (Returns-strnlen buf p (end - p) room) λ slen t.
                Returns->>=
                  (Returns->>=
                    (strstr-Returns buf z nul p cc_key
                      ((λ e. omega arith), ((λ e. omega arith), ((λ e. omega arith), tt))) le)
                    λ found k. take_found-Returns (p + slen) best found h k)
                  λ best' hb. returns _ (hb, omega arith, omega (arith, t.within, le, at))))
        (λ _. returns _ h)

-- X
pub extract_class_code-Returns :
    (buf : Bytes) (z : ℕ) (dev : PciDevice)
    → EndsAt buf z
    → Returns
        (λ d. (best : Best) × IsBest best × (d ≡ set_class best dev))
        (extract_class_code buf (suc z) dev)
unfolding extract_class_code
extract_class_code-Returns buf z dev nul =
    Returns->>=
      (scan-Returns (λ _ b. IsBest b) IsBest (suc (suc z)) _
        (λ p best h. string_turn-Returns buf z nul (suc z) p best refl h) (suc z + 2) 0 _
        (omega arith) (omega arith))
      λ best h. returns _ (best, h, refl)
