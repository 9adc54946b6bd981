-- ===== src/Pci/Strings.antt =====
-- The string functions of C that src/platform/windows/pci_enum_windows.c calls, and its
-- `extract_hex_token`. A string stands at an offset of an object; `n` counts the bytes that are
-- left of the object.
pub mod Bounds
use hardware_monitor_azk.Base.{
  min, ℕ, zero, suc, ◌+◌, ◌-◌, ◌*◌, ◌/◌, ◌%◌, ◌^◌, ◌≤◌, ◌<◌, ◌≡◌, ◌≢◌, ◌↔◌, refl, sym, ap, ◌∙◌,
  arith, Bool, true, false, not, ◌&&◌, ◌||◌, List, [], ◌∷◌, ◌++◌, map, Option, none, some, ◌⊎◌, inl,
  inr, ltb, leb, ◌==◌, if◌then◌else◌, bit, low_bits, Bool-cases, tests, length, take, drop, set,
  replicate, get_elem?, All,
}
use hardware_monitor_azk.Buffer.{
  Run, done, fault, stuck, ◌>>=◌, Bytes, IsByte, load, store, load_le, load_bytes, store_bytes,
  strnlen,
}

-- Whether the characters of `key` stand at `q`.
unfoldable pub starts_with : Bytes → ℕ → Bytes → Run Bool
starts_with buf q [] = done true
starts_with buf q (k ∷ ks) = do
  b ← load buf q
  let rest = starts_with buf (suc q) ks
  if b == k then rest else done false

unfoldable pub strstr_from : ℕ → Bytes → ℕ → Bytes → Run (Option ℕ)
unfolding starts_with
strstr_from zero buf q key = fault
strstr_from (suc n) buf q key = do
  here ← starts_with buf q key
  b ← load buf q
  let rest = strstr_from n buf (suc q) key
  if here then done (some q) else (if b == 0 then done none else rest)

-- `strstr`, with the offset for the pointer and `none` for NULL.
unfoldable pub strstr : Bytes → ℕ → Bytes → Run (Option ℕ)
unfolding strstr_from
strstr buf p key = strstr_from (length buf - p) buf p key

-- `isspace` and `isxdigit`.
abbrev pub is_space : ℕ → Bool
is_space b = b == 32 || (leb 9 b && leb b 13)

abbrev pub is_xdigit : ℕ → Bool
is_xdigit b = (leb 48 b && leb b 57) || (leb 65 b && leb b 70) || (leb 97 b && leb b 102)

-- The value of a digit.
abbrev pub hex_value : ℕ → ℕ
hex_value b = if leb b 57 then b - 48 else if leb b 70 then b - 55 else b - 87

unfoldable pub skip_space : ℕ → Bytes → ℕ → Run ℕ
skip_space zero buf q = fault
skip_space (suc n) buf q = do
  b ← load buf q
  let rest = skip_space n buf (suc q)
  if is_space b then rest else done q

-- The digits from `q` on, behind digits of the value `v`: where they end, and the value.
unfoldable pub read_hex : ℕ → Bytes → ℕ → ℕ → Run (ℕ × ℕ)
read_hex zero buf q v = fault
read_hex (suc n) buf q v = do
  b ← load buf q
  let rest = read_hex n buf (suc q) (v * 16 + hex_value b)
  if is_xdigit b then rest else done (q, v)

-- Behind a sign, and behind `0x` if a digit follows.
unfoldable pub skip_sign : Bytes → ℕ → Run (ℕ × Bool)
skip_sign buf q = do
  b ← load buf q
  done (if b == 45 then (suc q, true) else if b == 43 then (suc q, false) else (q, false))

unfoldable pub skip_prefix : Bytes → ℕ → Run ℕ
skip_prefix buf q = do
  zero_digit ← load buf q
  let behind = do
    x ← load buf (q + 1)
    let digit = do b ← load buf (q + 2); done (if is_xdigit b then q + 2 else q)
    if (x == 120) || (x == 88) then digit else done q
  if zero_digit == 48 then behind else done q

-- `strtoul(p, &end, 16)` with 32 bits: the value and `end`.
unfoldable pub strtoul : Bytes → ℕ → Run (ℕ × ℕ)
unfolding skip_space read_hex skip_sign skip_prefix
strtoul buf p = do
  q ← skip_space (length buf - p) buf p
  (signed, negative) ← skip_sign buf q
  start ← skip_prefix buf signed
  (stop, v) ← read_hex (length buf - start) buf start 0
  let value =
      if ltb 0xFFFFFFFF v then 0xFFFFFFFF else (if negative then (2 ^ 32 - v) % 2 ^ 32 else v)
  done (if stop == start then (0, p) else (value, stop))

-- The value behind the key that was found, or `none` where the function returns false.
unfoldable pub token_behind : Bytes → Bytes → Option ℕ → Run (Option ℕ)
unfolding strtoul
token_behind hwid key none = done none
token_behind hwid key (some i) = do
  let p = i + length key
  (v, end) ← strtoul hwid p
  done (if end == p then none else some (v % 2 ^ 32))

unfoldable pub extract_hex_token : Bytes → Bytes → Run (Option ℕ)
unfolding strstr token_behind
extract_hex_token hwid key = do found ← strstr hwid 0 key; token_behind hwid key found
