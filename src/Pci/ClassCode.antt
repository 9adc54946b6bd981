-- ===== src/Pci/ClassCode.antt =====
-- `extract_class_code` of src/platform/windows/pci_enum_windows.c.
pub mod Digits
use hardware_monitor_azk.Base.{
  ℕ, zero, suc, ◌+◌, ◌-◌, ◌*◌, ◌/◌, ◌%◌, ◌^◌, true, [], ◌∷◌, ◌++◌, none, some, ltb, leb, ◌==◌,
  if◌then◌else◌, replicate, Option,
}
use hardware_monitor_azk.Buffer.{Run, done, ◌>>=◌, Bytes, load, load_bytes, strnlen}
use hardware_monitor_azk.Pci.Types.{PciDevice}
use hardware_monitor_azk.Buffer.Loop.{Turn, again, stop, scan}
use hardware_monitor_azk.Pci.Strings.{is_xdigit, strstr, strtoul}

-- "CC_"
abbrev pub cc_key : Bytes
cc_key = 67 ∷ 67 ∷ 95 ∷ []

-- The loop over `n`, up to `limit` digits.
unfoldable pub count_xdigits : ℕ → Bytes → ℕ → Run ℕ
count_xdigits zero buf q = done 0
count_xdigits (suc limit) buf q = do
  b ← load buf q
  let rest = do n ← count_xdigits limit buf (suc q); done (suc n)
  if is_xdigit b then rest else done 0

pub record Best : Type 0 where
  pub digits : ℕ
  pub value : ℕ

-- The digits at `q`, if there are two at least and more than before.
unfoldable pub take_digits : Bytes → ℕ → Best → Run Best
unfolding count_xdigits
take_digits buf q best = do
  n ← count_xdigits 6 buf q
  let longer = do
    text ← load_bytes buf q n
    (v, end) ← strtoul (text ++ replicate (7 - n) 0) 0
    done (if ltb best.digits n then record { digits = n; value = v % 2 ^ 32 } else best)
  if leb 2 n then longer else done best

-- What `strstr` found, if it stands below `limit`.
unfoldable pub take_found : Bytes → ℕ → Best → Option ℕ → Run Best
unfolding take_digits
take_found buf limit best none = done best
take_found buf limit best (some i) =
    let taken = take_digits buf (i + 3) best in if ltb i limit then taken else done best

-- The string at `p`, of `slen` characters.
unfoldable pub take_string : Bytes → ℕ → ℕ → Best → Run Best
unfolding take_found
take_string buf p slen best = do cc ← strstr buf p cc_key; take_found buf (p + slen) best cc

-- A turn of the loop over the strings below `end`.
unfoldable pub string_turn : Bytes → ℕ → ℕ → Best → Run (Turn Best Best)
unfolding take_string
string_turn buf end p best =
    if ltb p end
    then (load buf p >>= λ b.
        if b == 0
        then done (stop best)
        else (strnlen buf p (end - p) >>= λ slen.
            take_string buf p slen best >>= λ best'. done (again (p + slen + 1) best')))
    else done (stop best)

-- What is found is written into the device.
unfoldable pub set_class : Best → PciDevice → PciDevice
set_class best dev =
    if leb 2 best.digits
    then record dev {
      class_code = best.value / 2 ^ ((best.digits - 2) * 4) % 256;
      subclass =
          if leb 4 best.digits
          then best.value / 2 ^ ((best.digits - 4) * 4) % 256
          else dev.subclass;
      prog_if = if leb 6 best.digits then best.value % 256 else dev.prog_if;
      class_info_available = true;
    }
    else dev

-- The fuel is enough: each turn moves on, to one behind `end` at most.
unfoldable pub extract_class_code : Bytes → ℕ → PciDevice → Run PciDevice
unfolding string_turn set_class
extract_class_code multi_sz total_len dev = do
  best ← scan (total_len + 2) (string_turn multi_sz total_len) 0 (record { digits = 0; value = 0 })
  done (set_class best dev)
