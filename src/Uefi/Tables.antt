-- ===== src/Uefi/Tables.antt =====
-- `ChecksumOk`, `PrintAcpi` and `PrintSmbios` of
-- uefi/HwMonPkg/Application/HwMonUefi/HwMonUefi.c. A pointer is an address, and `fault` is a read
-- where no memory is.
use hardware_monitor_azk.Base.{
  ℕ, zero, suc, ◌+◌, ◌-◌, ◌*◌, ◌/◌, ◌%◌, ◌^◌, Bool, true, false, not, ◌||◌, List, [], ◌∷◌, ltb,
  ◌==◌, if◌then◌else◌,
}
use hardware_monitor_azk.Buffer.{from_option, Run, done, ◌>>=◌}
use hardware_monitor_azk.Uefi.Types.{
  Memory, Line, rsdp_v1, no_xsdt, rsdp_v2, rsdp_invalid, xsdt_invalid, xsdt_tables, acpi_table,
  smbios_checksum, smbios_version, smbios_address64, smbios_address32,
}

unfoldable pub byte_at : Memory → ℕ → Run ℕ
byte_at mem a = from_option (mem a)

-- An integer of `n` bytes, little endian.
unfoldable pub word_at : Memory → ℕ → ℕ → Run ℕ
unfolding byte_at
word_at mem a zero = done 0
word_at mem a (suc n) = do
  low ← byte_at mem a
  high ← word_at mem (suc a) n
  done (low + 256 * high)

-- The loop over `Index`, for `n` bytes from `a` on.
unfoldable pub sum_at : Memory → ℕ → ℕ → ℕ → Run ℕ
unfolding byte_at
sum_at mem a zero sum = done sum
sum_at mem a (suc n) sum = do b ← byte_at mem a; sum_at mem (suc a) n ((sum + b) % 256)

unfoldable pub checksum_ok_at : Memory → ℕ → ℕ → Run Bool
unfolding sum_at
checksum_ok_at mem a len = do sum ← sum_at mem a len 0; done (sum == 0)

-- The table at an address: its signature, length and checksum.
unfoldable pub print_table : Memory → ℕ → Run Line
unfolding byte_at word_at checksum_ok_at
print_table mem t = do
  len ← word_at mem (t + 4) 4
  ok ← checksum_ok_at mem t len
  c0 ← byte_at mem t
  c1 ← byte_at mem (t + 1)
  c2 ← byte_at mem (t + 2)
  c3 ← byte_at mem (t + 3)
  done (acpi_table (c0 ∷ c1 ∷ c2 ∷ c3 ∷ []) len ok)

-- The loop over the XSDT's entries, of which `n` are left.
unfoldable pub print_entries : Memory → ℕ → ℕ → Run (List Line)
unfolding print_table
print_entries mem entry zero = done []
print_entries mem entry (suc n) = do
  t ← word_at mem entry 8
  line ← print_table mem t
  lines ← print_entries mem (entry + 8) n
  done (line ∷ lines)

-- `Hdr->Length - sizeof (HWMON_ACPI_HEADER)`, of unsigned 64 bits, by `sizeof (UINT64)`.
abbrev pub entry_count : ℕ → ℕ
entry_count len = (len + 2 ^ 64 - 36) % 2 ^ 64 / 8

-- The XSDT at an address, behind an RSDP that is valid.
unfoldable pub print_xsdt : Memory → ℕ → Run (List Line)
unfolding print_entries
print_xsdt mem xsdt = do
  len ← word_at mem (xsdt + 4) 4
  ok ← checksum_ok_at mem xsdt len
  let entries = do
    lines ← print_entries mem (xsdt + 36) (entry_count len)
    done (xsdt_tables (entry_count len) ∷ lines)
  if not ok then done (xsdt_invalid ∷ []) else entries

unfoldable pub print_acpi : Memory → ℕ → Run (List Line)
unfolding print_xsdt
print_acpi mem rsdp = do
  v1_ok ← checksum_ok_at mem rsdp 20
  revision ← byte_at mem (rsdp + 15)
  let version2 = do
    len ← word_at mem (rsdp + 20) 4
    v2_ok ← checksum_ok_at mem rsdp len
    let walk = do
      xsdt ← word_at mem (rsdp + 24) 8
      lines ← print_xsdt mem xsdt
      done (rsdp_v1 v1_ok ∷ rsdp_v2 v2_ok ∷ lines)
    let invalid = done (rsdp_v1 v1_ok ∷ rsdp_v2 v2_ok ∷ rsdp_invalid ∷ [])
    if not v1_ok || not v2_ok then invalid else walk
  if ltb revision 2 then done (rsdp_v1 v1_ok ∷ no_xsdt ∷ []) else version2

unfoldable pub print_smbios : Memory → ℕ → Bool → Run (List Line)
unfolding byte_at word_at checksum_ok_at
print_smbios mem entry true = do
  len ← byte_at mem (entry + 6)
  ok ← checksum_ok_at mem entry len
  major ← byte_at mem (entry + 7)
  minor ← byte_at mem (entry + 8)
  address ← word_at mem (entry + 16) 8
  size ← word_at mem (entry + 12) 4
  done (smbios_checksum ok ∷ smbios_version major minor ∷ smbios_address64 address size ∷ [])
print_smbios mem entry false = do
  len ← byte_at mem (entry + 5)
  ok ← checksum_ok_at mem entry len
  major ← byte_at mem (entry + 6)
  minor ← byte_at mem (entry + 7)
  address ← word_at mem (entry + 24) 4
  size ← word_at mem (entry + 22) 2
  structures ← word_at mem (entry + 28) 2
  done (
      smbios_checksum ok
      ∷ smbios_version major minor
      ∷ smbios_address32 address size structures
      ∷ [])
