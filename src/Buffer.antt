-- ===== src/Buffer.antt =====
-- C objects as lists of bytes. A pointer into an object is an offset, and every access is checked
-- against the object: `fault` is an access outside it, `stuck` a loop that has no fuel left.
pub mod Returns
pub mod Loop
pub mod Text
pub mod Words
pub mod Filled
use hardware_monitor_azk.Base.{
  ℕ, zero, suc, ◌+◌, ◌*◌, ◌<◌, List, [], ◌∷◌, ◌++◌, Option, none, some, leb, ◌==◌, if◌then◌else◌,
  length, get_elem?, set, take, drop,
}

pub data Run {ℓ} (A : Type ℓ) : Type ℓ where
  done : A → Run A
  fault : Run A
  stuck : Run A

infixl 5 ◌>>=◌
abbrev pub ◌>>=◌ {ℓ κ} : {A : Type ℓ} {B : Type κ} → Run A → (A → Run B) → Run B
done result >>= next = next result
fault >>= next = fault
stuck >>= next = stuck

abbrev pub Bytes : Type 0
Bytes = List ℕ

abbrev pub IsByte : ℕ → Type 0
IsByte b = b < 256

abbrev pub from_option {ℓ} : {A : Type ℓ} → Option A → Run A
from_option none = fault
from_option (some a) = done a

-- `array[i]`
unfoldable pub load {ℓ} : {A : Type ℓ} → List A → ℕ → Run A
load array i = from_option (get_elem? array i)

-- `array[i] = v`
unfoldable pub store {ℓ} : {A : Type ℓ} → List A → ℕ → A → Run (List A)
store array i v = if leb (suc i) (length array) then done (set array i v) else fault

-- `memcpy(&x, p, n)` into an integer of n bytes: little endian, as on x86.
unfoldable pub load_le : Bytes → ℕ → ℕ → Run ℕ
load_le buf p zero = done 0
load_le buf p (suc n) = do low ← load buf p; high ← load_le buf (suc p) n; done (low + 256 * high)

-- The source of `memcpy(dst, p, n)`.
unfoldable pub load_bytes : Bytes → ℕ → ℕ → Run Bytes
load_bytes buf p zero = done []
load_bytes buf p (suc n) = do b ← load buf p; rest ← load_bytes buf (suc p) n; done (b ∷ rest)

-- `memcpy(array + i, bytes, length bytes)`
unfoldable pub store_bytes : Bytes → ℕ → Bytes → Run Bytes
store_bytes array i bytes =
    if leb (i + length bytes) (length array)
    then done (take i array ++ (bytes ++ drop (i + length bytes) array))
    else fault

-- `strnlen(p, n)`
unfoldable pub strnlen : Bytes → ℕ → ℕ → Run ℕ
strnlen buf p zero = done 0
strnlen buf p (suc n) = do
  b ← load buf p
  let rest = strnlen buf (suc p) n
  if b == 0 then done 0 else (rest >>= λ k. done (suc k))
