-- ===== src/Logger.antt =====
-- The logger (src/output/logger.c, include/logger.h).
pub mod Printed
pub mod Message
use hardware_monitor_azk.Base.{
  min, ℕ, zero, suc, ◌+◌, ◌-◌, ◌*◌, ◌/◌, ◌%◌, ◌^◌, ◌≤◌, ◌<◌, ◌≡◌, ◌≢◌, ◌↔◌, refl, sym, ap, ◌∙◌,
  arith, Bool, true, false, not, ◌&&◌, ◌||◌, List, [], ◌∷◌, ◌++◌, map, Option, none, some, ◌⊎◌, inl,
  inr, ltb, leb, ◌==◌, if◌then◌else◌, bit, low_bits, Bool-cases, tests, length, take, drop, set,
  replicate, get_elem?, All,
}
use hardware_monitor_azk.Buffer.{
  Run, done, fault, stuck, ◌>>=◌, Bytes, IsByte, load, store, load_le, load_bytes, store_bytes,
  strnlen,
}

-- `g_backend`, as far as there is one with a `write`, and `g_min_level`.
pub record Logger : Type 0 where
  pub has_backend : Bool
  pub min_level : ℕ

-- LOG_TRACE to LOG_ERROR
abbrev pub log_trace : ℕ
log_trace = 0

abbrev pub log_debug : ℕ
log_debug = 1

abbrev pub log_info : ℕ
log_info = 2

abbrev pub log_warning : ℕ
log_warning = 3

abbrev pub log_error : ℕ
log_error = 4

abbrev pub initial : Logger
initial = record { has_backend = false; min_level = log_info }

unfoldable pub logger_set_backend : Bool → Logger → Logger
logger_set_backend backend l = record l { has_backend = backend }

unfoldable pub logger_set_min_level : ℕ → Logger → Logger
logger_set_min_level level l = record l { min_level = level }

-- "TRACE", "DEBUG", "INFO", "WARNING", "ERROR" and "UNKNOWN"
unfoldable pub level_name : ℕ → Bytes
level_name level =
    if level == log_trace
    then 84 ∷ 82 ∷ 65 ∷ 67 ∷ 69 ∷ []
    else if level == log_debug
    then 68 ∷ 69 ∷ 66 ∷ 85 ∷ 71 ∷ []
    else if level == log_info
    then 73 ∷ 78 ∷ 70 ∷ 79 ∷ []
    else if level == log_warning
    then 87 ∷ 65 ∷ 82 ∷ 78 ∷ 73 ∷ 78 ∷ 71 ∷ []
    else if level == log_error
    then 69 ∷ 82 ∷ 82 ∷ 79 ∷ 82 ∷ []
    else 85 ∷ 78 ∷ 75 ∷ 78 ∷ 79 ∷ 87 ∷ 78 ∷ []

-- What "[%s] " gives.
abbrev pub prefix : ℕ → Bytes
prefix level = 91 ∷ level_name level ++ (93 ∷ 32 ∷ [])

-- `snprintf(buf + p, size, …)` for the text that the format gives, and `size` above 0: as much as
-- there is room for, and a NUL.
unfoldable pub snprintf : Bytes → ℕ → ℕ → Bytes → Run Bytes
snprintf buf p size text = do
  let n = min (length text) (size - 1)
  copied ← store_bytes buf p (take n text)
  store copied (p + n) 0

-- `vsnprintf`, whose text is given; `none` is a negative result, which
-- leaves the buffer here.
unfoldable pub vsnprintf : Bytes → ℕ → ℕ → Option Bytes → Run Bytes
unfolding snprintf
vsnprintf buf p size none = done buf
vsnprintf buf p size (some text) = snprintf buf p size text

-- `total`, before the line's end.
unfoldable pub total_length : ℕ → Option Bytes → ℕ
total_length prefix_len none = prefix_len
total_length prefix_len (some text) = min (prefix_len + length text) 511

-- `buf[total] = '\n'`, where there is room for it, and what is given to the backend.
unfoldable pub finish_line : Bytes → ℕ → Run Bytes
finish_line printed total =
    let ended = (do line ← store printed total 10; load_bytes line 0 (total + 1)) in
    if ltb (total + 1) 512 then ended else load_bytes printed 0 total

-- The message; `buf` is the array as the function finds it.
unfoldable pub message : ℕ → Option Bytes → Bytes → Run Bytes
unfolding vsnprintf total_length finish_line
message level body buf = do
  let prefix_len = min (length (prefix level)) 511
  prefixed ← snprintf buf 0 512 (prefix level)
  printed ← vsnprintf prefixed prefix_len (512 - prefix_len) body
  finish_line printed (total_length prefix_len body)

-- The result is what the backend is given to write.
unfoldable pub log_write : Logger → ℕ → Option Bytes → Bytes → Run (Option Bytes)
unfolding message
log_write l level body buf =
    if not l.has_backend
    then done none
    else if ltb level l.min_level
    then done none
    else (do written ← message level body buf; done (some written))
