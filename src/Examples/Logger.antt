-- ===== src/Examples/Logger.antt =====
-- The logger (src/output/logger.c) on one message.
use hardware_monitor_azk.Base.{◌≡◌, refl, true, [], ◌∷◌, some, none, replicate}
use hardware_monitor_azk.Buffer.{Bytes, done}
use hardware_monitor_azk.Logger.{
  log_write, logger_set_backend, initial, log_info, log_debug, level_name,
}
use hardware_monitor_azk.Logger.Message.{log_write_lem}

-- "disk"
abbrev disk : Bytes
disk = 100 ∷ 105 ∷ 115 ∷ 107 ∷ []

-- "[INFO] disk", with the line's end
abbrev disk_line : Bytes
disk_line = 91 ∷ 73 ∷ 78 ∷ 70 ∷ 79 ∷ 93 ∷ 32 ∷ 100 ∷ 105 ∷ 115 ∷ 107 ∷ 10 ∷ []

log_write_example :
    log_write (logger_set_backend true initial) log_info (some disk) (replicate 512 7)
    ≡ done (some disk_line)
unfolding logger_set_backend level_name
log_write_example =
    log_write_lem (logger_set_backend true initial) log_info (some disk) (replicate 512 7) refl

-- Below the least level.
quiet :
    log_write (logger_set_backend true initial) log_debug (some disk) (replicate 512 7) ≡ done none
unfolding logger_set_backend log_write
quiet = refl
