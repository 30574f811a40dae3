-- ===== src/Log.antt =====
-- internal/logger/logger.go. A message is taken as formatted: its text, behind fmt.Sprintf. A log.Logger
-- with no flags is what it writes to: standard output, or an open file, which a number names.
pub mod Heard
pub mod Closed
use aerosmart_gateway.Base.{
  ℕ, ◌++◌, Bool, true, false, ◌&&◌, not, Option, none, some, Bytes, codes, eq_bytes, is_empty, [],
  if◌then◌else◌, ltb, leb, is_some,
}
use aerosmart_gateway.Serial.Errors.{Err}

pub data Level : Type 0 where
  debug info warn error : Level

-- The order of the constants
abbrev pub rank : Level → ℕ
rank debug = 0
rank info = 1
rank warn = 2
rank error = 3

-- String
unfoldable pub level_string : Level → Bytes
level_string debug = codes "DEBUG"
level_string info = codes "INFO"
level_string warn = codes "WARN"
level_string error = codes "ERROR"

-- The switch of NewWithConfig
unfoldable pub level_of : Bytes → Level
level_of s =
    if eq_bytes s (codes "debug")
    then debug
    else if eq_bytes s (codes "info")
    then info
    else if eq_bytes s (codes "warn")
    then warn
    else if eq_bytes s (codes "error")
    then error
    else info

-- Config
pub record LogConfig : Type 0 where
  pub level : Bytes
  pub log_file : Bytes
  pub file_logging : Bool
  pub console_logging : Bool

-- What the logger calls: printing a line, os.OpenFile, File.Write and Close, and the formatted time
pub record Output (W : Type 0) : Type 0 where
  pub print : Bytes → W → W
  pub open_file : Bytes → W → W × Option ℕ
  pub append : ℕ → Bytes → W → W
  pub close_file : ℕ → W → W × Option Err
  pub stamp : W → Bytes

-- `console_logger` tells whether there is one; `file_logger` is the file that it writes to.
pub record Logger : Type 0 where
  pub level : Level
  pub console_logger : Bool
  pub file_logger : Option ℕ
  pub file_logging : Bool
  pub console_logging : Bool
  pub file : Option ℕ

module _ {W : Type 0} (out : Output W) where
  -- NewWithConfig behind os.OpenFile, for a config that asks for a file
  unfoldable pub with_file : LogConfig → Option ℕ → Logger
  unfolding level_of
  with_file c none = record {
    level = level_of c.level;
    console_logger = true;
    file_logger = none;
    file_logging = false;
    console_logging = true;
    file = none;
  }
  with_file c (some f) = record {
    level = level_of c.level;
    console_logger = c.console_logging;
    file_logger = some f;
    file_logging = true;
    console_logging = c.console_logging;
    file = some f;
  }

  -- NewWithConfig; the warning about a file that cannot be opened is printed.
  unfoldable pub new_with_config : LogConfig → W → Logger × W
  unfolding with_file level_of
  new_with_config c w =
      if c.file_logging && not (is_empty c.log_file)
      then (let (w₁, opened) = out.open_file c.log_file w in
          (
            with_file c opened,
            elim opened [
              | none ↦
                  out.print (codes "[WARN] Could not open log file; logging to console instead") w₁
              | some f ↦ w₁
            ],
          ))
      else (
        record {
          level = level_of c.level;
          console_logger = c.console_logging;
          file_logger = none;
          file_logging = false;
          console_logging = c.console_logging;
          file = none;
        },
        w,
      )

  -- The line that emit writes
  unfoldable pub line_of : Bytes → Bytes → W → Bytes
  line_of prefix text w = codes "[" ++ (out.stamp w ++ (codes "] " ++ (prefix ++ text)))

  -- The two writes of emit
  unfoldable pub write_line : Bytes → Logger → W → W
  write_line line l w =
      let w₁ = if l.console_logging && l.console_logger then out.print line w else w in
      elim l.file_logger [
        | none ↦ w₁
        | some f ↦ if l.file_logging then out.append f line w₁ else w₁
      ]

  unfoldable pub emit : Level → Bytes → Bytes → Logger → W → W
  emit level prefix text l w =
      if ltb (rank level) (rank l.level) then w else write_line (line_of prefix text w) l w

  -- Debug, Info, Warn and Error
  unfoldable pub log_line : Level → Bytes → Logger → W → W
  unfolding emit
  log_line debug text l w = emit debug [] text l w
  log_line info text l w = emit info [] text l w
  log_line warn text l w = emit warn (codes "WARNING: ") text l w
  log_line error text l w = emit error (codes "ERROR: ") text l w

  -- SerialOperation and SerialSend: a failure is a warning, a success is for debugging.
  unfoldable pub serial_operation : (failure success : Bytes) → Option Err → Logger → W → W
  unfolding log_line
  serial_operation failure success failed l w = elim failed [
    | some e ↦ log_line warn failure l w
    | none ↦ log_line debug success l w
  ]

  -- SignalReceived
  unfoldable pub signal_received : Bytes → Logger → W → W
  unfolding emit
  signal_received text l w = emit error [] text l w

  -- Close
  unfoldable pub close : Logger → W → Logger × W × Option Err
  close l w = elim l.file [
    | none ↦ (l, w, none)
    | some f ↦
        let (w₁, failed) = out.close_file f w in
        (record l { file_logging = false; file_logger = none; file = none }, w₁, failed)
  ]

  -- Fatal, up to os.Exit: whatever Close returns is dropped.
  unfoldable pub fatal : Bytes → Logger → W → Logger × W
  unfolding emit close
  fatal text l w =
      let (l₁, w₁, failed) = close l (emit error (codes "FATAL: ") text l w) in (l₁, w₁)

-- IsDebug
unfoldable pub is_debug : Logger → Bool
is_debug l = leb (rank l.level) (rank debug)

-- FileLoggingActive
unfoldable pub file_logging_active : Logger → Bool
file_logging_active l = l.file_logging
