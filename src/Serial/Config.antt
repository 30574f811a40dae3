-- ===== src/Serial/Config.antt =====
-- internal/serial/serial.go: Config and applyDefaults. Durations are in nanoseconds and may be negative.
-- The opener is the parameter of Serial.SerialPort; xonxoff and dsrdtr have no effect there.
use aerosmart_gateway.Base.{ℕ, ◌*◌, ◌≡◌, Bytes, codes, false, is_empty, if◌then◌else◌, arith}
use aerosmart_gateway.Base.Int.{ℤ, pos, ◌≤ℤ◌, ltb_ℤ, leb_ℤ, eq_ℤ, max_ℤ}

pub record Config : Type 0 where
  pub port : Bytes
  pub baud_rate : ℤ
  pub data_bits : ℤ
  pub parity : Bytes
  pub stop_bits : ℤ
  pub read_timeout : ℤ
  pub response_timeout : ℤ
  pub reopen_backoff : ℤ
  pub max_reopen_backoff : ℤ
  pub health_check_interval : ℤ
  pub bus_quiet_gap : ℤ
  pub bus_quiet_max_wait : ℤ

abbrev pub milliseconds : ℕ → ℤ
milliseconds n = pos (n * 1_000_000)

-- `if v == 0 { v = d }` and `if v <= 0 { v = d }`
abbrev or_default : ℤ → ℤ → ℤ
or_default d v = if eq_ℤ v (pos 0) then d else v

abbrev at_least_one : ℤ → ℤ → ℤ
at_least_one d v = if leb_ℤ v (pos 0) then d else v

abbrev pub reopen_limit : ℤ → ℤ → ℤ
reopen_limit backoff limit =
    if ltb_ℤ limit backoff then max_ℤ (milliseconds 30_000) backoff else limit

abbrev pub raise_to : ℤ → ℤ → ℤ
raise_to bound v = if ltb_ℤ v bound then bound else v

unfoldable pub apply_defaults : Config → Config
apply_defaults c =
    let reopen_backoff = at_least_one (milliseconds 500) c.reopen_backoff in
    let read_timeout = at_least_one (milliseconds 100) c.read_timeout in
    let gap = at_least_one (milliseconds 20) c.bus_quiet_gap in
    record c {
      baud_rate = or_default (pos 115_200) c.baud_rate;
      data_bits = or_default (pos 8) c.data_bits;
      parity = if is_empty c.parity then codes "N" else c.parity;
      stop_bits = or_default (pos 1) c.stop_bits;
      response_timeout = raise_to read_timeout (at_least_one (milliseconds 500) c.response_timeout);
      reopen_backoff = reopen_backoff;
      max_reopen_backoff = reopen_limit reopen_backoff c.max_reopen_backoff;
      health_check_interval = at_least_one (milliseconds 1_000) c.health_check_interval;
      read_timeout = read_timeout;
      bus_quiet_gap = gap;
      bus_quiet_max_wait = raise_to gap (at_least_one (milliseconds 100) c.bus_quiet_max_wait);
    }

-- What the rest of the package relies on.
pub record IsUsable (c : Config) : Type 0 where
  pub reads : pos 1 ≤ℤ c.read_timeout
  pub responds : c.read_timeout ≤ℤ c.response_timeout
  pub backs_off : pos 1 ≤ℤ c.reopen_backoff
  pub caps : c.reopen_backoff ≤ℤ c.max_reopen_backoff
  pub polls : pos 1 ≤ℤ c.health_check_interval
  pub listens : pos 1 ≤ℤ c.bus_quiet_gap
  pub waits : c.bus_quiet_gap ≤ℤ c.bus_quiet_max_wait

-- Usable, and no setting is at a value that applyDefaults replaces.
pub record IsConfigured (c : Config) : Type 0 where
  pub usable : IsUsable c
  pub baud : eq_ℤ c.baud_rate (pos 0) ≡ false
  pub bits : eq_ℤ c.data_bits (pos 0) ≡ false
  pub stops : eq_ℤ c.stop_bits (pos 0) ≡ false
  pub parity : is_empty c.parity ≡ false

-- Whatever the configuration says, the defaults make it one that the package can rely on: timeouts,
-- backoffs and intervals are positive, the response timeout covers one read, the backoff limit lies at
-- or above the first backoff and the quiet wait covers one gap. No setting is left at its zero value.
pub apply_defaults-IsConfigured : (c : Config) → IsConfigured (apply_defaults c)
unfolding apply_defaults
apply_defaults-IsConfigured c = ground arith

-- A configuration that is already in order is left as it is.
pub apply_defaults-eq_self : (c : Config) → IsConfigured c → apply_defaults c ≡ c
unfolding apply_defaults
apply_defaults-eq_self c h = ground arith

-- Timeouts and backoffs in order, and nothing at its zero value; the response timeout need not cover a
-- read, nor the quiet wait a gap.
pub record IsFilled (c : Config) : Type 0 where
  pub reads : pos 1 ≤ℤ c.read_timeout
  pub responds : pos 1 ≤ℤ c.response_timeout
  pub backs_off : pos 1 ≤ℤ c.reopen_backoff
  pub caps : c.reopen_backoff ≤ℤ c.max_reopen_backoff
  pub polls : pos 1 ≤ℤ c.health_check_interval
  pub listens : pos 1 ≤ℤ c.bus_quiet_gap
  pub waits : pos 1 ≤ℤ c.bus_quiet_max_wait
  pub baud : eq_ℤ c.baud_rate (pos 0) ≡ false
  pub bits : eq_ℤ c.data_bits (pos 0) ≡ false
  pub stops : eq_ℤ c.stop_bits (pos 0) ≡ false
  pub parity : is_empty c.parity ≡ false

pub apply_defaults-set :
    (c : Config)
    → IsFilled c
    → apply_defaults c ≡ record c {
      response_timeout = max_ℤ c.response_timeout c.read_timeout;
      bus_quiet_max_wait = max_ℤ c.bus_quiet_max_wait c.bus_quiet_gap;
    }
unfolding apply_defaults
apply_defaults-set c h = ground arith
