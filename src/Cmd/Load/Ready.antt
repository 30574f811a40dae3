-- ===== src/Cmd/Load/Ready.antt =====
-- What a configuration that loadConfig of cmd/main.go returns promises to the components.
use aerosmart_gateway.Base.{◌⊎◌, ◌*◌, ◌^◌, ◌<◌, ◌≤◌, ◌≡◌, none, Bytes, length, All}
use aerosmart_gateway.Base.Int.{ℤ, pos, pos_part, ◌≤ℤ◌}
use aerosmart_gateway.Base.Float.{Floats}
use aerosmart_gateway.Config.App.{AppConfig, SerialConfig, serial_defaults}
use aerosmart_gateway.Config.App
use aerosmart_gateway.Config.App.Valid
use aerosmart_gateway.Config.App.Valid.{IsWorkable, durations}
use aerosmart_gateway.Config.App.Budget.{
  validate_cycle_budget, effective_response_timeout, effective_bus_quiet_max_wait, longest_cycle_ms,
}
use aerosmart_gateway.Config.Check
use aerosmart_gateway.Config.Check.Accepted.{IsServed}
use aerosmart_gateway.Config.Types.{Registers}
use aerosmart_gateway.Cmd.Load.{ms_duration, serial_config}
use aerosmart_gateway.Serial.Config.{Config, apply_defaults}
use aerosmart_gateway.Serial.Errors.{Result, ok, err}

-- A number of milliseconds that a Duration can hold
abbrev IsShort : ℤ → Type 0
IsShort ms = (pos 0 ≤ℤ ms) × (pos_part ms < 2 ^ 43)

-- What loadConfig has checked when it returns a configuration
record IsChecked {F : Type 0} (fl : Floats F) (c : AppConfig) (r : Registers F) : Type 0 where
  loaded : (s : SerialConfig) × (c.serial ≡ serial_defaults s)
  valid : Valid.validate c ≡ none
  served : Check.validate fl r ≡ none
  fits : validate_cycle_budget (pos (length r.read_registers)) c ≡ none

from_ok : {A : Type 0} → A → Result A → A
from_ok x (ok y) = y
from_ok x (err e) = x

-- All durations are short.
abbrev pub HasShort : AppConfig → Type 0
HasShort c = All (λ (d : Bytes × ℤ). pos_part d.1 < 2 ^ 43) (durations c)

-- What the components may rely on: the settings are workable, the write registers can be served, the
-- port is configured as the file says, but for two timeouts, which are what the cycle budget counts on,
-- and the budget holds.
pub IsReady : {F : Type 0} → AppConfig → Registers F → Type 0
IsReady c r =
    IsWorkable c
    × All (IsServed r) r.write_registers
    × (apply_defaults (serial_config c) ≡ record (serial_config c) {
      response_timeout = ms_duration (effective_response_timeout c);
      bus_quiet_max_wait = ms_duration (effective_bus_quiet_max_wait c);
    })
    × ((length r.read_registers ≡ 0)
        ⊎ (longest_cycle_ms (length r.read_registers) c ≤ pos_part c.read_interval * 1_000))
