-- ===== src/Config/App/Budget.antt =====
-- internal/config/config.go: whether a read cycle fits into its interval.
use aerosmart_gateway.Base.{ℕ, ◌+◌, ◌*◌, ◌/◌, Option, none, some, if◌then◌else◌}
use aerosmart_gateway.Base.Int.{ℤ, pos, pos_part, leb_ℤ, max_ℤ, int64, half, ◌+ℤ◌, ◌*ℤ◌}
use aerosmart_gateway.Serial.Errors.{Err, invalid_config, wrap}
use aerosmart_gateway.Config.App.{AppConfig}

-- EffectiveResponseTimeout
unfoldable pub effective_response_timeout : AppConfig → ℤ
effective_response_timeout c = max_ℤ c.serial.response_timeout c.serial.read_timeout

-- EffectiveBusQuietMaxWait
unfoldable pub effective_bus_quiet_max_wait : AppConfig → ℤ
effective_bus_quiet_max_wait c = max_ℤ c.serial.bus_quiet_max_wait c.serial.bus_quiet_gap

-- EffectiveAttempts
unfoldable pub effective_attempts : AppConfig → ℤ
effective_attempts c = max_ℤ c.serial.retries (pos 2)

-- `perAttemptMs` and `worstCycleMs`
unfoldable pub per_attempt_ms : ℤ → ℤ → ℤ → ℤ
per_attempt_ms quiet response backoff =
    int64 (int64 (quiet +ℤ response) +ℤ half (int64 (backoff *ℤ pos 3)))

unfoldable pub worst_cycle_ms : ℤ → ℤ → ℤ → ℤ
worst_cycle_ms attempts per_attempt count = int64 (int64 (attempts *ℤ per_attempt) *ℤ count)

-- ValidateCycleBudget
unfoldable pub validate_cycle_budget : ℤ → AppConfig → Option Err
validate_cycle_budget count c =
    if leb_ℤ count (pos 0)
    then none
    else if leb_ℤ
        (worst_cycle_ms (effective_attempts c)
          (per_attempt_ms (effective_bus_quiet_max_wait c) (effective_response_timeout c)
            c.serial.retry_backoff)
          count)
        (int64 (c.read_interval *ℤ pos 1_000))
    then none
    else some (wrap invalid_config)

-- What an attempt may take, in milliseconds.
abbrev attempt_ms : ℕ → ℕ → ℕ → ℕ
attempt_ms quiet response backoff = quiet + response + backoff * 3 / 2

-- The longest a cycle of `count` registers may take, with every attempt at its limit.
abbrev pub longest_cycle_ms : ℕ → AppConfig → ℕ
longest_cycle_ms count c =
    pos_part (effective_attempts c)
    * attempt_ms (pos_part (effective_bus_quiet_max_wait c))
        (pos_part (effective_response_timeout c)) (pos_part c.serial.retry_backoff)
    * count
