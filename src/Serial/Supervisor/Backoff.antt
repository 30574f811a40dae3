-- ===== src/Serial/Supervisor/Backoff.antt =====
-- How the supervisor of serial.go spaces its reopens.
use native.Mathlib.Nat.{pow-suc}
use aerosmart_gateway.Base.{ℕ, zero, suc, ◌*◌, ◌≤◌, ◌<◌, ◌^◌, ◌≡◌, ap, true, false, not, arith, min}
use aerosmart_gateway.Base.Int.{pos_part}
use aerosmart_gateway.Serial.Config.{Config}
use aerosmart_gateway.Serial.SerialPort.{SerialPort, is_healthy}
use aerosmart_gateway.Serial.Supervisor.{Supervisor, double_backoff, Watch, stopped, watching}

-- `n` attempts in a row.
pub backoff_after : ℕ → ℕ → ℕ → ℕ
backoff_after zero limit backoff = backoff
backoff_after (suc n) limit backoff = double_backoff limit (backoff_after n limit backoff)

-- The delay after `n` failed attempts is the first delay times 2ⁿ, capped at the limit.
pub backoff_after-eq-min :
    (n limit backoff : ℕ)
    → backoff ≤ limit
    → backoff_after n limit backoff ≡ min (backoff * 2 ^ n) limit
unfolding backoff_after double_backoff
backoff_after-eq-min zero limit backoff h = ground arith
backoff_after-eq-min (suc n) limit backoff h =
    ground
      (arith, backoff_after-eq-min n limit backoff h, ap (λ (t : ℕ). backoff * t) (pow-suc 2 n))

pub record IsSpaced (cfg : Config) (v : Supervisor) : Type 0 where
  pub at_least : pos_part cfg.reopen_backoff ≤ v.backoff
  pub at_most : v.backoff ≤ pos_part cfg.max_reopen_backoff

-- What a round did: with a healthy port only the backoff may start over; otherwise the port was
-- reopened once and the supervisor has slept for at least the first backoff since.
abbrev pub Spaced : {W : Type 0} → SerialPort → Supervisor → Watch W → Type 0
Spaced s v (stopped s₁ w) = s₁.cfg ≡ s.cfg
Spaced s v (watching s₁ v₁ slept reopened w) =
    (s₁.cfg ≡ s.cfg)
    × IsSpaced s₁.cfg v₁
    × (reopened ≡ not (is_healthy s))
    × (reopened ≡ false → s₁ ≡ s)
    × (reopened ≡ true
        → (pos_part s.cfg.reopen_backoff ≤ slept)
          × (v₁.backoff ≡ min (2 * slept) (pos_part s.cfg.max_reopen_backoff)))
    × (0 < slept)
