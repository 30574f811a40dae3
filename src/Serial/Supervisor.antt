-- ===== src/Serial/Supervisor.antt =====
-- internal/serial/serial.go: Supervise, as one step for each round of its loop, and the retry loop of
-- openSerialWithRetry in cmd/main.go, which doubles the same backoff.
pub mod Backoff
use aerosmart_gateway.Base.{
  ℕ, zero, suc, ◌+◌, ◌*◌, ◌-◌, ◌≤◌, ◌<◌, ◌^◌, ◌≡◌, ◌≢◌, refl, sym, ap, ◌∙◌, Bytes, Bool, true,
  false, Option, none, some, List, [], ◌∷◌, ◌++◌, arith, ◌⊎◌, inl, inr, Bool-cases, Option-cases,
  is_some, length, ltb, leb, if◌then◌else◌, min,
}
use aerosmart_gateway.Base.Int.{pos_part}
use aerosmart_gateway.Serial.Errors.{Err}
use aerosmart_gateway.Serial.World.{Port, Clock, sleep_ctx}
use aerosmart_gateway.Serial.SerialPort.{SerialPort, is_healthy, reopen}

-- The variables of the loop; `healthy_since` is none for the zero time.
pub record Supervisor : Type 0 where
  pub backoff : ℕ
  pub healthy_since : Option ℕ

-- `if backoff *= 2; backoff > limit { backoff = limit }`
unfoldable pub double_backoff : ℕ → ℕ → ℕ
double_backoff limit backoff = if ltb limit (backoff * 2) then limit else backoff * 2

-- What the loop does next: it stops, or it has slept for `slept` and goes round again.
pub data Watch (W : Type 0) : Type 0 where
  stopped : SerialPort → W → Watch W
  watching : SerialPort → Supervisor → (slept : ℕ) → (reopened : Bool) → W → Watch W

module _ {W : Type 0} (port : Port W) (clock : Clock W) (open_port : W → W × Option Err) where
  abbrev watch_after : W × Bool → SerialPort → Supervisor → ℕ → Bool → Watch W
  watch_after (w, true) s v slept reopened = watching s v slept reopened w
  watch_after (w, false) s v slept reopened = stopped s w

  -- A round with a healthy port: the backoff starts over once it has stayed healthy for long enough.
  unfoldable pub watch_healthy : SerialPort → Supervisor → W → Watch W
  watch_healthy s v w =
      let since : ℕ = elim v.healthy_since [ none ↦ clock.now w | some t ↦ t ] in
      let interval = pos_part s.cfg.health_check_interval in
      let backoff =
        if leb (pos_part s.cfg.max_reopen_backoff) (clock.now w - since)
        then pos_part s.cfg.reopen_backoff
        else v.backoff in
      watch_after (sleep_ctx clock interval w) s
        (record { backoff = backoff; healthy_since = some since }) interval false

  -- A round with an unhealthy port: one reopen, then the wait, whether or not it succeeded.
  unfoldable pub watch_unhealthy : SerialPort → Supervisor → W → Watch W
  unfolding double_backoff
  watch_unhealthy s v w =
      let (s₁, w₁, err) = reopen port clock open_port s w in
      let next = double_backoff (pos_part s.cfg.max_reopen_backoff) v.backoff in
      watch_after (sleep_ctx clock v.backoff w₁) s₁
        (record { backoff = next; healthy_since = none }) v.backoff true

  -- One round of Supervise
  unfoldable pub supervise_round : SerialPort → Supervisor → W → Watch W
  unfolding watch_healthy watch_unhealthy
  supervise_round s v w = elim (clock.ctx_err w) [
    | some err ↦ stopped s w
    | none ↦ if is_healthy s then watch_healthy s v w else watch_unhealthy s v w
  ]
