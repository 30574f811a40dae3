-- ===== src/Cmd/StartUp.antt =====
-- cmd/main.go: the retries with which the program opens its serial port and connects to its broker.
pub mod Opened
pub mod Connected
use aerosmart_gateway.Base.{
  ℕ, zero, suc, ◌+◌, Bool, true, false, Option, none, some, List, [], ◌∷◌, if◌then◌else◌, ◌==◌,
}
use aerosmart_gateway.Base.Int.{ℤ, pos, pos_part, ltb_ℤ, int64, ◌*ℤ◌}
use aerosmart_gateway.Base.Float.{Floats}
use aerosmart_gateway.Serial.Errors.{Err}
use aerosmart_gateway.Serial.World.{Clock}
use aerosmart_gateway.Serial.Supervisor.{double_backoff}

-- How the loop of openSerialWithRetry stands behind some rounds
pub data Outcome : Type 0 where
  opened cancelled trying : Outcome

-- `waits` are the waits that passed between attempts, the first at the front.
pub record Opening (W : Type 0) : Type 0 where
  pub world : W
  pub outcome : Outcome
  pub waits : List ℕ

abbrev pub behind_wait : {W : Type 0} → ℕ → Opening W → Opening W
behind_wait d p = record p { waits = d ∷ p.waits }

-- openSerialWithRetry, over its first `n` attempts; `open` is the Open of the port.
unfoldable pub open_serial_with_retry :
    {W : Type 0} → Clock W → (W → W × Option Err) → ℕ → ℕ → ℕ → W → Opening W
open_serial_with_retry clock open_port zero backoff limit w = record {
  world = w;
  outcome = trying;
  waits = [];
}
open_serial_with_retry clock open_port (suc n) backoff limit w = elim (clock.ctx_err w) [
  | some e ↦ record { world = w; outcome = cancelled; waits = [] }
  | none ↦
      let (w₁, failed) = open_port w in
      elim failed [
        | none ↦ record { world = w₁; outcome = opened; waits = [] }
        | some e ↦
            let (w₂, fired) = clock.wait backoff w₁ in
            elim fired [
              | false ↦ record { world = w₂; outcome = cancelled; waits = [] }
              | true ↦
                  behind_wait backoff (
                    open_serial_with_retry clock open_port n (double_backoff limit backoff) limit
                      w₂)
            ]
      ]
]

-- The errors of connectMQTTWithRetry
pub data Refusal : Type 0 where
  cancelled_connect : Refusal
  exhausted : Option Err → Refusal

-- What main.go uses of float64 besides its arithmetic: rand.Float64() and the conversion to int.
pub record Jitter (W F : Type 0) : Type 0 where
  pub draw : W → W × F
  pub truncate : F → ℤ

module _ {W F : Type 0} (fl : Floats F) (jitter : Jitter W F) where
  -- `for range attempt { delayMs *= 2 }`
  unfoldable pub doubled : ℕ → F → F
  doubled zero delay = delay
  doubled (suc attempt) delay = doubled attempt (fl.mul delay (fl.of_int (pos 2)))

  -- The factor by which a draw scales the delay
  unfoldable pub jitter_factor : ℤ → F → F
  jitter_factor percent x = fl.add (fl.of_int (pos 1)) (
      fl.mul (fl.div (fl.of_int percent) (fl.of_int (pos 100)))
        (fl.sub (fl.mul (fl.of_int (pos 2)) x) (fl.of_int (pos 1))))

  -- calculateBackoffWithJitter, in nanoseconds
  unfoldable pub calculate_backoff_with_jitter : ℕ → ℤ → ℤ → ℤ → W → W × ℤ
  unfolding doubled jitter_factor
  calculate_backoff_with_jitter attempt initial_ms max_ms percent w =
      let delay = doubled attempt (fl.of_int initial_ms) in
      let capped = if fl.lt (fl.of_int max_ms) delay then fl.of_int max_ms else delay in
      let (w₁, x) = jitter.draw w in
      if ltb_ℤ (pos 0) percent
      then (w₁, int64 (jitter.truncate (fl.mul capped (jitter_factor percent x)) *ℤ pos 1_000_000))
      else (w, int64 (jitter.truncate capped *ℤ pos 1_000_000))

-- The loop of connectMQTTWithRetry, with `left` attempts left and the error of the last; `delay` draws
-- the wait behind an attempt.
unfoldable pub connect_loop :
    {W : Type 0}
    → Clock W
    → (W → W × Option Err)
    → (ℕ → W → W × ℤ)
    → ℕ
    → ℕ
    → Option Err
    → W
    → W × Option Refusal
connect_loop clock connect delay zero attempt last w = (w, some (exhausted last))
connect_loop clock connect delay (suc n) attempt last w = elim (clock.ctx_err w) [
  | some e ↦ (w, some cancelled_connect)
  | none ↦
      let (w₁, failed) = connect w in
      elim failed [
        | none ↦ (w₁, none)
        | some e ↦ elim (n == 0) [
          | true ↦ (w₁, some (exhausted (some e)))
          | false ↦
              let (w₂, d) = delay attempt w₁ in
              let (w₃, fired) = clock.wait (pos_part d) w₂ in
              elim fired [
                | false ↦ (w₃, some cancelled_connect)
                | true ↦ connect_loop clock connect delay n (suc attempt) (some e) w₃
              ]
        ]
      ]
]

-- connectMQTTWithRetry; `connect` is the Connect of the client.
unfoldable pub connect_mqtt_with_retry :
    {W F : Type 0}
    → Floats F
    → Jitter W F
    → Clock W
    → (W → W × Option Err)
    → ℤ
    → ℤ
    → ℤ
    → ℤ
    → W
    → W × Option Refusal
unfolding connect_loop
connect_mqtt_with_retry fl jitter clock connect max_retries initial_ms max_ms percent w =
    connect_loop clock connect
      (λ attempt. calculate_backoff_with_jitter fl jitter attempt initial_ms max_ms percent)
      (pos_part max_retries) 0 none w
