-- ===== src/Serial/World.antt =====
-- What internal/serial runs against: the device behind the `Port` interface of framing.go, the clock
-- and the caller's context. Implementations of `Port` are the driver's, so it is a parameter: `W` is
-- the state of everything outside, and each call returns its next state.
use aerosmart_gateway.Base.{
  ℕ, ◌+◌, ◌≤◌, ◌<◌, ◌≡◌, Bool, Option, List, [], ◌∷◌, ◌++◌, Bytes, length, ◌==◌, if◌then◌else◌, not,
  is_some,
}
use aerosmart_gateway.Serial.Errors.{Err}

-- The methods of `Port`. `read` fills at most the scratch buffer and returns what it got.
pub record Port (W : Type 0) : Type 0 where
  pub read : W → W × Bytes × Option Err
  pub write : Bytes → W → W × Option Err
  pub reset_input : W → W × Option Err
  pub drain : W → W × Option Err
  pub set_read_timeout : ℕ → W → W × Option Err
  pub close : W → W × Option Err

-- `time.Now` in nanoseconds, `time.Sleep`, `ctx.Err()` of the context that is passed down, and the
-- wait for a timer or the end of the context: whether the timer came first.
pub record Clock (W : Type 0) : Type 0 where
  pub now : W → ℕ
  pub sleep : ℕ → W → W
  pub ctx_err : W → Option Err
  pub wait : ℕ → W → W × Bool

-- sleepCtx of serial.go and of registers/gate.go
unfoldable pub sleep_ctx : {W : Type 0} → Clock W → ℕ → W → W × Bool
sleep_ctx clock d w = if d == 0 then (w, not (is_some (clock.ctx_err w))) else clock.wait d w

-- What can be observed of the line from outside: the bytes that reads have returned so far, and the
-- frames that `Write` was called with, the oldest first.
pub record Line (W : Type 0) : Type 0 where
  pub received : W → Bytes
  pub written : W → List Bytes

module _ {W : Type 0} (port : Port W) (clock : Clock W) where
  -- Time: a read takes some, and returns at most 256 bytes; a sleep lasts as long as was asked;
  -- setting the read timeout does not turn the clock back.
  pub record IsTimely : Type 0 where
    pub read_ticks : (w : W) → clock.now w < clock.now (port.read w).0
    pub read_fits : (w : W) → length (port.read w).1 ≤ 256
    pub sleep_lasts : (d : ℕ) (w : W) → clock.now w + d ≤ clock.now (clock.sleep d w)
    pub set_passes : (d : ℕ) (w : W) → clock.now w ≤ clock.now (port.set_read_timeout d w).0

  -- What each call does to the line: a read hands over what it received, a call of `Write` adds its
  -- frame to the log, and the other calls leave both alone.
  pub record IsLogged (line : Line W) : Type 0 where
    pub read_received : (w : W) → line.received (port.read w).0 ≡ line.received w ++ (port.read w).1
    pub sleep_received : (d : ℕ) (w : W) → line.received (clock.sleep d w) ≡ line.received w
    pub set_received :
        (d : ℕ) (w : W) → line.received (port.set_read_timeout d w).0 ≡ line.received w
    pub read_written : (w : W) → line.written (port.read w).0 ≡ line.written w
    pub sleep_written : (d : ℕ) (w : W) → line.written (clock.sleep d w) ≡ line.written w
    pub set_written : (d : ℕ) (w : W) → line.written (port.set_read_timeout d w).0 ≡ line.written w
    pub reset_written : (w : W) → line.written (port.reset_input w).0 ≡ line.written w
    pub drain_written : (w : W) → line.written (port.drain w).0 ≡ line.written w
    pub write_written :
        (b : Bytes) (w : W) → line.written (port.write b w).0 ≡ line.written w ++ b ∷ []
