-- ===== src/Serial/SerialPort.antt =====
-- internal/serial/serial.go: the port's state, transactions and their transmission. The two mutexes
-- make each method one step; `W` is the world of Serial.World, and `open_port` is the opener.
pub mod Written
pub mod Termination
pub mod Health
use aerosmart_gateway.Base.{
  ℕ, zero, suc, ◌+◌, ◌*◌, ◌≡◌, refl, Bytes, codes, Bool, true, false, ◌&&◌, ◌||◌, not, Option, none,
  some, List, [], ◌∷◌, ◌++◌, if◌then◌else◌,
}
use aerosmart_gateway.Base.Int.{ℤ, pos_part}
use aerosmart_gateway.Serial.Errors.{
  Err, port_not_open, wrap, is_port_error, is_cancellation, is_interrupted,
}
use aerosmart_gateway.Serial.World.{Port, Clock}
use aerosmart_gateway.Serial.FrameReader.{
  FrameReader, FrameResult, frame, failed, out_of_fuel, new_frame_reader, reset, read_frame,
  wait_quiet, QuietResult, quiet, busy, quiet_failed, quiet_out_of_fuel,
}
use aerosmart_gateway.Serial.Response.{command_prefix, parse_response}
use aerosmart_gateway.Serial.Config.{Config, apply_defaults}

-- `port` says whether there is a port, `fr` is its frame reader.
pub record SerialPort : Type 0 where
  pub cfg : Config
  pub port : Bool
  pub fr : Option FrameReader
  pub is_open : Bool
  pub healthy : Bool

-- New
unfoldable pub new : Config → SerialPort
new cfg = record {
  cfg = apply_defaults cfg;
  port = false;
  fr = none;
  is_open = false;
  healthy = false;
}

unfoldable pub is_healthy : SerialPort → Bool
is_healthy s = s.is_open && s.healthy

unfoldable pub mark_unhealthy : SerialPort → SerialPort
mark_unhealthy s = record s { healthy = false }

-- session: the frame reader, if there is an open port.
unfoldable pub session : SerialPort → Option FrameReader
session s = if not s.is_open || not s.port then none else s.fr

-- What a method with an error result returns; `unfinished` when the fuel of a loop ran out.
pub data Outcome (A : Type 0) : Type 0 where
  returned : A → Outcome A
  raised : Err → Outcome A
  unfinished : Outcome A

-- `if IsPortError(err) { s.markUnhealthy(err) }`
unfoldable pub judge : Err → SerialPort → SerialPort
judge err s = if is_port_error err then mark_unhealthy s else s

abbrev pub crlf : Bytes
crlf = b'\r' ∷ b'\n' ∷ []

abbrev pub max_drain_interrupts : ℕ
max_drain_interrupts = 10

-- The frame reader is shared with the port: what a transaction did to it stays.
abbrev pub keep_reader :
    {W A : Type 0} → SerialPort × FrameReader × W × Outcome A → SerialPort × W × Outcome A
keep_reader (s, f, w, result) = (record s { fr = some f }, w, result)

module _ {W : Type 0} (port : Port W) (clock : Clock W) (open_port : W → W × Option Err) where
  -- openLocked, which is also Open: every caller holds the locks
  unfoldable pub open_locked : SerialPort → W → SerialPort × W × Option Err
  open_locked s w =
      if s.is_open
      then (s, w, none)
      else (let (w₁, err) = open_port w in
          elim err [
            | some e ↦ (s, w₁, some e)
            | none ↦ (
              record s {
                port = true;
                fr = some (new_frame_reader (pos_part s.cfg.read_timeout));
                is_open = true;
                healthy = true;
              },
              w₁,
              none,
            )
          ])

  -- closeLocked, which is also Close
  unfoldable pub close_locked : SerialPort → W → SerialPort × W × Option Err
  close_locked s w =
      let closed = record s { is_open = false; healthy = false; port = false; fr = none } in
      if s.port then (let (w₁, err) = port.close w in (closed, w₁, err)) else (closed, w, none)

  -- reopen: an error of the close is only logged
  unfoldable pub reopen : SerialPort → W → SerialPort × W × Option Err
  unfolding open_locked close_locked
  reopen s w = let (s₁, w₁, err) = close_locked s w in open_locked s₁ w₁

  -- The loop of drain: `n` attempts are left.
  unfoldable pub drain_loop : ℕ → Option Err → W → W × Option Err
  drain_loop zero last w = (w, last)
  drain_loop (suc n) last w =
      let (w₁, err) = port.drain w in
      elim err [
        | none ↦ (w₁, none)
        | some e ↦ elim (is_interrupted e) [
          | true ↦ drain_loop n (some e) w₁
          | false ↦ (w₁, some e)
        ]
      ]

  -- The end of transmit, with the bus quiet or the wait given up. The error is what a failed step
  -- returns, with the word of the step wrapped around it.
  unfoldable pub send_command : Bytes → FrameReader → W → FrameReader × W × Option Err
  unfolding drain_loop
  send_command command f w =
      let (w₁, err₁) = port.reset_input w in
      elim err₁ [
        | some e ↦ (reset f, w₁, some e)
        | none ↦
            let (w₂, err₂) = port.write (command ++ crlf) w₁ in
            elim err₂ [
              | some e ↦ (reset f, w₂, some e)
              | none ↦
                  let (w₃, err₃) = drain_loop max_drain_interrupts none w₂ in (reset f, w₃, err₃)
            ]
      ]

  -- A failed step of transmit is judged, and its error wrapped.
  abbrev sent :
      SerialPort → FrameReader × W × Option Err → SerialPort × FrameReader × W × Outcome (Unit {0})
  sent s (f, w, none) = (s, f, w, returned tt)
  sent s (f, w, some err) = (judge err s, f, w, raised (wrap err))

  unfoldable pub after_quiet :
      Bytes
      → SerialPort
      → FrameReader × W × QuietResult
      → SerialPort × FrameReader × W × Outcome (Unit {0})
  unfolding send_command judge
  after_quiet command s (f, w, quiet_failed err) =
      if is_cancellation err then (s, f, w, raised err) else (judge err s, f, w, raised (wrap err))
  after_quiet command s (f, w, quiet_out_of_fuel) = (s, f, w, unfinished)
  after_quiet command s (f, w, quiet) = sent s (send_command command f w)
  after_quiet command s (f, w, busy) = sent s (send_command command f w)

  -- transmit; a bus that stays busy only delays the command
  unfoldable pub transmit :
      ℕ → Bytes → SerialPort → FrameReader → W → SerialPort × FrameReader × W × Outcome (Unit {0})
  unfolding after_quiet
  transmit fuel command s f w =
      let gap = pos_part s.cfg.bus_quiet_gap in
      let max_wait = pos_part s.cfg.bus_quiet_max_wait in
      after_quiet command s (wait_quiet port clock fuel gap max_wait f w)

  -- What follows readFrame in the loop of Transact; `more` goes round again.
  unfoldable pub on_frame :
      Bytes
      → SerialPort
      → FrameReader × W × FrameResult
      → (FrameReader → W → SerialPort × FrameReader × W × Outcome Bytes)
      → SerialPort × FrameReader × W × Outcome Bytes
  unfolding judge
  on_frame want s (f, w, failed err) more = (judge err s, f, w, raised (wrap err))
  on_frame want s (f, w, out_of_fuel) more = (s, f, w, unfinished)
  on_frame want s (f, w, frame t) more = elim (parse_response t want) [
    | some value ↦ (s, f, w, returned value)
    | none ↦ more f w
  ]

  -- The loop of Transact; each round gives readFrame the fuel `frame_fuel`.
  unfoldable pub await_response :
      ℕ
      → ℕ
      → ℕ
      → Bytes
      → SerialPort
      → FrameReader
      → W
      → SerialPort × FrameReader × W × Outcome Bytes
  await_response zero frame_fuel deadline want s f w = (s, f, w, unfinished)
  await_response (suc rounds) frame_fuel deadline want s f w = elim (clock.ctx_err w) [
    | some err ↦ (s, f, w, raised err)
    | none ↦
        on_frame want s (read_frame port clock frame_fuel deadline f w)
          (await_response rounds frame_fuel deadline want s)
  ]

  unfoldable pub await_sent :
      ℕ
      → ℕ
      → Bytes
      → SerialPort × FrameReader × W × Outcome (Unit {0})
      → SerialPort × FrameReader × W × Outcome Bytes
  await_sent rounds frame_fuel command (s, f, w, raised err) = (s, f, w, raised err)
  await_sent rounds frame_fuel command (s, f, w, unfinished) = (s, f, w, unfinished)
  await_sent rounds frame_fuel command (s, f, w, returned _) =
      let deadline = clock.now w + pos_part s.cfg.response_timeout in
      await_response rounds frame_fuel deadline (command_prefix command) s f w

  -- Transact, with the fuel of its three loops
  unfoldable pub transact : ℕ → ℕ → ℕ → Bytes → SerialPort → W → SerialPort × W × Outcome Bytes
  unfolding session
  transact quiet_fuel rounds frame_fuel command s w = elim (clock.ctx_err w) [
    | some err ↦ (s, w, raised err)
    | none ↦ elim (session s) [
      | none ↦ (s, w, raised port_not_open)
      | some f ↦
          keep_reader (await_sent rounds frame_fuel command (transmit quiet_fuel command s f w))
    ]
  ]

  -- Send
  unfoldable pub send : ℕ → Bytes → SerialPort → W → SerialPort × W × Outcome (Unit {0})
  unfolding session
  send quiet_fuel command s w = elim (clock.ctx_err w) [
    | some err ↦ (s, w, raised err)
    | none ↦ elim (session s) [
      | none ↦ (s, w, raised port_not_open)
      | some f ↦ keep_reader (transmit quiet_fuel command s f w)
    ]
  ]
