-- ===== src/Serial/SerialPort/Termination.antt =====
-- A transaction of serial.go ends, whatever the device and the other talkers on the bus do.
use aerosmart_gateway.Base.{
  ℕ, zero, suc, ◌+◌, ◌*◌, ◌<◌, ◌≡◌, ◌≢◌, refl, Bytes, Option, [], arith, inl, inr, Option-cases,
}
use aerosmart_gateway.Base.Int.{pos_part}
use aerosmart_gateway.Serial.Errors.{Err}
use aerosmart_gateway.Serial.World.{Port, Clock, IsTimely}
use aerosmart_gateway.Serial.FrameReader.{
  FrameReader, FrameResult, frame, failed, out_of_fuel, read_frame, QuietResult, quiet, busy,
  quiet_failed, quiet_out_of_fuel, wait_quiet, reset,
}
use aerosmart_gateway.Serial.FrameReader.Termination.{
  frame_measure, Used, read_frame-Used, read_frame_total, wait_quiet_total,
}
use aerosmart_gateway.Serial.Response.{parse_response, command_prefix}
use aerosmart_gateway.Serial.SerialPort.{
  SerialPort, Outcome, returned, raised, unfinished, after_quiet, transmit, on_frame,
  await_response, await_sent, transact, session,
}

module _ {W : Type 0} (port : Port W) (clock : Clock W) (open_port : W → W × Option Err)
    (timely : IsTimely port clock) where
  -- A round of the loop ends, or leaves less for the next.
  on_frame_total :
      (want : Bytes) (s : SerialPort) (before deadline : ℕ) (out : FrameReader × W × FrameResult)
      (more : FrameReader → W → SerialPort × FrameReader × W × Outcome Bytes)
      → out.2 ≢ out_of_fuel
      → Used port clock timely before deadline out
      → ((f : FrameReader) (w : W)
          → frame_measure port clock timely deadline f w < before
          → (more f w).3 ≢ unfinished)
      → (on_frame port clock open_port want s out more).3 ≢ unfinished
  unfolding on_frame
  on_frame_total want s before deadline (f, w, failed err) more h u k = λ e. cc
  on_frame_total want s before deadline (f, w, out_of_fuel) more h u k = absurd (h refl)
  on_frame_total want s before deadline (f, w, frame t) more h u k =
      elim (Option-cases (parse_response t want)) [
        | inl e ↦ rw (e, on_frame) (k f w u)
        | inr (v, e) ↦ rw (e, on_frame) (λ e'. cc)
      ]

  await_response_total :
      (rounds frame_fuel deadline : ℕ) (want : Bytes) (s : SerialPort) (f : FrameReader) (w : W)
      → frame_measure port clock timely deadline f w < rounds
      → frame_measure port clock timely deadline f w < frame_fuel
      → (await_response port clock open_port rounds frame_fuel deadline want s f w).3 ≢ unfinished
  unfolding await_response
  await_response_total zero frame_fuel deadline want s f w h k = elim h [ ]
  await_response_total (suc rounds) frame_fuel deadline want s f w h k =
      elim (Option-cases (clock.ctx_err w)) [
        | inr (err, p) ↦ rw (p, await_response) (λ e. cc)
        | inl p ↦
            rw (p, await_response)
              (on_frame_total want s (frame_measure port clock timely deadline f w) deadline
                (read_frame port clock frame_fuel deadline f w)
                (await_response port clock open_port rounds frame_fuel deadline want s)
                (read_frame_total port clock timely frame_fuel deadline f w k)
                (read_frame-Used port clock timely frame_fuel deadline f w)
                (λ f₁ w₁ less.
                  await_response_total rounds frame_fuel deadline want s f₁ w₁ (omega arith)
                    (omega arith)))
      ]

  -- A transmission that ran leaves an empty buffer and the port's settings as they were.
  abbrev Ready : SerialPort → SerialPort × FrameReader × W × Outcome (Unit {0}) → Type 0
  Ready s (s₁, f, w, returned _) = (s₁ ≡ s) × (f.buf ≡ [])
  Ready s (s₁, f, w, raised err) = Unit
  Ready s (s₁, f, w, unfinished) = ⊥

  after_quiet-Ready :
      (command : Bytes) (s : SerialPort) (out : FrameReader × W × QuietResult)
      → out.2 ≢ quiet_out_of_fuel
      → Ready s (after_quiet port clock open_port command s out)
  unfolding after_quiet reset
  after_quiet-Ready command s (f, w, quiet_failed err) h = ground arith
  after_quiet-Ready command s (f, w, quiet_out_of_fuel) h = absurd (h refl)
  after_quiet-Ready command s (f, w, quiet) h = ground arith
  after_quiet-Ready command s (f, w, busy) h = ground arith

  transmit-Ready :
      (fuel : ℕ) (command : Bytes) (s : SerialPort) (f : FrameReader) (w : W)
      → 2 * pos_part s.cfg.bus_quiet_max_wait + 1 < fuel
      → Ready s (transmit port clock open_port fuel command s f w)
  unfolding transmit
  transmit-Ready fuel command s f w h =
      let gap = pos_part s.cfg.bus_quiet_gap in
      let max_wait = pos_part s.cfg.bus_quiet_max_wait in
      after_quiet-Ready command s (wait_quiet port clock fuel gap max_wait f w)
        (wait_quiet_total port clock timely fuel gap max_wait f w h)

  await_sent_total :
      (rounds frame_fuel : ℕ) (command : Bytes) (s : SerialPort)
      (out : SerialPort × FrameReader × W × Outcome (Unit {0}))
      → 257 * pos_part s.cfg.response_timeout < rounds
      → 257 * pos_part s.cfg.response_timeout < frame_fuel
      → Ready s out
      → (await_sent port clock open_port rounds frame_fuel command out).3 ≢ unfinished
  unfolding await_sent
  await_sent_total rounds frame_fuel command s (s₁, f, w, raised err) h k r = λ e. cc
  await_sent_total rounds frame_fuel command s (s₁, f, w, unfinished) h k r = absurd r
  await_sent_total rounds frame_fuel command s (s₁, f, w, returned _) h k (e, empty) =
      let deadline = clock.now w + pos_part s₁.cfg.response_timeout in
      await_response_total rounds frame_fuel deadline (command_prefix command) s₁ f w (ground arith)
        (ground arith)

  -- Transact returns a value or an error, however much the device and the other talkers send: rounds for
  -- every nanosecond of the response timeout (257) and of the quiet wait (2) are enough.
  pub transact_total :
      (quiet_fuel rounds frame_fuel : ℕ) (command : Bytes) (s : SerialPort) (w : W)
      → 2 * pos_part s.cfg.bus_quiet_max_wait + 1 < quiet_fuel
      → 257 * pos_part s.cfg.response_timeout < rounds
      → 257 * pos_part s.cfg.response_timeout < frame_fuel
      → (transact port clock open_port quiet_fuel rounds frame_fuel command s w).2 ≢ unfinished
  unfolding transact
  transact_total quiet_fuel rounds frame_fuel command s w hq hr hf =
      elim (Option-cases (clock.ctx_err w)) [
        | inr (err, p) ↦ rw (p, transact) (λ e. cc)
        | inl p ↦
            rw (p, transact)
              (elim (Option-cases (session s)) [
                | inl q ↦ rw (q, transact) (λ e. cc)
                | inr (f, q) ↦
                    rw (q, transact)
                      (await_sent_total rounds frame_fuel command s
                        (transmit port clock open_port quiet_fuel command s f w) hr hf
                        (transmit-Ready quiet_fuel command s f w hq))
              ])
      ]
