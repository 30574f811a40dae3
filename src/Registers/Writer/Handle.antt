-- ===== src/Registers/Writer/Handle.antt =====
-- internal/registers/writer.go: HandleMessage, from the payload to the settle re-read. The two deferred
-- calls run when the function returns, the latest first.
pub mod Sending
pub mod Frame
pub mod Sent
pub mod Retry
use aerosmart_gateway.Base.{
  ℕ, zero, suc, ◌||◌, Bool, true, false, Option, none, some, Bytes, if◌then◌else◌, Map,
}
use aerosmart_gateway.Base.Int.{ℤ, ltb_ℤ}
use aerosmart_gateway.Base.Decimal.{atoi, itoa}
use aerosmart_gateway.Base.Float.{Floats}
use aerosmart_gateway.Base.Text.{trim_space}
use aerosmart_gateway.Config.Types.{WriteRegister}
use aerosmart_gateway.Mqtt.Command.{parse_write_register_command}
use aerosmart_gateway.Serial.Errors.{Err, wrap, other}
use aerosmart_gateway.Serial.World.{sleep_ctx}
use aerosmart_gateway.Registers.Gate.{preempt, release}
use aerosmart_gateway.Registers.Device.{Device}
use aerosmart_gateway.Registers.Writer.{
  Memory, Writer, WriteResult, find_topic, next_write_sequence, is_duplicate, remember_sent,
  forget_sent, schedule_refresh, write_attempts,
}
use aerosmart_gateway.Registers.Writer.Command.{send_command, verify, publish_state}

-- How the loop of HandleMessage ends: by a return in it, or behind it with the last result.
pub data Writing (W F : Type 0) : Type 0 where
  stopped : Memory F → W → Option Err → Writing W F
  judged : Memory F → W → WriteResult → Writing W F

module _ {W F : Type 0} (d : Device W) (fl : Floats F) (wr : Writer F) where
  -- The end of one round: `again` is the next.
  unfoldable pub after_verify :
      (WriteResult → Memory F → W → Writing W F) → Memory F → W × Map F × WriteResult → Writing W F
  after_verify again m (w, trusted, result) =
      let m₁ : Memory F = record m { trusted = trusted } in
      elim result.err [ none ↦ judged m₁ w result | some e ↦ again result m₁ w ]

  -- Behind the settle delay.
  unfoldable pub after_settle :
      (WriteResult → Memory F → W → Writing W F)
      → WriteRegister
      → ℤ
      → Memory F
      → W × Bool
      → Writing W F
  unfolding after_verify
  after_settle again register value m (w, false) = stopped m w (d.clock.ctx_err w)
  after_settle again register value m (w, true) =
      after_verify again m (verify d fl wr register value m.trusted w)

  -- Behind sendCommand.
  unfoldable pub after_send :
      (WriteResult → Memory F → W → Writing W F)
      → Bytes
      → WriteRegister
      → ℤ
      → Memory F
      → W × Option Err
      → Writing W F
  unfolding after_settle
  after_send again topic register value m (w, some e) = stopped m w (some (wrap e))
  after_send again topic register value m (w, none) =
      after_settle again register value (remember_sent (d.clock.now w) topic (itoa value) m)
        (sleep_ctx d.clock wr.settle_delay w)

  -- The loop, with the number of attempts that are left.
  unfoldable pub write_loop :
      ℕ → Bytes → WriteRegister → ℤ → Bytes → WriteResult → Memory F → W → Writing W F
  unfolding after_send
  write_loop zero topic register value command last m w = judged m w last
  write_loop (suc n) topic register value command last m w =
      after_send (write_loop n topic register value command) topic register value m
        (send_command d fl wr command w)

  -- What follows the loop.
  unfoldable pub conclude : Bytes → WriteRegister → ℤ → Writing W F → Memory F × W × Option Err
  conclude topic register value (stopped m w e) = (m, w, e)
  conclude topic register value (judged m w result) =
      let w₁ = publish_state d fl wr register (itoa value) result w in
      elim result.err [
        | none ↦ (m, w₁, none)
        | some e ↦ (forget_sent topic (itoa value) m, w₁, some e)
      ]

  -- HandleMessage from the call of Preempt on
  unfoldable pub apply_command :
      Bytes → WriteRegister → ℤ → Memory F → W → Memory F × W × Option Err
  unfolding write_loop conclude
  apply_command topic register value m w =
      let m₁ : Memory F = record m { gate = (preempt (d.clock.now w) m.gate).0 } in
      let command = parse_write_register_command register.command_template (itoa value) in
      let (m₂, seq) = next_write_sequence register.name m₁ in
      let unset : WriteResult = record { actual = none; err = none } in
      let (m₃, w₃, result) =
        conclude topic register value
          (write_loop write_attempts topic register value command unset m₂ w) in
      let m₄ = schedule_refresh wr.resettle (d.clock.now w₃) register seq m₃ in
      (record m₄ { gate = release m₄.gate }, w₃, result)

  -- HandleMessage
  unfoldable pub handle_message : Bytes → Bytes → Memory F → W → Memory F × W × Option Err
  unfolding apply_command
  handle_message topic message m w = elim (find_topic topic wr.registers) [
    | none ↦ (m, w, none)
    | some register ↦ elim (atoi (trim_space message)) [
      | none ↦ (m, w, some (wrap (other 5)))
      | some value ↦
          if ltb_ℤ value register.min_value || ltb_ℤ register.max_value value
          then (m, w, some (other 6))
          else if is_duplicate wr.dedupe_window (d.clock.now w) topic (itoa value) m
          then (m, w, none)
          else apply_command topic register value m w
    ]
  ]
