-- ===== src/Registers/Writer/Handle/Retry.antt =====
-- Which repetitions of a command writer.go takes for a redelivery.
use aerosmart_gateway.Base.{
  ℕ, ltb, ◌-◌, eq_bytes_refl, ◌≡◌, refl, ap, ◌∙◌, true, false, Option, none, some, Bytes, Map,
}
use aerosmart_gateway.Base.Int.{ℤ}
use aerosmart_gateway.Base.Decimal.{itoa}
use aerosmart_gateway.Base.Float.{Floats}
use aerosmart_gateway.Config.Types.{WriteRegister}
use aerosmart_gateway.Mqtt.Command.{parse_write_register_command}
use aerosmart_gateway.Serial.Errors.{Err, wrap}
use aerosmart_gateway.Serial.World.{sleep_ctx}
use aerosmart_gateway.Registers.Device.{Device}
use aerosmart_gateway.Registers.Writer.{
  Memory, Writer, WriteResult, next_write_sequence, LastWrite, is_duplicate, remember_sent,
  schedule_refresh, write_attempts,
}
use aerosmart_gateway.Registers.Writer.Command.{send_command, verify}
use aerosmart_gateway.Registers.Writer.Handle.{
  Writing, stopped, judged, after_verify, after_settle, after_send, write_loop, conclude,
  apply_command,
}
use aerosmart_gateway.Registers.Gate.{preempt}

-- What the next identical command meets: behind a success it is dropped within the window, counted from
-- when the command was sent; behind a refusal it is not.
abbrev pub Dedupes : {F : Type 0} → Bytes → Bytes → Option Err → Memory F → Type 0
Dedupes topic value none m =
    (at : ℕ) × ((window now : ℕ) → is_duplicate window now topic value m ≡ ltb (now - at) window)
Dedupes topic value (some e) m = (window now : ℕ) → is_duplicate window now topic value m ≡ false

abbrev IsRemembered : {F : Type 0} → Bytes → Bytes → Memory F → Type 0
IsRemembered topic value m =
    (at : ℕ) × (m.last_command topic ≡ some (record { value = value; at = at }))

remembered-is_duplicate :
    {F : Type 0} (topic value : Bytes) (m : Memory F) (at window now : ℕ)
    → m.last_command topic ≡ some (record { value = value; at = at })
    → is_duplicate window now topic value m ≡ ltb (now - at) window
unfolding is_duplicate
remembered-is_duplicate topic value m at window now p =
    rw (p, is_duplicate) (rw (eq_bytes_refl value, is_duplicate) refl)

schedule_refresh-last_command :
    {F : Type 0} (delay : Option ℕ) (now : ℕ) (register : WriteRegister) (seq : ℕ) (m : Memory F)
    → (schedule_refresh delay now register seq m).last_command ≡ m.last_command
unfolding schedule_refresh
schedule_refresh-last_command none now register seq m = refl
schedule_refresh-last_command (some delay) now register seq m = refl

module _ {W F : Type 0} (d : Device W) (fl : Floats F) (wr : Writer F) where
  -- A loop that is through all its rounds or whose command was confirmed has remembered it.
  abbrev JudgedRemembered : Bytes → Bytes → Writing W F → Type 0
  JudgedRemembered topic value (stopped m w e) = Unit {0}
  JudgedRemembered topic value (judged m w result) = IsRemembered topic value m

  -- The memory with which the loop of a command starts, and the command.
  abbrev counted : WriteRegister → Memory F → W → Memory F
  counted register m w =
      (next_write_sequence register.name (record m { gate = (preempt (d.clock.now w) m.gate).0 })).0

  abbrev pub command_of : WriteRegister → ℤ → Bytes
  command_of register value = parse_write_register_command register.command_template (itoa value)

  -- The loop of HandleMessage for this command.
  abbrev pub loop_of : Bytes → WriteRegister → ℤ → Memory F → W → Writing W F
  loop_of topic register value m w =
      write_loop d fl wr write_attempts topic register value (command_of register value)
        (record { actual = none; err = none }) (counted register m w) w

  -- The first round was refused, and the second could not send.
  resend_failed :
      (topic : Bytes) (register : WriteRegister) (value : ℤ) (m : Memory F) (w w₁ w₂ w₃ w₄ : W)
      (trusted : Map F) (result : WriteResult) (e e₂ : Err)
      → send_command d fl wr (command_of register value) w ≡ (w₁, none)
      → sleep_ctx d.clock wr.settle_delay w₁ ≡ (w₂, true)
      → verify d fl wr register value m.trusted w₂ ≡ (w₃, trusted, result)
      → result.err ≡ some e
      → send_command d fl wr (command_of register value) w₃ ≡ (w₄, some e₂)
      → (m₂ : Memory F) × (loop_of topic register value m w ≡ stopped m₂ w₄ (some (wrap e₂)))
        × (m₂.last_command topic ≡ some (record { value = itoa value; at = d.clock.now w₁ }))
  unfolding write_loop after_send after_settle after_verify next_write_sequence remember_sent
  resend_failed topic register value m w w₁ w₂ w₃ w₄ trusted result e e₂ a b c x z =
      let command = command_of register value in
      let again = write_loop d fl wr 1 topic register value command in
      let m₀ = counted register m w in
      let m₁ = remember_sent (d.clock.now w₁) topic (itoa value) m₀ in
      let m₂ : Memory F = record m₁ { trusted = trusted } in
      (
        m₂,
        ap (after_send d fl wr again topic register value m₀) a
            ∙ (ap (after_settle d fl wr again register value m₁) b
                ∙ (ap (after_verify d fl wr again m₁) c
                    ∙ (ap
                          (λ (o : Option Err). elim o [
                            | none ↦ judged m₂ w₃ result
                            | some y ↦ again result m₂ w₃
                          ])
                          x
                        ∙ ap
                            (after_send d fl wr (write_loop d fl wr 0 topic register value command)
                              topic register value m₂)
                            z))),
        rw (eq_bytes_refl topic) refl,
      )

  -- A command that is sent again after a read-back that disagreed, and whose second send fails, is an
  -- error; an identical command is dropped all the same until the window is over.
  pub apply_command-resend_failed :
      (topic : Bytes) (register : WriteRegister) (value : ℤ) (m : Memory F) (w w₁ w₂ w₃ w₄ : W)
      (trusted : Map F) (result : WriteResult) (e e₂ : Err)
      → send_command d fl wr (command_of register value) w ≡ (w₁, none)
      → sleep_ctx d.clock wr.settle_delay w₁ ≡ (w₂, true)
      → verify d fl wr register value m.trusted w₂ ≡ (w₃, trusted, result)
      → result.err ≡ some e
      → send_command d fl wr (command_of register value) w₃ ≡ (w₄, some e₂)
      → let (m', w', failed) = apply_command d fl wr topic register value m w in
        (failed ≡ some (wrap e₂))
        × ((window now : ℕ)
            → is_duplicate window now topic (itoa value) m' ≡ ltb (now - d.clock.now w₁) window)
  unfolding apply_command conclude next_write_sequence
  apply_command-resend_failed topic register value m w w₁ w₂ w₃ w₄ trusted result e e₂ a b c x z =
      let (m₂, stops, remembered) =
        resend_failed topic register value m w w₁ w₂ w₃ w₄ trusted result e e₂ a b c x z in
      let r = conclude d fl wr topic register value (loop_of topic register value m w) in
      let kept =
        schedule_refresh-last_command wr.resettle (d.clock.now r.1) register
          (next_write_sequence register.name m).1 r.0 in
      let same = ap (λ s. conclude d fl wr topic register value s) stops in
      let last = kept ∙ ap (λ (s : Memory F × W × Option Err). s.0.last_command) same in
      (
        ap (λ (s : Memory F × W × Option Err). s.2) same,
        λ window now.
            remembered-is_duplicate topic (itoa value) _ (d.clock.now w₁) window now
              (ap (λ (f : Map LastWrite). f topic) last ∙ remembered),
      )
