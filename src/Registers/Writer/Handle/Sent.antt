-- ===== src/Registers/Writer/Handle/Sent.antt =====
-- What one message makes internal/registers/writer.go do.
use aerosmart_gateway.Base.{
  ℕ, ◌+◌, ◌*◌, ◌%◌, ◌^◌, eq_bytes_refl, ◌≤◌, ◌<◌, ◌≡◌, ◌≢◌, refl, ap, ◌∙◌, ◌⊎◌, inl, inr, ◌||◌,
  Option, none, some, ◌++◌, Bytes, arith, Bool-cases, Option-cases, replicate,
}
use aerosmart_gateway.Base.Int.{ℤ, ltb_ℤ}
use aerosmart_gateway.Base.Decimal.{atoi, itoa}
use aerosmart_gateway.Base.Float.{Floats}
use aerosmart_gateway.Base.Text.{trim_space}
use aerosmart_gateway.Config.Types.{WriteRegister}
use aerosmart_gateway.Mqtt.Command.{parse_write_register_command}
use aerosmart_gateway.Serial.Errors.{Err}
use aerosmart_gateway.Registers.Device.{Device, Traffic, IsTraced}
use aerosmart_gateway.Registers.Writer.{
  Memory, Writer, WriteResult, find_topic, next_write_sequence, write_sequence, is_duplicate,
  schedule_refresh, write_attempts,
}
use aerosmart_gateway.Registers.Writer.Handle.{
  Writing, stopped, judged, write_loop, conclude, apply_command, handle_message,
}
use aerosmart_gateway.Base.Int.{◌≤ℤ◌}
use aerosmart_gateway.Registers.Gate.{preempt, release}
use aerosmart_gateway.Registers.Writer.Handle.Sending.{
  LoopSends, write_loop_sent, publish_state_sent,
}
use aerosmart_gateway.Registers.Writer.Handle.Frame.{
  memory, IsKept-trans, write_loop-IsKept, conclude-IsKept,
}

schedule_refresh_kept :
    {F : Type 0} (delay : Option ℕ) (now : ℕ) (register : WriteRegister) (seq : ℕ) (m : Memory F)
    → let m₁ = schedule_refresh delay now register seq m in
      (m₁.gate ≡ m.gate) × (m₁.write_seq ≡ m.write_seq)
unfolding schedule_refresh
schedule_refresh_kept none now register seq m = (refl, refl)
schedule_refresh_kept (some delay) now register seq m = (refl, refl)

next_write_sequence-gate :
    {F : Type 0} (name : Bytes) (m : Memory F) → (next_write_sequence name m).0.gate ≡ m.gate
unfolding next_write_sequence
next_write_sequence-gate name m = refl

next_write_sequence_self :
    {F : Type 0} (name : Bytes) (m : Memory F)
    → write_sequence (next_write_sequence name m).0.write_seq name
      ≡ (write_sequence m.write_seq name + 1) % 2 ^ 64
unfolding next_write_sequence write_sequence
next_write_sequence_self name m = rw (eq_bytes_refl name, write_sequence) refl

module _ {W F : Type 0} (d : Device W) (fl : Floats F) (wr : Writer F) (t : Traffic W) where
  -- A command was accepted: it went to the unit at most twice for each of the allowed attempts, as the
  -- template filled with the number, at least once if no error is returned; the gate was taken and
  -- released, and the register's commands were counted.
  abbrev pub Applied : WriteRegister → ℤ → Memory F → W → Memory F × W × Option Err → Type 0
  Applied register value m w (m₁, w₁, failed) =
      (n : ℕ) × (n ≤ 2 * wr.retries)
      × (t.sent w₁
          ≡ replicate n (parse_write_register_command register.command_template (itoa value))
            ++ t.sent w)
      × ((failed ≢ none) ⊎ (0 < n))
      × (m₁.gate ≡ release (preempt (d.clock.now w) m.gate).0)
      × (write_sequence m₁.write_seq register.name
          ≡ (write_sequence m.write_seq register.name + 1) % 2 ^ 64)

  -- What a message does: nothing, or it is a number in the register's range and its command is applied.
  pub Commanded : Bytes → Bytes → Memory F → W → Memory F × W × Option Err → Type 0
  Commanded topic message m w (m₁, w₁, failed) =
      ((m₁ ≡ m) × (w₁ ≡ w))
      ⊎ ((register : WriteRegister) × (value : ℤ) × (find_topic topic wr.registers ≡ some register)
          × (atoi (trim_space message) ≡ some value)
          × (register.min_value ≤ℤ value)
          × (value ≤ℤ register.max_value)
          × Applied register value m w (m₁, w₁, failed))

  module _ (traced : IsTraced d t) (attempts : 0 < wr.retries) where
    conclude_sent :
        (topic : Bytes) (register : WriteRegister) (value : ℤ) (command : Bytes) (k : ℕ) (w : W)
        (r : Writing W F)
        → 0 < k
        → LoopSends d fl wr t traced command k w r
        → let (m₁, w₁, failed) = conclude d fl wr topic register value r in
          (n : ℕ) × (n ≤ k * wr.retries)
          × (t.sent w₁ ≡ replicate n command ++ t.sent w)
          × ((failed ≢ none) ⊎ (0 < n))
    unfolding conclude
    conclude_sent topic register value command k w (stopped m w₁ e) h s = s
    conclude_sent topic register value command k w (judged m w₁ result) h (n, a, p, b) =
        let q = publish_state_sent d fl wr t traced register (itoa value) result w₁ in
        let reached : 0 < n = ground arith in
        elim (Option-cases result.err) [
          | inl e ↦ rw (e, conclude) (n, a, q ∙ p, inr reached)
          | inr (x, e) ↦ rw (e, conclude) (n, a, q ∙ p, inr reached)
        ]

    apply_command-Applied :
        (topic : Bytes) (register : WriteRegister) (value : ℤ) (m : Memory F) (w : W)
        → Applied register value m w (apply_command d fl wr topic register value m w)
    unfolding apply_command
    apply_command-Applied topic register value m w =
        let m₁ : Memory F = record m { gate = (preempt (d.clock.now w) m.gate).0 } in
        let command = parse_write_register_command register.command_template (itoa value) in
        let (m₂, seq) = next_write_sequence register.name m₁ in
        let unset : WriteResult = record { actual = none; err = none } in
        let r = write_loop d fl wr write_attempts topic register value command unset m₂ w in
        let (m₃, w₃, failed) = conclude d fl wr topic register value r in
        let (n, a, p, b) =
          conclude_sent topic register value command write_attempts w r (omega arith) (
            write_loop_sent d fl wr t traced write_attempts topic register value command unset m₂ w
              attempts) in
        let (same_gate, same_seq, _) =
          IsKept-trans m₂ (memory r) m₃
            (write_loop-IsKept d fl wr write_attempts topic register value command unset m₂ w)
            (conclude-IsKept d fl wr topic register value r) in
        let (late_gate, late_seq) =
          schedule_refresh_kept wr.resettle (d.clock.now w₃) register seq m₃ in
        (
          n,
          a,
          p,
          b,
          ap release (late_gate ∙ (same_gate ∙ next_write_sequence-gate register.name m₁)),
          ap (λ s. write_sequence s register.name) (late_seq ∙ same_seq)
              ∙ next_write_sequence_self register.name m₁,
        )

    -- A message changes nothing, or it is a number in the range of the register that its topic
    -- commands. Then the unit is sent nothing but the template filled with that number, at most twice
    -- the allowed attempts and, if no error is returned, at least once; whatever is returned, the gate
    -- has been taken and released, and the register's commands are counted.
    pub handle_message-Commanded :
        (topic message : Bytes) (m : Memory F) (w : W)
        → Commanded topic message m w (handle_message d fl wr topic message m w)
    unfolding handle_message Commanded
    handle_message-Commanded topic message m w =
        elim (Option-cases (find_topic topic wr.registers)) [
          | inl p ↦ rw (p, handle_message) (inl (refl, refl))
          | inr (register, p) ↦
              rw (p, handle_message)
                (elim (Option-cases (atoi (trim_space message))) [
                  | inl q ↦ rw (q, handle_message) (inl (refl, refl))
                  | inr (value, q) ↦
                      rw (q, handle_message)
                        (elim (Bool-cases
                          (ltb_ℤ value register.min_value || ltb_ℤ register.max_value value)) [
                            | inl a ↦ rw (a, handle_message) (inl (refl, refl))
                            | inr a ↦
                                rw (a, handle_message)
                                  (elim (Bool-cases (
                                    is_duplicate wr.dedupe_window (d.clock.now w) topic (itoa value)
                                      m)) [
                                        | inl b ↦ rw (b, handle_message) (inl (refl, refl))
                                        | inr b ↦
                                            rw (b, handle_message)
                                              (inr (
                                                register,
                                                value,
                                                refl,
                                                refl,
                                                ground arith,
                                                ground arith,
                                                apply_command-Applied topic register value m w,
                                              ))
                                      ])
                          ])
                ])
        ]
