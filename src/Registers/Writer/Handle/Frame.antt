-- ===== src/Registers/Writer/Handle/Frame.antt =====
-- What the loop of writer.go's HandleMessage leaves alone of the memory it shares.
use aerosmart_gateway.Base.{
  ℕ, zero, suc, ◌≡◌, refl, ◌∙◌, inl, inr, Bool, true, false, Option, none, some, Bytes, eq_bytes,
  Map, Bool-cases, Option-cases,
}
use aerosmart_gateway.Base.Int.{ℤ}
use aerosmart_gateway.Base.Decimal.{itoa}
use aerosmart_gateway.Base.Float.{Floats}
use aerosmart_gateway.Config.Types.{WriteRegister}
use aerosmart_gateway.Serial.Errors.{Err}
use aerosmart_gateway.Serial.World.{sleep_ctx}
use aerosmart_gateway.Registers.Device.{Device}
use aerosmart_gateway.Registers.Writer.{Memory, Writer, WriteResult, remember_sent, forget_sent}
use aerosmart_gateway.Registers.Writer.Command.{send_command, verify}
use aerosmart_gateway.Registers.Writer.Handle.{
  Writing, stopped, judged, after_verify, after_settle, after_send, write_loop, conclude,
}

-- The gate, the sequence numbers and the pending re-reads are as they were.
abbrev pub IsKept : {F : Type 0} → Memory F → Memory F → Type 0
IsKept m m₁ = (m₁.gate ≡ m.gate) × (m₁.write_seq ≡ m.write_seq) × (m₁.pending ≡ m.pending)

abbrev pub memory : {W F : Type 0} → Writing W F → Memory F
memory (stopped m w e) = m
memory (judged m w result) = m

pub IsKept-trans : {F : Type 0} (m m₁ m₂ : Memory F) → IsKept m m₁ → IsKept m₁ m₂ → IsKept m m₂
IsKept-trans m m₁ m₂ (a, b, c) (x, y, z) = (x ∙ a, y ∙ b, z ∙ c)

module _ {W F : Type 0} (d : Device W) (fl : Floats F) (wr : Writer F) where
  module _ (again : WriteResult → Memory F → W → Writing W F)
      (rest : (result : WriteResult) (m : Memory F) (w : W)
        → IsKept m (memory (again result m w))) where
    after_verify-IsKept :
        (m : Memory F) (r : W × Map F × WriteResult)
        → IsKept m (memory (after_verify d fl wr again m r))
    unfolding after_verify
    after_verify-IsKept m (w, trusted, result) = elim (Option-cases result.err) [
      | inl q ↦ rw (q, after_verify) (refl, refl, refl)
      | inr (e, q) ↦ rw (q, after_verify) (rest result (record m { trusted = trusted }) w)
    ]

    after_settle-IsKept :
        (register : WriteRegister) (value : ℤ) (m : Memory F) (r : W × Bool)
        → IsKept m (memory (after_settle d fl wr again register value m r))
    unfolding after_settle
    after_settle-IsKept register value m (w, false) = (refl, refl, refl)
    after_settle-IsKept register value m (w, true) =
        after_verify-IsKept m (verify d fl wr register value m.trusted w)

    after_send-IsKept :
        (topic : Bytes) (register : WriteRegister) (value : ℤ) (m : Memory F) (r : W × Option Err)
        → IsKept m (memory (after_send d fl wr again topic register value m r))
    unfolding after_send remember_sent
    after_send-IsKept topic register value m (w, some e) = (refl, refl, refl)
    after_send-IsKept topic register value m (w, none) =
        after_settle-IsKept register value (remember_sent (d.clock.now w) topic (itoa value) m)
          (sleep_ctx d.clock wr.settle_delay w)

  pub write_loop-IsKept :
      (k : ℕ) (topic : Bytes) (register : WriteRegister) (value : ℤ) (command : Bytes)
      (last : WriteResult) (m : Memory F) (w : W)
      → IsKept m (memory (write_loop d fl wr k topic register value command last m w))
  unfolding write_loop
  write_loop-IsKept zero topic register value command last m w = (refl, refl, refl)
  write_loop-IsKept (suc k) topic register value command last m w =
      after_send-IsKept (write_loop d fl wr k topic register value command)
        (λ result m₁ w₁. write_loop-IsKept k topic register value command result m₁ w₁) topic
        register value m (send_command d fl wr command w)

  forget_sent-IsKept : (topic value : Bytes) (m : Memory F) → IsKept m (forget_sent topic value m)
  unfolding forget_sent
  forget_sent-IsKept topic value m = elim (Option-cases (m.last_command topic)) [
    | inl p ↦ rw (p, forget_sent) (refl, refl, refl)
    | inr (last, p) ↦
        rw (p, forget_sent)
          (elim (Bool-cases (eq_bytes last.value value)) [
            | inl q ↦ rw q (refl, refl, refl)
            | inr q ↦ rw q (refl, refl, refl)
          ])
  ]

  pub conclude-IsKept :
      (topic : Bytes) (register : WriteRegister) (value : ℤ) (r : Writing W F)
      → IsKept (memory r) (conclude d fl wr topic register value r).0
  unfolding conclude
  conclude-IsKept topic register value (stopped m w e) = (refl, refl, refl)
  conclude-IsKept topic register value (judged m w result) = elim (Option-cases result.err) [
    | inl q ↦ rw (q, conclude) (refl, refl, refl)
    | inr (e, q) ↦ rw (q, conclude) (forget_sent-IsKept topic (itoa value) m)
  ]
