-- ===== src/Registers/Writer/Refresh.antt =====
-- internal/registers/writer.go: refreshIfCurrent. `current` is what WriteSequence answers for the
-- register in a state of the world: other goroutines may accept a command in between.
use aerosmart_gateway.Base.{
  ℕ, ◌≡◌, ◌≢◌, ◌⊎◌, ◌||◌, not, Option, none, some, ◌∷◌, Bytes, is_empty, if◌then◌else◌, ◌==◌,
}
use aerosmart_gateway.Base.Float.{Floats}
use aerosmart_gateway.Config.Types.{WriteRegister}
use aerosmart_gateway.Registers.Gate.{preempt, release}
use aerosmart_gateway.Registers.Device.{Device, Traffic}
use aerosmart_gateway.Registers.Writer.{Memory, Writer}
use aerosmart_gateway.Registers.Writer.Command.{Gathered, read_back_if_current}

module _ {W F : Type 0} (d : Device W) (fl : Floats F) (wr : Writer F) where
  -- What follows the read-back.
  unfoldable pub publish_settled : (W → ℕ) → WriteRegister → ℕ → Option Gathered → W → W
  publish_settled current register seq none w = w
  publish_settled current register seq (some g) w =
      if is_empty register.state_from || is_empty register.topic
      then w
      else (elim (g.values register.state_from) [
        | none ↦ w
        | some actual ↦
            if not (current w == seq) then w else (d.publisher.publish register.topic actual w).0
      ])

  -- refreshIfCurrent
  unfoldable pub refresh_if_current : (W → ℕ) → WriteRegister → ℕ → Memory F → W → Memory F × W
  unfolding publish_settled
  refresh_if_current current register seq m w =
      if not (current w == seq)
      then (m, w)
      else (let gate = (preempt (d.clock.now w) m.gate).0 in
          let (w₁, trusted, gathered) =
            read_back_if_current d fl wr current seq register m.trusted w in
          (
            record m { trusted = trusted; gate = release gate },
            publish_settled current register seq gathered w₁,
          ))

  module _ (t : Traffic W) where
    -- What a re-read does, `w₂` being the world behind its reads.
    pub Settled : (W → ℕ) → WriteRegister → ℕ → Memory F → W → Memory F × W → Type 0
    Settled current register seq m w (m₁, w₁) =
        ((current w ≢ seq) × (m₁ ≡ m) × (w₁ ≡ w))
        ⊎ ((current w ≡ seq)
            × (m₁.gate ≡ release (preempt (d.clock.now w) m.gate).0)
            × (m₁.write_seq ≡ m.write_seq)
            × (m₁.last_command ≡ m.last_command)
            × (m₁.pending ≡ m.pending)
            × (t.sent w₁ ≡ t.sent w)
            × ((w₂ : W) × (t.sent w₂ ≡ t.sent w)
                × ((w₁ ≡ w₂)
                    ⊎ ((actual : Bytes) × (current w₂ ≡ seq)
                        × (t.published w₁ ≡ (register.topic, actual) ∷ t.published w₂)))))
