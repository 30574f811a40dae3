-- ===== src/Registers/Cycle/Snapshot.antt =====
-- What a read cycle of poller.go publishes, and when it publishes nothing.
use mathlib.Core.List.{Memᴰ}
use aerosmart_gateway.Base.{
  ◌≡◌, refl, ap, ◌∙◌, ◌⊎◌, inl, inr, true, Option, none, some, List, [], Bytes, Map, Option-cases,
}
use aerosmart_gateway.Base.Float.{Floats}
use aerosmart_gateway.Config.Types.{WriteRegister, DerivedRegister}
use aerosmart_gateway.Serial.Errors.{Err}
use aerosmart_gateway.Registers.Device.{Device, Traffic, IsTraced}
use aerosmart_gateway.Registers.Values.{RegisterValue, Values, lookup}
use aerosmart_gateway.Registers.Derived.{calculate, find_topic}
use aerosmart_gateway.Registers.Cycle.{
  Poller, read_all, publish_all, publish_write_states, topic_in, publish_derived, publish_cycle,
  cycle_body, unless_preempted,
}
use aerosmart_gateway.Registers.Cycle.Published.{
  Grew, Grew-trans, publish_all-Grew, publish_write_states-Grew, read_registers_published,
}

-- A message with a valid value of these.
abbrev pub IsEntry : Values → (Bytes → Option Bytes) → Bytes × Bytes → Type 0
IsEntry values topic_of (topic, value) =
    (name : Bytes) × (v : RegisterValue) × Memᴰ (name, v) values
    × (v.valid ≡ true)
    × (topic_of name ≡ some topic)
    × (value ≡ v.value)

-- The state of a write register, with the valid value of its state_from.
abbrev pub IsState : Values → List WriteRegister → Bytes × Bytes → Type 0
IsState values regs (topic, value) =
    (reg : WriteRegister) × (v : RegisterValue) × Memᴰ reg regs
    × (lookup reg.state_from values ≡ some v)
    × (v.valid ≡ true)
    × (topic ≡ reg.topic)
    × (value ≡ v.value)

-- A derived value that is computed from these.
abbrev pub IsDerived :
    {F : Type 0} → Floats F → Values → Option (List DerivedRegister) → Bytes × Bytes → Type 0
IsDerived fl values none message = ⊥
IsDerived fl values (some regs) message =
    IsEntry (calculate fl regs values) (λ name. find_topic name regs) message

module _ {W F : Type 0} (d : Device W) (fl : Floats F) (visit : W → Values → Values) (p : Poller F)
    (t : Traffic W) where
  -- A message that the snapshot accounts for.
  abbrev pub FromSnapshot : Values → Bytes × Bytes → Type 0
  FromSnapshot values message =
      IsEntry values (topic_in p.reader.registers) message
      ⊎ (IsState values p.write_registers message ⊎ IsDerived fl values p.derived message)

  module _ (traced : IsTraced d t)
      (visited : (w : W) (vs : Values) (e : Bytes × RegisterValue)
        → Memᴰ e (visit w vs)
        → Memᴰ e vs) where
    publish_derived-Grew :
        (P : Bytes × Bytes → Type 0) (regs : Option (List DerivedRegister)) (values : Values)
        (w : W)
        → ((message : Bytes × Bytes) → IsDerived fl values regs message → P message)
        → Grew d t P w (publish_derived d fl visit p regs values w)
    unfolding publish_derived
    publish_derived-Grew P none values w good = ([], refl, tt)
    publish_derived-Grew P (some regs) values w good =
        publish_all-Grew d t traced P (λ name. find_topic name regs)
          (visit w (calculate fl regs values)) (record { world = w; err = none })
          (λ name v topic m a b.
            good (topic, v.value) (name, v, visited w (calculate fl regs values) _ m, a, b, refl))

    unless_preempted-Grew :
        (P : Bytes × Bytes → Type 0) (w w₁ : W) (rest : W × Option Err)
        → Grew d t P w w₁
        → Grew d t P w rest.0
        → Grew d t P w (unless_preempted d fl visit p w₁ rest).0
    unfolding unless_preempted
    unless_preempted-Grew P w w₁ rest stop go = elim (Option-cases (d.clock.ctx_err w₁)) [
      | inr (e, a) ↦ rw (a, unless_preempted) stop
      | inl a ↦ rw (a, unless_preempted) go
    ]

    publish_cycle-Grew :
        (values : Values) (w : W)
        → Grew d t (FromSnapshot values) w (publish_cycle d fl visit p values w).0
    unfolding publish_cycle
    publish_cycle-Grew values w =
        let P = FromSnapshot values in
        let w₁ =
          (publish_all d (topic_in p.reader.registers) (visit w values)
            (record { world = w; err = none })).world in
        let w₂ = publish_write_states d values p.write_registers w₁ in
        let w₃ = publish_derived d fl visit p p.derived values w₂ in
        let first : Grew d t P w w₁ =
          publish_all-Grew d t traced P (topic_in p.reader.registers) (visit w values)
            (record { world = w; err = none })
            (λ name v topic m a b. inl (name, v, visited w values _ m, a, b, refl)) in
        let second : Grew d t P w w₂ = Grew-trans d t P w w₁ w₂ first (
          publish_write_states-Grew d t traced P values p.write_registers w₁
            (λ reg v m a b. inr (inl (reg, v, m, a, b, refl, refl)))) in
        let third : Grew d t P w w₃ =
          Grew-trans d t P w w₂ w₃ second
            (publish_derived-Grew P p.derived values w₂ (λ message h. inr (inr h))) in
        unless_preempted-Grew P w w _ ([], refl, tt)
          (unless_preempted-Grew P w w₁ _ first
            (unless_preempted-Grew P w w₂ _ second (unless_preempted-Grew P w w₃ _ third third)))

    publish_cycle-ended :
        (values : Values) (w : W)
        → (d.clock.ctx_err w ≡ none) ⊎ ((publish_cycle d fl visit p values w).0 ≡ w)
    unfolding publish_cycle unless_preempted
    publish_cycle-ended values w = elim (Option-cases (d.clock.ctx_err w)) [
      | inr (e, a) ↦ inr (rw (a, publish_cycle, unless_preempted) refl)
      | inl a ↦ inl a
    ]

    read_all_published :
        (trusted : Map F) (w : W)
        → t.published (read_all d fl p.reader trusted w).world ≡ t.published w
    unfolding read_all
    read_all_published trusted w =
        read_registers_published d t fl traced p.reader p.reader.registers trusted [] w

    -- What a cycle publishes is of its own snapshot: each message is a value that this cycle read as
    -- valid, to its register's topic or as the state of a write register, or is a derived value that
    -- was computed from the snapshot. A cycle whose reads failed, or that was preempted before it
    -- began to publish, publishes nothing.
    pub cycle_body-FromSnapshot :
        (trusted : Map F) (w : W)
        → let r = read_all d fl p.reader trusted w in
          let w₁ = (cycle_body d fl visit p trusted w).0 in
          Grew d t (FromSnapshot r.values) w w₁
          × (((r.err ≡ none) × (d.clock.ctx_err r.world ≡ none)) ⊎ (t.published w₁ ≡ t.published w))
    unfolding cycle_body
    cycle_body-FromSnapshot trusted w =
        let r = read_all d fl p.reader trusted w in
        let quiet = read_all_published trusted w in
        elim (Option-cases r.err) [
          | inr (e, a) ↦ rw (a, cycle_body) (([], quiet, tt), inr quiet)
          | inl a ↦
              let w₁ = (publish_cycle d fl visit p r.values r.world).0 in
              rw (a, cycle_body)
                (
                  Grew-trans d t (FromSnapshot r.values) w r.world w₁ ([], quiet, tt)
                      (publish_cycle-Grew r.values r.world),
                  elim (publish_cycle-ended r.values r.world) [
                    | inl live ↦ inl (refl, live)
                    | inr same ↦ inr (ap t.published same ∙ quiet)
                  ],
                )
        ]
