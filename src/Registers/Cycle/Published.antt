-- ===== src/Registers/Cycle/Published.antt =====
-- What the loops of a read cycle publish.
use mathlib.Core.List.{Memᴰ}
use aerosmart_gateway.Base.{
  ◌≡◌, refl, sym, ap, ◌∙◌, inl, inr, true, ◌||◌, Option, some, List, [], ◌∷◌, ◌++◌, append_assoc,
  Bytes, is_empty, Map, All, All-append, Bool-cases, Option-cases,
}
use aerosmart_gateway.Base.Float.{Floats}
use aerosmart_gateway.Config.Types.{ReadRegister, WriteRegister}
use aerosmart_gateway.Serial.Errors.{Result, ok, err, is_cancellation}
use aerosmart_gateway.Registers.Device.{Device, Traffic, IsTraced}
use aerosmart_gateway.Registers.Reader.{Reader, read_single_raw}
use aerosmart_gateway.Registers.Reader.Untouched.{read_single_raw_untouched}
use aerosmart_gateway.Registers.Values.{RegisterValue, Values, lookup}
use aerosmart_gateway.Registers.Cycle.{
  Readout, Publishing, after_reading, read_registers, publish_entry, publish_all,
  publish_write_state, publish_write_states,
}

module _ {W : Type 0} (d : Device W) (t : Traffic W) where
  -- Between two worlds, nothing but messages of this kind has been published.
  abbrev pub Grew : (Bytes × Bytes → Type 0) → W → W → Type 0
  Grew P w w₁ = (new : List (Bytes × Bytes)) × (t.published w₁ ≡ new ++ t.published w) × All P new

  pub Grew-trans :
      (P : Bytes × Bytes → Type 0) (w w₁ w₂ : W) → Grew P w w₁ → Grew P w₁ w₂ → Grew P w w₂
  Grew-trans P w w₁ w₂ (a, p, g) (b, q, h) = (
    b ++ a,
    q ∙ (ap (λ l. b ++ l) p ∙ sym (append_assoc b a (t.published w))),
    All-append P b a h g,
  )

  module _ (traced : IsTraced d t) where
    publish_entry-Grew :
        (P : Bytes × Bytes → Type 0) (topic_of : Bytes → Option Bytes) (name : Bytes)
        (v : RegisterValue) (p : Publishing W)
        → ((topic : Bytes) → v.valid ≡ true → topic_of name ≡ some topic → P (topic, v.value))
        → Grew P p.world (publish_entry d topic_of name v p).world
    unfolding publish_entry
    publish_entry-Grew P topic_of name v p good = elim (Bool-cases v.valid) [
      | inr a ↦ rw (a, publish_entry) ([], refl, tt)
      | inl a ↦
          rw (a, publish_entry)
            (elim (Option-cases (topic_of name)) [
              | inl b ↦ rw (b, publish_entry) ([], refl, tt)
              | inr (topic, b) ↦
                  rw (b, publish_entry)
                    (elim (Bool-cases (is_empty topic)) [
                      | inl c ↦ rw (c, publish_entry) ([], refl, tt)
                      | inr c ↦
                          rw (c, publish_entry)
                            (
                              (topic, v.value) ∷ [],
                              traced.publish_published topic v.value p.world,
                              (good topic a b, tt),
                            )
                    ])
            ])
    ]

    pub publish_all-Grew :
        (P : Bytes × Bytes → Type 0) (topic_of : Bytes → Option Bytes) (values : Values)
        (p : Publishing W)
        → ((name : Bytes) (v : RegisterValue) (topic : Bytes)
            → Memᴰ (name, v) values
            → v.valid ≡ true
            → topic_of name ≡ some topic
            → P (topic, v.value))
        → Grew P p.world (publish_all d topic_of values p).world
    unfolding publish_all
    publish_all-Grew P topic_of [] p good = ([], refl, tt)
    publish_all-Grew P topic_of ((name, v) ∷ values) p good =
        elim (Option-cases (d.clock.ctx_err p.world)) [
          | inr (e, a) ↦ rw (a, publish_all) ([], refl, tt)
          | inl a ↦
              let p₁ = publish_entry d topic_of name v p in
              rw (a, publish_all)
                (Grew-trans P p.world p₁.world (publish_all d topic_of values p₁).world
                  (publish_entry-Grew P topic_of name v p
                    (λ topic. good name v topic (Memᴰ.head refl)))
                  (publish_all-Grew P topic_of values p₁
                    (λ n u topic m. good n u topic (Memᴰ.tail m))))
        ]

    publish_write_state-Grew :
        (P : Bytes × Bytes → Type 0) (values : Values) (reg : WriteRegister) (w : W)
        → ((v : RegisterValue)
            → lookup reg.state_from values ≡ some v
            → v.valid ≡ true
            → P (reg.topic, v.value))
        → Grew P w (publish_write_state d values reg w)
    unfolding publish_write_state
    publish_write_state-Grew P values reg w good =
        elim (Bool-cases (is_empty reg.state_from || is_empty reg.topic)) [
          | inl a ↦ rw (a, publish_write_state) ([], refl, tt)
          | inr a ↦
              rw (a, publish_write_state)
                (elim (Option-cases (lookup reg.state_from values)) [
                  | inl b ↦ rw (b, publish_write_state) ([], refl, tt)
                  | inr (v, b) ↦
                      rw (b, publish_write_state)
                        (elim (Bool-cases v.valid) [
                          | inr c ↦ rw (c, publish_write_state) ([], refl, tt)
                          | inl c ↦
                              rw (c, publish_write_state)
                                (
                                  (reg.topic, v.value) ∷ [],
                                  traced.publish_published reg.topic v.value w,
                                  (good v b c, tt),
                                )
                        ])
                ])
        ]

    pub publish_write_states-Grew :
        (P : Bytes × Bytes → Type 0) (values : Values) (regs : List WriteRegister) (w : W)
        → ((reg : WriteRegister) (v : RegisterValue)
            → Memᴰ reg regs
            → lookup reg.state_from values ≡ some v
            → v.valid ≡ true
            → P (reg.topic, v.value))
        → Grew P w (publish_write_states d values regs w)
    unfolding publish_write_states
    publish_write_states-Grew P values [] w good = ([], refl, tt)
    publish_write_states-Grew P values (reg ∷ regs) w good =
        elim (Option-cases (d.clock.ctx_err w)) [
          | inr (e, a) ↦ rw (a, publish_write_states) ([], refl, tt)
          | inl a ↦
              let w₁ = publish_write_state d values reg w in
              rw (a, publish_write_states)
                (Grew-trans P w w₁ (publish_write_states d values regs w₁)
                  (publish_write_state-Grew P values reg w (λ v. good reg v (Memᴰ.head refl)))
                  (publish_write_states-Grew P values regs w₁ (λ r v m. good r v (Memᴰ.tail m))))
        ]

  -- Reading publishes nothing.
  module _ {F : Type 0} (fl : Floats F) (traced : IsTraced d t) where
    after_reading_published :
        (w : W) (reg : ReadRegister F) (values : Values) (more : Map F → Values → W → Readout W F)
        (r : W × Map F × Result (Bytes × Bytes))
        → t.published r.0 ≡ t.published w
        → ((m : Map F) (vs : Values) (w₁ : W) → t.published (more m vs w₁).world ≡ t.published w₁)
        → t.published (after_reading d fl reg values more r).world ≡ t.published w
    unfolding after_reading
    after_reading_published w reg values more (w₁, m, ok (value, raw)) p rest = rest m _ w₁ ∙ p
    after_reading_published w reg values more (w₁, m, err e) p rest =
        elim (Bool-cases (is_cancellation e)) [
          | inl a ↦ rw (a, after_reading) p
          | inr a ↦ rw (a, after_reading) (rest m _ w₁ ∙ p)
        ]

    pub read_registers_published :
        (reader : Reader F) (regs : List (ReadRegister F)) (trusted : Map F) (values : Values)
        (w : W)
        → t.published (read_registers d fl reader regs trusted values w).world ≡ t.published w
    unfolding read_registers
    read_registers_published reader [] trusted values w = refl
    read_registers_published reader (reg ∷ regs) trusted values w =
        elim (Option-cases (d.clock.ctx_err w)) [
          | inr (e, a) ↦ rw (a, read_registers) refl
          | inl a ↦
              rw (a, read_registers)
                (after_reading_published w reg values (read_registers d fl reader regs)
                  (read_single_raw d fl reg reader trusted w)
                  (read_single_raw_untouched d t.published traced.published_untouched fl reg reader
                    trusted w)
                  (λ m vs w₁. read_registers_published reader regs m vs w₁))
        ]
