-- ===== src/Registers/Writer/Handle/Sending.antt =====
-- What the loop of writer.go's HandleMessage sends to the unit.
use aerosmart_gateway.Base.{
  ℕ, zero, suc, ◌+◌, ◌*◌, ◌≤◌, ◌<◌, ◌≡◌, ◌≢◌, refl, ap, ◌∙◌, ◌⊎◌, inl, inr, ◌&&◌, not, Bool, true,
  false, Option, none, some, List, [], ◌∷◌, ◌++◌, Bytes, is_empty, is_some, Map, ◌==◌, arith,
  Bool-cases, Option-cases, replicate, replicate-append,
}
use native.Mathlib.Nat.{suc-mul}
use aerosmart_gateway.Base.Int.{ℤ}
use aerosmart_gateway.Base.Decimal.{itoa}
use aerosmart_gateway.Base.Float.{Floats}
use aerosmart_gateway.Config.Types.{ReadRegister, WriteRegister}
use aerosmart_gateway.Serial.Errors.{Err, Result, ok, err, is_cancellation}
use aerosmart_gateway.Serial.World.{sleep_ctx}
use aerosmart_gateway.Registers.Device.{Device, Traffic, IsTraced}
use aerosmart_gateway.Registers.Reader.{Reader, find_register, read_single_raw}
use aerosmart_gateway.Registers.Reader.Untouched.{sleep_ctx_untouched, read_single_raw_untouched}
use aerosmart_gateway.Registers.Writer.{Memory, Writer, WriteResult, remember_sent}
use aerosmart_gateway.Registers.Writer.Command.{
  Gathered, send_pause, send_attempts, send_command, take_reading, read_back_one, read_back_loop,
  read_back_if_current, read_back_with, no_values, read_back, read_back_names, verify,
  publish_state,
}
use aerosmart_gateway.Registers.Writer.Handle.{
  Writing, stopped, judged, after_verify, after_settle, after_send, write_loop,
}

module _ {W F : Type 0} (d : Device W) (fl : Floats F) (wr : Writer F) (t : Traffic W)
    (traced : IsTraced d t) where
  -- At most `limit` calls of Send with this command.
  abbrev Sends : Bytes → ℕ → W → W → Type 0
  Sends command limit w w₁ = (n : ℕ) × (n ≤ limit) × (t.sent w₁ ≡ replicate n command ++ t.sent w)

  more-Sends :
      (command : Bytes) (j k : ℕ) (w w₁ w₂ : W)
      → Sends command j w w₁
      → Sends command k w₁ w₂
      → Sends command (j + k) w w₂
  more-Sends command j k w w₁ w₂ (n, a, p) (i, b, q) = (
    i + n,
    omega arith,
    q ∙ ap (λ l. replicate i command ++ l) p ∙ replicate-append i n command (t.sent w),
  )

  send_pause_sent : (first : Bool) (w : W) → t.sent (send_pause d fl wr first w).0 ≡ t.sent w
  unfolding send_pause
  send_pause_sent true w = refl
  send_pause_sent false w = sleep_ctx_untouched d t.sent traced.sent_untouched wr.backoff w

  send_pause_first : (first : Bool) (w : W) → (send_pause d fl wr first w).1 ≡ false → first ≡ false
  unfolding send_pause
  send_pause_first true w h = cc
  send_pause_first false w h = refl

  -- The same of a call that says what went wrong, if anything did.
  abbrev Reaches : Bool → Bytes → ℕ → W → W × Option Err → Type 0
  Reaches first command limit w (w₁, failed) =
      (n : ℕ) × (n ≤ limit)
      × (t.sent w₁ ≡ replicate n command ++ t.sent w)
      × ((first ≡ false) ⊎ ((limit ≡ 0) ⊎ ((failed ≢ none) ⊎ (0 < n))))

  send_attempts_sent :
      (n : ℕ) (first : Bool) (last : Option Err) (command : Bytes) (w : W)
      → Reaches first command n w (send_attempts d fl wr n first last command w)
  unfolding send_attempts
  send_attempts_sent zero first last command w = (0, omega arith, refl, inr (inl refl))
  send_attempts_sent (suc n) first last command w =
      let w₁ = (send_pause d fl wr first w).0 in
      let w₂ = (d.dev.send command w₁).0 in
      let quiet = send_pause_sent first w in
      let once : t.sent w₂ ≡ command ∷ t.sent w =
        traced.send_sent command w₁ ∙ ap (λ l. command ∷ l) quiet in
      elim (Option-cases (d.clock.ctx_err w)) [
        | inr (e, p) ↦ rw (p, send_attempts) (0, omega arith, refl, inr (inr (inl (λ h. cc))))
        | inl p ↦
            rw (p, send_attempts)
              (elim (Bool-cases (send_pause d fl wr first w).1) [
                | inr s ↦
                    rw (s, send_attempts) (0, omega arith, quiet, inl (send_pause_first first w s))
                | inl s ↦
                    rw (s, send_attempts)
                      (elim (Option-cases (d.dev.send command w₁).1) [
                        | inl q ↦
                            rw (q, send_attempts)
                              (1, omega arith, once, inr (inr (inr (omega arith))))
                        | inr (e, q) ↦
                            rw (q, send_attempts)
                              (elim (Bool-cases (is_cancellation e)) [
                                | inl c ↦
                                    rw (c, send_attempts)
                                      (1, omega arith, once, inr (inr (inr (omega arith))))
                                | inr c ↦
                                    let (k, b, r, _) =
                                      send_attempts_sent n false (some e) command w₂ in
                                    rw (c, send_attempts)
                                      (
                                        k + 1,
                                        omega arith,
                                        (r ∙ ap (λ l. replicate k command ++ l) once)
                                            ∙ replicate-append k 1 command (t.sent w),
                                        inr (inr (inr (omega arith))),
                                      )
                              ])
                      ])
              ])
      ]

  read_back_one_sent :
      (reader : Reader F) (name : Bytes) (trusted : Map F) (g : Gathered) (w : W)
      → t.sent (read_back_one d fl wr reader name trusted g w).0 ≡ t.sent w
  unfolding read_back_one
  read_back_one_sent reader name trusted g w =
      elim (Option-cases (find_register name reader.registers)) [
        | inl p ↦ rw (p, read_back_one) refl
        | inr (reg, p) ↦
            rw (p, read_back_one)
              (taken reg (read_single_raw d fl reg reader trusted w)
                ∙ read_single_raw_untouched d t.sent traced.sent_untouched fl reg reader trusted w)
      ]
    where
      taken :
          (reg : ReadRegister F) (r : W × Map F × Result (Bytes × Bytes))
          → t.sent (take_reading d fl wr name reg g r).0 ≡ t.sent r.0
      taken reg (w₁, m, err e) = unfold take_reading in refl
      taken reg (w₁, m, ok (checked, raw)) =
          unfold take_reading in
          elim (Bool-cases (is_empty reg.topic)) [
            | inl p ↦ rw p refl
            | inr p ↦ rw p (traced.publish_sent reg.topic checked w₁)
          ]

  read_back_loop_sent :
      (current : W → ℕ) (seq : ℕ) (reader : Reader F) (names : List Bytes) (trusted : Map F)
      (g : Gathered) (w : W)
      → t.sent (read_back_loop d fl wr current seq reader names trusted g w).0 ≡ t.sent w
  unfolding read_back_loop
  read_back_loop_sent current seq reader [] trusted g w = refl
  read_back_loop_sent current seq reader (name ∷ names) trusted g w =
      elim (Bool-cases (is_some (g.values name))) [
        | inl p ↦ rw (p, read_back_loop) (read_back_loop_sent current seq reader names trusted g w)
        | inr p ↦
            let (w₁, trusted₁, g₁) = read_back_one d fl wr reader name trusted g w in
            rw (p, read_back_loop)
              (elim (Bool-cases (not (seq == 0) && not (current w == seq))) [
                | inl q ↦ rw (q, read_back_loop) refl
                | inr q ↦
                    rw (q, read_back_loop)
                      (read_back_loop_sent current seq reader names trusted₁ g₁ w₁
                        ∙ read_back_one_sent reader name trusted g w)
              ])
      ]

  pub read_back_with_sent :
      (reader : Option (Reader F)) (current : W → ℕ) (seq : ℕ) (register : WriteRegister)
      (trusted : Map F) (w : W)
      → t.sent (read_back_with d fl wr reader current seq register trusted w).0 ≡ t.sent w
  unfolding read_back_with
  read_back_with_sent none current seq register trusted w = refl
  read_back_with_sent (some reader) current seq register trusted w =
      elim (Bool-cases (is_empty (read_back_names register))) [
        | inl q ↦ rw (q, read_back_with) refl
        | inr q ↦
            rw (q, read_back_with)
              (read_back_loop_sent current seq reader (read_back_names register) trusted
                (record { values = no_values; confirmed = false }) w)
      ]

  verify_sent :
      (register : WriteRegister) (value : ℤ) (trusted : Map F) (w : W)
      → t.sent (verify d fl wr register value trusted w).0 ≡ t.sent w
  unfolding verify read_back read_back_if_current
  verify_sent register value trusted w = read_back_with_sent wr.reader (λ w. 0) 0 register trusted w

  pub publish_state_sent :
      (register : WriteRegister) (commanded : Bytes) (result : WriteResult) (w : W)
      → t.sent (publish_state d fl wr register commanded result w) ≡ t.sent w
  unfolding publish_state
  publish_state_sent register commanded result w = elim (Bool-cases (is_empty register.topic)) [
    | inl p ↦ rw (p, publish_state) refl
    | inr p ↦
        rw (p, publish_state)
          (elim (Option-cases result.actual) [
            | inr (a, q) ↦ rw (q, publish_state) (traced.publish_sent register.topic a w)
            | inl q ↦
                rw (q, publish_state)
                  (elim (Bool-cases (is_empty register.state_from)) [
                    | inl e ↦ rw (e, publish_state) (traced.publish_sent register.topic commanded w)
                    | inr e ↦ rw (e, publish_state) refl
                  ])
          ])
  ]

  -- What the loop has sent; it sends at least once unless it returns an error.
  abbrev pub LoopSends : Bytes → ℕ → W → Writing W F → Type 0
  LoopSends command k w (stopped m w₁ e) =
      (n : ℕ) × (n ≤ k * wr.retries)
      × (t.sent w₁ ≡ replicate n command ++ t.sent w)
      × ((e ≢ none) ⊎ (0 < n))
  LoopSends command k w (judged m w₁ result) =
      (n : ℕ) × (n ≤ k * wr.retries)
      × (t.sent w₁ ≡ replicate n command ++ t.sent w)
      × ((k ≡ 0) ⊎ (0 < n))

  -- A round that has sent the command, and what follows it.
  more_loop :
      (command : Bytes) (k i : ℕ) (w w₁ : W) (r : Writing W F)
      → i ≤ wr.retries
      → 0 < i
      → t.sent w₁ ≡ replicate i command ++ t.sent w
      → LoopSends command k w₁ r
      → LoopSends command (suc k) w r
  more_loop command k i w w₁ (stopped m w₂ e) a b p (n, c, q, _) = (
    n + i,
    omega (arith, suc-mul k wr.retries),
    (q ∙ ap (λ l. replicate n command ++ l) p) ∙ replicate-append n i command (t.sent w),
    inr (omega arith),
  )
  more_loop command k i w w₁ (judged m w₂ result) a b p (n, c, q, _) = (
    n + i,
    omega (arith, suc-mul k wr.retries),
    (q ∙ ap (λ l. replicate n command ++ l) p) ∙ replicate-append n i command (t.sent w),
    inr (omega arith),
  )

  module _ (command : Bytes) (k : ℕ) (again : WriteResult → Memory F → W → Writing W F)
      (rest : (result : WriteResult) (m : Memory F) (w : W)
        → LoopSends command k w (again result m w)) where
    after_verify_sent :
        (i : ℕ) (w : W) (m : Memory F) (r : W × Map F × WriteResult)
        → i ≤ wr.retries
        → 0 < i
        → t.sent r.0 ≡ replicate i command ++ t.sent w
        → LoopSends command (suc k) w (after_verify d fl wr again m r)
    unfolding after_verify
    after_verify_sent i w m (w₁, trusted, result) a b p = elim (Option-cases result.err) [
      | inl q ↦ rw (q, after_verify) (i, omega (arith, suc-mul k wr.retries), p, inr b)
      | inr (e, q) ↦
          rw (q, after_verify)
            (more_loop command k i w w₁ _ a b p (rest result (record m { trusted = trusted }) w₁))
    ]

    after_settle_sent :
        (i : ℕ) (w : W) (register : WriteRegister) (value : ℤ) (m : Memory F) (r : W × Bool)
        → i ≤ wr.retries
        → 0 < i
        → t.sent r.0 ≡ replicate i command ++ t.sent w
        → LoopSends command (suc k) w (after_settle d fl wr again register value m r)
    unfolding after_settle
    after_settle_sent i w register value m (w₁, false) a b p =
        (i, omega (arith, suc-mul k wr.retries), p, inr b)
    after_settle_sent i w register value m (w₁, true) a b p =
        after_verify_sent i w m (verify d fl wr register value m.trusted w₁) a b
          (verify_sent register value m.trusted w₁ ∙ p)

    after_send_sent :
        (topic : Bytes) (register : WriteRegister) (value : ℤ) (m : Memory F) (w : W)
        (r : W × Option Err)
        → 0 < wr.retries
        → Reaches true command wr.retries w r
        → LoopSends command (suc k) w (after_send d fl wr again topic register value m r)
    unfolding after_send
    after_send_sent topic register value m w (w₁, some e) h (n, a, p, b) =
        (n, omega (arith, suc-mul k wr.retries), p, inl (λ x. cc))
    after_send_sent topic register value m w (w₁, none) h (n, a, p, b) =
        after_settle_sent n w register value (remember_sent (d.clock.now w₁) topic (itoa value) m)
          (sleep_ctx d.clock wr.settle_delay w₁) a (ground arith)
          (sleep_ctx_untouched d t.sent traced.sent_untouched wr.settle_delay w₁ ∙ p)

  pub write_loop_sent :
      (k : ℕ) (topic : Bytes) (register : WriteRegister) (value : ℤ) (command : Bytes)
      (last : WriteResult) (m : Memory F) (w : W)
      → 0 < wr.retries
      → LoopSends command k w (write_loop d fl wr k topic register value command last m w)
  unfolding write_loop
  write_loop_sent zero topic register value command last m w h = (0, omega arith, refl, inl refl)
  write_loop_sent (suc k) topic register value command last m w h =
      after_send_sent command k (write_loop d fl wr k topic register value command)
        (λ result m₁ w₁. write_loop_sent k topic register value command result m₁ w₁ h) topic
        register value m w (send_command d fl wr command w) h
        (unfold send_command in send_attempts_sent wr.retries true none command w)
