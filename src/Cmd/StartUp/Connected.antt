-- ===== src/Cmd/StartUp/Connected.antt =====
-- How often connectMQTTWithRetry of cmd/main.go connects, and what its result means.
use aerosmart_gateway.Base.{
  ℕ, zero, suc, ◌≤◌, ◌≡◌, ◌≢◌, refl, ap, ◌∙◌, sym, inl, inr, Option, none, some, List, [], ◌∷◌,
  ◌++◌, append-nil, append_assoc, length, map, ◌==◌, arith, Bool-cases, Option-cases,
}
use aerosmart_gateway.Base.Int.{ℤ, pos_part}
use aerosmart_gateway.Base.Float.{Floats}
use aerosmart_gateway.Serial.Errors.{Err}
use aerosmart_gateway.Serial.World.{Clock}
use aerosmart_gateway.Cmd.PollLoop.Paced.{IsFair}
use aerosmart_gateway.Cmd.StartUp.{
  Refusal, cancelled_connect, exhausted, Jitter, calculate_backoff_with_jitter, connect_loop,
  connect_mqtt_with_retry,
}

module _ {W : Type 0} (clock : Clock W) (connect : W → W × Option Err)
    (tried : W → List (Option Err)) where
  -- `tried` is the log of what Connect returned, the oldest first.
  pub record IsLogged (delay : ℕ → W → W × ℤ) : Type 0 where
    pub connect_tried : (w : W) → tried (connect w).0 ≡ tried w ++ (connect w).1 ∷ []
    pub wait_tried : (d : ℕ) (w : W) → tried (clock.wait d w).0 ≡ tried w
    pub delay_tried : (attempt : ℕ) (w : W) → tried (delay attempt w).0 ≡ tried w

  -- The errors of the attempts that failed, and what came of it.
  abbrev Ends : ℕ → W → List Err → W × Option Refusal → Type 0
  Ends n w errs (w₁, none) =
      (suc (length errs) ≤ n) × (tried w₁ ≡ tried w ++ (map some errs ++ none ∷ []))
  Ends n w errs (w₁, some (exhausted last)) =
      (length errs ≡ n) × (tried w₁ ≡ tried w ++ map some errs)
  Ends n w errs (w₁, some cancelled_connect) =
      (length errs ≤ n) × (tried w₁ ≡ tried w ++ map some errs) × (clock.ctx_err w₁ ≢ none)

  -- A failed attempt in front of what follows.
  Ends-cons :
      (n : ℕ) (w w₁ : W) (e : Err) (errs : List Err) (r : W × Option Refusal)
      → tried w₁ ≡ tried w ++ some e ∷ []
      → Ends n w₁ errs r
      → Ends (suc n) w (e ∷ errs) r
  Ends-cons n w w₁ e errs (w₂, none) log (few, h) = (
    omega arith,
    h ∙ ap (λ l. l ++ (map some errs ++ none ∷ [])) log ∙ append_assoc (tried w) _ _,
  )
  Ends-cons n w w₁ e errs (w₂, some (exhausted last)) log (all, h) =
      (omega (arith, all), h ∙ ap (λ l. l ++ map some errs) log ∙ append_assoc (tried w) _ _)
  Ends-cons n w w₁ e errs (w₂, some cancelled_connect) log (few, h, over) =
      (omega arith, h ∙ ap (λ l. l ++ map some errs) log ∙ append_assoc (tried w) _ _, over)

  module _ (delay : ℕ → W → W × ℤ) (logged : IsLogged delay) (fair : IsFair clock) where
    connect_loop-Ends :
        (n attempt : ℕ) (last : Option Err) (w : W)
        → (errs : List Err) × Ends n w errs (connect_loop clock connect delay n attempt last w)
    unfolding connect_loop
    connect_loop-Ends zero attempt last w = ([], (refl, sym (append-nil _)))
    connect_loop-Ends (suc n) attempt last w = elim (Option-cases (clock.ctx_err w)) [
      | inr (e, ended) ↦ rw (ended, connect_loop) ([], (omega arith, sym (append-nil _), λ x. cc))
      | inl live ↦
          rw (live, connect_loop)
            (elim (Option-cases (connect w).1) [
              | inl done ↦
                  rw done
                    ([], (omega arith, logged.connect_tried w ∙ ap (λ o. tried w ++ o ∷ []) done))
              | inr (e, failed) ↦
                  let w₁ = (connect w).0 in
                  let w₂ = (delay attempt w₁).0 in
                  let d = pos_part (delay attempt w₁).1 in
                  let w₃ = (clock.wait d w₂).0 in
                  let log : tried w₁ ≡ tried w ++ some e ∷ [] =
                    logged.connect_tried w ∙ ap (λ o. tried w ++ o ∷ []) failed in
                  let later : tried w₃ ≡ tried w ++ some e ∷ [] =
                    logged.wait_tried d w₂ ∙ logged.delay_tried attempt w₁ ∙ log in
                  rw failed (elim (Bool-cases (n == 0)) [
                    | inl at_end ↦ rw at_end (e ∷ [], (ground arith, log))
                    | inr more ↦ rw more (elim (Bool-cases (clock.wait d w₂).1) [
                      | inl fired ↦
                          let (errs, ends) = connect_loop-Ends n (suc attempt) (some e) w₃ in
                          rw fired (e ∷ errs, Ends-cons n w w₃ e errs _ later ends)
                      | inr cut ↦ rw cut (e ∷ [], (omega arith, later, fair.wait_cut d w₂ cut))
                    ])
                  ])
            ])
    ]

  -- What connectMQTTWithRetry made of the attempts: the errors of those that failed, and the end.
  pub HasConnected : ℕ → W → W × Option Refusal → Type 0
  HasConnected n w r = (errs : List Err) × Ends n w errs r

-- connectMQTTWithRetry calls Connect at most as often as it may, and stops at the first success, which
-- is the last call: it returns nil only then. It gives up either behind as many failures as it may
-- make, or at the end of its context; if only calls of Connect are logged.
pub connect_mqtt_with_retry-HasConnected :
    {W F : Type 0} (fl : Floats F) (jitter : Jitter W F) (clock : Clock W)
    (connect : W → W × Option Err) (tried : W → List (Option Err))
    (max_retries initial_ms max_ms percent : ℤ) (w : W)
    → IsLogged clock connect tried
        (λ attempt. calculate_backoff_with_jitter fl jitter attempt initial_ms max_ms percent)
    → IsFair clock
    → HasConnected clock connect tried
        (pos_part max_retries)
        w
        (connect_mqtt_with_retry fl jitter clock connect max_retries initial_ms max_ms percent w)
unfolding connect_mqtt_with_retry HasConnected
connect_mqtt_with_retry-HasConnected fl jitter clock connect tried max_retries initial_ms max_ms
      percent w logged fair =
    connect_loop-Ends clock connect tried
      (λ attempt. calculate_backoff_with_jitter fl jitter attempt initial_ms max_ms percent) logged
      fair (pos_part max_retries) 0 none w
