-- ===== src/Mqtt/Client/Delivered.antt =====
-- How often a publish reaches the broker, and what an answer without an error means.
use aerosmart_gateway.Base.{
  ℕ, zero, suc, ◌≤◌, ◌≡◌, refl, sym, ap, ◌∙◌, ◌⊎◌, inl, inr, Bool, true, false, ◌&&◌, not, Option,
  none, some, List, [], ◌∷◌, ◌++◌, replicate, append_assoc, append-nil, Bytes, leb, if◌then◌else◌,
  arith, Bool-cases, is_some,
}
use aerosmart_gateway.Base.Int.{ℤ, pos, leb_ℤ}
use aerosmart_gateway.Mqtt.Client.{
  MqttSettings, Message, Reply, timed_out, answered, Failure, not_connected, Broker, Verdict, over,
  again, judge_reply, publish_attempts, publish_pause, publish_attempt, publish_loop,
  publish_retained,
}

module _ {W : Type 0} (broker : Broker W) (c : MqttSettings) (sent : W → List Message) where
  -- `sent` is the log of the messages that were handed to the broker, the oldest first.
  pub record IsRecorded : Type 0 where
    pub publish_sent :
        (qos : ℤ) (m : Message) (wait : ℤ) (w : W)
        → sent (broker.publish qos m wait w).0 ≡ sent w ++ m ∷ []
    pub sleep_sent : (d : ℕ) (w : W) → sent (broker.sleep d w) ≡ sent w

  -- The call ended with an attempt that the broker acknowledged.
  abbrev pub IsAcknowledged : Message → W → Type 0
  IsAcknowledged m w =
      (before : W) × (broker.publish c.qos m c.op_timeout before ≡ (w, answered none))

  -- At most `n` copies of the message are sent, and none is reported only for an acknowledged one.
  unfoldable pub IsDelivered : ℕ → Message → W → W × Option Failure → Type 0
  IsDelivered n m w (w₁, result) =
      ((k : ℕ) × (k ≤ n) × (sent w₁ ≡ sent w ++ replicate k m))
      × ((result ≡ none) → IsAcknowledged m w₁)

  -- An attempt comes first, or one has failed already.
  abbrev IsUnderway : ℕ → ℕ → Option Failure → Type 0
  IsUnderway n attempt last = (is_some last ≡ true) ⊎ ((1 ≤ n) × (attempt ≡ 1))

  -- What one attempt did
  abbrev HasTried : Message → W → W × Verdict → Type 0
  HasTried m w (w₁, over result) =
      ((sent w₁ ≡ sent w) × (is_some result ≡ true))
      ⊎ ((sent w₁ ≡ sent w ++ m ∷ []) × IsAcknowledged m w₁)
  HasTried m w (w₁, again failure) = sent w₁ ≡ sent w ++ m ∷ []

  judge_reply-HasTried :
      (m : Message) (w before : W) (p : W × Reply)
      → broker.publish c.qos m c.op_timeout before ≡ p
      → sent p.0 ≡ sent w ++ m ∷ []
      → HasTried m w (p.0, judge_reply m.topic p.1)
  unfolding judge_reply
  judge_reply-HasTried m w before (w₁, timed_out) e h = h
  judge_reply-HasTried m w before (w₁, answered (some err)) e h = h
  judge_reply-HasTried m w before (w₁, answered none) e h = inr (h, (before, e))

  module _ (recorded : IsRecorded) where
    publish_pause-sent : (attempt : ℕ) (w : W) → sent (publish_pause broker c attempt w) ≡ sent w
    unfolding publish_pause
    publish_pause-sent attempt w = elim (Bool-cases (leb 2 attempt)) [
      | inl e ↦ rw (e, recorded.sleep_sent) refl
      | inr e ↦ rw e refl
    ]

    publish_attempt-HasTried :
        (m : Message) (attempt : ℕ) (last : Option Failure) (w : W)
        → (leb 2 attempt ≡ true → is_some last ≡ true)
        → HasTried m w (publish_attempt broker c m attempt last w)
    unfolding publish_attempt
    publish_attempt-HasTried m attempt last w h =
        guarded (broker.is_connected w) (leb 2 attempt && broker.is_shutting_down w)
          (λ e. h (ground arith))
      where
        before : W
        before = publish_pause broker c attempt w

        guarded :
            (connected stopping : Bool)
            → (stopping ≡ true → is_some last ≡ true)
            → HasTried m w (
                if not connected
                then (w, over (some (not_connected m.topic)))
                else if stopping
                then (w, over last)
                else let (w₁, reply) = broker.publish c.qos m c.op_timeout before in
                  (w₁, judge_reply m.topic reply))
        guarded false stopping g = inl (refl, refl)
        guarded true true g = inl (refl, g refl)
        guarded true false g =
            judge_reply-HasTried m w before (broker.publish c.qos m c.op_timeout before) refl
              (rw (recorded.publish_sent, publish_pause-sent) refl)

    -- The rest of the loop, behind one attempt
    HasTried-IsDelivered :
        (n : ℕ) (m : Message) (attempt : ℕ) (w : W) (p : W × Verdict)
        → HasTried m w p
        → ((failure : Failure)
            → IsDelivered n m p.0 (publish_loop broker c n m (suc attempt) (some failure) p.0))
        → IsDelivered (suc n) m w (elim p.1 as (λ v. W × Option Failure) [
          | over result ↦ (p.0, result)
          | again failure ↦ publish_loop broker c n m (suc attempt) (some failure) p.0
        ])
    unfolding IsDelivered
    HasTried-IsDelivered n m attempt w (w₁, over result) (inl (same, failed)) more =
        ((0, omega arith, same ∙ sym (append-nil _)), λ e. cc)
    HasTried-IsDelivered n m attempt w (w₁, over result) (inr (once, acked)) more =
        ((1, omega arith, once), λ e. acked)
    HasTried-IsDelivered n m attempt w (w₁, again failure) once more =
        let ((k, few, rest), acked) = more failure in
        (
          (
            suc k,
            omega arith,
            rest
                ∙ ap (λ s. s ++ replicate k m) once
                ∙ append_assoc (sent w) (m ∷ []) (replicate k m),
          ),
          acked,
        )

    publish_loop-IsDelivered :
        (n : ℕ) (m : Message) (attempt : ℕ) (last : Option Failure) (w : W)
        → IsUnderway n attempt last
        → IsDelivered n m w (publish_loop broker c n m attempt last w)
    unfolding publish_loop IsDelivered
    publish_loop-IsDelivered zero m attempt last w h = nothing h
      where
        nothing : IsUnderway 0 attempt last → IsDelivered 0 m w (w, last)
        nothing (inl failed) = ((0, omega arith, sym (append-nil _)), λ e. cc)
        nothing (inr (some_left, first)) = absurd (omega arith)
    publish_loop-IsDelivered (suc n) m attempt last w h =
        HasTried-IsDelivered n m attempt w (publish_attempt broker c m attempt last w)
          (publish_attempt-HasTried m attempt last w (λ e. again_failed e h))
          (λ failure. publish_loop-IsDelivered n m (suc attempt) (some failure) _ (inl refl))
      where
        again_failed : leb 2 attempt ≡ true → IsUnderway (suc n) attempt last → is_some last ≡ true
        again_failed e (inl failed) = failed
        again_failed e (inr (left, first)) = ground arith

    publish_attempts_positive : 1 ≤ publish_attempts c
    unfolding publish_attempts
    publish_attempts_positive = elim (Bool-cases (leb_ℤ c.publish_retry_count (pos 0))) [
      | inl e ↦ rw e (omega arith)
      | inr e ↦ rw e (ground arith)
    ]

    -- However often a publish has to be repeated, the broker is handed nothing but copies of the one
    -- message, at most as many as attempts are allowed, and the error is nil only if the broker
    -- acknowledged the last of them; if the log grows by the messages that are published only.
    pub publish_retained-IsDelivered :
        (topic value : Bytes) (retain : Bool) (w : W)
        → IsDelivered
            (publish_attempts c)
            (record { topic = topic; retained = retain; payload = value })
            w
            (publish_retained broker c topic value retain w)
    unfolding publish_retained
    publish_retained-IsDelivered topic value retain w =
        publish_loop-IsDelivered (publish_attempts c) _ 1 none w
          (inr (publish_attempts_positive, refl))
