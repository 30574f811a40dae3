-- ===== src/Mqtt/Client/Untouched.antt =====
-- What publishing in internal/mqtt/client.go leaves alone.
use aerosmart_gateway.Base.{
  ℕ, zero, suc, ◌≡◌, refl, ◌∙◌, inl, inr, Bool, true, false, ◌&&◌, not, Option, none, some, Bytes,
  is_empty, if◌then◌else◌, leb, Bool-cases,
}
use aerosmart_gateway.Base.Int.{ℤ}
use aerosmart_gateway.Mqtt.Client.{
  MqttSettings, Message, Failure, not_connected, Broker, Verdict, over, again, judge_reply,
  publish_pause, publish_attempt, publish_attempts, publish_loop, publish_retained,
  publish_availability,
}

module _ {W A : Type 0} (broker : Broker W) (c : MqttSettings) (o : W → A)
    (published : (qos : ℤ) (m : Message) (wait : ℤ) (w : W)
      → o (broker.publish qos m wait w).0 ≡ o w)
    (slept : (d : ℕ) (w : W) → o (broker.sleep d w) ≡ o w) where
  publish_pause-untouched : (attempt : ℕ) (w : W) → o (publish_pause broker c attempt w) ≡ o w
  unfolding publish_pause
  publish_pause-untouched attempt w = elim (Bool-cases (leb 2 attempt)) [
    | inl e ↦ rw e (slept _ w)
    | inr e ↦ rw e refl
  ]

  publish_attempt-untouched :
      (m : Message) (attempt : ℕ) (last : Option Failure) (w : W)
      → o (publish_attempt broker c m attempt last w).0 ≡ o w
  unfolding publish_attempt
  publish_attempt-untouched m attempt last w =
      go (broker.is_connected w) (leb 2 attempt && broker.is_shutting_down w)
    where
      go :
          (connected stopping : Bool)
          → let r : W × Verdict =
              if not connected
              then (w, over (some (not_connected m.topic)))
              else if stopping
              then (w, over last)
              else (let (w₁, reply) =
                    broker.publish c.qos m c.op_timeout (publish_pause broker c attempt w) in
                  (w₁, judge_reply m.topic reply)) in
            o r.0 ≡ o w
      go false stopping = refl
      go true true = refl
      go true false = published _ _ _ _ ∙ publish_pause-untouched attempt w

  -- Publishing leaves alone what its two calls leave alone.
  publish_loop-untouched :
      (n : ℕ) (m : Message) (attempt : ℕ) (last : Option Failure) (w : W)
      → o (publish_loop broker c n m attempt last w).0 ≡ o w
  unfolding publish_loop
  publish_loop-untouched zero m attempt last w = refl
  publish_loop-untouched (suc n) m attempt last w =
      go (publish_attempt broker c m attempt last w) (publish_attempt-untouched m attempt last w)
        (λ f w₁. publish_loop-untouched n m (suc attempt) (some f) w₁)
    where
      go :
          (p : W × Verdict)
          → o p.0 ≡ o w
          → ((f : Failure) (w₁ : W)
              → o (publish_loop broker c n m (suc attempt) (some f) w₁).0 ≡ o w₁)
          → let r : W × Option Failure = elim p.1 [
            | over result ↦ (p.0, result)
            | again f ↦ publish_loop broker c n m (suc attempt) (some f) p.0
          ] in
            o r.0 ≡ o w
      go (w₁, over result) same rest = same
      go (w₁, again f) same rest = rest f w₁ ∙ same

  pub publish_availability-untouched :
      (state : Bytes) (w : W) → o (publish_availability broker c state w).0 ≡ o w
  unfolding publish_availability publish_retained
  publish_availability-untouched state w = elim (Bool-cases (is_empty c.availability_topic)) [
    | inl e ↦ rw e refl
    | inr e ↦ rw e (publish_loop-untouched (publish_attempts c) _ 1 none w)
  ]
