-- ===== src/Mqtt/Client/Retained.antt =====
-- What a broker retains behind the messages of internal/mqtt/client.go: MQTT keeps the payload of the
-- last retained message of each topic, and an empty payload removes it.
use aerosmart_gateway.Base.{
  ℕ, zero, suc, ◌≡◌, refl, sym, ◌∙◌, ap, Bool, true, false, ◌&&◌, Option, none, some, List, [], ◌∷◌,
  ◌++◌, replicate, Bytes, eq_bytes, eq_bytes_refl, is_empty, if◌then◌else◌,
}
use aerosmart_gateway.Mqtt.Client.{Message, Failure, Broker, MqttSettings, Reply}
use aerosmart_gateway.Mqtt.Client.Delivered.{IsRecorded, IsDelivered}

-- What a retained message leaves under its topic
abbrev pub kept_payload : Bytes → Option Bytes
kept_payload body = if is_empty body then none else some body

abbrev after_message : Bytes → Option Bytes → Message → Option Bytes
after_message topic old m =
    if m.retained && eq_bytes m.topic topic then kept_payload m.payload else old

-- What is retained under the topic behind the messages, where it was `old` before
unfoldable pub retained : Bytes → Option Bytes → List Message → Option Bytes
retained topic old [] = old
retained topic old (m ∷ ms) = retained topic (after_message topic old m) ms

retained-append :
    (topic : Bytes) (old : Option Bytes) (xs ys : List Message)
    → retained topic old (xs ++ ys) ≡ retained topic (retained topic old xs) ys
unfolding retained
retained-append topic old [] ys = refl
retained-append topic old (m ∷ ms) ys = retained-append topic (after_message topic old m) ms ys

retained-replicate :
    (topic : Bytes) (old : Option Bytes) (k : ℕ) (m : Message)
    → eq_bytes m.topic topic ≡ false
    → retained topic old (replicate k m) ≡ old
unfolding retained
retained-replicate topic old zero m other = refl
retained-replicate topic old (suc k) m other =
    let same : after_message topic old m ≡ old = go m.retained in
    ap (λ (o : Option Bytes). retained topic o (replicate k m)) same
    ∙ retained-replicate topic old k m other
  where
    go : (b : Bool) → (if b && eq_bytes m.topic topic then kept_payload m.payload else old) ≡ old
    go true = rw other refl
    go false = refl

retained-last :
    (old : Option Bytes) (ms : List Message) (m : Message)
    → m.retained ≡ true
    → retained m.topic old (ms ++ m ∷ []) ≡ kept_payload m.payload
unfolding retained
retained-last old ms m is_retained =
    retained-append m.topic old ms (m ∷ []) ∙ rw (is_retained, eq_bytes_refl) refl

module _ {W : Type 0} (broker : Broker W) (c : MqttSettings) (sent : W → List Message) where
  -- A message that is delivered is what its topic retains.
  pub IsDelivered-retained :
      (n : ℕ) (m : Message) (w w₁ : W) (old : Option Bytes)
      → IsRecorded broker c sent
      → m.retained ≡ true
      → IsDelivered broker c sent n m w (w₁, none)
      → retained m.topic old (sent w₁) ≡ kept_payload m.payload
  unfolding IsDelivered
  IsDelivered-retained n m w w₁ old recorded is_retained (copies, acknowledged) =
      let (before, e) = acknowledged refl in
      let logged : sent w₁ ≡ sent before ++ m ∷ [] =
        ap (λ (p : W × Reply). sent p.0) (sym e)
        ∙ recorded.publish_sent c.qos m c.op_timeout before in
      rw logged (retained-last old (sent before) m is_retained)

  -- Other topics retain what they did, however the call ends.
  pub IsDelivered-retained_ne :
      (n : ℕ) (m : Message) (w : W) (r : W × Option Failure) (topic : Bytes) (old : Option Bytes)
      → eq_bytes m.topic topic ≡ false
      → IsDelivered broker c sent n m w r
      → retained topic old (sent r.0) ≡ retained topic old (sent w)
  unfolding IsDelivered
  IsDelivered-retained_ne n m w (w₁, result) topic old other ((k, few, copies), acknowledged) =
      rw copies (
        retained-append topic old (sent w) (replicate k m)
        ∙ retained-replicate topic (retained topic old (sent w)) k m other)
