-- ===== src/Mqtt/Session/Closed.antt =====
-- What client.go does at shutdown: the announcement, and silence behind it.
use aerosmart_gateway.Base.{
  ℕ, ◌<◌, ◌≤◌, ◌≡◌, refl, ap, ◌∙◌, ◌⊎◌, inl, inr, Bool, true, false, none, some, List, [], ◌∷◌,
  ◌++◌, Bytes, codes, is_empty, arith, Bool-cases, zero, suc,
}
use aerosmart_gateway.Base.Int.{ℤ, pos, pos_part}
use aerosmart_gateway.Mqtt.Client.{
  MqttSettings, Message, publish_attempts, publish_attempt, publish_loop, publish_retained,
}
use aerosmart_gateway.Mqtt.Session.{
  Paho, Client, broker_of, publish_once, subscribe, on_connected, shutdown_timeout, disconnect,
}

-- What may still be asked of the client: by the poll loop, by the command worker, and by paho's
-- goroutine when a connection comes up.
pub data Call (H : Type 0) : Type 0 where
  publishes : (topic value : Bytes) (retain : Bool) → Call H
  subscribes : (topic : Bytes) → H → Call H
  connected disconnects : Call H

module _ {W H : Type 0} (paho : Paho W) (c : MqttSettings) where
  unfoldable pub step : Call H → Client H × W → Client H × W
  step (publishes topic value retain) (cl, w) =
      (cl, (publish_retained (broker_of paho c cl) c topic value retain w).0)
  step (subscribes topic handler) (cl, w) =
      let (cl₁, w₁, failed) = subscribe paho c topic handler cl w in (cl₁, w₁)
  step connected (cl, w) = (cl, on_connected paho c cl w)
  step disconnects (cl, w) = disconnect paho c cl w

  unfoldable pub run : List (Call H) → Client H × W → Client H × W
  run [] s = s
  run (call ∷ calls) s = run calls (step call s)

  -- The connection is closed for good.
  abbrev closed : List (Bytes × H) → Client H
  closed topics = record { handle = none; subscribed_topics = topics; shutting_down = true }

  publish_loop-closed :
      (topics : List (Bytes × H)) (n : ℕ) (m : Message) (w : W)
      → (publish_loop (broker_of paho c (closed topics)) c n m 1 none w).0 ≡ w
  unfolding publish_loop publish_attempt
  publish_loop-closed topics zero m w = refl
  publish_loop-closed topics (suc n) m w = refl

  step-closed :
      (topics : List (Bytes × H)) (w : W) (call : Call H)
      → step call (closed topics, w) ≡ (closed topics, w)
  unfolding step publish_retained subscribe on_connected disconnect
  step-closed topics w (publishes topic value retain) =
      ap (λ (x : W). (closed topics, x))
        (publish_loop-closed topics (publish_attempts c)
          (record { topic = topic; retained = retain; payload = value }) w)
  step-closed topics w (subscribes topic handler) = refl
  step-closed topics w connected = refl
  step-closed topics w disconnects = refl

  run-closed :
      (topics : List (Bytes × H)) (w : W) (calls : List (Call H))
      → run calls (closed topics, w) ≡ (closed topics, w)
  unfolding run
  run-closed topics w [] = refl
  run-closed topics w (call ∷ calls) =
      ap (λ s. run calls s) (step-closed topics w call) ∙ run-closed topics w calls

module _ {W : Type 0} (paho : Paho W) (c : MqttSettings) (sent : W → List (Message × ℤ)) where
  -- `sent` is the log of what was published, with the time that each token was waited for.
  pub record IsSent : Type 0 where
    pub publish_sent :
        (h : ℕ) (qos : ℤ) (m : Message) (wait : ℤ) (w : W)
        → sent (paho.publish h qos m wait w).0 ≡ sent w ++ (m, wait) ∷ []
    pub disconnect_sent : (h quiesce : ℕ) (w : W) → sent (paho.disconnect h quiesce w) ≡ sent w

  abbrev pub offline : Message
  offline = record { topic = c.availability_topic; retained = true; payload = codes "offline" }

  -- With a connection and an availability topic, one message says that the gateway is offline; its
  -- token is waited for two seconds at most. Otherwise nothing is published.
  abbrev pub HasAnnounced : ℕ → W → W → Type 0
  HasAnnounced h w w₁ =
      ((paho.is_connected h w ≡ true)
        × (is_empty c.availability_topic ≡ false)
        × (wait : ℕ) × (0 < wait)
        × (wait ≤ 2_000_000_000)
        × (sent w₁ ≡ sent w ++ (offline, pos wait) ∷ []))
      ⊎ (((paho.is_connected h w ≡ false) ⊎ (is_empty c.availability_topic ≡ true))
          × (sent w₁ ≡ sent w))

shutdown_timeout_bounds :
    (c : MqttSettings)
    → (wait : ℕ) × (0 < wait) × (wait ≤ 2_000_000_000) × (shutdown_timeout c ≡ pos wait)
unfolding shutdown_timeout
shutdown_timeout_bounds c =
    (pos_part (shutdown_timeout c), ground arith, ground arith, ground arith)

module _ {W H : Type 0} (paho : Paho W) (c : MqttSettings) (sent : W → List (Message × ℤ)) where
  publish_once-publish :
      (topic value : Bytes) (timeout : ℤ) (cl : Client H) (h : ℕ) (w : W)
      → cl.handle ≡ some h
      → paho.is_connected h w ≡ true
      → (publish_once paho c topic value timeout cl w).0
        ≡ (paho.publish h c.qos
            (record { topic = topic; retained = true; payload = value })
            timeout
            w).0
  unfolding publish_once
  publish_once-publish topic value timeout cl h w is_open up = rw (is_open, up) refl

  -- What Disconnect left behind, and that no call changes it.
  pub IsFinal : ℕ → W → Client H × W → Type 0
  IsFinal h w (cl₁, w₁) =
      HasAnnounced paho c sent h w w₁
      × ((calls : List (Call H)) → run paho c calls (cl₁, w₁) ≡ (cl₁, w₁))

  -- Disconnect of an open client publishes one message at most, which is retained and says offline:
  -- exactly if the client is connected and an availability topic is set; its token is waited for two
  -- seconds at most. No call that is made behind it, nor a connection that comes up again, changes
  -- anything, for calls that follow one another.
  pub disconnect-IsFinal :
      (cl : Client H) (h : ℕ) (w : W)
      → IsSent paho c sent
      → cl.handle ≡ some h
      → IsFinal h w (disconnect paho c cl w)
  unfolding IsFinal disconnect
  disconnect-IsFinal cl h w logged is_open =
      rw (is_open, disconnect)
        (
          elim (Bool-cases (paho.is_connected h w)) [
            | inl up ↦ elim (Bool-cases (is_empty c.availability_topic)) [
              | inl no_topic ↦ rw (up, no_topic) (inr (inr refl, logged.disconnect_sent h 250 w))
              | inr topic ↦
                  let (wait, positive, short, is_wait) = shutdown_timeout_bounds c in
                  let cl₁ = record cl { shutting_down = true } in
                  let m = offline paho c sent in
                  let once =
                    publish_once-publish c.availability_topic m.payload (shutdown_timeout c) cl₁ h w
                      is_open up in
                  rw (up, topic)
                    (inl (
                      refl,
                      refl,
                      wait,
                      positive,
                      short,
                      logged.disconnect_sent h 250 _
                          ∙ ap sent once
                          ∙ logged.publish_sent h c.qos m (shutdown_timeout c) w
                          ∙ ap (λ (t : ℤ). sent w ++ (m, t) ∷ []) is_wait,
                    ))
            ]
            | inr down ↦ rw down (inr (inl refl, logged.disconnect_sent h 250 w))
          ],
          λ calls. run-closed paho c cl.subscribed_topics _ calls,
        )
