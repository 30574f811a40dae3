-- ===== src/Mqtt/Session/Restored.antt =====
-- That client.go restores every subscription when a connection comes up again.
use mathlib.Core.List.{Memᴰ}
use aerosmart_gateway.Base.{
  ℕ, ◌≡◌, refl, ap, ◌∙◌, sym, inl, inr, false, some, List, [], ◌∷◌, ◌++◌, append-nil, append_assoc,
  map, Bytes, codes, eq_bytes, eq_bytes_iff, All, Bool-cases, subst,
}
use aerosmart_gateway.Base.Int.{ℤ}
use aerosmart_gateway.Mqtt.Client.{MqttSettings, Message}
use aerosmart_gateway.Mqtt.Client.Untouched.{publish_availability-untouched}
use aerosmart_gateway.Mqtt.Session.{
  Paho, Client, track, broker_of, subscribe_topic, subscribe, resubscribe_all, on_connected,
}
use aerosmart_gateway.Mqtt.Session.Closed.{
  Call, publishes, subscribes, connected, disconnects, step, run,
}

abbrev pub topics_of : {H : Type 0} → List (Bytes × H) → List Bytes
topics_of [] = []
topics_of ((topic, handler) ∷ more) = topic ∷ topics_of more

-- The topics of the calls of Subscribe
abbrev pub asked : {H : Type 0} → List (Call H) → List Bytes
asked [] = []
asked (subscribes topic handler ∷ calls) = topic ∷ asked calls
asked (publishes topic value retain ∷ calls) = asked calls
asked (connected ∷ calls) = asked calls
asked (disconnects ∷ calls) = asked calls

-- None of the calls is Disconnect.
abbrev pub StaysOpen : {H : Type 0} → List (Call H) → Type 0
StaysOpen [] = Unit
StaysOpen (disconnects ∷ calls) = ⊥
StaysOpen (call ∷ calls) = StaysOpen calls

track-self :
    {H : Type 0} (topic : Bytes) (handler : H) (l : List (Bytes × H))
    → Memᴰ topic (topics_of (track topic handler l))
unfolding track
track-self topic handler [] = Memᴰ.head refl
track-self topic handler ((t, h) ∷ more) = elim (Bool-cases (eq_bytes t topic)) [
  | inl e ↦ rw e (Memᴰ.head refl)
  | inr e ↦ rw e (Memᴰ.tail (track-self topic handler more))
]

track-mem :
    {H : Type 0} (topic : Bytes) (handler : H) (l : List (Bytes × H)) (t : Bytes)
    → Memᴰ t (topics_of l)
    → Memᴰ t (topics_of (track topic handler l))
unfolding track
track-mem topic handler [] t m = elim m [ ]
track-mem topic handler ((t₁, h) ∷ more) t (Memᴰ.head q) = elim (Bool-cases (eq_bytes t₁ topic)) [
  | inl e ↦ rw e (Memᴰ.head (q ∙ (eq_bytes_iff t₁ topic).0 e))
  | inr e ↦ rw e (Memᴰ.head q)
]
track-mem topic handler ((t₁, h) ∷ more) t (Memᴰ.tail m) = elim (Bool-cases (eq_bytes t₁ topic)) [
  | inl e ↦ rw e (Memᴰ.tail m)
  | inr e ↦ rw e (Memᴰ.tail (track-mem topic handler more t m))
]

module _ {W : Type 0} (paho : Paho W) (c : MqttSettings) (asks : W → List (ℕ × Bytes)) where
  -- `asks` is the log of the subscriptions that paho was asked for.
  pub record IsAsked : Type 0 where
    pub subscribe_asks :
        (h : ℕ) (topic : Bytes) (qos wait : ℤ) (w : W)
        → asks (paho.subscribe h topic qos wait w).0 ≡ asks w ++ (h, topic) ∷ []
    pub publish_asks :
        (h : ℕ) (qos : ℤ) (m : Message) (wait : ℤ) (w : W)
        → asks (paho.publish h qos m wait w).0 ≡ asks w
    pub sleep_asks : (d : ℕ) (w : W) → asks (paho.sleep d w) ≡ asks w

module _ {W H : Type 0} (paho : Paho W) (c : MqttSettings) (asks : W → List (ℕ × Bytes))
    (logged : IsAsked paho c asks) where
  -- A client with a connection
  abbrev pub opened : ℕ → List (Bytes × H) → Client H
  opened h topics = record { handle = some h; subscribed_topics = topics; shutting_down = false }

  resubscribe_all-asks :
      (h : ℕ) (tracked l : List (Bytes × H)) (w : W)
      → asks (resubscribe_all paho c l (opened h tracked) w).0
        ≡ asks w ++ map (λ t. (h, t)) (topics_of l)
  unfolding resubscribe_all subscribe_topic
  resubscribe_all-asks h tracked [] w = sym (append-nil _)
  resubscribe_all-asks h tracked ((topic, handler) ∷ more) w =
      let w₁ = (paho.subscribe h topic c.qos c.op_timeout w).0 in
      resubscribe_all-asks h tracked more w₁
      ∙ ap (λ l. l ++ map (λ t. (h, t)) (topics_of more))
          (logged.subscribe_asks h topic c.qos c.op_timeout w)
      ∙ append_assoc (asks w) ((h, topic) ∷ []) (map (λ t. (h, t)) (topics_of more))

  on_connected-asks :
      (h : ℕ) (l : List (Bytes × H)) (w : W)
      → asks (on_connected paho c (opened h l) w) ≡ asks w ++ map (λ t. (h, t)) (topics_of l)
  unfolding on_connected
  on_connected-asks h l w =
      resubscribe_all-asks h l l _
      ∙ ap (λ a. a ++ map (λ t. (h, t)) (topics_of l))
          (publish_availability-untouched (broker_of paho c (opened h l)) c asks
            (λ qos m wait v. logged.publish_asks h qos m wait v) logged.sleep_asks (codes "online")
            w)

  run-tracks :
      (h : ℕ) (l : List (Bytes × H)) (w : W) (calls : List (Call H))
      → StaysOpen calls
      → (l' : List (Bytes × H)) × ((run paho c calls (opened h l, w)).0 ≡ opened h l')
        × ((t : Bytes) → Memᴰ t (topics_of l) → Memᴰ t (topics_of l'))
        × All (λ t. Memᴰ t (topics_of l')) (asked calls)
  unfolding run step subscribe
  run-tracks h l w [] stays = (l, refl, (λ t m. m), tt)
  run-tracks h l w (subscribes topic handler ∷ calls) stays =
      let (l', ends, kept, all) = run-tracks h (track topic handler l) _ calls stays in
      (
        l',
        ends,
        (λ t m. kept t (track-mem topic handler l t m)),
        (kept topic (track-self topic handler l), all),
      )
  run-tracks h l w (publishes topic value retain ∷ calls) stays = run-tracks h l _ calls stays
  run-tracks h l w (connected ∷ calls) stays = run-tracks h l _ calls stays
  run-tracks h l w (disconnects ∷ calls) stays = absurd stays

  -- Every topic that was asked for is tracked; a connection that comes up asks for each of them again.
  pub IsRestored : ℕ → List (Call H) → Client H × W → Type 0
  IsRestored h calls (cl₁, w₁) =
      All (λ t. Memᴰ t (topics_of cl₁.subscribed_topics)) (asked calls)
      × (asks (on_connected paho c cl₁ w₁)
          ≡ asks w₁ ++ map (λ t. (h, t)) (topics_of cl₁.subscribed_topics))

  -- Whatever is asked of a client with a connection, short of Disconnect: when a connection comes up
  -- behind it, the client asks for a subscription to every topic that Subscribe was called for, also
  -- those whose first subscription failed, and whichever of the others fail; for calls that follow one
  -- another.
  pub run-IsRestored :
      (h : ℕ) (l : List (Bytes × H)) (w : W) (calls : List (Call H))
      → StaysOpen calls
      → IsRestored h calls (run paho c calls (opened h l, w))
  unfolding IsRestored
  run-IsRestored h l w calls stays =
      let r = run paho c calls (opened h l, w) in
      let (l', ends, kept, all) = run-tracks h l w calls stays in go r.0 ends all r.1
    where
      go :
          {l' : List (Bytes × H)} (cl : Client H)
          → cl ≡ opened h l'
          → All (λ t. Memᴰ t (topics_of l')) (asked calls)
          → (w₁ : W) → IsRestored h calls (cl, w₁)
      go {l'} cl e all w₁ =
          subst (λ x. IsRestored h calls (x, w₁)) (sym e) (all, on_connected-asks h l' w₁)
