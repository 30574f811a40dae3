-- ===== src/Mqtt/Discovery/Publish/OneEntity.antt =====
-- What the broker retains for a write register that internal/mqtt/client.go has published: the entry of
-- the component that it is published as, and none of the others that it may have been before.
use aerosmart_gateway.Base.{
  ◌≡◌, refl, ◌∙◌, true, false, ◌&&◌, Option, none, some, List, [], ◌∷◌, Bytes, codes, eq_bytes,
  eq_bytes_refl, if◌then◌else◌, All, arith, Bool-cases, inl, inr, subst,
}
use aerosmart_gateway.Base.Int.{pos, eq_ℤ}
use aerosmart_gateway.Config.Types.{WriteRegister}
use aerosmart_gateway.Mqtt.Client.{
  MqttSettings, Message, Failure, Broker, publish_attempts, publish_retained, clear_discovery,
}
use aerosmart_gateway.Mqtt.Client.Delivered.{IsRecorded, IsDelivered, publish_retained-IsDelivered}
use aerosmart_gateway.Mqtt.Client.Retained.{
  kept_payload, retained, IsDelivered-retained, IsDelivered-retained_ne,
}
use aerosmart_gateway.Mqtt.Discovery.{
  Payload, Discovery, unique_id, topic_of, command_components, command_config, stale_topics,
  stale_command_topics,
}
use aerosmart_gateway.Mqtt.Discovery.Topics.{component_ne}
use aerosmart_gateway.Mqtt.Discovery.Publish.{
  Trouble, cannot_marshal, cannot_publish, cannot_clear, Marshal, publish_discovery, clear_stale,
  publish_entity, publish_command_config,
}

-- What CommandConfig and StaleCommandTopics return together.
data IsShaped (d : Discovery) (uid : Bytes) : Bytes × Bytes × Payload → List Bytes → Type 0 where
  as_switch :
      (payload : Payload)
      → IsShaped d uid
          (codes "switch", topic_of d (codes "switch") uid, payload)
          (topic_of d (codes "number") uid ∷ [])
  as_number :
      (payload : Payload)
      → IsShaped d uid
          (codes "number", topic_of d (codes "number") uid, payload)
          (topic_of d (codes "switch") uid ∷ [])

command_config-IsShaped :
    (d : Discovery) (reg : WriteRegister)
    → IsShaped d (unique_id d reg.name) (command_config d reg) (stale_command_topics d reg)
unfolding command_config stale_command_topics stale_topics
command_config-IsShaped d reg =
    let (_, _, differ, differ') = component_ne d (unique_id d reg.name) (unique_id d reg.name) in
    elim (Bool-cases (eq_ℤ reg.min_value (pos 0) && eq_ℤ reg.max_value (pos 1))) [
      | inl is_switch ↦ rw (is_switch, eq_bytes_refl, differ') (as_switch _)
      | inr is_number ↦ rw (is_number, eq_bytes_refl, differ) (as_number _)
    ]

module _ {W : Type 0} (broker : Broker W) (c : MqttSettings) (sent : W → List Message)
    (recorded : IsRecorded broker c sent) where
  -- What a topic retains behind the log, where it was `old` before.
  abbrev pub stored : Bytes → Option Bytes → W → Option Bytes
  stored topic old w = retained topic old (sent w)

  publish_retained-stored :
      (topic body : Bytes) (old : Option Bytes) (w : W)
      → (publish_retained broker c topic body true w).1 ≡ none
      → stored topic old (publish_retained broker c topic body true w).0 ≡ kept_payload body
  publish_retained-stored topic body old w e =
      let m : Message = record { topic = topic; retained = true; payload = body } in
      let r = publish_retained broker c topic body true w in
      IsDelivered-retained broker c sent (publish_attempts c) m w r.0 old recorded refl (
        subst (λ x. IsDelivered broker c sent (publish_attempts c) m w (r.0, x)) e
          (publish_retained-IsDelivered broker c sent recorded topic body true w))

  pub publish_retained-stored_ne :
      (topic body other : Bytes) (old : Option Bytes) (w : W)
      → eq_bytes topic other ≡ false
      → stored other old (publish_retained broker c topic body true w).0 ≡ stored other old w
  publish_retained-stored_ne topic body other old w e =
      IsDelivered-retained_ne broker c sent (publish_attempts c)
        (record { topic = topic; retained = true; payload = body }) w
        (publish_retained broker c topic body true w) other old e
        (publish_retained-IsDelivered broker c sent recorded topic body true w)

  -- The loop over the stale topics, of which a write register has one.
  clear_stale-stored :
      (topic other : Bytes) (w : W)
      → eq_bytes topic other ≡ false
      → (clear_stale broker c (topic ∷ []) w).1 ≡ none
      → ((old : Option Bytes) → stored topic old (clear_stale broker c (topic ∷ []) w).0 ≡ none)
        × ((old : Option Bytes)
            → stored other old (clear_stale broker c (topic ∷ []) w).0 ≡ stored other old w)
  unfolding clear_stale clear_discovery
  clear_stale-stored topic other w differs e =
      go (publish_retained broker c topic [] true w)
        (λ fine old. publish_retained-stored topic [] old w fine)
        (λ old. publish_retained-stored_ne topic [] other old w differs) e
    where
      go :
          (r : W × Option Failure)
          → (r.1 ≡ none → (old : Option Bytes) → stored topic old r.0 ≡ none)
          → ((old : Option Bytes) → stored other old r.0 ≡ stored other old w)
          → let after : W × Option Trouble = elim r.1 [
            | none ↦ (r.0, none)
            | some f ↦ (r.0, some (cannot_clear topic f))
          ] in
            after.1 ≡ none
            → ((old : Option Bytes) → stored topic old after.0 ≡ none)
              × ((old : Option Bytes) → stored other old after.0 ≡ stored other old w)
      go (w₁, none) cleared kept fine = (cleared refl, kept)
      go (w₁, some f) cleared kept fine = cc

  pub publish_discovery-stored :
      (marshal : Marshal) (topic : Bytes) (payload : Payload) (w : W)
      → (publish_discovery broker c marshal topic payload w).1 ≡ none
      → (body : Bytes) × (marshal payload ≡ some body)
        × ((old : Option Bytes)
            → stored topic old (publish_discovery broker c marshal topic payload w).0
              ≡ kept_payload body)
  unfolding publish_discovery
  publish_discovery-stored marshal topic payload w e =
      go (marshal payload) refl (λ body. publish_retained broker c topic body true w)
        (λ body fine old. publish_retained-stored topic body old w fine) e
    where
      go :
          (m : Option Bytes)
          → marshal payload ≡ m
          → (run : Bytes → W × Option Failure)
          → ((body : Bytes)
              → (run body).1 ≡ none
              → (old : Option Bytes) → stored topic old (run body).0 ≡ kept_payload body)
          → let after : W × Option Trouble = elim m [
            | none ↦ (w, some (cannot_marshal topic))
            | some body ↦
                ((run body).0, elim (run body).1 [ none ↦ none | some f ↦ some (cannot_publish f) ])
          ] in
            after.1 ≡ none
            → (body : Bytes) × (m ≡ some body)
              × ((old : Option Bytes) → stored topic old after.0 ≡ kept_payload body)
      go none is run h fine = cc
      go (some body) is run h fine = (body, refl, h body (ground arith))

  publish_entity-stored :
      (marshal : Marshal) (component topic other : Bytes) (payload : Payload) (w : W)
      → eq_bytes other topic ≡ false
      → let r = publish_entity broker c marshal (component, topic, payload) (other ∷ []) w in
        r.2 ≡ none
        → (r.1 ≡ component)
          × (body : Bytes) × (marshal payload ≡ some body)
          × ((old : Option Bytes) → stored topic old r.0 ≡ kept_payload body)
          × ((old : Option Bytes) → stored other old r.0 ≡ none)
  unfolding publish_entity
  publish_entity-stored marshal component topic other payload w differs e =
      go (publish_discovery broker c marshal topic payload w)
        (publish_discovery-stored marshal topic payload w)
        (λ w₁. clear_stale-stored other topic w₁ differs) e
    where
      go :
          (p : W × Option Trouble)
          → (p.1 ≡ none
              → (body : Bytes) × (marshal payload ≡ some body)
                × ((old : Option Bytes) → stored topic old p.0 ≡ kept_payload body))
          → ((w₁ : W)
              → (clear_stale broker c (other ∷ []) w₁).1 ≡ none
              → ((old : Option Bytes)
                  → stored other old (clear_stale broker c (other ∷ []) w₁).0 ≡ none)
                × ((old : Option Bytes)
                    → stored topic old (clear_stale broker c (other ∷ []) w₁).0
                      ≡ stored topic old w₁))
          → let r : W × Bytes × Option Trouble = elim p.1 [
            | some trouble ↦ (p.0, component, some trouble)
            | none ↦ (
              (clear_stale broker c (other ∷ []) p.0).0,
              component,
              (clear_stale broker c (other ∷ []) p.0).1,
            )
          ] in
            r.2 ≡ none
            → (r.1 ≡ component)
              × (body : Bytes) × (marshal payload ≡ some body)
              × ((old : Option Bytes) → stored topic old r.0 ≡ kept_payload body)
              × ((old : Option Bytes) → stored other old r.0 ≡ none)
      go (w₁, some trouble) published cleared fine = cc
      go (w₁, none) published cleared fine =
          let (body, marshalled, own) = published refl in
          let (gone, kept) = cleared w₁ fine in
          (refl, body, marshalled, λ old. kept old ∙ own old, gone)

  entity-stored :
      (marshal : Marshal) (d : Discovery) (uid : Bytes) (before : Bytes → Option Bytes) (w : W)
      (config : Bytes × Bytes × Payload) (stale : List Bytes)
      → IsShaped d uid config stale
      → let r = publish_entity broker c marshal config stale w in
        r.2 ≡ none
        → (body : Bytes) × (marshal config.2 ≡ some body)
          × All
              (λ k.
                stored (topic_of d k uid) (before (topic_of d k uid)) r.0
                ≡ (if eq_bytes k r.1 then kept_payload body else none))
              command_components
  unfolding eq_bytes
  entity-stored marshal d uid before w config stale (as_switch payload) e =
      let topic = topic_of d (codes "switch") uid in
      let other = topic_of d (codes "number") uid in
      let (named, body, marshalled, own, gone) =
        publish_entity-stored marshal (codes "switch") topic other payload w
          (component_ne d uid uid).3 e in
      (body, marshalled, (rw named (own (before topic)), (rw named (gone (before other)), tt)))
  entity-stored marshal d uid before w config stale (as_number payload) e =
      let topic = topic_of d (codes "number") uid in
      let other = topic_of d (codes "switch") uid in
      let (named, body, marshalled, own, gone) =
        publish_entity-stored marshal (codes "number") topic other payload w
          (component_ne d uid uid).2 e in
      (body, marshalled, (rw named (gone (before other)), (rw named (own (before topic)), tt)))

  -- Each component's topic: the register's entry under the one that it is published as, and nothing
  -- under the others, whatever was retained `before`.
  pub IsOnlyEntity :
      Marshal → Discovery → WriteRegister → (Bytes → Option Bytes) → W × Bytes → Type 0
  IsOnlyEntity marshal d reg before (w, component) =
      (body : Bytes) × (marshal (command_config d reg).2 ≡ some body)
      × All
          (λ k.
            let topic = topic_of d k (unique_id d reg.name) in
            stored topic (before topic) w
            ≡ (if eq_bytes k component then kept_payload body else none))
          command_components

  -- If PublishCommandConfig returns no error, then the broker retains the register's payload for the
  -- component that is returned, and nothing for any other, whatever was retained before.
  pub publish_command_config-IsOnlyEntity :
      (marshal : Marshal) (d : Discovery) (reg : WriteRegister) (before : Bytes → Option Bytes)
      (w : W)
      → let (w₁, component, failed) = publish_command_config broker c marshal d reg w in
        failed ≡ none → IsOnlyEntity marshal d reg before (w₁, component)
  unfolding publish_command_config IsOnlyEntity
  publish_command_config-IsOnlyEntity marshal d reg before w e =
      entity-stored marshal d (unique_id d reg.name) before w (command_config d reg)
        (stale_command_topics d reg) (command_config-IsShaped d reg) e

  -- It lasts while the topics of both components keep what they retain.
  pub IsOnlyEntity-kept :
      (marshal : Marshal) (d : Discovery) (reg : WriteRegister) (before : Bytes → Option Bytes)
      (component : Bytes) (w w₁ : W)
      → All
          (λ k.
            let topic = topic_of d k (unique_id d reg.name) in
            stored topic (before topic) w₁ ≡ stored topic (before topic) w)
          command_components
      → IsOnlyEntity marshal d reg before (w, component)
      → IsOnlyEntity marshal d reg before (w₁, component)
  unfolding IsOnlyEntity
  IsOnlyEntity-kept marshal d reg before component w w₁ (k₁, (k₂, _))
        (body, marshalled, (e₁, (e₂, _))) =
      (body, marshalled, (k₁ ∙ e₁, (k₂ ∙ e₂, tt)))
