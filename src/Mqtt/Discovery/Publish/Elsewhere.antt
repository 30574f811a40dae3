-- ===== src/Mqtt/Discovery/Publish/Elsewhere.antt =====
-- What publishing one entity leaves alone, for internal/mqtt/client.go.
use aerosmart_gateway.Base.{
  ◌≡◌, refl, ◌∙◌, true, false, ◌&&◌, Option, none, some, List, [], ◌∷◌, Bytes, eq_bytes, All,
  Bool-cases, inl, inr,
}
use aerosmart_gateway.Base.Int.{pos, eq_ℤ}
use aerosmart_gateway.Config.Types.{WriteRegister}
use aerosmart_gateway.Mqtt.Client.{
  MqttSettings, Message, Failure, Broker, publish_retained, clear_discovery,
}
use aerosmart_gateway.Mqtt.Client.Delivered.{IsRecorded}
use aerosmart_gateway.Mqtt.Discovery.{
  Payload, Discovery, unique_id, topic_of, command_components, command_config, stale_topics,
  stale_command_topics,
}
use aerosmart_gateway.Mqtt.Discovery.Publish.{
  Trouble, cannot_marshal, cannot_publish, cannot_clear, Marshal, publish_discovery, clear_stale,
  publish_entity, publish_command_config,
}
use aerosmart_gateway.Mqtt.Discovery.Publish.OneEntity.{stored, publish_retained-stored_ne}

stale_topics_ne :
    (d : Discovery) (uid current other : Bytes) (components : List Bytes)
    → All (λ k. eq_bytes (topic_of d k uid) other ≡ false) components
    → All (λ t. eq_bytes t other ≡ false) (stale_topics d uid current components)
unfolding stale_topics
stale_topics_ne d uid current other [] h = tt
stale_topics_ne d uid current other (k ∷ ks) (differs, differ) =
    let rest = stale_topics_ne d uid current other ks differ in
    elim (Bool-cases (eq_bytes (topic_of d k uid) current)) [
      | inl same ↦ rw same rest
      | inr apart ↦ rw apart (differs, rest)
    ]

own_topic_ne :
    (d : Discovery) (reg : WriteRegister) (other : Bytes)
    → All (λ k. eq_bytes (topic_of d k (unique_id d reg.name)) other ≡ false) command_components
    → eq_bytes (command_config d reg).1 other ≡ false
unfolding command_config
own_topic_ne d reg other (as_switch, (as_number, _)) =
    elim (Bool-cases (eq_ℤ reg.min_value (pos 0) && eq_ℤ reg.max_value (pos 1))) [
      | inl is_switch ↦ rw is_switch as_switch
      | inr is_number ↦ rw is_number as_number
    ]

module _ {W : Type 0} (broker : Broker W) (c : MqttSettings) (sent : W → List Message)
    (recorded : IsRecorded broker c sent) where
  -- The topic `other` retains the same in both worlds.
  abbrev pub IsKept : Bytes → W → W → Type 0
  IsKept other w w₁ =
      (old : Option Bytes)
      → stored broker c sent recorded other old w₁ ≡ stored broker c sent recorded other old w

  pub publish_discovery-IsKept :
      (marshal : Marshal) (topic other : Bytes) (payload : Payload) (w : W)
      → eq_bytes topic other ≡ false
      → IsKept other w (publish_discovery broker c marshal topic payload w).0
  unfolding publish_discovery
  publish_discovery-IsKept marshal topic other payload w differs old = go (marshal payload)
    where
      go :
          (m : Option Bytes)
          → let after : W × Option Trouble = elim m [
            | none ↦ (w, some (cannot_marshal topic))
            | some body ↦
                let (w₁, failed) = publish_retained broker c topic body true w in
                (w₁, elim failed [ none ↦ none | some f ↦ some (cannot_publish f) ])
          ] in
            stored broker c sent recorded other old after.0
            ≡ stored broker c sent recorded other old w
      go none = refl
      go (some body) =
          publish_retained-stored_ne broker c sent recorded topic body other old w differs

  clear_stale-IsKept :
      (stale : List Bytes) (other : Bytes) (w : W)
      → All (λ t. eq_bytes t other ≡ false) stale
      → IsKept other w (clear_stale broker c stale w).0
  unfolding clear_stale clear_discovery
  clear_stale-IsKept [] other w differ old = refl
  clear_stale-IsKept (topic ∷ stale) other w (differs, differ) old =
      go (publish_retained broker c topic [] true w)
        (λ w₁. clear_stale-IsKept stale other w₁ differ old)
      ∙ publish_retained-stored_ne broker c sent recorded topic [] other old w differs
    where
      go :
          (r : W × Option Failure)
          → ((w₁ : W)
              → stored broker c sent recorded other old (clear_stale broker c stale w₁).0
                ≡ stored broker c sent recorded other old w₁)
          → let after : W × Option Trouble = elim r.1 [
            | none ↦ clear_stale broker c stale r.0
            | some f ↦ (r.0, some (cannot_clear topic f))
          ] in
            stored broker c sent recorded other old after.0
            ≡ stored broker c sent recorded other old r.0
      go (w₁, none) h = h w₁
      go (w₁, some f) h = refl

  publish_entity-IsKept :
      (marshal : Marshal) (component topic other : Bytes) (payload : Payload) (stale : List Bytes)
      (w : W)
      → eq_bytes topic other ≡ false
      → All (λ t. eq_bytes t other ≡ false) stale
      → IsKept other w (publish_entity broker c marshal (component, topic, payload) stale w).0
  unfolding publish_entity
  publish_entity-IsKept marshal component topic other payload stale w differs differ old =
      go (publish_discovery broker c marshal topic payload w)
      ∙ publish_discovery-IsKept marshal topic other payload w differs old
    where
      go :
          (p : W × Option Trouble)
          → let r : W × Bytes × Option Trouble = elim p.1 [
            | some trouble ↦ (p.0, component, some trouble)
            | none ↦
                ((clear_stale broker c stale p.0).0, component, (clear_stale broker c stale p.0).1)
          ] in
            stored broker c sent recorded other old r.0
            ≡ stored broker c sent recorded other old p.0
      go (w₁, some trouble) = refl
      go (w₁, none) = clear_stale-IsKept stale other w₁ differ old

  -- A topic that is neither of the register's two keeps what it retains.
  pub publish_command_config-IsKept :
      (marshal : Marshal) (d : Discovery) (reg : WriteRegister) (other : Bytes) (w : W)
      → All (λ k. eq_bytes (topic_of d k (unique_id d reg.name)) other ≡ false) command_components
      → IsKept other w (publish_command_config broker c marshal d reg w).0
  unfolding publish_command_config stale_command_topics
  publish_command_config-IsKept marshal d reg other w h =
      publish_entity-IsKept marshal (command_config d reg).0 (command_config d reg).1 other
        (command_config d reg).2 _ w (own_topic_ne d reg other h)
        (stale_topics_ne d (unique_id d reg.name) (command_config d reg).1 other command_components
          h)
