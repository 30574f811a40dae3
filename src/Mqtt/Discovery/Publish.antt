-- ===== src/Mqtt/Discovery/Publish.antt =====
-- internal/mqtt/client.go: publishing discovery entries, and clearing those of other components.
pub mod OneEntity
pub mod Elsewhere
use aerosmart_gateway.Base.{Bytes, Option, none, some, List, [], ◌∷◌, true}
use aerosmart_gateway.Mqtt.Client.{MqttSettings, Failure, Broker, publish_retained, clear_discovery}
use aerosmart_gateway.Mqtt.Discovery.{Payload, Discovery, command_config, stale_command_topics}
use aerosmart_gateway.Config.Types.{WriteRegister}

-- What PublishDiscovery and its callers return
pub data Trouble : Type 0 where
  cannot_marshal : Bytes → Trouble
  cannot_publish : Failure → Trouble
  cannot_clear : Bytes → Failure → Trouble

-- json.Marshal
abbrev pub Marshal : Type 0
Marshal = Payload → Option Bytes

module _ {W : Type 0} (broker : Broker W) (c : MqttSettings) where
  unfoldable pub publish_discovery : Marshal → Bytes → Payload → W → W × Option Trouble
  publish_discovery marshal topic payload w = elim (marshal payload) [
    | none ↦ (w, some (cannot_marshal topic))
    | some body ↦
        let (w₁, failed) = publish_retained broker c topic body true w in
        (w₁, elim failed [ none ↦ none | some f ↦ some (cannot_publish f) ])
  ]

  -- The loop over the stale topics
  unfoldable pub clear_stale : List Bytes → W → W × Option Trouble
  clear_stale [] w = (w, none)
  clear_stale (topic ∷ topics) w =
      let (w₁, failed) = clear_discovery broker c topic w in
      elim failed [ none ↦ clear_stale topics w₁ | some f ↦ (w₁, some (cannot_clear topic f)) ]

  -- PublishCommandConfig, behind its calls of CommandConfig and StaleCommandTopics
  unfoldable pub publish_entity :
      Marshal → Bytes × Bytes × Payload → List Bytes → W → W × Bytes × Option Trouble
  publish_entity marshal (component, topic, payload) stale w =
      let (w₁, failed) = publish_discovery marshal topic payload w in
      elim failed [
        | some trouble ↦ (w₁, component, some trouble)
        | none ↦ let (w₂, failed') = clear_stale stale w₁ in (w₂, component, failed')
      ]

  -- PublishCommandConfig
  unfoldable pub publish_command_config :
      Marshal → Discovery → WriteRegister → W → W × Bytes × Option Trouble
  publish_command_config marshal d reg w =
      publish_entity marshal (command_config d reg) (stale_command_topics d reg) w
