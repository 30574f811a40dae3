-- ===== src/Cmd/Announce/Acting.antt =====
-- The topics that publishHADiscovery of cmd/main.go publishes to, and what publishing one entity leaves.
use aerosmart_gateway.Base.{
  ◌≡◌, ◌∙◌, false, Option, none, some, List, [], ◌∷◌, Bytes, codes, eq_bytes, All, All-map,
}
use aerosmart_gateway.Config.Check.Names.{AreDistinct}
use aerosmart_gateway.Config.Types.{ReadRegister, WriteRegister, DerivedRegister}
use aerosmart_gateway.Cmd.Announce.{announce_read, announce_write, announce_derived}
use aerosmart_gateway.Cmd.Announce.Kept.{Avoids, AreApart, IsActing}
use aerosmart_gateway.Mqtt.Client.{MqttSettings, Message, Broker}
use aerosmart_gateway.Mqtt.Client.Delivered.{IsRecorded}
use aerosmart_gateway.Mqtt.Client.Retained.{kept_payload}
use aerosmart_gateway.Mqtt.Discovery.{
  Payload, Discovery, unique_id, topic_of, sensor_config, derived_sensor_config,
}
use aerosmart_gateway.Mqtt.Discovery.Topics.{component_ne, command_ne_sensor, name_ne}
use aerosmart_gateway.Mqtt.Discovery.Publish.{Marshal, publish_discovery}
use aerosmart_gateway.Mqtt.Discovery.Publish.OneEntity.{
  stored, publish_discovery-stored, IsOnlyEntity, publish_command_config-IsOnlyEntity,
  IsOnlyEntity-kept,
}
use aerosmart_gateway.Mqtt.Discovery.Publish.Elsewhere.{
  publish_discovery-IsKept, publish_command_config-IsKept,
}

-- The topics that a register's entry may stand under
abbrev pub sensor_topic : Discovery → Bytes → List Bytes
sensor_topic d name = topic_of d (codes "sensor") (unique_id d name) ∷ []

abbrev pub command_topics : Discovery → Bytes → List Bytes
command_topics d name =
    topic_of d (codes "switch") (unique_id d name)
    ∷ topic_of d (codes "number") (unique_id d name)
    ∷ []

pub sensors_apart :
    (d : Discovery) (n m : Bytes)
    → eq_bytes n m ≡ false
    → All (Avoids (sensor_topic d n)) (sensor_topic d m)
sensors_apart d n m differ = ((name_ne d (codes "sensor") n m differ, tt), tt)

pub commands_apart :
    (d : Discovery) (n m : Bytes)
    → eq_bytes n m ≡ false
    → All (Avoids (command_topics d n)) (command_topics d m)
commands_apart d n m differ =
    let (_, _, a, b) = component_ne d (unique_id d n) (unique_id d m) in
    (
      (name_ne d (codes "switch") n m differ, (b, tt)),
      ((a, (name_ne d (codes "number") n m differ, tt)), tt),
    )

-- A sensor and a command never share a topic.
pub sensor-commands :
    (d : Discovery) (n m : Bytes) → All (Avoids (sensor_topic d n)) (command_topics d m)
sensor-commands d n m =
    let (a, b, _, _) = component_ne d (unique_id d n) (unique_id d m) in ((a, tt), ((b, tt), tt))

pub commands-sensor :
    (d : Discovery) (n m : Bytes) → All (Avoids (command_topics d n)) (sensor_topic d m)
commands-sensor d n m =
    let (a, b) = command_ne_sensor d (unique_id d n) (unique_id d m) in ((a, (b, tt)), tt)

pub AreDistinct-AreApart :
    {R : Type 0} (name : R → Bytes) (topics : Bytes → List Bytes)
    → ((n m : Bytes) → eq_bytes n m ≡ false → All (Avoids (topics n)) (topics m))
    → (regs : List R) → AreDistinct name regs
    → AreApart (λ reg. topics (name reg)) regs
AreDistinct-AreApart name topics h [] distinct = tt
AreDistinct-AreApart name topics h (reg ∷ regs) (differ, distinct) = (
  All-map (λ later e. h (name later) (name reg) e) regs differ,
  AreDistinct-AreApart name topics h regs distinct,
)

module _ {W : Type 0} (broker : Broker W) (c : MqttSettings) (sent : W → List Message)
    (recorded : IsRecorded broker c sent) (marshal : Marshal) (d : Discovery)
    (before : Bytes → Option Bytes) where
  -- The payload is what its topic retains, whatever it retained `before`.
  abbrev pub IsRetained : Bytes × Payload → W → Type 0
  IsRetained (topic, payload) w =
      (body : Bytes) × (marshal payload ≡ some body)
      × (stored broker c sent recorded topic (before topic) w ≡ kept_payload body)

  -- The entry stands under the component that the register is, and none under the other.
  abbrev pub IsCommanded : WriteRegister → W → Type 0
  IsCommanded reg w =
      (component : Bytes) × IsOnlyEntity broker c sent recorded marshal d reg before (w, component)

  sensor-IsRetained :
      (topic : Bytes) (payload : Payload) (w : W)
      → (publish_discovery broker c marshal topic payload w).1 ≡ none
      → IsRetained (topic, payload) (publish_discovery broker c marshal topic payload w).0
  sensor-IsRetained topic payload w e =
      let (body, marshalled, own) =
        publish_discovery-stored broker c sent recorded marshal topic payload w e in
      (body, marshalled, own (before topic))

  pub announce_read-IsActing :
      {F : Type 0}
      → IsActing broker c sent recorded
          (λ (reg : ReadRegister F). reg.ha_name)
          (announce_read broker c marshal d)
          (λ reg. sensor_topic d reg.name)
          (λ reg. IsRetained (sensor_config d reg))
  unfolding announce_read sensor_config
  announce_read-IsActing = record {
    keeps = λ reg other w avoids.
        publish_discovery-IsKept broker c sent recorded marshal _ other _ w avoids.0;
    lands = λ reg w e. sensor-IsRetained _ _ w e;
    lasts = λ reg w w₁ kept there. (there.0, there.1, kept.0 (before _) ∙ there.2);
  }

  pub announce_derived-IsActing :
      IsActing broker c sent recorded
        (λ (reg : DerivedRegister). reg.ha_name)
        (announce_derived broker c marshal d)
        (λ reg. sensor_topic d reg.name)
        (λ reg. IsRetained (derived_sensor_config d reg))
  unfolding announce_derived derived_sensor_config
  announce_derived-IsActing = record {
    keeps = λ reg other w avoids.
        publish_discovery-IsKept broker c sent recorded marshal _ other _ w avoids.0;
    lands = λ reg w e. sensor-IsRetained _ _ w e;
    lasts = λ reg w w₁ kept there. (there.0, there.1, kept.0 (before _) ∙ there.2);
  }

  pub announce_write-IsActing :
      IsActing broker c sent recorded
        (λ (reg : WriteRegister). reg.ha_name)
        (announce_write broker c marshal d)
        (λ reg. command_topics d reg.name)
        IsCommanded
  unfolding announce_write
  announce_write-IsActing = record {
    keeps = λ reg other w avoids.
        publish_command_config-IsKept broker c sent recorded marshal d reg other w avoids;
    lands = λ reg w e.
        (_, publish_command_config-IsOnlyEntity broker c sent recorded marshal d reg before w e);
    lasts = λ reg w w₁ kept there. (
      there.0,
      IsOnlyEntity-kept broker c sent recorded marshal d reg before there.0 w w₁
          (kept.0 (before _), (kept.1.0 (before _), tt)) there.1,
    );
  }
