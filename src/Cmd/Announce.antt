-- ===== src/Cmd/Announce.antt =====
-- cmd/main.go: publishHADiscovery, which publishes an entry for every entity that has a name for Home
-- Assistant.
pub mod Counted
pub mod Kept
pub mod Acting
pub mod Retained
use aerosmart_gateway.Base.{
  ℕ, suc, Option, none, some, List, [], ◌∷◌, Bytes, is_empty, if◌then◌else◌,
}
use aerosmart_gateway.Config.App.{AppConfig}
use aerosmart_gateway.Config.Types.{ReadRegister, WriteRegister, DerivedRegister, Registers}
use aerosmart_gateway.Mqtt.Client.{MqttSettings, Broker}
use aerosmart_gateway.Mqtt.Discovery.{
  Discovery, create_device_info, sensor_config, derived_sensor_config,
}
use aerosmart_gateway.Mqtt.Discovery.Publish.{
  Trouble, Marshal, publish_discovery, publish_command_config,
}

-- `published` and `failed`
pub record Tally (W : Type 0) : Type 0 where
  pub world : W
  pub published : ℕ
  pub failed : ℕ

-- What is counted behind an entity, by the error that publishing it returned
abbrev pub count_entity : {W : Type 0} → W × Option Trouble → Tally W → Tally W
count_entity (w, none) t = record t { world = w; published = suc t.published }
count_entity (w, some e) t = record t { world = w; failed = suc t.failed }

-- An entity without a name for Home Assistant is passed over.
abbrev pub announce_one : {W : Type 0} → Bytes → W × Option Trouble → Tally W → Tally W
announce_one name result t = if is_empty name then t else count_entity result t

-- One of the three loops; `named` is the name for Home Assistant, and `act` publishes the entity.
unfoldable pub announce :
    {W R : Type 0} → (R → Bytes) → (R → W → W × Option Trouble) → List R → Tally W → Tally W
announce named act [] t = t
announce named act (reg ∷ regs) t =
    announce named act regs (announce_one (named reg) (act reg t.world) t)

-- The Discovery that the configuration makes
unfoldable pub discovery_of : AppConfig → Discovery
unfolding create_device_info
discovery_of c = record {
  device_id = c.device_id;
  prefix = c.discovery.prefix;
  device =
      create_device_info c.device_id c.discovery.name c.discovery.manufacturer c.discovery.model
        c.discovery.sw_version;
  availability_topic = c.mqtt.availability_topic;
  expire_after = c.discovery.expire_after;
}

module _ {W : Type 0} (broker : Broker W) (c : MqttSettings) (marshal : Marshal)
    (d : Discovery) where
  -- What the loops do for a register
  unfoldable pub announce_read : {F : Type 0} → ReadRegister F → W → W × Option Trouble
  announce_read reg w =
      let (topic, payload) = sensor_config d reg in
      publish_discovery broker c marshal topic payload w

  unfoldable pub announce_write : WriteRegister → W → W × Option Trouble
  announce_write reg w =
      let (w₁, component, failed) = publish_command_config broker c marshal d reg w in (w₁, failed)

  unfoldable pub announce_derived : DerivedRegister → W → W × Option Trouble
  announce_derived reg w =
      let (topic, payload) = derived_sensor_config d reg in
      publish_discovery broker c marshal topic payload w

  unfoldable pub publish_ha_discovery : {F : Type 0} → Registers F → W → Tally W
  unfolding announce announce_read announce_write announce_derived
  publish_ha_discovery r w =
      let t : Tally W = record { world = w; published = 0; failed = 0 } in
      let t₁ = announce (λ reg. reg.ha_name) announce_read r.read_registers t in
      let t₂ = announce (λ reg. reg.ha_name) announce_write r.write_registers t₁ in
      announce (λ reg. reg.ha_name) announce_derived r.derived_registers t₂
