-- ===== src/Tests/Client.antt =====
-- A broker that leaves some messages unanswered.
use aerosmart_gateway.Base.{
  ℕ, zero, suc, ◌≡◌, refl, true, false, none, List, [], ◌∷◌, ◌++◌, codes, Bytes, Option, some,
  eq_bytes,
}
use aerosmart_gateway.Base.Int.{pos}
use aerosmart_gateway.Config.Types.{WriteRegister}
use aerosmart_gateway.Mqtt.Discovery
use aerosmart_gateway.Mqtt.Discovery.{Discovery, Payload, create_device_info}
use aerosmart_gateway.Mqtt.Discovery.Publish
use aerosmart_gateway.Mqtt.Discovery.Publish.{publish_command_config}
use aerosmart_gateway.Mqtt.Discovery.Publish.OneEntity.{
  IsOnlyEntity, publish_command_config-IsOnlyEntity,
}
use aerosmart_gateway.Mqtt.Client
use aerosmart_gateway.Mqtt.Client.{
  MqttSettings, Message, Reply, timed_out, answered, Broker, publish_attempts, publish_retained,
}
use aerosmart_gateway.Mqtt.Client.Delivered.{IsRecorded, IsDelivered, publish_retained-IsDelivered}

-- How many messages it will leave unanswered, and those that it was handed
abbrev pub Slow : Type 0
Slow = ℕ × List Message

abbrev take_message : Message → Slow → Slow × Reply
take_message m (zero, log) = ((0, log ++ m ∷ []), answered none)
take_message m (suc k, log) = ((k, log ++ m ∷ []), timed_out)

abbrev pub log_of : Slow → List Message
log_of (k, log) = log

abbrev pub slow : Broker Slow
slow = record {
  is_connected = λ w. true;
  is_shutting_down = λ w. false;
  publish = λ qos m wait w. take_message m w;
  sleep = λ d w. w;
}

pub slow-IsRecorded : (settings : MqttSettings) → IsRecorded slow settings log_of
slow-IsRecorded settings = record {
  publish_sent = λ qos m wait w. logged m w;
  sleep_sent = λ d w. refl;
}
  where
    logged : (m : Message) (w : Slow) → log_of (take_message m w).0 ≡ log_of w ++ m ∷ []
    logged m (zero, log) = refl
    logged m (suc k, log) = refl

abbrev pub settings : MqttSettings
settings = record {
  qos = pos 1;
  retain = true;
  publish_retry_count = pos 0;
  availability_topic = [];
  op_timeout = pos 5_000_000_000;
}

abbrev state_message : Message
state_message = record { topic = codes "fan"; retained = true; payload = codes "42" }

-- The third attempt is the last of the default, and is answered.
slow_run :
    publish_retained slow settings (codes "fan") (codes "42") true (2, [])
    ≡ ((0, state_message ∷ state_message ∷ state_message ∷ []), none)
unfolding publish_retained Client.publish_loop publish_attempts Client.publish_attempt
    Client.publish_pause Client.judge_reply
slow_run = refl

publish_retained-IsDelivered_example :
    IsDelivered slow settings log_of
      (publish_attempts settings)
      state_message
      (2, [])
      (publish_retained slow settings (codes "fan") (codes "42") true (2, []))
publish_retained-IsDelivered_example =
    publish_retained-IsDelivered slow settings log_of (slow-IsRecorded settings) (codes "fan")
      (codes "42") true (2, [])

abbrev pub gateway : Discovery
gateway = record {
  device_id = codes "aero";
  prefix = codes "ha";
  device = create_device_info (codes "aero") (codes "Aerosmart") (codes "D+W") (codes "M") [];
  availability_topic = [];
  expire_after = pos 0;
}

-- A register that takes more than two values, so it is a number
abbrev stage : WriteRegister
stage = record {
  name = codes "stage";
  command_template = codes "130 40 {value}";
  subscribe_topic = codes "aero/stage/set";
  topic = codes "aero/stage";
  min_value = pos 0;
  max_value = pos 4;
  verify_registers = [];
  state_from = [];
  ha_name = codes "Stage";
  ha_command_topic = [];
}

abbrev pub short_text : Payload → Option Bytes
short_text payload = some (codes "{}")

published : (publish_command_config slow settings short_text gateway stage (0, [])).2 ≡ none
unfolding publish_command_config Publish.publish_entity Publish.publish_discovery
    Publish.clear_stale Discovery.command_config Discovery.stale_command_topics
    Discovery.stale_topics Discovery.topic_of Discovery.unique_id eq_bytes Client.clear_discovery
    publish_retained Client.publish_loop publish_attempts Client.publish_attempt
    Client.publish_pause Client.judge_reply
published = refl

publish_command_config-IsOnlyEntity_example :
    IsOnlyEntity slow settings log_of
      (slow-IsRecorded settings)
      short_text
      gateway
      stage
      (λ topic. some (codes "old"))
      (
        (publish_command_config slow settings short_text gateway stage (0, [])).0,
        (publish_command_config slow settings short_text gateway stage (0, [])).1,
      )
publish_command_config-IsOnlyEntity_example =
    publish_command_config-IsOnlyEntity slow settings log_of (slow-IsRecorded settings) short_text
      gateway stage (λ topic. some (codes "old")) (0, []) published
