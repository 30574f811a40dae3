-- ===== src/Tests/Announce.antt =====
-- Entries that are published over a slow broker, for publishHADiscovery of cmd/main.go.
use aerosmart_gateway.Base.{◌≡◌, refl, some, [], codes, eq_bytes}
use aerosmart_gateway.Cmd.Announce
use aerosmart_gateway.Cmd.Announce.{announce, publish_ha_discovery}
use aerosmart_gateway.Cmd.Announce.Retained.{HasOwnNames, IsTallied, publish_ha_discovery-IsTallied}
use aerosmart_gateway.Mqtt.Client
use aerosmart_gateway.Mqtt.Client.{publish_attempts, publish_retained}
use aerosmart_gateway.Mqtt.Discovery
use aerosmart_gateway.Mqtt.Discovery.Publish
use aerosmart_gateway.Mqtt.Discovery.Publish.{publish_command_config}
use aerosmart_gateway.Tests.Client.{slow, log_of, slow-IsRecorded, settings, gateway, short_text}
use aerosmart_gateway.Tests.Fixed.{fixed}
use aerosmart_gateway.Tests.Registers.{config, accepted}

-- Two messages are left unanswered and repeated; all three entities are published.
announces : (publish_ha_discovery slow settings short_text gateway config (2, [])).published ≡ 3
unfolding publish_ha_discovery announce Announce.announce_read Announce.announce_write
    Announce.announce_derived Discovery.sensor_config Discovery.derived_sensor_config
    Discovery.sensor publish_command_config Publish.publish_entity Publish.publish_discovery
    Publish.clear_stale Discovery.command_config Discovery.stale_command_topics
    Discovery.stale_topics Discovery.topic_of Discovery.unique_id eq_bytes Client.clear_discovery
    publish_retained Client.publish_loop publish_attempts Client.publish_attempt
    Client.publish_pause Client.judge_reply
announces = refl

own_names : HasOwnNames config
unfolding eq_bytes
own_names = ((refl, tt), tt)

publish_ha_discovery-IsTallied_example :
    IsTallied slow settings log_of
      (slow-IsRecorded settings)
      short_text
      gateway
      (λ topic. some (codes "old"))
      config
      (publish_ha_discovery slow settings short_text gateway config (2, []))
publish_ha_discovery-IsTallied_example =
    publish_ha_discovery-IsTallied slow settings log_of (slow-IsRecorded settings) short_text
      gateway (λ topic. some (codes "old")) fixed config (2, []) accepted own_names
