-- ===== src/Mqtt.antt =====
-- internal/mqtt: publishing, subscribing and Home Assistant's discovery.
pub mod Command
pub mod Client
pub mod Discovery
pub mod Session
