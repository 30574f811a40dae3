-- ===== src/Config/App.antt =====
-- internal/config/config.go: the application's configuration behind the YAML decoder, its defaults and
-- its validation. Numbers are Go's `int`; the fields that YAML may leave out are optional.
pub mod Valid
pub mod Budget
use aerosmart_gateway.Base.{
  ℕ, ◌+◌, ◌*◌, ◌/◌, ◌≡◌, Bool, true, false, ◌&&◌, ◌||◌, not, Option, none, some, List, [], ◌∷◌,
  ◌++◌, Bytes, codes, eq_bytes, is_empty, if◌then◌else◌, is_some,
}
use aerosmart_gateway.Base.Int.{ℤ, pos, negsuc, ltb_ℤ, leb_ℤ, eq_ℤ, max_ℤ, int64, half, ◌+ℤ◌, ◌*ℤ◌}
use aerosmart_gateway.Serial.Errors.{Err, invalid_config, wrap}

-- SerialConfig
pub record SerialConfig : Type 0 where
  pub port : Bytes
  pub baud_rate : ℤ
  pub byte_size : ℤ
  pub parity : Bytes
  pub stop_bits : ℤ
  pub read_timeout : ℤ
  pub response_timeout : ℤ
  pub retries : ℤ
  pub retry_backoff : ℤ
  pub reopen_backoff : ℤ
  pub reopen_max_backoff : ℤ
  pub health_check_interval : ℤ
  pub write_priority_timeout : ℤ
  pub write_settle_delay : ℤ
  pub write_resettle_delay_set : Option ℤ
  pub write_resettle_delay : ℤ
  pub bus_quiet_gap : ℤ
  pub bus_quiet_max_wait : ℤ
  pub xon_xoff : Bool
  pub dsr_dtr : Bool
  pub deprecated : List (Bytes × Option ℤ)  -- the keys that have no effect any more

-- MQTTConfig
pub record MqttConfig : Type 0 where
  pub broker : Bytes
  pub port : ℤ
  pub username : Bytes
  pub password : Bytes
  pub client_id : Bytes
  pub qos : ℤ
  pub retain : Bool
  pub availability_topic : Bytes
  pub op_timeout : ℤ
  pub publish_retry_count : ℤ
  pub connect_retry_initial_delay_ms : ℤ
  pub connect_retry_max_delay_ms : ℤ
  pub connect_retry_jitter_percent : ℤ

-- HADiscoveryConfig, with DeviceInfoConfig in it
pub record Discovery : Type 0 where
  pub enabled : Bool
  pub prefix : Bytes
  pub name : Bytes
  pub manufacturer : Bytes
  pub model : Bytes
  pub sw_version : Bytes
  pub expire_after_set : Option ℤ
  pub expire_after : ℤ

-- LoggingConfig
pub record Logging : Type 0 where
  pub log_file : Bytes
  pub file_logging : Bool
  pub console_logging_set : Option Bool
  pub console_logging : Bool

pub record AppConfig : Type 0 where
  pub serial : SerialConfig
  pub mqtt : MqttConfig
  pub device_id : Bytes
  pub log_level : Bytes
  pub logging : Logging
  pub read_interval : ℤ
  pub discovery : Discovery

-- `if x == 0 { x = d }` and `if s == "" { s = d }`
abbrev pub or_number : ℕ → ℤ → ℤ
or_number d x = if eq_ℤ x (pos 0) then pos d else x

abbrev pub or_text : Bytes → Bytes → Bytes
or_text d s = if is_empty s then d else s

abbrev pub or_else : {A : Type 0} → A → Option A → A
or_else a none = a
or_else a (some b) = b

unfoldable pub serial_defaults : SerialConfig → SerialConfig
serial_defaults c = record c {
  port = or_text (codes "/dev/ttyUSB0") c.port;
  baud_rate = or_number 115_200 c.baud_rate;
  byte_size = or_number 8 c.byte_size;
  parity = or_text (codes "N") c.parity;
  stop_bits = or_number 1 c.stop_bits;
  read_timeout = or_number 200 c.read_timeout;
  response_timeout = or_number 300 c.response_timeout;
  retries = or_number 3 c.retries;
  retry_backoff = or_number 100 c.retry_backoff;
  reopen_backoff = or_number 500 c.reopen_backoff;
  reopen_max_backoff = or_number 30_000 c.reopen_max_backoff;
  health_check_interval = or_number 1_000 c.health_check_interval;
  write_priority_timeout = or_number 10_000 c.write_priority_timeout;
  write_settle_delay = or_number 50 c.write_settle_delay;
  bus_quiet_gap = or_number 20 c.bus_quiet_gap;
  bus_quiet_max_wait = or_number 100 c.bus_quiet_max_wait;
  write_resettle_delay = or_else (pos 5_000) c.write_resettle_delay_set;
}

unfoldable pub mqtt_defaults : Bytes → MqttConfig → MqttConfig
mqtt_defaults device_id c = record c {
  port = or_number 1_883 c.port;
  client_id = or_text (codes "aerosmart-gateway") c.client_id;
  availability_topic = or_text (device_id ++ codes "/status") c.availability_topic;
  op_timeout = or_number 5_000 c.op_timeout;
  publish_retry_count = or_number 3 c.publish_retry_count;
  connect_retry_initial_delay_ms = or_number 500 c.connect_retry_initial_delay_ms;
  connect_retry_max_delay_ms = or_number 30_000 c.connect_retry_max_delay_ms;
  connect_retry_jitter_percent = or_number 25 c.connect_retry_jitter_percent;
}

unfoldable pub discovery_defaults : ℤ → Discovery → Discovery
discovery_defaults read_interval c = record c {
  prefix = or_text (codes "homeassistant") c.prefix;
  name = or_text (codes "Aerosmart Gateway") c.name;
  manufacturer = or_text (codes "Drexel und Weiss") c.manufacturer;
  model = or_text (codes "aerosmartPI") c.model;
  expire_after = elim c.expire_after_set [
    | some n ↦ n
    | none ↦
        if ltb_ℤ (pos 0) read_interval
        then half (int64 (read_interval *ℤ pos 5))
        else c.expire_after
  ];
}

unfoldable pub logging_defaults : Logging → Logging
logging_defaults c = record c {
  file_logging =
      if is_empty c.log_file || eq_bytes c.log_file (codes "-") then false else c.file_logging;
  console_logging = or_else true c.console_logging_set;
}

-- applyDefaults
unfoldable pub apply_defaults : AppConfig → AppConfig
unfolding serial_defaults mqtt_defaults discovery_defaults logging_defaults
apply_defaults c =
    let device_id = or_text (codes "aerosmart") c.device_id in
    let read_interval = or_number 60 c.read_interval in
    record {
      serial = serial_defaults c.serial;
      mqtt = mqtt_defaults device_id c.mqtt;
      device_id = device_id;
      log_level = or_text (codes "info") c.log_level;
      logging = logging_defaults c.logging;
      read_interval = read_interval;
      discovery = discovery_defaults read_interval c.discovery;
    }

-- What Validate and ValidateCycleBudget complain about; `negative` names the key.
pub data Problem : Type 0 where
  parity byte_size stop_bits retries read_interval broker qos : Problem
  negative : Bytes → Problem
  reopen_backoffs connect_delays jitter logging : Problem

-- `if bad { problems = append(problems, ...) }`
unfoldable pub complain : Bool → Problem → List Problem → List Problem
complain bad problem problems = if bad then problem ∷ problems else problems
