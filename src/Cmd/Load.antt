-- ===== src/Cmd/Load.antt =====
-- cmd/main.go: loadConfig, and the configurations that run makes for the components. The two files are
-- what the reader and the YAML decoder make of them, or their error. `F` is float64.
pub mod Ready
use aerosmart_gateway.Base.{ℕ, Option, none, some, Bytes, length}
use aerosmart_gateway.Base.Int.{ℤ, pos, int64, ◌*ℤ◌}
use aerosmart_gateway.Base.Float.{Floats}
use aerosmart_gateway.Config.App.{AppConfig, apply_defaults, or_text}
use aerosmart_gateway.Config.App.Valid
use aerosmart_gateway.Config.App.Budget.{validate_cycle_budget}
use aerosmart_gateway.Config.Check
use aerosmart_gateway.Config.Types.{Registers}
use aerosmart_gateway.Mqtt.Client.{MqttSettings}
use aerosmart_gateway.Mqtt.Session.{Account}
use aerosmart_gateway.Serial.Config.{Config}
use aerosmart_gateway.Serial.Errors.{Err, Result, ok, err, wrap}

-- LoadAppConfig, of what the file holds
unfoldable pub load_app_config : Result AppConfig → Result AppConfig
load_app_config (err e) = err (wrap e)
load_app_config (ok c) = ok (apply_defaults c)

-- LoadRegistersConfig
unfoldable pub load_registers_config : {F : Type 0} → Result (Registers F) → Result (Registers F)
load_registers_config (err e) = err (wrap e)
load_registers_config (ok c) = ok c

-- `if appConfig.HADiscovery.DeviceInfo.SWVersion == "" { ... = version }`
unfoldable pub with_version : Bytes → AppConfig → AppConfig
with_version version c = record c {
  discovery = record c.discovery { sw_version = or_text version c.discovery.sw_version };
}

module _ {F : Type 0} (fl : Floats F) where
  -- loadConfig behind the checks of the application's configuration
  unfoldable pub with_registers :
      AppConfig → Result (Registers F) → Result (AppConfig × Registers F)
  with_registers c (err e) = err (wrap e)
  with_registers c (ok r) = elim (Check.validate fl r) [
    | some e ↦ err e
    | none ↦ elim (validate_cycle_budget (pos (length r.read_registers)) c) [
      | some e ↦ err e
      | none ↦ ok (c, r)
    ]
  ]

  unfoldable pub load_config :
      Bytes → Result AppConfig → Result (Registers F) → Result (AppConfig × Registers F)
  load_config version app registers = elim (load_app_config app) [
    | err e ↦ err (wrap e)
    | ok loaded ↦
        let c = with_version version loaded in
        elim (Valid.validate c) [
          | some e ↦ err e
          | none ↦ with_registers c (load_registers_config registers)
        ]
  ]

-- msDuration
unfoldable pub ms_duration : ℤ → ℤ
ms_duration ms = int64 (ms *ℤ pos 1_000_000)

-- What serial.New is called with
unfoldable pub serial_config : AppConfig → Config
unfolding ms_duration
serial_config c = record {
  port = c.serial.port;
  baud_rate = c.serial.baud_rate;
  data_bits = c.serial.byte_size;
  parity = c.serial.parity;
  stop_bits = c.serial.stop_bits;
  read_timeout = ms_duration c.serial.read_timeout;
  response_timeout = ms_duration c.serial.response_timeout;
  reopen_backoff = ms_duration c.serial.reopen_backoff;
  max_reopen_backoff = ms_duration c.serial.reopen_max_backoff;
  health_check_interval = ms_duration c.serial.health_check_interval;
  bus_quiet_gap = ms_duration c.serial.bus_quiet_gap;
  bus_quiet_max_wait = ms_duration c.serial.bus_quiet_max_wait;
}

-- What mqtt.NewClient is called with, in two parts
unfoldable pub mqtt_account : AppConfig → Account
mqtt_account c = record {
  broker = c.mqtt.broker;
  port = c.mqtt.port;
  username = c.mqtt.username;
  password = c.mqtt.password;
  client_id = c.mqtt.client_id;
}

unfoldable pub mqtt_settings : AppConfig → MqttSettings
unfolding ms_duration
mqtt_settings c = record {
  qos = c.mqtt.qos;
  retain = c.mqtt.retain;
  publish_retry_count = c.mqtt.publish_retry_count;
  availability_topic = c.mqtt.availability_topic;
  op_timeout = ms_duration c.mqtt.op_timeout;
}
