-- ===== src/Tests/Config.antt =====
-- Configurations of internal/config.
use aerosmart_gateway.Base.{◌≡◌, ◌↔◌, ◌⊎◌, codes, true, false, none, some, []}
use aerosmart_gateway.Base.Int.{pos}
use aerosmart_gateway.Serial.Errors.{invalid_config, wrap}
use aerosmart_gateway.Config.App
use aerosmart_gateway.Config.App.{
  AppConfig, SerialConfig, MqttConfig, Discovery, Logging, apply_defaults,
}
use aerosmart_gateway.Config.App.Valid.{validate, IsWorkable, validate-IsWorkable}
use aerosmart_gateway.Config.App.Valid

-- A file that names the broker and nothing else.
abbrev pub minimal : AppConfig
minimal = record {
  serial = record {
    port = [];
    baud_rate = pos 0;
    byte_size = pos 0;
    parity = [];
    stop_bits = pos 0;
    read_timeout = pos 0;
    response_timeout = pos 0;
    retries = pos 0;
    retry_backoff = pos 0;
    reopen_backoff = pos 0;
    reopen_max_backoff = pos 0;
    health_check_interval = pos 0;
    write_priority_timeout = pos 0;
    write_settle_delay = pos 0;
    write_resettle_delay_set = none;
    write_resettle_delay = pos 0;
    bus_quiet_gap = pos 0;
    bus_quiet_max_wait = pos 0;
    xon_xoff = false;
    dsr_dtr = false;
    deprecated = [];
  };
  mqtt = record {
    broker = codes "localhost";
    port = pos 0;
    username = [];
    password = [];
    client_id = [];
    qos = pos 0;
    retain = true;
    availability_topic = [];
    op_timeout = pos 0;
    publish_retry_count = pos 0;
    connect_retry_initial_delay_ms = pos 0;
    connect_retry_max_delay_ms = pos 0;
    connect_retry_jitter_percent = pos 0;
  };
  device_id = [];
  log_level = [];
  logging = record {
    log_file = [];
    file_logging = false;
    console_logging_set = none;
    console_logging = false;
  };
  read_interval = pos 0;
  discovery = record {
    enabled = false;
    prefix = [];
    name = [];
    manufacturer = [];
    model = [];
    sw_version = [];
    expire_after_set = none;
    expire_after = pos 0;
  };
}

validate-IsWorkable_example :
    ((validate (apply_defaults minimal) ≡ none) ↔ IsWorkable (apply_defaults minimal))
    × ((validate (apply_defaults minimal) ≡ none)
        ⊎ (validate (apply_defaults minimal) ≡ some (wrap invalid_config)))
validate-IsWorkable_example = validate-IsWorkable (apply_defaults minimal)
