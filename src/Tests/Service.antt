-- ===== src/Tests/Service.antt =====
-- A run of the program of cmd/main.go, from its start to a signal.
use aerosmart_gateway.Base.{◌≡◌, refl, false, none, some, [], ◌∷◌, codes}
use aerosmart_gateway.Cmd.Load.{serial_config, mqtt_account, mqtt_settings}
use aerosmart_gateway.Cmd.Service
use aerosmart_gateway.Cmd.Service.{
  Inputs, opens_port, starts, connects, subscribes, supervisor, resettle_loop, command_worker,
  poll_worker, cancels, disconnects, joins, closes_port, closes_log, run, exit_code,
}
use aerosmart_gateway.Base.Int.{ℤ}
use aerosmart_gateway.Registers.Derived
use aerosmart_gateway.Registers.Writer.{get_subscribe_topics}
use aerosmart_gateway.Serial.Errors.{ok, wrap, ctx_canceled, eio}
use aerosmart_gateway.Tests.Config.{minimal}
use aerosmart_gateway.Tests.Registers.{config}

abbrev inputs : Inputs ℤ
inputs = record {
  loaded = ok (minimal, record config { derived_registers = [] });
  validate_only = false;
  opened = none;
  connected = none;
}

runs :
    (run inputs).0
    ≡ opens_port (serial_config minimal)
      ∷ starts supervisor
      ∷ connects (mqtt_account minimal) (mqtt_settings minimal)
      ∷ starts resettle_loop
      ∷ starts command_worker
      ∷ subscribes (codes "aerosmart/fan/set")
      ∷ starts poll_worker
      ∷ cancels
      ∷ disconnects
      ∷ joins
      ∷ closes_port
      ∷ closes_log
      ∷ []
unfolding run Service.service Service.with_port Service.serve Service.subscribe_events
    get_subscribe_topics Derived.validate Derived.all_covered
runs = refl

-- A signal before the port could be opened is no failure; a broker that never answers is one.
interrupted : exit_code false (some (wrap ctx_canceled)) ≡ 0
unfolding exit_code
interrupted = refl

fails : exit_code false (some (wrap eio)) ≡ 1
unfolding exit_code
fails = refl
