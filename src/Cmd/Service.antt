-- ===== src/Cmd/Service.antt =====
-- cmd/main.go: main and run, as the steps that a run of the program makes, in their order. What the
-- calls return that can fail is an input; the goroutines behind a step are other modules'.
pub mod Orderly
pub mod Started
use aerosmart_gateway.Base.{
  ℕ, Bool, true, false, Option, none, some, List, [], ◌∷◌, ◌++◌, Bytes, if◌then◌else◌,
}
use aerosmart_gateway.Cmd.Load.{serial_config, mqtt_account, mqtt_settings}
use aerosmart_gateway.Config.App.{AppConfig}
use aerosmart_gateway.Config.Types.{Registers}
use aerosmart_gateway.Mqtt.Client.{MqttSettings}
use aerosmart_gateway.Mqtt.Session.{Account}
use aerosmart_gateway.Registers.Derived
use aerosmart_gateway.Registers.Writer.{get_subscribe_topics}
use aerosmart_gateway.Serial.Config.{Config}
use aerosmart_gateway.Serial.Errors.{Err, Result, ok, err, wrap, cause, ctx_canceled}

-- The goroutines of run: Supervise, the settle re-reads, the command queue and pollLoop
pub data Worker : Type 0 where
  supervisor resettle_loop command_worker poll_worker : Worker

-- What run does: `cancels` ends the context, `joins` is wg.Wait, and `disconnects` the Disconnect of
-- the MQTT client.
pub data Event : Type 0 where
  opens_port : Config → Event
  starts : Worker → Event
  connects : Account → MqttSettings → Event
  subscribes : Bytes → Event
  announces cancels disconnects joins closes_port closes_log : Event

-- What loadConfig returns, the flag, and the errors of openSerialWithRetry and connectMQTTWithRetry
pub record Inputs (F : Type 0) : Type 0 where
  pub loaded : Result (AppConfig × Registers F)
  pub validate_only : Bool
  pub opened : Option Err
  pub connected : Option Err

-- The loop over the command topics
unfoldable pub subscribe_events : List Bytes → List Event
subscribe_events [] = []
subscribe_events (topic ∷ topics) = subscribes topic ∷ subscribe_events topics

-- run behind `<-ctx.Done()`, where the signal handler has cancelled the context
abbrev pub shutdown_events : List Event
shutdown_events = cancels ∷ disconnects ∷ joins ∷ closes_port ∷ []

module _ {F : Type 0} where
  -- run behind connectMQTTWithRetry
  unfoldable pub serve : AppConfig → Registers F → List Event
  unfolding subscribe_events
  serve c r =
      starts resettle_loop
      ∷ starts command_worker
      ∷ (subscribe_events (get_subscribe_topics r.write_registers)
          ++ ((if c.discovery.enabled then announces ∷ [] else [])
              ++ starts poll_worker ∷ shutdown_events))

  -- run behind openSerialWithRetry
  unfoldable pub with_port : AppConfig → Registers F → Option Err → List Event × Option Err
  unfolding serve
  with_port c r (some e) = (cancels ∷ joins ∷ closes_port ∷ [], some (wrap e))
  with_port c r none = (connects (mqtt_account c) (mqtt_settings c) ∷ serve c r, none)

  -- run behind NewWithConfig of the logger
  unfoldable pub service : Inputs F → AppConfig → Registers F → List Event × Option Err
  unfolding with_port
  service i c r = elim (Derived.validate r.derived_registers) [
    | some e ↦ ([], some (wrap e))
    | none ↦ if i.validate_only then ([], none) else elim i.opened [
      | some e ↦ ([], some (wrap e))
      | none ↦
          let (events, e) = with_port c r i.connected in
          (opens_port (serial_config c) ∷ starts supervisor ∷ events, e)
    ]
  ]

  -- run: the log is closed when it returns.
  unfoldable pub run : Inputs F → List Event × Option Err
  unfolding service
  run i = elim i.loaded [
    | err e ↦ ([], some e)
    | ok (c, r) ↦ let (events, e) = service i c r in (events ++ closes_log ∷ [], e)
  ]

-- `errors.Is(err, context.Canceled)`
abbrev pub is_canceled : Err → Bool
is_canceled e = elim (cause e) [ ctx_canceled ↦ true | _ ↦ false ]

-- The exit status of main, by the flag for the version and what run returns
unfoldable pub exit_code : Bool → Option Err → ℕ
exit_code show_version none = 0
exit_code show_version (some e) = if show_version then 0 else if is_canceled e then 0 else 1
