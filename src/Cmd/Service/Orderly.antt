-- ===== src/Cmd/Service/Orderly.antt =====
-- The order in which run of cmd/main.go starts and stops the parts of the program.
use aerosmart_gateway.Base.{
  ℕ, suc, ◌≡◌, refl, ap, ◌∙◌, Bool, true, false, ◌&&◌, not, Option, none, some, List, [], ◌∷◌, ◌++◌,
  Bytes, if◌then◌else◌, ◌==◌,
}
use aerosmart_gateway.Config.App.{AppConfig}
use aerosmart_gateway.Config.Types.{Registers}
use aerosmart_gateway.Cmd.Load.{serial_config}
use aerosmart_gateway.Cmd.Service.{
  supervisor, Event, opens_port, starts, connects, subscribes, announces, cancels, disconnects,
  joins, closes_port, closes_log, Inputs, poll_worker, shutdown_events, subscribe_events, serve,
  with_port, service,
}
use aerosmart_gateway.Registers.Derived
use aerosmart_gateway.Registers.Writer.{get_subscribe_topics}
use aerosmart_gateway.Serial.Errors.{Err, wrap}

some_inj : {A : Type 0} {x y : A} → some x ≡ some y → x ≡ y
some_inj {x = x} e = ap (λ o. elim o [ none ↦ x | some z ↦ z ]) e

-- What is up: the port, the broker's connection and so many goroutines, with what has been done.
pub record Up : Type 0 where
  pub port : Bool
  pub connection : Bool
  pub announced : Bool
  pub cancelled : Bool
  pub running : ℕ

-- What an event makes of it, if it is in order:
-- * a goroutine starts on an open port, before the context ends;
-- * a topic is subscribed to, and the entities are announced, over a connection, topics first;
-- * the goroutines are joined when the context has ended and no command can come in any more;
-- * the port is closed when none of them runs, and the log behind everything else.
abbrev pub up_after : Event → Up → Option Up
up_after (opens_port cfg) u = if u.port then none else some (record u { port = true })
up_after (starts worker) u =
    if u.port && not u.cancelled then some (record u { running = suc u.running }) else none
up_after (connects account settings) u =
    if u.connection then none else some (record u { connection = true })
up_after (subscribes topic) u = if u.connection && not u.announced then some u else none
up_after announces u = if u.connection then some (record u { announced = true }) else none
up_after cancels u = some (record u { cancelled = true })
up_after disconnects u =
    if u.connection && u.cancelled then some (record u { connection = false }) else none
up_after joins u = if u.cancelled && not u.connection then some (record u { running = 0 }) else none
up_after closes_port u = if u.port && u.running == 0 then some (record u { port = false }) else none
up_after closes_log u = if not u.port && (not u.connection && u.running == 0) then some u else none

abbrev pub ups : List Event → Up → Option Up
ups [] u = some u
ups (event ∷ events) u = elim (up_after event u) [ none ↦ none | some v ↦ ups events v ]

abbrev pub down : Up
down = record {
  port = false;
  connection = false;
  announced = false;
  cancelled = false;
  running = 0;
}

-- Every event is in order, and nothing is left up behind the last.
pub IsOrderly : List Event → Type 0
IsOrderly events =
    (u : Up) × (ups events down ≡ some u)
    × (u.port ≡ false)
    × (u.connection ≡ false)
    × (u.running ≡ 0)

ups-append : (xs ys : List Event) (u v : Up) → ups xs u ≡ some v → ups (xs ++ ys) u ≡ ups ys v
ups-append [] ys u v e = ap (ups ys) (some_inj e)
ups-append (x ∷ xs) ys u v e = go (up_after x u) (λ w h. ups-append xs ys w v h) e
  where
    go :
        (o : Option Up)
        → ((w : Up) → ups xs w ≡ some v → ups (xs ++ ys) w ≡ ups ys v)
        → elim o as (λ _. Option Up) [ none ↦ none | some w ↦ ups xs w ] ≡ some v
        → elim o as (λ _. Option Up) [ none ↦ none | some w ↦ ups (xs ++ ys) w ] ≡ ups ys v
    go none h e = cc
    go (some w) h e = h w e

-- The state behind connectMQTTWithRetry, and the one behind run
abbrev serving : Up
serving = record {
  port = true;
  connection = true;
  announced = false;
  cancelled = false;
  running = 1;
}

abbrev ended : Bool → Up
ended announced = record {
  port = false;
  connection = false;
  announced = announced;
  cancelled = true;
  running = 0;
}

subscribe_events-ups :
    (topics : List Bytes) (events : List Event) (port cancelled : Bool) (running : ℕ)
    → let u : Up = record {
      port = port;
      connection = true;
      announced = false;
      cancelled = cancelled;
      running = running;
    } in
      ups (subscribe_events topics ++ events) u ≡ ups events u
unfolding subscribe_events
subscribe_events-ups [] events port cancelled running = refl
subscribe_events-ups (topic ∷ topics) events port cancelled running =
    subscribe_events-ups topics events port cancelled running

module _ {F : Type 0} where
  serve-ups :
      (c : AppConfig) (r : Registers F) → ups (serve c r) serving ≡ some (ended c.discovery.enabled)
  unfolding serve
  serve-ups c r =
      subscribe_events-ups (get_subscribe_topics r.write_registers) _ true false 3
      ∙ go c.discovery.enabled
    where
      go :
          (b : Bool)
          → ups
              ((if b then announces ∷ [] else []) ++ starts poll_worker ∷ shutdown_events)
              (record serving { running = 3 })
            ≡ some (ended b)
      go true = refl
      go false = refl

  pub service-IsOrderly :
      (i : Inputs F) (c : AppConfig) (r : Registers F) → IsOrderly (service i c r).0
  unfolding IsOrderly service with_port
  service-IsOrderly i c r =
      go (Derived.validate r.derived_registers) i.validate_only i.opened i.connected
    where
      go :
          (invalid : Option Err) (only : Bool) (opened connected : Option Err)
          → IsOrderly
              (elim invalid as (λ _. List Event × Option Err) [
                | some e ↦ ([], some (wrap e))
                | none ↦ if only then ([], none) else elim opened [
                  | some e ↦ ([], some (wrap e))
                  | none ↦
                      let (events, e) = with_port c r connected in
                      (opens_port (serial_config c) ∷ starts supervisor ∷ events, e)
                ]
              ]).0
      go (some e) only opened connected = (down, refl, refl, refl, refl)
      go none true opened connected = (down, refl, refl, refl, refl)
      go none false (some e) connected = (down, refl, refl, refl, refl)
      go none false none (some e) = (record down { cancelled = true }, refl, refl, refl, refl)
      go none false none none = (ended c.discovery.enabled, serve-ups c r, refl, refl, refl)

pub no_events-IsOrderly : IsOrderly []
unfolding IsOrderly
no_events-IsOrderly = (down, refl, refl, refl, refl)

-- Closing the log at the end is in order.
pub IsOrderly-log : (events : List Event) → IsOrderly events → IsOrderly (events ++ closes_log ∷ [])
unfolding IsOrderly
IsOrderly-log events (u, e, port, connection, running) =
    (u, ups-append events (closes_log ∷ []) down u e ∙ last, port, connection, running)
  where
    last : ups (closes_log ∷ []) u ≡ some u
    last =
        let in_order : not u.port && (not u.connection && u.running == 0) ≡ true =
          rw (port, connection, running) refl in
        ap
          (λ b. elim (if b then some u else none) as (λ _. Option Up) [
            | none ↦ none
            | some v ↦ some v
          ])
          in_order
