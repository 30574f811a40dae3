-- ===== src/Tests/Main.antt =====
-- A machine whose port, broker and cycles fail a few times, for the loops of cmd/main.go.
use aerosmart_gateway.Base.{
  ℕ, zero, suc, ◌+◌, ◌≤◌, ◌<◌, ◌≡◌, refl, ◌⊎◌, true, Option, none, some, List, [], ◌∷◌, ◌++◌, arith,
}
use aerosmart_gateway.Base.Int.{ℤ, pos, ◌≤ℤ◌}
use aerosmart_gateway.Serial.Errors.{Err, eio, cycle_skipped, wrap}
use aerosmart_gateway.Serial.World.{Clock}
use aerosmart_gateway.Serial.Supervisor.{double_backoff}
use aerosmart_gateway.Cmd.PollLoop.{Polling, poll_loop, poll_wait}
use aerosmart_gateway.Cmd.PollLoop
use aerosmart_gateway.Cmd.PollLoop.Paced.{IsFair, IsPaced, poll_loop-IsPaced}
use aerosmart_gateway.Cmd.StartUp.{
  open_serial_with_retry, Jitter, calculate_backoff_with_jitter, connect_mqtt_with_retry,
}
use aerosmart_gateway.Cmd.StartUp.Connected.{
  IsLogged, HasConnected, connect_mqtt_with_retry-HasConnected,
}
use aerosmart_gateway.Tests.Fixed.{fixed}

record Machine : Type 0 where
  time : ℕ
  failures : ℕ  -- left
  tried : List (Option Err)

abbrev clock : Clock Machine
clock = record {
  now = λ w. w.time;
  sleep = λ d w. record w { time = w.time + d };
  ctx_err = λ w. none;
  wait = λ d w. (record w { time = w.time + d }, true);
}

clock-IsFair : IsFair clock
clock-IsFair = record { wait_lasts = λ d w e. omega arith; wait_cut = λ d w e. cc }

abbrev attempt_from : ℕ → Machine → Machine × Option Err
attempt_from zero w = (record w { tried = w.tried ++ none ∷ [] }, none)
attempt_from (suc n) w = (record w { failures = n; tried = w.tried ++ some eio ∷ [] }, some eio)

abbrev attempt : Machine → Machine × Option Err
attempt w = attempt_from w.failures w

abbrev fails_twice : Machine
fails_twice = record { time = 10; failures = 2; tried = [] }

opening_run : (open_serial_with_retry clock attempt 5 3 4 fails_twice).waits ≡ 3 ∷ 4 ∷ []
unfolding open_serial_with_retry double_backoff
opening_run = refl

-- A jitter that draws one half, so the factor is one.
abbrev no_jitter : Jitter Machine ℤ
no_jitter = record { draw = λ w. (w, pos 5); truncate = λ x. x }

delay-logged :
    (n : ℕ) (w : Machine)
    → (calculate_backoff_with_jitter fixed no_jitter n (pos 1_000) (pos 60_000) (pos 20) w).0.tried
      ≡ w.tried
unfolding calculate_backoff_with_jitter
delay-logged n w = refl

attempt-logged :
    (n : ℕ) (w : Machine) → (attempt_from n w).0.tried ≡ w.tried ++ (attempt_from n w).1 ∷ []
attempt-logged zero w = refl
attempt-logged (suc n) w = refl

attempt-IsLogged :
    IsLogged clock attempt
      (λ (w : Machine). w.tried)
      (λ n. calculate_backoff_with_jitter fixed no_jitter n (pos 1_000) (pos 60_000) (pos 20))
attempt-IsLogged = record {
  connect_tried = λ w. attempt-logged w.failures w;
  wait_tried = λ d w. refl;
  delay_tried = delay-logged;
}

connect_mqtt_with_retry-HasConnected_example :
    HasConnected clock attempt
      (λ (w : Machine). w.tried)
      10
      fails_twice
      (connect_mqtt_with_retry fixed no_jitter clock attempt
        (pos 10)
        (pos 1_000)
        (pos 60_000)
        (pos 20)
        fails_twice)
connect_mqtt_with_retry-HasConnected_example =
    connect_mqtt_with_retry-HasConnected fixed no_jitter clock attempt (λ (w : Machine). w.tried)
      (pos 10) (pos 1_000) (pos 60_000) (pos 20) fails_twice attempt-IsLogged clock-IsFair

-- Cycles that take 7 units of time, the first of which are skipped
abbrev cycle_from : ℕ → Machine → Machine × Option Err
cycle_from zero w = (record w { time = w.time + 7 }, none)
cycle_from (suc n) w = (record w { time = w.time + 7; failures = n }, some (wrap cycle_skipped))

abbrev cycle : Machine → Machine × Option Err
cycle w = cycle_from w.failures w

polling_run : (poll_loop clock cycle (pos 60) (pos 5) 3 fails_twice).world.time ≡ 10 + 12 + 12 + 67
unfolding poll_loop PollLoop.poll_wait
polling_run = refl

poll_loop-IsPaced_example :
    (i s : ℕ) × (0 < s)
    × (s ≤ i)
    × ((pos 60 ≡ pos i) ⊎ ((pos 60 ≤ℤ pos 0) × (i ≡ 60_000_000_000)))
    × ((pos 5 ≡ pos s) ⊎ (((pos 5 ≤ℤ pos 0) ⊎ (pos i ≤ℤ pos 5)) × (s ≡ i)))
    × IsPaced clock cycle i s 3 10 (poll_loop clock cycle (pos 60) (pos 5) 3 fails_twice)
poll_loop-IsPaced_example =
    poll_loop-IsPaced clock cycle (pos 60) (pos 5) 3 fails_twice clock-IsFair
