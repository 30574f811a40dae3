-- ===== src/Tests/Resettle.antt =====
-- A request for a re-read that arrives while the loop of internal/registers/resettle.go sleeps.
use aerosmart_gateway.Base.{◌≡◌, refl, some, [], codes, eq_bytes}
use aerosmart_gateway.Base.Int.{pos}
use aerosmart_gateway.Config.Types.{WriteRegister}
use aerosmart_gateway.Registers.Resettle.{PendingRefresh, due}
use aerosmart_gateway.Registers.Resettle.Loop.{
  System, start, look, sleep_loop, request, put_request, looking, Reach, here, more, reads_clock,
  looks, sleeps, asks,
}
use aerosmart_gateway.Registers.Resettle.Loop.Wakeup.{IsAwake, Reach-IsAwake}
use aerosmart_gateway.Registers.Resettle.Loop.Kept.{IsPlaced, Reach-IsKept}

abbrev fan : WriteRegister
fan = record {
  name = codes "fan";
  command_template = codes "130 1 {value}";
  subscribe_topic = codes "aerosmart/fan/set";
  topic = [];
  min_value = pos 0;
  max_value = pos 4;
  verify_registers = [];
  state_from = [];
  ha_name = [];
  ha_command_topic = [];
}

abbrev looked : System
looked = look 0 (record (start 1_000 0) { loop = looking 0 })

abbrev asleep : System
asleep = record looked { loop = sleep_loop 0 0 0 }

abbrev asked : System
asked = request fan 1 asleep

trace : Reach (start 1_000 0) asked
unfolding start look due sleep_loop
trace =
    more
      (more (more (more here (reads_clock (start 1_000 0) refl)) (looks _ 0 refl))
        (sleeps looked 0 0 refl))
      (asks asleep fan 1)

Reach-IsAwake_example : IsAwake asked asked.loop
Reach-IsAwake_example = Reach-IsAwake 1_000 0 trace

abbrev entry : PendingRefresh
entry = record { register = fan; seq = 1; due = 1_000 }

latest_of_fan : asked.latest (codes "fan") ≡ some entry
unfolding request put_request start look eq_bytes
latest_of_fan = refl

Reach-IsKept_example : IsPlaced asked asked.loop entry
Reach-IsKept_example = Reach-IsKept 1_000 0 (codes "fan") entry trace latest_of_fan
