-- ===== src/Tests/Gate.antt =====
-- A writer that enters while a read cycle is live (gate.go).
use aerosmart_gateway.Base.{◌<◌, ◌+◌, refl}
use aerosmart_gateway.Base.Int.{pos}
use aerosmart_gateway.Registers.Gate.{new_read_gate, try_begin_cycle, suppressed_locked, preempt}
use aerosmart_gateway.Registers.Gate.System.{
  System, live, cancelled, begin, enter, Reach, here, next, start,
}
use aerosmart_gateway.Registers.Gate.Priority.{try_begin_cycle-none}

-- The poll loop has begun its first cycle, which got the id 1.
abbrev reading : System
unfolding start new_read_gate try_begin_cycle suppressed_locked
reading = record (start (pos 100) 7) {
  gate = (try_begin_cycle 7 (new_read_gate (pos 100))).0;
  poll = live 1;
}

reading-Reach : Reach (start (pos 100) 7) reading
unfolding reading
reading-Reach = next here (begin (start (pos 100) 7) refl)

abbrev writing : System
unfolding reading preempt
writing = record reading {
  gate = (preempt 7 reading.gate).0;
  poll = cancelled 1;
  writers = 1;
  last_preempt = 7;
}

writing-Reach : Reach (start (pos 100) 7) writing
unfolding writing
writing-Reach = next reading-Reach (enter reading)

try_begin_cycle-none_example :
    (0 < writing.writers) × (writing.now < writing.last_preempt + writing.gate.timeout)
unfolding writing
try_begin_cycle-none_example = try_begin_cycle-none (pos 100) 7 writing-Reach refl
