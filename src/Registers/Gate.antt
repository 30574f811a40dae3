-- ===== src/Registers/Gate.antt =====
-- internal/registers/gate.go: ReadGate. Each method holds the gate's mutex, so it is one function on the
-- gate; the time is an argument. A cycle's context is named by its cycle id, and a method that calls
-- a cancel function returns the id that it cancels.
pub mod System
pub mod Priority
use aerosmart_gateway.Base.{
  ℕ, zero, suc, ◌+◌, ◌-◌, ◌*◌, ◌%◌, ◌^◌, ◌≡◌, Bool, true, false, Option, none, some, if◌then◌else◌,
  ltb, ==_iff, ◌==◌, leb,
}
use aerosmart_gateway.Base.Int.{ℤ, pos, leb_ℤ, pos_part}

pub record ReadGate : Type 0 where
  pub cancel : Option ℕ  -- the cycle that the stored cancel function belongs to
  pub cycle_id : ℕ  -- uint64
  pub until : Option ℕ  -- none is the zero time
  pub timeout : ℕ
  pub holds : ℕ

-- NewReadGate, with the timeout in nanoseconds
unfoldable pub new_read_gate : ℤ → ReadGate
new_read_gate timeout = record {
  cancel = none;
  cycle_id = 0;
  until = none;
  timeout = if leb_ℤ timeout (pos 0) then 10_000_000_000 else pos_part timeout;
  holds = 0;
}

-- suppressedLocked: an expired deadline is cleared, the holds are not.
unfoldable pub suppressed_locked : ℕ → ReadGate → ReadGate × Bool
suppressed_locked now g = elim g.until [
  | none ↦ (g, false)
  | some t ↦ if ltb now t then (g, true) else (record g { until = none }, false)
]

-- Suppressed
unfoldable pub suppressed : ℕ → ReadGate → ReadGate × Bool
unfolding suppressed_locked
suppressed now g = suppressed_locked now g

-- TryBeginCycle: the id of the new cycle, or none while reads are held off.
unfoldable pub try_begin_cycle : ℕ → ReadGate → ReadGate × Option ℕ
unfolding suppressed_locked
try_begin_cycle now g =
    let (g₁, held) = suppressed_locked now g in
    if held
    then (g₁, none)
    else (let id = (g₁.cycle_id + 1) % 2 ^ 64 in
        (record g₁ { cycle_id = id; cancel = some id }, some id))

-- The function that TryBeginCycle returns with cycle `id`: it cancels that cycle's context, and
-- deregisters the cycle if it is still the current one.
unfoldable pub end_cycle : ℕ → ReadGate → ReadGate × Option ℕ
end_cycle id g = (if g.cycle_id == id then record g { cancel = none } else g, some id)

-- Preempt, with the cycle that it cancels
unfoldable pub preempt : ℕ → ReadGate → ReadGate × Option ℕ
preempt now g =
    (record g { cancel = none; holds = g.holds + 1; until = some (now + g.timeout) }, g.cancel)

-- Release
unfoldable pub release : ReadGate → ReadGate
release g =
    let holds = if ltb 0 g.holds then g.holds - 1 else g.holds in
    record g { holds = holds; until = if holds == 0 then none else g.until }

-- hasActiveCycle
unfoldable pub has_active_cycle : ReadGate → Bool
has_active_cycle g = elim g.cancel [ none ↦ false | some id ↦ true ]
