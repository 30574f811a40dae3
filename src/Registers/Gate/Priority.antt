-- ===== src/Registers/Gate/Priority.antt =====
-- What gate.go promises to writers and to the poll loop, in every order of their steps.
use aerosmart_gateway.Base.{ℕ, ◌+◌, ◌<◌, ◌≡◌, ◌⊎◌, inl, inr, none, some, arith, Option-cases}
use aerosmart_gateway.Base.Int.{ℤ}
use aerosmart_gateway.Registers.Gate.{try_begin_cycle}
use aerosmart_gateway.Registers.Gate.System.{System, Inv, Reach, start, Reach-Inv}

-- A cycle is refused only then: with no writer left, or once the window has run out although a writer
-- never released the gate, the next cycle begins.
pub try_begin_cycle-none :
    (timeout : ℤ) (now : ℕ) {s : System}
    → Reach (start timeout now) s
    → (try_begin_cycle s.now s.gate).1 ≡ none
    → (0 < s.writers) × (s.now < s.last_preempt + s.gate.timeout)
unfolding try_begin_cycle
try_begin_cycle-none timeout now {s} r e =
    let h = Reach-Inv timeout now r in go (Option-cases s.gate.until) h
  where
    go :
        (s.gate.until ≡ none) ⊎ ((t : ℕ) × (s.gate.until ≡ some t))
        → Inv s
        → (0 < s.writers) × (s.now < s.last_preempt + s.gate.timeout)
    go (inl n) h = absurd (ground arith)
    go (inr (t, u)) h = (ground (arith, h.window t u), ground (arith, h.window t u))
