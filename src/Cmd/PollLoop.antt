-- ===== src/Cmd/PollLoop.antt =====
-- cmd/main.go: pollLoop. A cycle is what the `cycler` of the loop does: `run` is its RunCycle.
pub mod Paced
use aerosmart_gateway.Base.{
  ℕ, zero, suc, Bool, true, false, ◌||◌, Option, none, some, List, [], ◌∷◌, if◌then◌else◌,
}
use aerosmart_gateway.Base.Int.{ℤ, pos, pos_part, ltb_ℤ, leb_ℤ}
use aerosmart_gateway.Serial.Errors.{Err, cause, ctx_canceled, cycle_skipped}
use aerosmart_gateway.Serial.World.{Clock}

-- `if interval <= 0`, in nanoseconds
unfoldable pub usable_interval : ℤ → ℤ
usable_interval interval = if leb_ℤ interval (pos 0) then pos 60_000_000_000 else interval

-- `if skipDelay <= 0 || skipDelay > interval`, for a usable interval
unfoldable pub usable_skip : ℤ → ℤ → ℤ
usable_skip interval skip = if leb_ℤ skip (pos 0) || ltb_ℤ interval skip then interval else skip

-- errors.Is(err, context.Canceled), and errors.Is(err, registers.ErrCycleSkipped)
unfoldable pub has_read_nothing : Err → Bool
has_read_nothing e = elim (cause e) [ ctx_canceled ↦ true | cycle_skipped ↦ true | _ ↦ false ]

-- The switch over the result of a cycle
unfoldable pub poll_wait : ℕ → ℕ → Option Err → ℕ
unfolding has_read_nothing
poll_wait interval skip none = interval
poll_wait interval skip (some e) = if has_read_nothing e then skip else interval

-- A cycle of the loop: when it began and ended, what it returned, and how long the loop then waited.
pub record Round : Type 0 where
  pub begun : ℕ
  pub ended : ℕ
  pub result : Option Err
  pub wait : ℕ

-- Whether the loop has returned, and the rounds that it made
pub record Polling (W : Type 0) : Type 0 where
  pub world : W
  pub returned : Bool
  pub rounds : List Round

module _ {W : Type 0} (clock : Clock W) (run : W → W × Option Err) (interval skip : ℕ) where
  -- What follows a round
  abbrev before_rounds : Round → Polling W → Polling W
  before_rounds r p = record p { rounds = r ∷ p.rounds }

  -- The first `n` rounds of the loop
  unfoldable pub poll_rounds : ℕ → W → Polling W
  poll_rounds zero w = record { world = w; returned = false; rounds = [] }
  poll_rounds (suc n) w =
      let (w₁, result) = run w in
      let wait = poll_wait interval skip result in
      let (w₂, fired) = clock.wait wait w₁ in
      let round : Round = record {
        begun = clock.now w;
        ended = clock.now w₁;
        result = result;
        wait = wait;
      } in
      elim (clock.ctx_err w₁) [
        | some e ↦ record { world = w₁; returned = true; rounds = record round { wait = 0 } ∷ [] }
        | none ↦ elim fired [
          | false ↦ record { world = w₂; returned = true; rounds = round ∷ [] }
          | true ↦ before_rounds round (poll_rounds n w₂)
        ]
      ]

-- pollLoop
unfoldable pub poll_loop : {W : Type 0} → Clock W → (W → W × Option Err) → ℤ → ℤ → ℕ → W → Polling W
unfolding poll_rounds usable_interval usable_skip
poll_loop clock run interval skip n w =
    let usable = usable_interval interval in
    poll_rounds clock run (pos_part usable) (pos_part (usable_skip usable skip)) n w
