-- ===== src/Cmd/PollLoop/Paced.antt =====
-- When pollLoop of cmd/main.go polls: how long it leaves the unit alone, and when it ends.
use aerosmart_gateway.Base.{
  ℕ, zero, suc, ◌+◌, ◌≤◌, ◌<◌, ◌≡◌, ◌≢◌, refl, ◌↔◌, ◌⊎◌, inl, inr, Bool, true, false, Option, none,
  some, List, [], ◌∷◌, length, arith, Bool-cases, Option-cases,
}
use aerosmart_gateway.Base.Int.{ℤ, pos, pos_part, ◌≤ℤ◌}
use aerosmart_gateway.Serial.Errors.{Err, cause, ctx_canceled, cycle_skipped}
use aerosmart_gateway.Serial.World.{Clock}
use aerosmart_gateway.Cmd.PollLoop.{
  usable_interval, usable_skip, has_read_nothing, poll_wait, Round, Polling, poll_rounds, poll_loop,
}

-- A wait that is not cut short lasts as long as it was asked to, and only the end of the context cuts
-- it short.
pub record IsFair {W : Type 0} (clock : Clock W) : Type 0 where
  pub wait_lasts :
      (d : ℕ) (w : W) → (clock.wait d w).1 ≡ true → clock.now w + d ≤ clock.now (clock.wait d w).0
  pub wait_cut :
      (d : ℕ) (w : W) → (clock.wait d w).1 ≡ false → clock.ctx_err (clock.wait d w).0 ≢ none

-- The cycle was cancelled by a write, or skipped.
abbrev pub HasReadNothing : Option Err → Type 0
HasReadNothing none = ⊥
HasReadNothing (some e) = (cause e ≡ ctx_canceled) ⊎ (cause e ≡ cycle_skipped)

-- The wait is the interval, or the shorter delay if nothing was read.
abbrev pub IsSpaced : ℕ → ℕ → Round → Type 0
IsSpaced interval skip r =
    (HasReadNothing r.result × (r.wait ≡ skip))
    ⊎ ((¬ HasReadNothing r.result) × (r.wait ≡ interval))

-- Every round but the last is followed by its wait, and the next begins no sooner.
abbrev pub ArePaced : ℕ → ℕ → ℕ → List Round → Type 0
ArePaced interval skip from [] = Unit
ArePaced interval skip from (r ∷ []) = from ≤ r.begun
ArePaced interval skip from (r ∷ s ∷ rounds) =
    (from ≤ r.begun)
    × IsSpaced interval skip r
    × ArePaced interval skip (r.ended + r.wait) (s ∷ rounds)

has_read_nothing_iff : (e : Err) → (has_read_nothing e ≡ true) ↔ HasReadNothing (some e)
unfolding has_read_nothing
has_read_nothing_iff e = go (cause e)
  where
    go :
        (c : Err)
        → ((elim c as (λ x. Bool) [ ctx_canceled ↦ true | cycle_skipped ↦ true | _ ↦ false ])
            ≡ true)
          ↔ ((c ≡ ctx_canceled) ⊎ (c ≡ cycle_skipped))
    go ctx_canceled = (λ e. inl refl, λ h. refl)
    go cycle_skipped = (λ e. inr refl, λ h. refl)
    go c = (λ e. cc, λ h. ground arith)

poll_wait-IsSpaced :
    (interval skip begun ended : ℕ) (result : Option Err)
    → IsSpaced interval skip (record {
      begun = begun;
      ended = ended;
      result = result;
      wait = poll_wait interval skip result;
    })
unfolding poll_wait
poll_wait-IsSpaced interval skip begun ended none = inr (λ h. h, refl)
poll_wait-IsSpaced interval skip begun ended (some e) = elim (Bool-cases (has_read_nothing e)) [
  | inl t ↦ rw t (inl ((has_read_nothing_iff e).0 t, refl))
  | inr f ↦ rw f (inr (λ h. cc ((has_read_nothing_iff e).1 h), refl))
]

ArePaced-cons :
    (interval skip from : ℕ) (r : Round) (rounds : List Round)
    → from ≤ r.begun
    → IsSpaced interval skip r
    → ArePaced interval skip (r.ended + r.wait) rounds
    → ArePaced interval skip from (r ∷ rounds)
ArePaced-cons interval skip from r [] begun spaced more = begun
ArePaced-cons interval skip from r (s ∷ rounds) begun spaced more = (begun, spaced, more)

module _ {W : Type 0} (clock : Clock W) (run : W → W × Option Err) where
  pub record IsPaced (interval skip n from : ℕ) (p : Polling W) : Type 0 where
    pub paced : ArePaced interval skip from p.rounds
    pub over :
        ((p.returned ≡ false) × (length p.rounds ≡ n))
        ⊎ ((p.returned ≡ true) × (clock.ctx_err p.world ≢ none))

  poll_rounds-IsPaced :
      (interval skip n from : ℕ) (w : W)
      → IsFair clock
      → from ≤ clock.now w
      → IsPaced interval skip n from (poll_rounds clock run interval skip n w)
  unfolding poll_rounds
  poll_rounds-IsPaced interval skip zero from w fair h = record {
    paced = tt;
    over = inl (refl, refl);
  }
  poll_rounds-IsPaced interval skip (suc n) from w fair h =
      let w₁ = (run w).0 in
      let result = (run w).1 in
      let wait = poll_wait interval skip result in
      elim (Option-cases (clock.ctx_err w₁)) [
        | inr (e, ended) ↦
            rw (ended, poll_rounds) (record { paced = h; over = inr (refl, λ x. cc) })
        | inl live ↦ elim (Bool-cases (clock.wait wait w₁).1) [
          | inl fired ↦
              let rest =
                poll_rounds-IsPaced interval skip n (clock.now w₁ + wait) (clock.wait wait w₁).0
                  fair (fair.wait_lasts wait w₁ fired) in
              rw (live, poll_rounds)
                (rw (fired, poll_rounds)
                  (record {
                    paced =
                        ArePaced-cons interval skip from _ _ h
                          (poll_wait-IsSpaced interval skip (clock.now w) (clock.now w₁) result)
                          rest.paced;
                    over = elim rest.over [
                      | inl (open_still, all) ↦ inl (open_still, omega (arith, all))
                      | inr done ↦ inr done
                    ];
                  }))
          | inr cut ↦
              rw (live, poll_rounds)
                (rw (cut, poll_rounds)
                  (record { paced = h; over = inr (refl, fair.wait_cut wait w₁ cut) }))
        ]
      ]

-- pollLoop, over its first `n` rounds: with the interval that is configured, or a minute, and the delay
-- that is configured, or the interval where that is not shorter, each cycle begins after the last
-- one has ended and the wait has passed; the wait is the delay exactly behind a cycle that was
-- cancelled by a write or skipped, and otherwise the interval, also if the cycle failed. The loop
-- returns only at the end of its context.
pub poll_loop-IsPaced :
    {W : Type 0} (clock : Clock W) (run : W → W × Option Err) (interval skip : ℤ) (n : ℕ) (w : W)
    → IsFair clock
    → (i s : ℕ) × (0 < s)
      × (s ≤ i)
      × ((interval ≡ pos i) ⊎ ((interval ≤ℤ pos 0) × (i ≡ 60_000_000_000)))
      × ((skip ≡ pos s) ⊎ (((skip ≤ℤ pos 0) ⊎ (pos i ≤ℤ skip)) × (s ≡ i)))
      × IsPaced clock run i s n (clock.now w) (poll_loop clock run interval skip n w)
unfolding poll_loop usable_interval usable_skip
poll_loop-IsPaced clock run interval skip n w fair =
    let i = usable_interval interval in
    let s = usable_skip i skip in
    (
      pos_part i,
      pos_part s,
      ground arith,
      ground arith,
      ground arith,
      ground arith,
      poll_rounds-IsPaced clock run (pos_part i) (pos_part s) n (clock.now w) w fair (omega arith),
    )
