-- ===== src/Cmd/StartUp/Opened.antt =====
-- How openSerialWithRetry of cmd/main.go spaces its attempts, and how it ends.
use aerosmart_gateway.Base.{
  ℕ, zero, suc, ◌*◌, ◌^◌, ◌≤◌, ◌≡◌, ◌≢◌, Option, none, List, [], ◌∷◌, length, min,
}
use aerosmart_gateway.Serial.Errors.{Err}
use aerosmart_gateway.Serial.World.{Clock}
use aerosmart_gateway.Cmd.StartUp.{Outcome, opened, cancelled, trying, Opening}

-- `n` waits from the one behind attempt `i` on: the first one, doubled after each attempt, up to a limit.
abbrev pub waits_from : ℕ → ℕ → ℕ → ℕ → List ℕ
waits_from first limit i zero = []
waits_from first limit i (suc n) = min (first * 2 ^ i) limit ∷ waits_from first limit (suc i) n

module _ {W : Type 0} (clock : Clock W) (open_port : W → W × Option Err) where
  -- Why the loop ended, if it did.
  abbrev pub EndsWith : ℕ → Opening W → Outcome → Type 0
  EndsWith n p opened = (before : W) × (open_port before ≡ (p.world, none))
  EndsWith n p cancelled = clock.ctx_err p.world ≢ none
  EndsWith n p trying = length p.waits ≡ n

  pub record IsOpening (first limit i n : ℕ) (p : Opening W) : Type 0 where
    pub spaced : p.waits ≡ waits_from first limit i (length p.waits)
    pub bounded : length p.waits ≤ n
    pub over : EndsWith n p p.outcome
