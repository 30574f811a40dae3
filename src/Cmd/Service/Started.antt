-- ===== src/Cmd/Service/Started.antt =====
-- How a run of cmd/main.go ends, and which goroutines it has started by then.
use aerosmart_gateway.Base.{
  ◌≡◌, ◌⊎◌, Bool, true, Option, List, [], ◌∷◌, append-nil, is_some, append-nil,
}
use aerosmart_gateway.Config.Types.{Registers}
use aerosmart_gateway.Cmd.Service.{
  Worker, supervisor, resettle_loop, command_worker, Event, starts, closes_log, Inputs, poll_worker,
}
use aerosmart_gateway.Registers.Derived
use aerosmart_gateway.Serial.Errors.{Err}
use aerosmart_gateway.Cmd.Service.Orderly.{IsOrderly}

-- The goroutines that are started, in their order
abbrev pub workers : List Event → List Worker
workers [] = []
workers (starts worker ∷ events) = worker ∷ workers events
workers (event ∷ events) = workers events

abbrev all_workers : List Worker
all_workers = supervisor ∷ resettle_loop ∷ command_worker ∷ poll_worker ∷ []

-- How a run ends: with an error, behind the validation alone, or behind all goroutines.
abbrev HasEnded : List Event → Bool → List Event × Option Err → Type 0
HasEnded last only (events, result) =
    (is_some result ≡ true) ⊎ (((only ≡ true) × (events ≡ last)) ⊎ (workers events ≡ all_workers))

module _ {F : Type 0} where
  -- What a run of the program keeps to
  pub IsRun : Inputs F → List Event × Option Err → Type 0
  IsRun i r = IsOrderly r.0 × HasEnded (closes_log ∷ []) i.validate_only r
