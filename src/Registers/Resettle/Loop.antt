-- ===== src/Registers/Resettle/Loop.antt =====
-- internal/registers/resettle.go: the loop of `run` with the callers of `schedule`, in every order of
-- steps. The channel `wake` holds one token at most.
pub mod Wakeup
pub mod Kept
use aerosmart_gateway.Base.{
  ℕ, ◌+◌, ◌-◌, ◌<◌, ◌≤◌, ◌≡◌, Bool, true, false, Option, none, some, List, [], ◌∷◌, ◌++◌, Bytes,
  ◌==◌, if◌then◌else◌, Map, put,
}
use aerosmart_gateway.Config.Types.{WriteRegister}
use aerosmart_gateway.Registers.Resettle.{PendingRefresh, schedule, due}

-- Where the loop is. `refreshing looked ready next` has called `due` at the time `looked`;
-- `waiting_until until lag` sleeps on the timer, which was set `lag` after that call.
pub data Loop : Type 0 where
  top stopped waiting : Loop
  looking : (now : ℕ) → Loop
  refreshing : (looked : ℕ) → List PendingRefresh → (next : ℕ) → Loop
  waiting_until : (until lag : ℕ) → Loop

-- `signals` counts the callers of schedule between their write to the map and their send; `latest` is
-- the last request for each register's name, and `refreshed` the re-reads that were made.
pub record System : Type 0 where
  pub delay : ℕ
  pub now : ℕ
  pub pending : List PendingRefresh
  pub wake : Bool
  pub signals : ℕ
  pub loop : Loop
  pub latest : Map PendingRefresh
  pub refreshed : List PendingRefresh

-- newResettler, and the start of run
unfoldable pub start : ℕ → ℕ → System
start delay now = record {
  delay = delay;
  now = now;
  pending = [];
  wake = false;
  signals = 0;
  loop = if delay == 0 then stopped else top;
  latest = λ name. none;
  refreshed = [];
}

-- The wait behind the re-reads: without a deadline if `next` is zero
unfoldable pub sleep_loop : ℕ → ℕ → ℕ → Loop
sleep_loop now looked next =
    if next == 0 then waiting else waiting_until (now + next) (now - looked)

-- schedule with a delay, up to its send
unfoldable pub put_request : WriteRegister → ℕ → System → System
unfolding schedule
put_request register seq s = record s {
  pending = schedule s.delay s.now register seq s.pending;
  signals = s.signals + 1;
  latest =
      put register.name (record { register = register; seq = seq; due = s.now + s.delay }) s.latest;
}

unfoldable pub request : WriteRegister → ℕ → System → System
request register seq s = if s.delay == 0 then s else put_request register seq s

-- The call of due for the time that was read before
unfoldable pub look : ℕ → System → System
unfolding due
look t s =
    let (ready, kept, next) = due t s.pending in
    record s { pending = kept; loop = refreshing t ready next }

pub data Step : System → System → Type 0 where
  pass : (s : System) (d : ℕ) → Step s (record s { now = s.now + d })
  -- A caller of schedule writes to the map, and then sends: a full channel drops the token.
  asks : (s : System) (register : WriteRegister) (seq : ℕ) → Step s (request register seq s)
  sends : (s : System) → 0 < s.signals → Step s (record s { wake = true; signals = s.signals - 1 })
  -- The loop reads the clock, and calls due.
  reads_clock : (s : System) → s.loop ≡ top → Step s (record s { loop = looking s.now })
  looks : (s : System) (t : ℕ) → s.loop ≡ looking t → Step s (look t s)
  -- It refreshes what was due, unless the context has ended.
  refreshes :
      (s : System) (looked next : ℕ) (e : PendingRefresh) (rest : List PendingRefresh)
      → s.loop ≡ refreshing looked (e ∷ rest) next
      → Step s (record s { loop = refreshing looked rest next; refreshed = s.refreshed ++ e ∷ [] })
  gives_up :
      (s : System) (looked next : ℕ) (e : PendingRefresh) (rest : List PendingRefresh)
      → s.loop ≡ refreshing looked (e ∷ rest) next
      → Step s (record s { loop = stopped })
  sleeps :
      (s : System) (looked next : ℕ)
      → s.loop ≡ refreshing looked [] next
      → Step s (record s { loop = sleep_loop s.now looked next })
  -- What ends a wait: the token, the timer, or the context.
  wakes :
      (s : System)
      → s.loop ≡ waiting
      → s.wake ≡ true
      → Step s (record s { wake = false; loop = top })
  wakes_early :
      (s : System) (until lag : ℕ)
      → s.loop ≡ waiting_until until lag
      → s.wake ≡ true
      → Step s (record s { wake = false; loop = top })
  fires :
      (s : System) (until lag : ℕ)
      → s.loop ≡ waiting_until until lag
      → until ≤ s.now
      → Step s (record s { loop = top })
  stops : (s : System) → s.loop ≡ waiting → Step s (record s { loop = stopped })
  stops_early :
      (s : System) (until lag : ℕ)
      → s.loop ≡ waiting_until until lag
      → Step s (record s { loop = stopped })

pub data Reach (s : System) : System → Type 0 where
  here : Reach s s
  more : {t u : System} → Reach s t → Step t u → Reach s u
