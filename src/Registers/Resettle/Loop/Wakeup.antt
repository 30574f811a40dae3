-- ===== src/Registers/Resettle/Loop/Wakeup.antt =====
-- That resettle.go's `run` does not sleep past a re-read: a token that is dropped does no harm.
use aerosmart_gateway.Base.{
  ℕ, ◌+◌, ◌-◌, ◌<◌, ◌≤◌, ◌≡◌, refl, ◌⊎◌, inl, inr, true, List, [], ◌∷◌, ◌==◌, All, arith,
  Bool-cases, subst,
}
use aerosmart_gateway.Config.Types.{WriteRegister}
use aerosmart_gateway.Registers.Resettle.{PendingRefresh}
use aerosmart_gateway.Registers.Resettle.Due.{due-IsSplit}
use aerosmart_gateway.Registers.Resettle.Loop.{
  Loop, top, stopped, waiting, looking, refreshing, waiting_until, System, start, sleep_loop,
  put_request, request, look, Step, pass, asks, sends, reads_clock, looks, refreshes, gives_up,
  sleeps, wakes, wakes_early, fires, stops, stops_early, Reach, here, more,
}

-- A token is in the channel, or on its way.
abbrev pub IsAlert : System → Type 0
IsAlert s = (s.wake ≡ true) ⊎ (0 < s.signals)

-- Nothing is due earlier than the loop counts on, or it will be woken.
abbrev pub IsCovered : System → Loop → Type 0
IsCovered s (looking t) = t ≤ s.now
IsCovered s (refreshing looked ready next) =
    (looked ≤ s.now)
    × (IsAlert s ⊎ (((s.pending ≡ []) ⊎ (0 < next)) × All (λ e. looked + next ≤ e.due) s.pending))
IsCovered s waiting = IsAlert s ⊎ (s.pending ≡ [])
IsCovered s (waiting_until until lag) = IsAlert s ⊎ All (λ e. until ≤ e.due + lag) s.pending
IsCovered s top = Unit
IsCovered s stopped = Unit

pass-IsCovered :
    (s : System) (d : ℕ) (l : Loop) → IsCovered s l → IsCovered (record s { now = s.now + d }) l
pass-IsCovered s d top h = tt
pass-IsCovered s d stopped h = tt
pass-IsCovered s d waiting h = h
pass-IsCovered s d (looking t) h = omega arith
pass-IsCovered s d (refreshing looked ready next) (before, h) = (omega arith, h)
pass-IsCovered s d (waiting_until until lag) h = h

-- Whatever has a token on its way is covered.
alert-IsCovered :
    (s t : System) (l : Loop) → s.now ≡ t.now → IsAlert t → IsCovered s l → IsCovered t l
alert-IsCovered s t top e a h = tt
alert-IsCovered s t stopped e a h = tt
alert-IsCovered s t waiting e a h = inl a
alert-IsCovered s t (looking n) e a h = omega arith
alert-IsCovered s t (refreshing looked ready next) e a (before, h) = (omega arith, inl a)
alert-IsCovered s t (waiting_until until lag) e a h = inl a

look-IsCovered : (s : System) (t : ℕ) → t ≤ s.now → IsCovered (look t s) (look t s).loop
unfolding look
look-IsCovered s t before =
    let (ready, kept, some_wait, ends, later) = due-IsSplit t s.pending in
    (before, inr (some_wait, later))

later_all :
    (looked next now : ℕ) (es : List PendingRefresh)
    → looked ≤ now
    → All (λ e. looked + next ≤ e.due) es
    → All (λ e. now + next ≤ e.due + (now - looked)) es
later_all looked next now [] before h = tt
later_all looked next now (e ∷ es) before (h, hs) =
    (omega arith, later_all looked next now es before hs)

sleeps-IsCovered :
    (s : System) (looked next : ℕ)
    → IsCovered s (refreshing looked [] next)
    → IsCovered (record s { loop = sleep_loop s.now looked next }) (sleep_loop s.now looked next)
unfolding sleep_loop
sleeps-IsCovered s looked next (before, h) = elim (Bool-cases (next == 0)) [
  | inl e ↦ rw e (elim h [ inl a ↦ inl a | inr (empty, all) ↦ inr (ground arith) ])
  | inr e ↦ rw e (elim h [
    | inl a ↦ inl a
    | inr (empty, all) ↦ inr (later_all looked next s.now s.pending before all)
  ])
]

put_request-IsCovered :
    (s : System) (register : WriteRegister) (seq : ℕ)
    → IsCovered s s.loop
    → IsCovered (put_request register seq s) (put_request register seq s).loop
unfolding put_request
put_request-IsCovered s register seq h =
    alert-IsCovered s (put_request register seq s) s.loop refl (inr (omega arith)) h

Step-IsCovered : {s t : System} → Step s t → IsCovered s s.loop → IsCovered t t.loop
unfolding request look
Step-IsCovered (pass s d) h = pass-IsCovered s d s.loop h
Step-IsCovered (asks s register seq) h = elim (Bool-cases (s.delay == 0)) [
  | inl e ↦ rw (e, request) h
  | inr e ↦ rw (e, request) (put_request-IsCovered s register seq h)
]
Step-IsCovered (sends s some_signal) h =
    alert-IsCovered s (record s { wake = true; signals = s.signals - 1 }) s.loop refl (inl refl) h
Step-IsCovered (reads_clock s e) h = omega arith
Step-IsCovered (looks s t e) h = look-IsCovered s t (subst (IsCovered s) e h)
Step-IsCovered (refreshes s looked next x rest e) h = subst (IsCovered s) e h
Step-IsCovered (gives_up s looked next x rest e) h = tt
Step-IsCovered (sleeps s looked next e) h = sleeps-IsCovered s looked next (subst (IsCovered s) e h)
Step-IsCovered (wakes s e w) h = tt
Step-IsCovered (wakes_early s until lag e w) h = tt
Step-IsCovered (fires s until lag e over) h = tt
Step-IsCovered (stops s e) h = tt
Step-IsCovered (stops_early s until lag e) h = tt

start-IsCovered : (delay now : ℕ) → IsCovered (start delay now) (start delay now).loop
unfolding start
start-IsCovered delay now = elim (Bool-cases (delay == 0)) [
  | inl e ↦ rw (e, start) tt
  | inr e ↦ rw (e, start) tt
]

-- What a sleeping loop may rely on.
pub IsAwake : System → Loop → Type 0
IsAwake s waiting = IsAlert s ⊎ (s.pending ≡ [])
IsAwake s (waiting_until until lag) = IsAlert s ⊎ All (λ e. until ≤ e.due + lag) s.pending
IsAwake s other = Unit

IsCovered-IsAwake : (s : System) (l : Loop) → IsCovered s l → IsAwake s l
unfolding IsAwake
IsCovered-IsAwake s waiting h = h
IsCovered-IsAwake s (waiting_until until lag) h = h
IsCovered-IsAwake s top h = tt
IsCovered-IsAwake s stopped h = tt
IsCovered-IsAwake s (looking t) h = tt
IsCovered-IsAwake s (refreshing looked ready wait) h = tt

Reach-IsCovered : (delay now : ℕ) {s : System} → Reach (start delay now) s → IsCovered s s.loop
Reach-IsCovered delay now here = start-IsCovered delay now
Reach-IsCovered delay now (more r st) = Step-IsCovered st (Reach-IsCovered delay now r)

-- No wakeup is lost: in every order of the steps of the loop and of callers of schedule, while the loop
-- sleeps without a deadline nothing is pending, and while it sleeps until a deadline nothing pending
-- is due earlier than the deadline by more than the time that passed between the loop's call of due
-- and its setting the timer; or else a token is in the channel or on its way.
pub Reach-IsAwake : (delay now : ℕ) {s : System} → Reach (start delay now) s → IsAwake s s.loop
Reach-IsAwake delay now {s} r = IsCovered-IsAwake s s.loop (Reach-IsCovered delay now r)
