-- ===== src/Registers/Gate/System.antt =====
-- The gate of gate.go with the goroutines that use it: one poll loop, whose cycle may be cancelled, and
-- any number of writers between their Preempt and their Release, in every order of steps.
use aerosmart_gateway.Base.{
  ℕ, ◌+◌, ◌-◌, ◌≤◌, ◌<◌, ◌≡◌, ◌≢◌, ◌⊎◌, inl, inr, refl, Option, none, some, if◌then◌else◌, ◌==◌,
  arith,
}
use aerosmart_gateway.Base.Int.{ℤ}
use aerosmart_gateway.Registers.Gate.{
  ReadGate, new_read_gate, try_begin_cycle, end_cycle, preempt, release,
}

-- The poll loop: between cycles, or in a cycle whose context is live or has been cancelled.
pub data Poll : Type 0 where
  idle : Poll
  live : ℕ → Poll
  cancelled : ℕ → Poll

pub record System : Type 0 where
  pub gate : ReadGate
  pub now : ℕ
  pub poll : Poll
  pub writers : ℕ  -- between Preempt and Release
  pub last_preempt : ℕ  -- when the latest Preempt was

-- A cancel function that is called cancels the context of its own cycle only.
abbrev pub cancel_poll : Option ℕ → Poll → Poll
cancel_poll none p = p
cancel_poll (some id) idle = idle
cancel_poll (some id) (live j) = if j == id then cancelled j else live j
cancel_poll (some id) (cancelled j) = cancelled j

abbrev pub begun : Option ℕ → Poll
begun none = idle
begun (some id) = live id

pub data Step : System → System → Type 0 where
  pass : (s : System) (d : ℕ) → Step s (record s { now = s.now + d })
  begin :
      (s : System)
      → s.poll ≡ idle
      → Step s (record s {
        gate = (try_begin_cycle s.now s.gate).0;
        poll = begun (try_begin_cycle s.now s.gate).1;
      })
  end_live :
      (s : System) (id : ℕ)
      → s.poll ≡ live id
      → Step s (record s { gate = (end_cycle id s.gate).0; poll = idle })
  end_cancelled :
      (s : System) (id : ℕ)
      → s.poll ≡ cancelled id
      → Step s (record s { gate = (end_cycle id s.gate).0; poll = idle })
  enter :
      (s : System)
      → Step s (record s {
        gate = (preempt s.now s.gate).0;
        poll = cancel_poll (preempt s.now s.gate).1 s.poll;
        writers = s.writers + 1;
        last_preempt = s.now;
      })
  leave :
      (s : System)
      → 0 < s.writers
      → Step s (record s { gate = release s.gate; writers = s.writers - 1 })

pub data Reach (s : System) : System → Type 0 where
  here : Reach s s
  next : {t u : System} → Reach s t → Step t u → Reach s u

unfoldable pub start : ℤ → ℕ → System
start timeout now = record {
  gate = new_read_gate timeout;
  now = now;
  poll = idle;
  writers = 0;
  last_preempt = 0;
}

abbrev IsLive : Poll → Type 0
IsLive idle = ⊥
IsLive (live id) = Unit
IsLive (cancelled id) = ⊥

-- What holds between any two steps.
pub record Inv (s : System) : Type 0 where
  pub counted : s.gate.holds ≡ s.writers
  pub registered : (id : ℕ) → s.poll ≡ live id → (s.gate.cancel ≡ some id) × (s.gate.cycle_id ≡ id)
  pub unregistered : (id : ℕ) → s.gate.cancel ≡ some id → s.poll ≡ live id
  pub window :
      (t : ℕ) → s.gate.until ≡ some t → (t ≡ s.last_preempt + s.gate.timeout) × (0 < s.writers)
  pub held : 0 < s.writers → (s.gate.until ≢ none) ⊎ (s.last_preempt + s.gate.timeout ≤ s.now)
  pub priority : (t id : ℕ) → s.gate.until ≡ some t → s.now < t → s.poll ≢ live id
  pub past : (s.last_preempt ≤ s.now)

start-Inv : (timeout : ℤ) (now : ℕ) → Inv (start timeout now)
unfolding start new_read_gate
start-Inv timeout now = record {
  counted = refl;
  registered = λ id e. cc;
  unregistered = λ id e. cc;
  window = λ t e. cc;
  held = λ h. omega arith;
  priority = λ t id e h e'. cc;
  past = omega arith;
}

pass-Inv : (s : System) (d : ℕ) → Inv s → Inv (record s { now = s.now + d })
pass-Inv s d h = record {
  counted = h.counted;
  registered = h.registered;
  unregistered = h.unregistered;
  window = h.window;
  held = λ w. ground (arith, h.held w);
  priority = λ t id e lt. h.priority t id e (omega arith);
  past = omega arith;
}

begin-held :
    (s : System)
    → Inv s
    → 0 < s.writers
    → ((try_begin_cycle s.now s.gate).0.until ≢ none)
      ⊎ (s.last_preempt + (try_begin_cycle s.now s.gate).0.timeout ≤ s.now)
unfolding try_begin_cycle
begin-held s h w = go s.gate.until refl (h.held w)
  where
    go :
        (u : Option ℕ)
        → s.gate.until ≡ u
        → (s.gate.until ≢ none) ⊎ (s.last_preempt + s.gate.timeout ≤ s.now)
        → ((try_begin_cycle s.now s.gate).0.until ≢ none)
          ⊎ (s.last_preempt + (try_begin_cycle s.now s.gate).0.timeout ≤ s.now)
    go u e (inr late) = ground arith
    go none e (inl some_until) = absurd (some_until e)
    go (some t) e (inl some_until) = ground (arith, h.window t e)

begin-Inv :
    (s : System)
    → s.poll ≡ idle
    → Inv s
    → Inv (record s {
      gate = (try_begin_cycle s.now s.gate).0;
      poll = begun (try_begin_cycle s.now s.gate).1;
    })
unfolding try_begin_cycle
begin-Inv s e h = record {
  counted = ground arith;
  registered = λ id p. ground arith;
  unregistered = λ id p. ground (arith, h.unregistered id);
  window = λ t p. ground (arith, h.window t);
  held = λ w. begin-held s h w;
  priority = λ t id p lt q. ground arith;
  past = h.past;
}

end-Inv :
    (s : System) (id : ℕ)
    → (s.poll ≡ live id) ⊎ (s.poll ≡ cancelled id)
    → Inv s
    → Inv (record s { gate = (end_cycle id s.gate).0; poll = idle })
unfolding end_cycle
end-Inv s id e h = record {
  counted = ground arith;
  registered = λ j p. cc;
  unregistered = λ j p. ground (arith, h.unregistered j, h.registered id);
  window = λ t p. ground (arith, h.window t);
  held = λ w. ground (arith, h.held w);
  priority = λ t j p lt q. cc;
  past = h.past;
}

-- The stored cancel function ends the cycle that is live.
cancel_poll-not-live :
    (c : Option ℕ) (p : Poll)
    → ((id : ℕ) → p ≡ live id → c ≡ some id)
    → (id : ℕ) → cancel_poll c p ≢ live id
cancel_poll-not-live none idle h id e = cc
cancel_poll-not-live none (live j) h id e = cc (h j refl)
cancel_poll-not-live none (cancelled j) h id e = cc
cancel_poll-not-live (some i) idle h id e = cc
cancel_poll-not-live (some i) (live j) h id e = ground (arith, h j refl)
cancel_poll-not-live (some i) (cancelled j) h id e = cc

enter-Inv :
    (s : System)
    → Inv s
    → Inv (record s {
      gate = (preempt s.now s.gate).0;
      poll = cancel_poll (preempt s.now s.gate).1 s.poll;
      writers = s.writers + 1;
      last_preempt = s.now;
    })
unfolding preempt
enter-Inv s h = record {
  counted = ground arith;
  registered =
      λ id p. absurd (cancel_poll-not-live s.gate.cancel s.poll (λ j e. (h.registered j e).0) id p);
  unregistered = λ id p. cc;
  window = λ t p. ground arith;
  held = λ w. inl (λ e. cc);
  priority =
      λ t id p lt q. cancel_poll-not-live s.gate.cancel s.poll (λ j e. (h.registered j e).0) id q;
  past = omega arith;
}

leave-Inv :
    (s : System)
    → 0 < s.writers
    → Inv s
    → Inv (record s { gate = release s.gate; writers = s.writers - 1 })
unfolding release
leave-Inv s w h = record {
  counted = ground arith;
  registered = λ id p. ground (arith, h.registered id);
  unregistered = λ id p. ground (arith, h.unregistered id);
  window = λ t p. ground (arith, h.window t);
  held = λ w'. ground (arith, h.held w);
  priority = λ t id p lt q. ground (arith, h.priority t id);
  past = h.past;
}

Step-Inv : {s t : System} → Step s t → Inv s → Inv t
Step-Inv (pass s d) h = pass-Inv s d h
Step-Inv (begin s e) h = begin-Inv s e h
Step-Inv (end_live s id e) h = end-Inv s id (inl e) h
Step-Inv (end_cancelled s id e) h = end-Inv s id (inr e) h
Step-Inv (enter s) h = enter-Inv s h
Step-Inv (leave s w) h = leave-Inv s w h

-- The invariant holds in every order of steps.
pub Reach-Inv : (timeout : ℤ) (now : ℕ) {s : System} → Reach (start timeout now) s → Inv s
Reach-Inv timeout now here = start-Inv timeout now
Reach-Inv timeout now (next r st) = Step-Inv st (Reach-Inv timeout now r)
