-- ===== src/Registers/Resettle/Loop/Kept.antt =====
-- That resettle.go loses no request for a re-read: the latest of each register is made in the end.
use mathlib.Core.List.{Memᴰ}
use aerosmart_gateway.Base.{
  ℕ, ◌+◌, ◌≡◌, refl, sym, ◌⊎◌, inl, inr, Bool, true, false, not, some, List, [], ◌∷◌, ◌++◌, Bytes,
  ◌==◌, eq_bytes, eq_bytes_iff, Bool-cases, subst, filter, leb, ap, ◌∙◌,
}
use aerosmart_gateway.Config.Types.{WriteRegister}
use aerosmart_gateway.Registers.Resettle.{PendingRefresh, schedule, remove}
use aerosmart_gateway.Registers.Resettle.Due.{due-IsSplit}
use aerosmart_gateway.Registers.Resettle.Loop.{
  Loop, top, stopped, waiting, looking, refreshing, waiting_until, System, start, sleep_loop,
  put_request, request, look, Step, pass, asks, sends, reads_clock, looks, refreshes, gives_up,
  sleeps, wakes, wakes_early, fires, stops, stops_early, Reach, here, more,
}

-- The loop holds the entry, or has stopped.
abbrev pub IsHeld : Loop → PendingRefresh → Type 0
IsHeld (refreshing looked ready next) e = Memᴰ e ready
IsHeld stopped e = Unit
IsHeld other e = ⊥

-- The entry is pending, or with the loop, or refreshed.
abbrev pub IsPlaced : System → Loop → PendingRefresh → Type 0
IsPlaced s l e = Memᴰ e s.pending ⊎ Memᴰ e s.refreshed ⊎ IsHeld l e

abbrev pub IsKept : System → Loop → Type 0
IsKept s l =
    (name : Bytes) (e : PendingRefresh)
    → s.latest name ≡ some e
    → (e.register.name ≡ name) × IsPlaced s l e

Mem-last : (e : PendingRefresh) (xs : List PendingRefresh) → Memᴰ e (xs ++ e ∷ [])
Mem-last e [] = Memᴰ.head refl
Mem-last e (x ∷ xs) = Memᴰ.tail (Mem-last e xs)

Mem-append : (e : PendingRefresh) (xs ys : List PendingRefresh) → Memᴰ e xs → Memᴰ e (xs ++ ys)
Mem-append e [] ys m = elim m [ ]
Mem-append e (x ∷ xs) ys (Memᴰ.head p) = Memᴰ.head p
Mem-append e (x ∷ xs) ys (Memᴰ.tail m) = Memᴰ.tail (Mem-append e xs ys m)

-- Every entry passes a test or its negation.
Mem-filter :
    (p : PendingRefresh → Bool) (e : PendingRefresh) (xs : List PendingRefresh)
    → Memᴰ e xs
    → Memᴰ e (filter p xs) ⊎ Memᴰ e (filter (λ x. not (p x)) xs)
Mem-filter p e [] m = elim m [ ]
Mem-filter p e (x ∷ xs) (Memᴰ.head q) = elim (Bool-cases (p x)) [
  | inl t ↦ rw t (inl (Memᴰ.head q))
  | inr f ↦ rw f (inr (Memᴰ.head q))
]
Mem-filter p e (x ∷ xs) (Memᴰ.tail m) = elim (Bool-cases (p x)) [
  | inl t ↦ rw t (elim (Mem-filter p e xs m) [ inl a ↦ inl (Memᴰ.tail a) | inr b ↦ inr b ])
  | inr f ↦ rw f (elim (Mem-filter p e xs m) [ inl a ↦ inl a | inr b ↦ inr (Memᴰ.tail b) ])
]

Mem-remove :
    (name : Bytes) (e : PendingRefresh) (xs : List PendingRefresh)
    → eq_bytes e.register.name name ≡ false
    → Memᴰ e xs
    → Memᴰ e (remove name xs)
unfolding remove
Mem-remove name e [] h m = elim m [ ]
Mem-remove name e (x ∷ xs) h (Memᴰ.head q) =
    let differs : eq_bytes x.register.name name ≡ false =
      ap (λ (y : PendingRefresh). eq_bytes y.register.name name) (sym q) ∙ h in
    rw differs (Memᴰ.head q)
Mem-remove name e (x ∷ xs) h (Memᴰ.tail m) = elim (Bool-cases (eq_bytes x.register.name name)) [
  | inl t ↦ rw (t, remove) (Mem-remove name e xs h m)
  | inr f ↦ rw (f, remove) (Memᴰ.tail (Mem-remove name e xs h m))
]

-- The loop moves on, and holds what it held.
moves-IsKept :
    (s : System) (l m : Loop)
    → ((e : PendingRefresh) → IsHeld l e → IsHeld m e)
    → IsKept s l
    → IsKept s m
moves-IsKept s l m f h name e latest_is =
    let (named, placed) = h name e latest_is in
    (
      named,
      elim placed [
        | inl pending ↦ inl pending
        | inr placed' ↦ elim placed' [ inl done ↦ inr (inl done) | inr held ↦ inr (inr (f e held)) ]
      ],
    )

-- A request takes the place of the one before it, and leaves those of other registers.
put_request-IsKept :
    (s : System) (register : WriteRegister) (seq : ℕ)
    → (s.delay == 0) ≡ false
    → IsKept s s.loop
    → IsKept (put_request register seq s) (put_request register seq s).loop
unfolding put_request schedule
put_request-IsKept s register seq set h name e latest_is =
    elim (Bool-cases (eq_bytes name register.name)) [
      | inl same ↦ mine same (rw same at latest_is)
      | inr other ↦ others other (h name e (rw other at latest_is))
    ]
  where
    entry : PendingRefresh
    entry = record { register = register; seq = seq; due = s.now + s.delay }

    mine :
        eq_bytes name register.name ≡ true
        → some entry ≡ some e
        → (e.register.name ≡ name) × IsPlaced (put_request register seq s) s.loop e
    mine same is_entry =
        let it : entry ≡ e = cc in
        let named : name ≡ register.name = (eq_bytes_iff name register.name).0 same in
        rw (set, ← it) (sym named, inl (Memᴰ.head refl))

    others :
        eq_bytes name register.name ≡ false
        → (e.register.name ≡ name) × IsPlaced s s.loop e
        → (e.register.name ≡ name) × IsPlaced (put_request register seq s) s.loop e
    others other (named, placed) =
        let differs : eq_bytes e.register.name register.name ≡ false = rw named other in
        rw set (
          named,
          elim placed [
            | inl pending ↦ inl (Memᴰ.tail (Mem-remove register.name e s.pending differs pending))
            | inr placed' ↦ inr placed'
          ],
        )

look-IsKept : (s : System) (t : ℕ) → IsKept s (looking t) → IsKept (look t s) (look t s).loop
unfolding look
look-IsKept s t h name x latest_is =
    let (ready, kept, some_wait, ends, after) = due-IsSplit t s.pending in
    let (named, placed) = h name x latest_is in
    (
      named,
      elim placed [
        | inl pending ↦
            elim (Mem-filter (λ (y : PendingRefresh). leb y.due t) x s.pending pending) [
              | inl now_ready ↦ inr (inr (rw ready now_ready))
              | inr later ↦ inl (rw kept later)
            ]
        | inr placed' ↦ elim placed' [ inl done ↦ inr (inl done) | inr held ↦ absurd held ]
      ],
    )

refresh-IsKept :
    (s : System) (looked next : ℕ) (x : PendingRefresh) (rest : List PendingRefresh)
    → IsKept s (refreshing looked (x ∷ rest) next)
    → IsKept (record s { refreshed = s.refreshed ++ x ∷ [] }) (refreshing looked rest next)
refresh-IsKept s looked next x rest h name e latest_is =
    let (named, placed) = h name e latest_is in
    (
      named,
      elim placed [
        | inl pending ↦ inl pending
        | inr placed' ↦ elim placed' [
          | inl done ↦ inr (inl (Mem-append e s.refreshed (x ∷ []) done))
          | inr held ↦ from held
        ]
      ],
    )
  where
    from :
        Memᴰ e (x ∷ rest)
        → IsPlaced (record s { refreshed = s.refreshed ++ x ∷ [] }) (refreshing looked rest next) e
    from (Memᴰ.head q) =
        inr (inl (subst (λ y. Memᴰ y (s.refreshed ++ x ∷ [])) (sym q) (Mem-last x s.refreshed)))
    from (Memᴰ.tail m) = inr (inr m)

Step-IsKept : {s t : System} → Step s t → IsKept s s.loop → IsKept t t.loop
unfolding request
Step-IsKept (pass s d) h = h
Step-IsKept (asks s register seq) h = elim (Bool-cases (s.delay == 0)) [
  | inl e ↦ rw (e, request) h
  | inr e ↦ rw (e, request) (put_request-IsKept s register seq e h)
]
Step-IsKept (sends s some_signal) h = h
Step-IsKept (reads_clock s e) h =
    moves-IsKept s top (looking s.now) (λ x held. absurd held) (subst (IsKept s) e h)
Step-IsKept (looks s t e) h = look-IsKept s t (subst (IsKept s) e h)
Step-IsKept (refreshes s looked next x rest e) h =
    refresh-IsKept s looked next x rest (subst (IsKept s) e h)
Step-IsKept (gives_up s looked next x rest e) h =
    moves-IsKept s (refreshing looked (x ∷ rest) next) stopped (λ y held. tt) (subst (IsKept s) e h)
Step-IsKept (sleeps s looked next e) h =
    moves-IsKept s (refreshing looked [] next) (sleep_loop s.now looked next)
      (λ x held. elim held [ ]) (subst (IsKept s) e h)
Step-IsKept (wakes s e w) h =
    moves-IsKept s waiting top (λ x held. absurd held) (subst (IsKept s) e h)
Step-IsKept (wakes_early s until lag e w) h =
    moves-IsKept s (waiting_until until lag) top (λ x held. absurd held) (subst (IsKept s) e h)
Step-IsKept (fires s until lag e over) h =
    moves-IsKept s (waiting_until until lag) top (λ x held. absurd held) (subst (IsKept s) e h)
Step-IsKept (stops s e) h = moves-IsKept s waiting stopped (λ x held. tt) (subst (IsKept s) e h)
Step-IsKept (stops_early s until lag e) h =
    moves-IsKept s (waiting_until until lag) stopped (λ x held. tt) (subst (IsKept s) e h)

start-IsKept : (delay now : ℕ) → IsKept (start delay now) (start delay now).loop
unfolding start
start-IsKept delay now name e latest_is = cc

-- No request for a re-read is lost: in every order of steps, the latest that schedule took for a
-- register is pending, or is among those that the loop is about to make, or has been made; or the
-- loop has ended.
pub Reach-IsKept :
    (delay now : ℕ) {s : System} (name : Bytes) (e : PendingRefresh)
    → Reach (start delay now) s
    → s.latest name ≡ some e
    → IsPlaced s s.loop e
Reach-IsKept delay now {s} name e r latest_is = (kept r name e latest_is).1
  where
    kept : {u : System} → Reach (start delay now) u → IsKept u u.loop
    kept here = start-IsKept delay now
    kept (more q st) = Step-IsKept st (kept q)
