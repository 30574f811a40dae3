-- ===== src/Cmd/Queue/Fifo.antt =====
-- The queue of cmd/commandqueue.go with its callers: callbacks that enqueue, and the worker of `run`,
-- which takes the oldest command that waits and applies it before it takes the next, until the
-- context ends.
use aerosmart_gateway.Base.{
  ℕ, ◌+◌, ◌≤◌, ◌≡◌, sym, ap, ◌∙◌, subst, List, [], ◌∷◌, ◌++◌, append_assoc, length, length-append,
  ltb, if◌then◌else◌, arith, Bool-cases, inl, inr,
}
use aerosmart_gateway.Base.Int.{ℤ}
use aerosmart_gateway.Cmd.Queue.{Command, CommandQueue, new_command_queue, enqueue}

pub record System : Type 0 where
  pub queue : CommandQueue
  pub arrived : List Command
  pub handled : List Command
  pub dropped : ℕ

pub data Step : System → System → Type 0 where
  arrive :
      (s : System) (c : Command)
      → Step s (record s {
        queue = (enqueue c s.queue).0;
        arrived = s.arrived ++ c ∷ [];
        dropped = if (enqueue c s.queue).1 then s.dropped else s.dropped + 1;
      })
  take :
      (s : System) (c : Command) (rest : List Command)
      → s.queue.waiting ≡ c ∷ rest
      → Step s
          (record s { queue = record s.queue { waiting = rest }; handled = s.handled ++ c ∷ [] })

pub data Reach (s : System) : System → Type 0 where
  here : Reach s s
  next : {t u : System} → Reach s t → Step t u → Reach s u

unfoldable pub start : ℤ → System
start depth = record { queue = new_command_queue depth; arrived = []; handled = []; dropped = 0 }

-- The first list is the second without some of its elements, in the same order.
pub data IsSublist : List Command → List Command → Type 0 where
  empty : IsSublist [] []
  keep : {c : Command} {xs ys : List Command} → IsSublist xs ys → IsSublist (c ∷ xs) (c ∷ ys)
  skip : {c : Command} {xs ys : List Command} → IsSublist xs ys → IsSublist xs (c ∷ ys)

IsSublist-keep_last :
    (c : Command) (xs ys : List Command) → IsSublist xs ys → IsSublist (xs ++ c ∷ []) (ys ++ c ∷ [])
IsSublist-keep_last c xs ys empty = keep empty
IsSublist-keep_last c xs ys (keep h) = keep (IsSublist-keep_last c _ _ h)
IsSublist-keep_last c xs ys (skip h) = skip (IsSublist-keep_last c _ _ h)

IsSublist-skip_last :
    (c : Command) (xs ys : List Command) → IsSublist xs ys → IsSublist xs (ys ++ c ∷ [])
IsSublist-skip_last c xs ys empty = skip empty
IsSublist-skip_last c xs ys (keep h) = keep (IsSublist-skip_last c _ _ h)
IsSublist-skip_last c xs ys (skip h) = skip (IsSublist-skip_last c _ _ h)

pub record IsOrdered (s : System) : Type 0 where
  pub in_order : IsSublist (s.handled ++ s.queue.waiting) s.arrived
  pub counted : length (s.handled ++ s.queue.waiting) + s.dropped ≡ length s.arrived
  pub fits : length s.queue.waiting ≤ s.queue.depth

Step-IsOrdered : {s u : System} → Step s u → IsOrdered s → IsOrdered u
unfolding enqueue
Step-IsOrdered (arrive s c) h =
    let old = s.handled ++ s.queue.waiting in
    elim (Bool-cases (ltb (length s.queue.waiting) s.queue.depth)) [
      | inl e ↦
          let regroup = append_assoc s.handled s.queue.waiting (c ∷ []) in
          rw (e, enqueue)
            (record {
              in_order =
                  subst (λ l. IsSublist l (s.arrived ++ c ∷ [])) regroup
                    (IsSublist-keep_last c old s.arrived h.in_order);
              counted = omega (
                arith,
                ap length regroup,
                length-append old (c ∷ []),
                length-append s.arrived (c ∷ []),
                h.counted,
              );
              fits = ground (arith, length-append s.queue.waiting (c ∷ []));
            })
      | inr e ↦
          rw (e, enqueue)
            (record {
              in_order = IsSublist-skip_last c old s.arrived h.in_order;
              counted = omega (arith, length-append s.arrived (c ∷ []), h.counted);
              fits = h.fits;
            })
    ]
Step-IsOrdered (take s c rest e) h =
    let moved : s.handled ++ s.queue.waiting ≡ (s.handled ++ c ∷ []) ++ rest =
      ap (λ l. s.handled ++ l) e ∙ sym (append_assoc s.handled (c ∷ []) rest) in
    record {
      in_order = subst (λ l. IsSublist l s.arrived) moved h.in_order;
      counted = omega (arith, ap length moved, h.counted);
      fits = omega (arith, ap length e, h.fits);
    }

-- In every order of arrivals and of the worker's steps: the commands that were applied and those that
-- wait are commands that arrived, in the order of their arrival, and all of them but those that were
-- dropped; and no more commands wait than the queue is deep.
pub Reach-IsOrdered : (depth : ℤ) {s : System} → Reach (start depth) s → IsOrdered s
unfolding start new_command_queue
Reach-IsOrdered depth here = record { in_order = empty; counted = omega arith; fits = omega arith }
Reach-IsOrdered depth (next r st) = Step-IsOrdered st (Reach-IsOrdered depth r)
