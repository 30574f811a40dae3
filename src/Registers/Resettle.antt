-- ===== src/Registers/Resettle.antt =====
-- internal/registers/resettle.go: the re-reads that wait for their time. The map `pending` is the list
-- of its entries, at most one for each register's name, in the order in which `range` visits them.
pub mod Due
pub mod Schedule
pub mod Loop
use aerosmart_gateway.Base.{
  ℕ, ◌+◌, ◌-◌, Bool, ◌||◌, List, [], ◌∷◌, Bytes, eq_bytes, if◌then◌else◌, ltb, leb, ◌==◌,
}
use aerosmart_gateway.Config.Types.{WriteRegister}

-- pendingRefresh
pub record PendingRefresh : Type 0 where
  pub register : WriteRegister
  pub seq : ℕ
  pub due : ℕ

-- delete(pending, name)
unfoldable pub remove : Bytes → List PendingRefresh → List PendingRefresh
remove name [] = []
remove name (e ∷ es) =
    let rest = remove name es in if eq_bytes e.register.name name then rest else e ∷ rest

-- schedule: the request replaces an earlier one of the same register.
unfoldable pub schedule : ℕ → ℕ → WriteRegister → ℕ → List PendingRefresh → List PendingRefresh
unfolding remove
schedule delay now register seq pending =
    if delay == 0
    then pending
    else record { register = register; seq = seq; due = now + delay } ∷ remove register.name pending

-- `if next == 0 || wait < next { next = wait }`
unfoldable pub shorter : ℕ → ℕ → ℕ
shorter next wait = if next == 0 || ltb wait next then wait else next

-- The loop of due: the entries that are ready, those that stay, and how long until the next of these.
unfoldable pub due_from :
    ℕ → ℕ → List PendingRefresh → List PendingRefresh × List PendingRefresh × ℕ
due_from now next [] = ([], [], next)
due_from now next (e ∷ es) =
    let is_ready = leb e.due now in
    let (ready, kept, last) =
      due_from now (if is_ready then next else shorter next (e.due - now)) es in
    if is_ready then (e ∷ ready, kept, last) else (ready, e ∷ kept, last)

-- due
unfoldable pub due : ℕ → List PendingRefresh → List PendingRefresh × List PendingRefresh × ℕ
unfolding due_from shorter
due now pending = due_from now 0 pending
