-- ===== src/Registers/Resettle/Due.antt =====
-- Which entries resettle.go's `due` takes, and how long it lets its caller wait.
use mathlib.Core.List.{Memᴰ}
use aerosmart_gateway.Base.{
  ℕ, ◌+◌, ◌-◌, ◌≤◌, ◌<◌, ◌≡◌, refl, ◌⊎◌, inl, inr, true, false, List, [], ◌∷◌, leb, All, arith,
  Bool-cases, filter, not, ap,
}
use aerosmart_gateway.Registers.Resettle.{PendingRefresh, due, due_from, shorter}

-- What due returns: what is ready, what stays, and the wait for it.
abbrev pub IsSplit :
    ℕ → List PendingRefresh → List PendingRefresh × List PendingRefresh × ℕ → Type 0
IsSplit now pending (ready, kept, wait) =
    (ready ≡ filter (λ e. leb e.due now) pending)
    × (kept ≡ filter (λ e. not (leb e.due now)) pending)
    × ((kept ≡ []) ⊎ (0 < wait))
    × ((wait ≡ 0) ⊎ ((e : PendingRefresh) × Memᴰ e kept × (now + wait ≡ e.due)))
    × All (λ e. now + wait ≤ e.due) kept

-- The same of its loop, whose wait starts at `next`.
abbrev IsSplitFrom : ℕ → ℕ → List PendingRefresh × List PendingRefresh × ℕ → Type 0
IsSplitFrom now next (ready, kept, wait) =
    All (λ e. e.due ≤ now) ready
    × All (λ e. now < e.due) kept
    × ((kept ≡ []) ⊎ (0 < wait))
    × ((wait ≡ next) ⊎ ((e : PendingRefresh) × Memᴰ e kept × (now + wait ≡ e.due)))
    × All (λ e. now + wait ≤ e.due) kept
    × ((next ≡ 0) ⊎ ((wait ≤ next) × (0 < wait)))

shorter_bounds :
    (now next due n : ℕ)
    → now < due
    → (shorter next (due - now) ≡ 0) ⊎ ((n ≤ shorter next (due - now)) × (0 < n))
    → ((next ≡ 0) ⊎ ((n ≤ next) × (0 < n)))
      × (0 < n)
      × (now + n ≤ due)
      × (n ≡ shorter next (due - now) → (n ≡ next) ⊎ (now + n ≡ due))
unfolding shorter
shorter_bounds now next due n h g = (ground arith, ground arith, ground arith, λ e. ground arith)

due_from_splits :
    (now next : ℕ) (pending : List PendingRefresh)
    → IsSplitFrom now next (due_from now next pending)
unfolding due_from
due_from_splits now next [] = (tt, tt, inl refl, inl refl, tt, ground arith)
due_from_splits now next (e ∷ es) = elim (Bool-cases (leb e.due now)) [
  | inl p ↦ rw (p, due_from) (ready p (due_from now next es) (due_from_splits now next es))
  | inr p ↦
      let wait = shorter next (e.due - now) in
      rw (p, due_from) (kept p (due_from now wait es) (due_from_splits now wait es))
]
  where
    ready :
        leb e.due now ≡ true
        → (r : List PendingRefresh × List PendingRefresh × ℕ) → IsSplitFrom now next r
        → IsSplitFrom now next (e ∷ r.0, r.1, r.2)
    ready p (r, k, n) (a, b, c, d, f, g) = ((ground arith, a), b, c, d, f, g)

    kept :
        leb e.due now ≡ false
        → (r : List PendingRefresh × List PendingRefresh × ℕ)
        → IsSplitFrom now (shorter next (e.due - now)) r
        → IsSplitFrom now next (r.0, e ∷ r.1, r.2)
    kept p (r, k, n) (a, b, c, d, f, g) =
        let (low, positive, before, at) = shorter_bounds now next e.due n (ground arith) g in
        (
          a,
          (ground arith, b),
          inr positive,
          elim d [
            | inl s ↦ elim (at s) [ inl q ↦ inl q | inr q ↦ inr (e, Memᴰ.head refl, q) ]
            | inr (x, m, s) ↦ inr (x, Memᴰ.tail m, s)
          ],
          (before, f),
          low,
        )

due_from-filter :
    (now next : ℕ) (pending : List PendingRefresh)
    → ((due_from now next pending).0 ≡ filter (λ e. leb e.due now) pending)
      × ((due_from now next pending).1 ≡ filter (λ e. not (leb e.due now)) pending)
unfolding due_from
due_from-filter now next [] = (refl, refl)
due_from-filter now next (e ∷ es) = elim (Bool-cases (leb e.due now)) [
  | inl p ↦ let (a, b) = due_from-filter now next es in rw (p, due_from) (ap (λ l. e ∷ l) a, b)
  | inr p ↦
      let (a, b) = due_from-filter now (shorter next (e.due - now)) es in
      rw (p, due_from) (a, ap (λ l. e ∷ l) b)
]

-- due takes exactly the entries whose time has come, and keeps the others. What it returns as the wait
-- is zero only if nothing is kept, and otherwise ends at the time of the earliest entry that is kept.
pub due-IsSplit : (now : ℕ) (pending : List PendingRefresh) → IsSplit now pending (due now pending)
unfolding due
due-IsSplit now pending =
    let (ready, kept) = due_from-filter now 0 pending in
    let s = due_from_splits now 0 pending in (ready, kept, s.2, s.3, s.4)
