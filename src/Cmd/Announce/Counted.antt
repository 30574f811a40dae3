-- ===== src/Cmd/Announce/Counted.antt =====
-- One loop of publishHADiscovery of cmd/main.go, over any registers: what it counts, and what it leaves.
use aerosmart_gateway.Base.{
  ℕ, ◌+◌, ◌≤◌, ◌≡◌, Option, none, some, List, [], ◌∷◌, Bytes, is_empty, if◌then◌else◌, arith,
}
use aerosmart_gateway.Cmd.Announce.{Tally, announce_one, announce}
use aerosmart_gateway.Mqtt.Discovery.Publish.{Trouble}

-- How many entities a name makes
abbrev pub one_if_named : Bytes → ℕ
one_if_named name = if is_empty name then 0 else 1

pub announce_one-counts :
    {W : Type 0} (name : Bytes) (r : W × Option Trouble) (t : Tally W)
    → let s = announce_one name r t in
      (s.published + s.failed ≡ t.published + t.failed + one_if_named name) × (t.failed ≤ s.failed)
announce_one-counts [] r t = (omega arith, omega arith)
announce_one-counts (x ∷ name) (w, none) t = (omega arith, omega arith)
announce_one-counts (x ∷ name) (w, some e) t = (omega arith, omega arith)

-- The entities that have a name
abbrev pub entities : {R : Type 0} → (R → Bytes) → List R → ℕ
entities named [] = 0
entities named (reg ∷ regs) = one_if_named (named reg) + entities named regs

module _ {W R : Type 0} (named : R → Bytes) (act : R → W → W × Option Trouble) where
  -- Every entity that has a name is counted once.
  pub announce-counts :
      (regs : List R) (t : Tally W)
      → let t₁ = announce named act regs t in
        (t₁.published + t₁.failed ≡ t.published + t.failed + entities named regs)
        × (t.failed ≤ t₁.failed)
  unfolding announce
  announce-counts [] t = (omega arith, omega arith)
  announce-counts (reg ∷ regs) t =
      let (here, grown) = announce_one-counts (named reg) (act reg t.world) t in
      let (there, more) = announce-counts regs (announce_one (named reg) (act reg t.world) t) in
      (omega arith, omega arith)
