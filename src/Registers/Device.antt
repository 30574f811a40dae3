-- ===== src/Registers/Device.antt =====
-- What internal/registers works on: the `Transactor` and `Publisher` interfaces of reader.go, the
-- clock with the caller's context, and randomness. `W` is the state of all of these.
use aerosmart_gateway.Base.{
  ℕ, Bytes, Bool, List, ◌∷◌, Option, none, some, false, true, ◌≡◌, ◌≢◌, ◌/◌, ◌+◌, ◌==◌,
  if◌then◌else◌,
}
use aerosmart_gateway.Serial.Errors.{Err, Result, is_cancellation}
use aerosmart_gateway.Serial.World.{Clock}

pub record Transactor (W : Type 0) : Type 0 where
  pub transact : Bytes → W → W × Result Bytes
  pub send : Bytes → W → W × Option Err
  pub is_healthy : W → Bool

pub record Publisher (W : Type 0) : Type 0 where
  pub publish : Bytes → Bytes → W → W × Option Err

pub record Device (W : Type 0) : Type 0 where
  pub dev : Transactor W
  pub publisher : Publisher W
  pub clock : Clock W
  pub random : ℕ → W → W × ℕ  -- rand.N(n), below n

-- jittered
unfoldable pub jittered : {W : Type 0} → Device W → ℕ → W → W × ℕ
jittered d delay w =
    if delay == 0
    then (w, delay)
    else (let (w₁, extra) = d.random (delay / 2 + 1) w in (w₁, delay + extra))

-- The exchanges with the unit so far, the latest first: the command and what came back.
pub record History (W : Type 0) : Type 0 where
  pub exchanges : W → List (Bytes × Result Bytes)

module _ {W : Type 0} (d : Device W) where
  -- The context of the standard library: it ends by a cancellation or its deadline, and a wait that
  -- its end interrupts leaves it ended.
  pub record IsContext : Type 0 where
    pub ctx_cause : (w : W) (e : Err) → d.clock.ctx_err w ≡ some e → is_cancellation e ≡ true
    pub wait_cut :
        (n : ℕ) (w : W) → (d.clock.wait n w).1 ≡ false → d.clock.ctx_err (d.clock.wait n w).0 ≢ none

  -- An exchange is one entry of the history; waiting and drawing random numbers add none.
  pub record IsRecorded (h : History W) : Type 0 where
    pub transact_recorded :
        (c : Bytes) (w : W)
        → h.exchanges (d.dev.transact c w).0 ≡ (c, (d.dev.transact c w).1) ∷ h.exchanges w
    pub wait_recorded : (n : ℕ) (w : W) → h.exchanges (d.clock.wait n w).0 ≡ h.exchanges w
    pub random_recorded : (n : ℕ) (w : W) → h.exchanges (d.random n w).0 ≡ h.exchanges w

-- What has been asked of the unit without an answer and of the broker so far, the latest first.
pub record Traffic (W : Type 0) : Type 0 where
  pub sent : W → List Bytes
  pub published : W → List (Bytes × Bytes)

module _ {W : Type 0} (d : Device W) where
  -- Something of the world that exchanges, waits and random numbers leave alone.
  pub record IsUntouched {A : Type 0} (o : W → A) : Type 0 where
    pub by_transact : (c : Bytes) (w : W) → o (d.dev.transact c w).0 ≡ o w
    pub by_wait : (n : ℕ) (w : W) → o (d.clock.wait n w).0 ≡ o w
    pub by_random : (n : ℕ) (w : W) → o (d.random n w).0 ≡ o w

  -- Each call of Send and of Publish is one entry, whether it fails or not.
  pub record IsTraced (t : Traffic W) : Type 0 where
    pub sent_untouched : IsUntouched t.sent
    pub published_untouched : IsUntouched t.published
    pub send_sent : (c : Bytes) (w : W) → t.sent (d.dev.send c w).0 ≡ c ∷ t.sent w
    pub send_published : (c : Bytes) (w : W) → t.published (d.dev.send c w).0 ≡ t.published w
    pub publish_sent :
        (topic value : Bytes) (w : W) → t.sent (d.publisher.publish topic value w).0 ≡ t.sent w
    pub publish_published :
        (topic value : Bytes) (w : W)
        → t.published (d.publisher.publish topic value w).0 ≡ (topic, value) ∷ t.published w
