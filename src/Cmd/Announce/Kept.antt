-- ===== src/Cmd/Announce/Kept.antt =====
-- One loop of publishHADiscovery of cmd/main.go, over any registers: what the broker retains behind it,
-- where each register has topics of its own.
use aerosmart_gateway.Base.{
  ◌≤◌, ◌≡◌, refl, ◌∙◌, ◌⊎◌, inl, inr, true, false, Option, none, some, List, [], ◌∷◌, Bytes,
  is_empty, eq_bytes, All, All-map, arith,
}
use aerosmart_gateway.Cmd.Announce.{Tally, announce_one, announce}
use aerosmart_gateway.Cmd.Announce.Counted.{announce-counts, announce_one-counts}
use aerosmart_gateway.Mqtt.Client.{MqttSettings, Message, Broker}
use aerosmart_gateway.Mqtt.Client.Delivered.{IsRecorded}
use aerosmart_gateway.Mqtt.Discovery.Publish.{Trouble}
use aerosmart_gateway.Mqtt.Discovery.Publish.Elsewhere.{IsKept}

-- None of the topics is `other`.
abbrev pub Avoids : List Bytes → Bytes → Type 0
Avoids topics other = All (λ t. eq_bytes t other ≡ false) topics

-- No register's topics are those of one behind it.
abbrev pub AreApart : {R : Type 0} → (R → List Bytes) → List R → Type 0
AreApart topics [] = Unit
AreApart topics (reg ∷ regs) =
    All (λ later. All (Avoids (topics later)) (topics reg)) regs × AreApart topics regs

module _ {W R : Type 0} (broker : Broker W) (c : MqttSettings) (sent : W → List Message)
    (recorded : IsRecorded broker c sent) (named : R → Bytes) (act : R → W → W × Option Trouble)
    (topics : R → List Bytes) (Landed : R → W → Type 0) where
  -- `act` changes the register's topics only, where its success leaves what `Landed` says, and what
  -- others cannot undo.
  pub record IsActing : Type 0 where
    pub keeps :
        (reg : R) (other : Bytes) (w : W)
        → Avoids (topics reg) other
        → IsKept broker c sent recorded other w (act reg w).0
    pub lands : (reg : R) (w : W) → (act reg w).1 ≡ none → Landed reg (act reg w).0
    pub lasts :
        (reg : R) (w w₁ : W)
        → All (λ t. IsKept broker c sent recorded t w w₁) (topics reg)
        → Landed reg w
        → Landed reg w₁

  announce_one-keeps :
      (name : Bytes) (r : W × Option Trouble) (other : Bytes) (t : Tally W)
      → IsKept broker c sent recorded other t.world r.0
      → IsKept broker c sent recorded other t.world (announce_one name r t).world
  announce_one-keeps [] r other t h = λ old. refl
  announce_one-keeps (x ∷ name) (w, none) other t h = h
  announce_one-keeps (x ∷ name) (w, some e) other t h = h

  pub announce-keeps :
      IsActing
      → (regs : List R) (other : Bytes) (t : Tally W) → All (λ reg. Avoids (topics reg) other) regs
      → IsKept broker c sent recorded other t.world (announce named act regs t).world
  unfolding announce
  announce-keeps acting [] other t h old = refl
  announce-keeps acting (reg ∷ regs) other t (avoids, h) old =
      announce-keeps acting regs other (announce_one (named reg) (act reg t.world) t) h old
      ∙ announce_one-keeps (named reg) (act reg t.world) other t
          (acting.keeps reg other t.world avoids) old

  pub announce-keeps_all :
      IsActing
      → (regs : List R) (others : List Bytes) (t : Tally W)
      → All (λ reg. All (Avoids (topics reg)) others) regs
      → All
          (λ other. IsKept broker c sent recorded other t.world (announce named act regs t).world)
          others
  announce-keeps_all acting regs [] t h = tt
  announce-keeps_all acting regs (other ∷ others) t h = (
    announce-keeps acting regs other t (All-map (λ reg p. p.0) regs h),
    announce-keeps_all acting regs others t (All-map (λ reg p. p.1) regs h),
  )

  -- A register has no name for Home Assistant, or its entity is there.
  abbrev pub IsAnnounced : W → R → Type 0
  IsAnnounced w reg = (is_empty (named reg) ≡ true) ⊎ Landed reg w

  announce_one-lands :
      (name : Bytes) (reg : R) (r : W × Option Trouble) (t : Tally W)
      → (r.1 ≡ none → Landed reg r.0)
      → (announce_one name r t).failed ≤ t.failed
      → (is_empty name ≡ true) ⊎ Landed reg (announce_one name r t).world
  announce_one-lands [] reg r t h e = inl refl
  announce_one-lands (x ∷ name) reg (w, none) t h e = inr (h refl)
  announce_one-lands (x ∷ name) reg (w, some trouble) t h e = absurd (omega arith)

  -- If no entity of the loop fails, then all are there behind it.
  pub announce-lands :
      IsActing
      → (regs : List R) (t : Tally W) → AreApart topics regs
      → (announce named act regs t).failed ≤ t.failed
      → All (IsAnnounced (announce named act regs t).world) regs
  unfolding announce
  announce-lands acting [] t apart e = tt
  announce-lands acting (reg ∷ regs) t (differ, apart) e =
      let s = announce_one (named reg) (act reg t.world) t in
      let (_, more) = announce-counts named act regs s in
      let (_, first) = announce_one-counts (named reg) (act reg t.world) t in
      let here =
        announce_one-lands (named reg) reg (act reg t.world) t (acting.lands reg t.world)
          (omega arith) in
      (
        elim here [
          | inl unnamed ↦ inl unnamed
          | inr landed ↦ inr (
              acting.lasts reg s.world _ (announce-keeps_all acting regs (topics reg) s differ)
                landed)
        ],
        announce-lands acting regs s apart (omega arith),
      )

  -- What has landed stays, while its topics keep what they retain.
  pub IsAnnounced-kept :
      IsActing
      → (regs : List R) (w w₁ : W)
      → All (λ reg. All (λ other. IsKept broker c sent recorded other w w₁) (topics reg)) regs
      → All (IsAnnounced w) regs
      → All (IsAnnounced w₁) regs
  IsAnnounced-kept acting [] w w₁ kept there = tt
  IsAnnounced-kept acting (reg ∷ regs) w w₁ (kept, more) (inl unnamed, there) =
      (inl unnamed, IsAnnounced-kept acting regs w w₁ more there)
  IsAnnounced-kept acting (reg ∷ regs) w w₁ (kept, more) (inr landed, there) =
      (inr (acting.lasts reg w w₁ kept landed), IsAnnounced-kept acting regs w w₁ more there)

-- What one loop has announced stays behind another loop, over registers with other topics.
pub announce-stays :
    {W R S : Type 0} (broker : Broker W) (c : MqttSettings) (sent : W → List Message)
    (recorded : IsRecorded broker c sent) {named : R → Bytes} {act : R → W → W × Option Trouble}
    {topics : R → List Bytes} {Landed : R → W → Type 0} {named' : S → Bytes}
    {act' : S → W → W × Option Trouble} {topics' : S → List Bytes} {Landed' : S → W → Type 0}
    → IsActing broker c sent recorded named act topics Landed
    → IsActing broker c sent recorded named' act' topics' Landed'
    → (regs : List R) (others : List S) (t : Tally W)
    → All (λ reg. All (λ other. All (Avoids (topics' other)) (topics reg)) others) regs
    → All (IsAnnounced broker c sent recorded named act topics Landed t.world) regs
    → All
        (IsAnnounced broker c sent recorded named act topics Landed
          (announce named' act' others t).world)
        regs
announce-stays broker c sent recorded acting acting' regs others t apart there =
    IsAnnounced-kept broker c sent recorded _ _ _ _ acting regs t.world _
      (All-map
        (λ reg differ. announce-keeps_all broker c sent recorded _ _ _ _ acting' others _ t differ)
        regs apart)
      there
