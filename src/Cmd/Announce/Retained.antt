-- ===== src/Cmd/Announce/Retained.antt =====
-- What the broker retains behind publishHADiscovery of cmd/main.go.
use aerosmart_gateway.Base.{
  ℕ, zero, suc, ◌+◌, ◌≤◌, ◌≡◌, refl, ◌⊎◌, inl, inr, false, none, Option, List, Bytes, eq_bytes,
  is_empty, true, All, All-map, All_of_every, arith,
}
use aerosmart_gateway.Base.Float.{Floats}
use aerosmart_gateway.Config.Check.{validate}
use aerosmart_gateway.Config.Check.Names.{AreDistinct, validate-AreDistinct}
use aerosmart_gateway.Config.Types.{ReadRegister, WriteRegister, DerivedRegister, Registers}
use aerosmart_gateway.Cmd.Announce.{
  Tally, announce, announce_read, announce_write, announce_derived, publish_ha_discovery,
}
use aerosmart_gateway.Cmd.Announce.Counted.{announce-counts, entities}
use aerosmart_gateway.Cmd.Announce.Kept.{announce-lands, announce-stays}
use aerosmart_gateway.Cmd.Announce.Acting.{
  AreDistinct-AreApart, sensor_topic, command_topics, sensors_apart, commands_apart,
  sensor-commands, commands-sensor, IsRetained, IsCommanded, announce_read-IsActing,
  announce_write-IsActing, announce_derived-IsActing,
}
use aerosmart_gateway.Mqtt.Client.{MqttSettings, Message, Broker}
use aerosmart_gateway.Mqtt.Client.Delivered.{IsRecorded}
use aerosmart_gateway.Mqtt.Discovery.{Discovery, sensor_config, derived_sensor_config}
use aerosmart_gateway.Mqtt.Discovery.Publish.{Marshal}

-- No derived register has the name of a read register.
abbrev pub HasOwnNames : {F : Type 0} → Registers F → Type 0
HasOwnNames r =
    All (λ reg. All (λ later. eq_bytes later.name reg.name ≡ false) r.derived_registers)
      r.read_registers

module _ {W F : Type 0} (broker : Broker W) (c : MqttSettings) (sent : W → List Message)
    (recorded : IsRecorded broker c sent) (marshal : Marshal) (d : Discovery)
    (before : Bytes → Option Bytes) where
  -- The entries of all registers that have a name for Home Assistant
  abbrev pub HasEntries : Registers F → W → Type 0
  HasEntries r w =
      All
        (λ reg.
          (is_empty reg.ha_name ≡ true)
          ⊎ IsRetained broker c sent recorded marshal d before (sensor_config d reg) w)
        r.read_registers
      × All
          (λ reg.
            (is_empty reg.ha_name ≡ true)
            ⊎ IsCommanded broker c sent recorded marshal d before reg w)
          r.write_registers
      × All
          (λ reg.
            (is_empty reg.ha_name ≡ true)
            ⊎ IsRetained broker c sent recorded marshal d before (derived_sensor_config d reg) w)
          r.derived_registers

  -- What the two counts of publishHADiscovery say
  pub IsTallied : Registers F → Tally W → Type 0
  IsTallied r t =
      (t.published + t.failed
        ≡ entities (λ (reg : ReadRegister F). reg.ha_name) r.read_registers
          + entities (λ (reg : WriteRegister). reg.ha_name) r.write_registers
          + entities (λ (reg : DerivedRegister). reg.ha_name) r.derived_registers)
      × ((1 ≤ t.failed) ⊎ HasEntries r t.world)

  three_loops :
      (r : Registers F)
      → AreDistinct (λ reg. reg.name) r.read_registers
        × AreDistinct (λ reg. reg.name) r.write_registers
        × AreDistinct (λ reg. reg.name) r.derived_registers
      → HasOwnNames r
      → (t₀ : Tally W)
      → let t₁ =
          announce (λ reg. reg.ha_name) (announce_read broker c marshal d) r.read_registers t₀ in
        let t₂ =
          announce (λ reg. reg.ha_name) (announce_write broker c marshal d) r.write_registers t₁ in
        let t₃ =
          announce
            (λ reg. reg.ha_name)
            (announce_derived broker c marshal d)
            r.derived_registers
            t₂ in
        t₃.failed ≤ t₀.failed → HasEntries r t₃.world
  three_loops r (reads, writes, derived) apart t₀ none_failed =
      let acting_r = announce_read-IsActing broker c sent recorded marshal d before {F = F} in
      let acting_w = announce_write-IsActing broker c sent recorded marshal d before in
      let acting_d = announce_derived-IsActing broker c sent recorded marshal d before in
      let t₁ =
        announce (λ reg. reg.ha_name) (announce_read broker c marshal d) r.read_registers t₀ in
      let t₂ =
        announce (λ reg. reg.ha_name) (announce_write broker c marshal d) r.write_registers t₁ in
      let (_, m₁) =
        announce-counts (λ reg. reg.ha_name) (announce_read broker c marshal d) r.read_registers
          t₀ in
      let (_, m₂) =
        announce-counts (λ reg. reg.ha_name) (announce_write broker c marshal d) r.write_registers
          t₁ in
      let (_, m₃) =
        announce-counts (λ reg. reg.ha_name) (announce_derived broker c marshal d)
          r.derived_registers t₂ in
      (
        announce-stays broker c sent recorded acting_r acting_d r.read_registers r.derived_registers
            t₂
            (All-map
              (λ reg.
                All-map (λ later e. sensors_apart d later.name reg.name e) r.derived_registers)
              r.read_registers apart)
            (announce-stays broker c sent recorded acting_r acting_w r.read_registers
              r.write_registers t₁
              (All_of_every
                (λ reg.
                  All_of_every (λ later. commands-sensor d later.name reg.name) r.write_registers)
                r.read_registers)
              (announce-lands broker c sent recorded _ _ _ _ acting_r r.read_registers t₀
                (AreDistinct-AreApart (λ reg. reg.name) (sensor_topic d) (sensors_apart d)
                  r.read_registers reads)
                (omega arith))),
        announce-stays broker c sent recorded acting_w acting_d r.write_registers
            r.derived_registers t₂
            (All_of_every
              (λ reg.
                All_of_every (λ later. sensor-commands d later.name reg.name) r.derived_registers)
              r.write_registers)
            (announce-lands broker c sent recorded _ _ _ _ acting_w r.write_registers t₁
              (AreDistinct-AreApart (λ reg. reg.name) (command_topics d) (commands_apart d)
                r.write_registers writes)
              (omega arith)),
        announce-lands broker c sent recorded _ _ _ _ acting_d r.derived_registers t₂
            (AreDistinct-AreApart (λ reg. reg.name) (sensor_topic d) (sensors_apart d)
              r.derived_registers derived)
            (omega arith),
      )

  -- publishHADiscovery counts every entity that has a name for Home Assistant once, as published or as
  -- failed, and goes on behind one that failed. If none failed, then for each of them the broker retains
  -- its payload under its topic, for a write register under the component that it is, with nothing under
  -- the other component, whatever was retained before. This is for registers that Validate accepts, none
  -- of whose derived registers has the name of a read register.
  pub publish_ha_discovery-IsTallied :
      (fl : Floats F) (r : Registers F) (w : W)
      → validate fl r ≡ none
      → HasOwnNames r
      → IsTallied r (publish_ha_discovery broker c marshal d r w)
  unfolding IsTallied publish_ha_discovery
  publish_ha_discovery-IsTallied fl r w accepted apart =
      let t₀ : Tally W = record { world = w; published = 0; failed = 0 } in
      let t₁ =
        announce (λ reg. reg.ha_name) (announce_read broker c marshal d) r.read_registers t₀ in
      let t₂ =
        announce (λ reg. reg.ha_name) (announce_write broker c marshal d) r.write_registers t₁ in
      let (n₁, _) =
        announce-counts (λ reg. reg.ha_name) (announce_read broker c marshal d) r.read_registers
          t₀ in
      let (n₂, _) =
        announce-counts (λ reg. reg.ha_name) (announce_write broker c marshal d) r.write_registers
          t₁ in
      let (n₃, _) =
        announce-counts (λ reg. reg.ha_name) (announce_derived broker c marshal d)
          r.derived_registers t₂ in
      (
        omega arith,
        decide (publish_ha_discovery broker c marshal d r w).failed refl
            (three_loops r (validate-AreDistinct fl r accepted) apart t₀),
      )
    where
      t : Tally W
      t = publish_ha_discovery broker c marshal d r w

      decide :
          (n : ℕ)
          → t.failed ≡ n
          → (t.failed ≤ 0 → HasEntries r t.world)
          → (1 ≤ t.failed) ⊎ HasEntries r t.world
      decide zero e entries = inr (entries (omega arith))
      decide (suc n) e entries = inl (omega arith)
