-- ===== src/Tests/Cycle.antt =====
-- Read cycles of internal/registers/poller.go and derived.go on the simulated unit.
use aerosmart_gateway.Base.{◌≡◌, ◌⊎◌, codes, true, none, some, List, [], ◌∷◌}
use aerosmart_gateway.Base.Int.{ℤ}
use aerosmart_gateway.Config.Types.{DerivedRegister}
use aerosmart_gateway.Serial.Errors.{ok}
use aerosmart_gateway.Registers.Values.{Values}
use aerosmart_gateway.Registers.Derived
use aerosmart_gateway.Registers.Cycle.{Poller, read_all, cycle_body}
use aerosmart_gateway.Registers.Cycle.Published.{Grew}
use aerosmart_gateway.Registers.Cycle.Snapshot.{FromSnapshot, cycle_body-FromSnapshot}
use aerosmart_gateway.Tests.Fixed.{fixed}
use aerosmart_gateway.Tests.Bus.{
  Bus, device, traffic, device-IsTraced, idle_bus, outdoor, nothing_trusted,
}

abbrev limit : DerivedRegister
limit = record {
  name = codes "co2luefterstufe4";
  topic = codes "aerosmart/co2luefterstufe4";
  formula = codes "round(co2luefterstufe3 * 1.2)";
  sources = codes "co2luefterstufe3" ∷ [];
  ha_name = [];
  ha_unit = [];
  ha_device_class = [];
}

abbrev snapshot : Values
snapshot =
    (
      codes "co2luefterstufe3",
      record {
        name = codes "co2luefterstufe3";
        value = codes "800";
        raw_value = codes "800";
        valid = true;
      },
    )
    ∷ []

abbrev in_order : Bus → Values → Values
in_order w values = values

abbrev poller : Poller ℤ
poller = record {
  reader = record { registers = outdoor ∷ []; retries = 3; backoff = 100 };
  derived = some (limit ∷ []);
  write_registers = [];
}

abbrev answering : Bus
answering = idle_bus (ok (codes "-123") ∷ ok (codes "412") ∷ ok (codes "-122") ∷ [])

cycle_body-FromSnapshot_example :
    let r = read_all device fixed poller.reader nothing_trusted answering in
    let w₁ = (cycle_body device fixed in_order poller nothing_trusted answering).0 in
    Grew device traffic (FromSnapshot device fixed in_order poller traffic r.values) answering w₁
    × (((r.err ≡ none) × (device.clock.ctx_err r.world ≡ none))
        ⊎ (traffic.published w₁ ≡ traffic.published answering))
cycle_body-FromSnapshot_example =
    cycle_body-FromSnapshot device fixed in_order poller traffic device-IsTraced (λ w vs e m. m)
      nothing_trusted answering
