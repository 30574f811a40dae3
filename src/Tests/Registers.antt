-- ===== src/Tests/Registers.antt =====
-- Register configurations of internal/config.
use aerosmart_gateway.Base.{◌≡◌, refl, none, [], ◌∷◌, codes, eq_bytes, All}
use aerosmart_gateway.Base.Int.{ℤ, pos}
use aerosmart_gateway.Base.Text.{strip_prefix}
use aerosmart_gateway.Config.Types.{ReadRegister, WriteRegister, DerivedRegister, Registers}
use aerosmart_gateway.Config.Check
use aerosmart_gateway.Config.Check.{validate}
use aerosmart_gateway.Config.Check.Accepted.{IsServed, validate-IsServed}
use aerosmart_gateway.Config.Warnings
use aerosmart_gateway.Config.Warnings.{registers_warnings, shared_topic}
use aerosmart_gateway.Tests.Fixed.{fixed, lt-of_int}

abbrev fan : ReadRegister ℤ
fan = record {
  name = codes "fan";
  command = codes "131 1";
  topic = codes "aerosmart/fan";
  divisor = pos 1;
  kind = codes "integer";
  min_value = pos 0;
  max_value = pos 100;
  confirm_step = pos 0;
  ha_name = codes "Fan";
  ha_device_class = [];
  ha_unit = [];
}

abbrev fan_set : WriteRegister
fan_set = record {
  name = codes "fan_set";
  command_template = codes "130 1 {value}";
  subscribe_topic = codes "aerosmart/fan/set";
  topic = [];
  min_value = pos 0;
  max_value = pos 100;
  verify_registers = codes "fan" ∷ [];
  state_from = codes "fan";
  ha_name = codes "Fan speed";
  ha_command_topic = [];
}

abbrev fan_share : DerivedRegister
fan_share = record {
  name = codes "fan_share";
  topic = codes "aerosmart/fan_share";
  formula = [];
  sources = codes "fan" ∷ [];
  ha_name = codes "Share";
  ha_unit = codes "%";
  ha_device_class = [];
}

abbrev pub config : Registers ℤ
config = record {
  read_registers = fan ∷ [];
  write_registers = fan_set ∷ [];
  derived_registers = fan_share ∷ [];
}

pub accepted : validate fixed config ≡ none
unfolding validate Check.check_reads Check.check_writes Check.check_derived Check.read_names
    Check.read_problems Check.write_problems Check.unknown Check.complain Check.knows Check.contains
    eq_bytes strip_prefix
accepted = rw lt-of_int refl

-- A register that reads back one that nobody knows is refused.
refused :
    Check.check_writes [] [] [] (fan_set ∷ []) []
    ≡ Check.unknown_verify (codes "fan") ∷ Check.unknown_state ∷ []
unfolding Check.check_writes Check.write_problems Check.unknown Check.complain Check.knows
    Check.contains eq_bytes strip_prefix
refused = refl

validate-IsServed_example : All (IsServed config) config.write_registers
validate-IsServed_example = validate-IsServed fixed config accepted

-- A write register that publishes its state to the topic of a read register is pointed out.
warned :
    registers_warnings
      (record config { write_registers = record fan_set { topic = codes "aerosmart/fan" } ∷ [] })
    ≡ shared_topic (codes "fan_set") (codes "aerosmart/fan") (codes "fan") ∷ []
unfolding registers_warnings Warnings.topic_notes Warnings.topic_owner eq_bytes
warned = refl
