-- ===== src/Config/Types.antt =====
-- internal/config/config.go: the register definitions of registers.yaml. `F` is float64.
use aerosmart_gateway.Base.{List, Bytes}
use aerosmart_gateway.Base.Int.{ℤ}

-- ReadRegisterConfig; the `ha` section's fields are named behind `ha_`
pub record ReadRegister (F : Type 0) : Type 0 where
  pub name : Bytes
  pub command : Bytes
  pub topic : Bytes
  pub divisor : ℤ
  pub kind : Bytes  -- type: "integer" or "float"
  pub min_value : ℤ
  pub max_value : ℤ
  pub confirm_step : F
  pub ha_name : Bytes
  pub ha_device_class : Bytes
  pub ha_unit : Bytes

-- WriteRegisterConfig
pub record WriteRegister : Type 0 where
  pub name : Bytes
  pub command_template : Bytes
  pub subscribe_topic : Bytes
  pub topic : Bytes
  pub min_value : ℤ
  pub max_value : ℤ
  pub verify_registers : List Bytes
  pub state_from : Bytes
  pub ha_name : Bytes
  pub ha_command_topic : Bytes  -- deprecated

-- DerivedRegisterConfig
pub record DerivedRegister : Type 0 where
  pub name : Bytes
  pub topic : Bytes
  pub formula : Bytes
  pub sources : List Bytes
  pub ha_name : Bytes
  pub ha_unit : Bytes
  pub ha_device_class : Bytes

-- RegistersConfig
pub record Registers (F : Type 0) : Type 0 where
  pub read_registers : List (ReadRegister F)
  pub write_registers : List WriteRegister
  pub derived_registers : List DerivedRegister
