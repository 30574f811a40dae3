-- ===== src/Registers/Reader/Range.antt =====
-- The range check of reader.go's toSample.
use aerosmart_gateway.Base.{◌≡◌, false, some, Bytes, arith}
use aerosmart_gateway.Base.Float.{Floats}
use aerosmart_gateway.Config.Types.{ReadRegister}
use aerosmart_gateway.Serial.Errors.{ok}
use aerosmart_gateway.Registers.Reader.{Sample, to_sample, process_value, validate_value}

-- A sample's value is what its text reads as; it is neither below the register's minimum nor above its
-- maximum, and the text is the processed form of the raw value that is kept with it.
pub to_sample_range :
    {F : Type 0} (fl : Floats F) (raw : Bytes) (register : ReadRegister F) {s : Sample F}
    → to_sample fl raw register ≡ ok s
    → (fl.parse s.text ≡ some s.value)
      × (fl.lt s.value (fl.of_int register.min_value) ≡ false)
      × (fl.lt (fl.of_int register.max_value) s.value ≡ false)
      × (s.text ≡ process_value fl s.raw register)
      × (s.raw ≡ raw)
unfolding to_sample validate_value
to_sample_range fl raw register h = ground arith
