-- ===== src/Tests/Reader.antt =====
-- Readings of internal/registers/reader.go on the simulated unit, with tenths for float64.
use aerosmart_gateway.Base.{◌≡◌, refl, codes, [], ◌∷◌, eq_bytes}
use aerosmart_gateway.Base.Int.{ℤ, pos, negsuc}
use aerosmart_gateway.Base.Decimal.{read_digits, digits, negate}
use aerosmart_gateway.Serial.Errors.{ok}
use aerosmart_gateway.Serial.World.{sleep_ctx}
use aerosmart_gateway.Registers.Device.{jittered}
use aerosmart_gateway.Registers.Reader.{
  Sample, to_sample, process_value, validate_value, new_reader, read_single_raw, is_trusted, agree,
  any_agrees, attempt, format_by_type,
}
use aerosmart_gateway.Registers.Reader.Trust.{Accounted, read_single_raw-Accounted}
use aerosmart_gateway.Tests.Fixed.{fixed}
use aerosmart_gateway.Tests.Bus.{
  Bus, device, history, device-IsContext, device-IsRecorded, idle_bus, outdoor, nothing_trusted,
}

abbrev cold : Sample ℤ
cold = record { value = negsuc 122; text = codes "-12.3"; raw = codes "-123" }

cold_sample : to_sample fixed (codes "-123") outdoor ≡ ok cold
unfolding to_sample process_value format_by_type validate_value eq_bytes negate read_digits digits
cold_sample = refl

-- A corrupted frame between two readings that agree.
abbrev noisy_bus : Bus
noisy_bus = idle_bus (ok (codes "-123") ∷ ok (codes "412") ∷ ok (codes "-122") ∷ [])

noisy_reading :
    (read_single_raw device fixed outdoor (new_reader [] (pos 3) 100) nothing_trusted noisy_bus).2
    ≡ ok (codes "-12.2", codes "-122")
unfolding read_single_raw new_reader attempt sleep_ctx jittered to_sample process_value
    format_by_type validate_value is_trusted any_agrees agree eq_bytes negate read_digits digits
noisy_reading = refl

read_single_raw-Accounted_example : Accounted device fixed outdoor history 3 [] nothing_trusted (
    read_single_raw device fixed outdoor
      (record { registers = []; retries = 3; backoff = 100 })
      nothing_trusted
      noisy_bus)
read_single_raw-Accounted_example =
    read_single_raw-Accounted device fixed outdoor history device-IsContext device-IsRecorded
      (record { registers = []; retries = 3; backoff = 100 }) nothing_trusted noisy_bus
