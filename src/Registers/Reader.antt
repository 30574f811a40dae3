-- ===== src/Registers/Reader.antt =====
-- internal/registers/reader.go: reading one register until a value can be trusted. `F` is float64; the
-- map of trusted values is handed from call to call, and nobody else writes to it during one.
pub mod Trust
pub mod Range
pub mod Untouched
use aerosmart_gateway.Base.{
  ℕ, zero, suc, ◌+◌, ◌-◌, ◌≡◌, Bool, true, false, ◌&&◌, ◌||◌, not, Option, none, some, List, [],
  ◌∷◌, ◌++◌, Bytes, codes, eq_bytes, is_empty, if◌then◌else◌, Map, put, ltb, is_some,
}
use aerosmart_gateway.Base.Int.{ℤ, pos, ltb_ℤ, max_ℤ, pos_part}
use aerosmart_gateway.Base.Float.{Floats}
use aerosmart_gateway.Config.Types.{ReadRegister}
use aerosmart_gateway.Serial.Errors.{
  Err, Result, ok, err, wrap, other, unconfirmed, is_port_error, is_cancellation,
}
use aerosmart_gateway.Serial.World.{sleep_ctx}
use aerosmart_gateway.Registers.Device.{Device, jittered}

pub record Sample (F : Type 0) : Type 0 where
  pub value : F
  pub text : Bytes
  pub raw : Bytes

-- The settings of a Reader. Its map `byName` holds the last register of each name.
pub record Reader (F : Type 0) : Type 0 where
  pub registers : List (ReadRegister F)
  pub retries : ℕ
  pub backoff : ℕ

-- NewReader: at least two attempts
unfoldable pub new_reader : {F : Type 0} → List (ReadRegister F) → ℤ → ℕ → Reader F
new_reader registers retries backoff = record {
  registers = registers;
  retries = pos_part (max_ℤ retries (pos 2));
  backoff = backoff;
}

-- Register: a lookup in `byName`
unfoldable pub find_register :
    {F : Type 0} → Bytes → List (ReadRegister F) → Option (ReadRegister F)
find_register name [] = none
find_register name (reg ∷ regs) = elim (find_register name regs) [
  | some later ↦ some later
  | none ↦ if eq_bytes reg.name name then some reg else none
]

module _ {F : Type 0} (fl : Floats F) where
  -- formatByType: a rounded value of zero loses its sign
  unfoldable pub format_by_type : F → Bytes → Bytes
  format_by_type x kind =
      let tenths = eq_bytes kind (codes "float") in
      let ten = fl.of_int (pos 10) in
      let rounded = if tenths then fl.div (fl.round (fl.mul x ten)) ten else fl.round x in
      let unsigned = if fl.eq rounded (fl.of_int (pos 0)) then fl.of_int (pos 0) else rounded in
      fl.print (if tenths then 1 else 0) unsigned

  -- processValue
  unfoldable pub process_value : Bytes → ReadRegister F → Bytes
  unfolding format_by_type
  process_value raw register = elim (fl.parse raw) [
    | none ↦ raw
    | some x ↦
        format_by_type
          (if ltb_ℤ (pos 1) register.divisor then fl.div x (fl.of_int register.divisor) else x)
          register.kind
  ]

  -- ValidateValue: it returns the value as it got it
  unfoldable pub validate_value : Bytes → ReadRegister F → Bool × Bytes
  validate_value value register = elim (fl.parse value) [
    | none ↦ (false, value)
    | some x ↦ (
      not (fl.lt x (fl.of_int register.min_value) || fl.lt (fl.of_int register.max_value) x),
      value,
    )
  ]

  -- toSample; the error of a value that is out of range or no number wraps none of the sentinels
  unfoldable pub to_sample : Bytes → ReadRegister F → Result (Sample F)
  to_sample raw register =
      let text = process_value raw register in
      let (valid, checked) = validate_value text register in
      if not valid then err (other 0) else elim (fl.parse checked) [
        | none ↦ err (wrap (other 1))
        | some x ↦ ok (record { value = x; text = checked; raw = raw })
      ]

  -- isTrusted
  unfoldable pub is_trusted : Map F → ReadRegister F → F → Bool
  is_trusted trusted register x = elim (trusted register.name) [
    | none ↦ false
    | some last ↦ fl.le (fl.abs (fl.sub x last)) register.confirm_step
  ]

  -- agree
  unfoldable pub agree : Sample F → Sample F → ReadRegister F → Bool
  agree a b register =
      eq_bytes a.text b.text || fl.le (fl.abs (fl.sub a.value b.value)) register.confirm_step

  unfoldable pub any_agrees : List (Sample F) → Sample F → ReadRegister F → Bool
  any_agrees [] s register = false
  any_agrees (earlier ∷ more) s register = agree earlier s register || any_agrees more s register

-- What one attempt leaves: the call returns, or the next attempt goes on with these variables.
pub data Attempt (W F : Type 0) : Type 0 where
  finish : W → Map F → Result (Bytes × Bytes) → Attempt W F
  retry : W → List (Sample F) → Option Err → Attempt W F

module _ {W F : Type 0} (d : Device W) (fl : Floats F) (register : ReadRegister F) where
  -- `return "", "", ctx.Err()`: with a nil error the empty strings would be a result
  abbrev ctx_result : W → Result (Bytes × Bytes)
  ctx_result w = elim (d.clock.ctx_err w) [ none ↦ ok ([], []) | some e ↦ err e ]

  -- A reading that is trusted, or confirmed by an earlier one of this call, is returned.
  unfoldable pub judge_sample :
      W → Map F → List (Sample F) → Option Err → Result (Sample F) → Attempt W F
  judge_sample w trusted samples last (err e) = retry w samples (some e)
  judge_sample w trusted samples last (ok s) =
      if is_trusted fl trusted register s.value || any_agrees fl samples s register
      then finish w (put register.name s.value trusted) (ok (s.text, s.raw))
      else retry w (samples ++ s ∷ []) last

  unfoldable pub judge_exchange :
      Map F → List (Sample F) → Option Err → W × Result Bytes → Attempt W F
  unfolding judge_sample
  judge_exchange trusted samples last (w, ok value) =
      judge_sample w trusted samples last (to_sample fl value register)
  judge_exchange trusted samples last (w, err e) = elim (d.clock.ctx_err w) [
    | some c ↦ finish w trusted (err c)
    | none ↦ if is_port_error e then finish w trusted (err (wrap e)) else retry w samples (some e)
  ]

  -- The wait before every attempt but the first.
  unfoldable pub pause : ℕ → Bool → W → W × Bool
  pause backoff first w =
      if first
      then (w, true)
      else (let (w₁, delay) = jittered d backoff w in sleep_ctx d.clock delay w₁)

  -- One round of the loop of readSingleRaw.
  unfoldable pub attempt : ℕ → Bool → Map F → List (Sample F) → Option Err → W → Attempt W F
  unfolding judge_exchange pause
  attempt backoff first trusted samples last w = elim (d.clock.ctx_err w) [
    | some e ↦ finish w trusted (err e)
    | none ↦
        let (w₁, slept) = pause backoff first w in
        if slept
        then judge_exchange trusted samples last (d.dev.transact register.command w₁)
        else finish w₁ trusted (ctx_result w₁)
  ]

  -- After the last attempt.
  unfoldable pub give_up : List (Sample F) → Option Err → Err
  give_up (s ∷ samples) last = wrap unconfirmed
  give_up [] (some e) = wrap e
  give_up [] none = other 2

  -- The loop, with the number of attempts that are left.
  unfoldable pub read_attempts :
      ℕ → ℕ → Bool → Map F → List (Sample F) → Option Err → W → W × Map F × Result (Bytes × Bytes)
  read_attempts zero backoff first trusted samples last w = (w, trusted, err (give_up samples last))
  read_attempts (suc n) backoff first trusted samples last w =
      elim (attempt backoff first trusted samples last w) [
        | finish w₁ trusted₁ result ↦ (w₁, trusted₁, result)
        | retry w₁ samples₁ last₁ ↦ read_attempts n backoff false trusted samples₁ last₁ w₁
      ]

  -- readSingleRaw: the text and the raw value; ReadSingle returns the text alone
  unfoldable pub read_single_raw : Reader F → Map F → W → W × Map F × Result (Bytes × Bytes)
  unfolding read_attempts
  read_single_raw r trusted w = read_attempts r.retries r.backoff true trusted [] none w
