-- ===== src/Registers/Writer/Command.antt =====
-- internal/registers/writer.go: what HandleMessage calls: sending, reading back and judging. `seq` is zero in the read-back of a
-- command; for a re-read, `current` is what WriteSequence answers in a state of the world.
use aerosmart_gateway.Base.{
  ℕ, zero, suc, Bool, true, false, ◌&&◌, not, Option, none, some, List, [], ◌∷◌, Bytes, eq_bytes,
  is_empty, if◌then◌else◌, Map, put, ◌==◌, is_some,
}
use aerosmart_gateway.Base.Int.{ℤ}
use aerosmart_gateway.Base.Decimal.{itoa}
use aerosmart_gateway.Base.Float.{Floats}
use aerosmart_gateway.Config.Types.{ReadRegister, WriteRegister}
use aerosmart_gateway.Serial.Errors.{Err, Result, ok, err, other, is_cancellation}
use aerosmart_gateway.Serial.World.{sleep_ctx}
use aerosmart_gateway.Registers.Device.{Device}
use aerosmart_gateway.Registers.Reader.{Reader, find_register, read_single_raw, format_by_type}
use aerosmart_gateway.Registers.Writer.{Writer, WriteResult}

-- What reading registers back has gathered: `values` and `confirmed`.
pub record Gathered : Type 0 where
  pub values : Map Bytes
  pub confirmed : Bool

abbrev pub no_values : Map Bytes
no_values name = none

-- `names` of readBackIfCurrent
abbrev pub read_back_names : WriteRegister → List Bytes
read_back_names register =
    if is_empty register.state_from
    then register.verify_registers
    else register.state_from ∷ register.verify_registers

module _ {W F : Type 0} (d : Device W) (fl : Floats F) (wr : Writer F) where
  -- The wait before every attempt but the first.
  unfoldable pub send_pause : Bool → W → W × Bool
  send_pause first w = if first then (w, true) else sleep_ctx d.clock wr.backoff w

  -- sendCommand, with the number of attempts that are left; none is success.
  unfoldable pub send_attempts : ℕ → Bool → Option Err → Bytes → W → W × Option Err
  unfolding send_pause
  send_attempts zero first last command w = (w, last)
  send_attempts (suc n) first last command w = elim (d.clock.ctx_err w) [
    | some e ↦ (w, some e)
    | none ↦
        let (w₁, slept) = send_pause first w in
        elim slept [
          | false ↦ (w₁, d.clock.ctx_err w₁)
          | true ↦
              let (w₂, result) = d.dev.send command w₁ in
              elim result [
                | none ↦ (w₂, none)
                | some e ↦ elim (is_cancellation e) [
                  | true ↦ (w₂, some e)
                  | false ↦ send_attempts n false (some e) command w₂
                ]
              ]
        ]
  ]

  unfoldable pub send_command : Bytes → W → W × Option Err
  unfolding send_attempts
  send_command command w = send_attempts wr.retries true none command w

  -- What ReadSingle returned of a read-back register, which is published to its own topic.
  unfoldable pub take_reading :
      Bytes → ReadRegister F → Gathered → W × Map F × Result (Bytes × Bytes) → W × Map F × Gathered
  take_reading name reg g (w, trusted, err e) = (w, trusted, g)
  take_reading name reg g (w, trusted, ok (checked, raw)) =
      let g₁ : Gathered = record { values = put name checked g.values; confirmed = true } in
      if is_empty reg.topic
      then (w, trusted, g₁)
      else ((d.publisher.publish reg.topic checked w).0, trusted, g₁)

  -- One register of the loop of readBackIfCurrent, with the reader's registers.
  unfoldable pub read_back_one : Reader F → Bytes → Map F → Gathered → W → W × Map F × Gathered
  unfolding take_reading
  read_back_one reader name trusted g w = elim (find_register name reader.registers) [
    | none ↦ (w, trusted, g)
    | some reg ↦ take_reading name reg g (read_single_raw d fl reg reader trusted w)
  ]

  -- The loop; none as the result when a newer command has run.
  unfoldable pub read_back_loop :
      (W → ℕ) → ℕ → Reader F → List Bytes → Map F → Gathered → W → W × Map F × Option Gathered
  read_back_loop current seq reader [] trusted g w = (w, trusted, some g)
  read_back_loop current seq reader (name ∷ names) trusted g w = elim (is_some (g.values name)) [
    | true ↦ read_back_loop current seq reader names trusted g w
    | false ↦ elim (not (seq == 0) && not (current w == seq)) [
      | true ↦ (w, trusted, none)
      | false ↦
          let (w₁, trusted₁, g₁) = read_back_one reader name trusted g w in
          read_back_loop current seq reader names trusted₁ g₁ w₁
    ]
  ]

  -- readBackIfCurrent: none is `nil, false, false`; otherwise the registers were checkable.
  unfoldable pub read_back_with :
      Option (Reader F) → (W → ℕ) → ℕ → WriteRegister → Map F → W → W × Map F × Option Gathered
  unfolding read_back_loop
  read_back_with none current seq register trusted w = (w, trusted, none)
  read_back_with (some reader) current seq register trusted w =
      if is_empty (read_back_names register)
      then (w, trusted, none)
      else read_back_loop current seq reader (read_back_names register) trusted
          (record { values = no_values; confirmed = false }) w

  unfoldable pub read_back_if_current :
      (W → ℕ) → ℕ → WriteRegister → Map F → W → W × Map F × Option Gathered
  unfolding read_back_with
  read_back_if_current current seq register trusted w =
      read_back_with wr.reader current seq register trusted w

  -- readBack
  unfoldable pub read_back : WriteRegister → Map F → W → W × Map F × Option Gathered
  unfolding read_back_if_current
  read_back register trusted w = read_back_if_current (λ w. 0) 0 register trusted w

  -- `values[register.StateFrom]`
  unfoldable pub state_reading : WriteRegister → Option Gathered → Option Bytes
  state_reading register none = none
  state_reading register (some g) =
      if is_empty register.state_from then none else g.values register.state_from

  -- The commanded value in the form of a reading of state_from.
  unfoldable pub expected_reading : WriteRegister → ℤ → Option Bytes → Bytes
  expected_reading register value none = itoa value
  expected_reading register value (some actual) = elim wr.reader [
    | none ↦ itoa value
    | some reader ↦ elim (find_register register.state_from reader.registers) [
      | none ↦ itoa value
      | some reg ↦ format_by_type fl (fl.of_int value) reg.kind
    ]
  ]

  -- The switch of verify; an error of it wraps none of the sentinels.
  unfoldable pub judge_read_back : WriteRegister → ℤ → Option Gathered → WriteResult
  unfolding state_reading expected_reading
  judge_read_back register value gathered =
      let actual = state_reading register gathered in
      record {
        actual = actual;
        err = elim actual [
          | some a ↦
              if eq_bytes a (expected_reading register value (some a)) then none else some (other 3)
          | none ↦ elim gathered [
            | none ↦ none
            | some g ↦ if g.confirmed then none else some (other 4)
          ]
        ];
      }

  -- verify
  unfoldable pub verify : WriteRegister → ℤ → Map F → W → W × Map F × WriteResult
  unfolding read_back judge_read_back
  verify register value trusted w =
      let (w₁, trusted₁, gathered) = read_back register trusted w in
      (w₁, trusted₁, judge_read_back register value gathered)

  -- publishState
  unfoldable pub publish_state : WriteRegister → Bytes → WriteResult → W → W
  publish_state register commanded result w =
      if is_empty register.topic then w else (elim result.actual [
        | some actual ↦ (d.publisher.publish register.topic actual w).0
        | none ↦
            if is_empty register.state_from
            then (d.publisher.publish register.topic commanded w).0
            else w
      ])
