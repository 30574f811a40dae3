-- ===== src/Serial/FrameReader.antt =====
-- internal/serial/framing.go: the frame reader and the wait for a quiet bus.
-- Both loops of the source have no counter; here they run on fuel, with a theorem that it suffices.
pub mod Termination
pub mod Stream
pub mod Session
use aerosmart_gateway.Base.{
  ℕ, zero, suc, ◌+◌, ◌-◌, ◌≤◌, ◌<◌, min, ◌≡◌, refl, ◌⊎◌, inl, inr, Bool, true, false, ◌&&◌, not,
  Option, none, some, List, [], ◌∷◌, ◌++◌, Bytes, length, ltb, leb, ◌==◌, if◌then◌else◌, is_empty,
}
use aerosmart_gateway.Serial.Errors.{Err, read_timeout, frame_overflow, is_timeout}
use aerosmart_gateway.Serial.World.{Port, Clock}

abbrev pub newline : ℕ
newline = b'\n'

abbrev pub carriage_return : ℕ
carriage_return = b'\r'

abbrev pub max_frame_len : ℕ
max_frame_len = 512

-- a millisecond, in nanoseconds
abbrev pub idle_poll : ℕ
idle_poll = 1_000_000

-- The port itself is part of the world; the scratch array is what one read returns.
pub record FrameReader : Type 0 where
  pub buf : Bytes
  pub timeout : ℕ  -- readTimeout
  pub port_timeout : ℕ  -- portTimeout, 0 for unknown

unfoldable pub new_frame_reader : ℕ → FrameReader
new_frame_reader timeout = record { buf = []; timeout = timeout; port_timeout = 0 }

unfoldable pub reset : FrameReader → FrameReader
reset f = record f { buf = [] }

-- `bytes.IndexByte(buf, '\n')` with the two slices: the bytes before the newline, and those behind.
unfoldable pub cut_line : Bytes → Option (Bytes × Bytes)
cut_line [] = none
cut_line (c ∷ s) = elim (c == newline) [
  | true ↦ some ([], s)
  | false ↦ elim (cut_line s) [ none ↦ none | some (line, rest) ↦ some (c ∷ line, rest) ]
]

-- `bytes.TrimRight(s, "\r")`.
unfoldable pub trim_right : Bytes → Bytes
trim_right [] = []
trim_right (c ∷ s) =
    let t = trim_right s in if c == carriage_return && is_empty t then [] else c ∷ t

pub data FrameResult : Type 0 where
  frame : Bytes → FrameResult
  failed : Err → FrameResult
  out_of_fuel : FrameResult

-- One round of a loop: it returns, or goes round again.
pub data Round (W R : Type 0) : Type 0 where
  done : FrameReader → W → R → Round W R
  again : FrameReader → W → Round W R

pub Round-cases :
    {W R : Type 0} (r : Round W R)
    → ((f : FrameReader) × (w : W) × (x : R) × (r ≡ done f w x))
      ⊎ ((f : FrameReader) × (w : W) × (r ≡ again f w))
Round-cases (done f w x) = inl (f, w, x, refl)
Round-cases (again f w) = inr (f, w, refl)

module _ {W : Type 0} (port : Port W) (clock : Clock W) where
  abbrev read_port : FrameReader → W × Bytes × Option Err → FrameReader × W × Bytes × Option Err
  read_port f (w, bytes, err) = (f, w, bytes, err)

  -- `frameReader.read`
  unfoldable pub read : ℕ → FrameReader → W → FrameReader × W × Bytes × Option Err
  read wait f w =
      if wait == f.port_timeout
      then read_port f (port.read w)
      else (let (w₁, err) = port.set_read_timeout wait w in
          elim err [
            | some e ↦ (record f { port_timeout = 0 }, w₁, [], some e)
            | none ↦ read_port (record f { port_timeout = wait }) (port.read w₁)
          ])

  -- What follows the read in `readFrame`: data is consumed before the error is judged.
  unfoldable pub after_read : FrameReader × W × Bytes × Option Err → Round W FrameResult
  after_read (f, w, c ∷ bytes, err) = again (record f { buf = f.buf ++ c ∷ bytes }) w
  after_read (f, w, [], none) = again f (clock.sleep idle_poll w)
  after_read (f, w, [], some err) =
      if is_timeout err then again f (clock.sleep idle_poll w) else done f w (failed err)

  -- The round where no complete line is buffered.
  unfoldable pub no_line : ℕ → FrameReader → W → Round W FrameResult
  no_line deadline f w =
      let wait = min f.timeout (deadline - clock.now w) in
      if ltb max_frame_len (length f.buf)
      then done (reset f) w (failed frame_overflow)
      else if wait == 0
      then done f w (failed read_timeout)
      else after_read (read wait f w)

  -- One round of the loop of `readFrame`.
  unfoldable pub frame_round : ℕ → FrameReader → W → Round W FrameResult
  frame_round deadline f w = elim (cut_line f.buf) [
    | some (line, rest) ↦ done (record f { buf = rest }) w (frame (trim_right line))
    | none ↦ no_line deadline f w
  ]

  -- `frameReader.readFrame`
  unfoldable pub read_frame : ℕ → ℕ → FrameReader → W → FrameReader × W × FrameResult
  read_frame zero deadline f w = (f, w, out_of_fuel)
  read_frame (suc fuel) deadline f w = elim (frame_round deadline f w) [
    | done f₁ w₁ result ↦ (f₁, w₁, result)
    | again f₁ w₁ ↦ read_frame fuel deadline f₁ w₁
  ]

-- What `waitQuiet` returns: whether the bus went quiet, or an error.
pub data QuietResult : Type 0 where
  quiet : QuietResult
  busy : QuietResult
  quiet_failed : Err → QuietResult
  quiet_out_of_fuel : QuietResult

-- One round of the loop of `waitQuiet`; the number is the new `lastByte`.
pub data QuietRound (W : Type 0) : Type 0 where
  quiet_done : FrameReader → W → QuietResult → QuietRound W
  quiet_again : FrameReader → W → ℕ → QuietRound W

pub QuietRound-cases :
    {W : Type 0} (r : QuietRound W)
    → ((f : FrameReader) × (w : W) × (x : QuietResult) × (r ≡ quiet_done f w x))
      ⊎ ((f : FrameReader) × (w : W) × (last_byte : ℕ) × (r ≡ quiet_again f w last_byte))
QuietRound-cases (quiet_done f w x) = inl (f, w, x, refl)
QuietRound-cases (quiet_again f w last_byte) = inr (f, w, last_byte, refl)

module _ {W : Type 0} (port : Port W) (clock : Clock W) where
  abbrev idle : ℕ → FrameReader → W → ℕ → QuietRound W
  idle gap f w last_byte =
      if ltb (clock.now w - last_byte) gap
      then quiet_again f (clock.sleep idle_poll w) last_byte
      else quiet_again f w last_byte

  abbrev after_quiet_read : ℕ → ℕ → FrameReader × W × Bytes × Option Err → QuietRound W
  after_quiet_read gap last_byte (f, w, bytes, some err) =
      if is_timeout err
      then (if is_empty bytes then idle gap f w last_byte else quiet_again f w (clock.now w))
      else quiet_done f w (quiet_failed err)
  after_quiet_read gap last_byte (f, w, bytes, none) =
      if is_empty bytes then idle gap f w last_byte else quiet_again f w (clock.now w)

  -- One round of the loop of `waitQuiet`. The clock is read once before the read and once after it.
  unfoldable pub quiet_round : ℕ → ℕ → ℕ → FrameReader → W → QuietRound W
  quiet_round gap deadline last_byte f w = elim (clock.ctx_err w) [
    | some err ↦ quiet_done f w (quiet_failed err)
    | none ↦
        let silence = clock.now w - last_byte in
        let remaining = deadline - clock.now w in
        if leb gap silence
        then quiet_done f w quiet
        else if remaining == 0
        then quiet_done f w busy
        else after_quiet_read gap last_byte (read port clock (min (gap - silence) remaining) f w)
  ]

  unfoldable pub quiet_loop : ℕ → ℕ → ℕ → ℕ → FrameReader → W → FrameReader × W × QuietResult
  quiet_loop zero gap deadline last_byte f w = (f, w, quiet_out_of_fuel)
  quiet_loop (suc fuel) gap deadline last_byte f w = elim (quiet_round gap deadline last_byte f w) [
    | quiet_done f₁ w₁ result ↦ (f₁, w₁, result)
    | quiet_again f₁ w₁ last₁ ↦ quiet_loop fuel gap deadline last₁ f₁ w₁
  ]

  -- `frameReader.waitQuiet`
  unfoldable pub wait_quiet : ℕ → ℕ → ℕ → FrameReader → W → FrameReader × W × QuietResult
  unfolding quiet_loop
  wait_quiet fuel gap max_wait f w =
      let start = clock.now w in quiet_loop fuel gap (start + max_wait) start f w
