-- ===== src/Registers/Writer.antt =====
-- internal/registers/writer.go: applying one command to the unit. What the Writer shares with other
-- goroutines behind its mutexes is `Memory`, which each method takes and returns; the commands run one
-- after another (cmd/commandqueue.go).
pub mod Command
pub mod Handle
pub mod Refresh
use aerosmart_gateway.Base.{
  ℕ, zero, suc, ◌+◌, ◌-◌, ◌%◌, ◌^◌, ◌≡◌, Bool, true, false, ◌&&◌, ◌||◌, not, Option, none, some,
  List, [], ◌∷◌, ◌++◌, Bytes, codes, eq_bytes, is_empty, if◌then◌else◌, Map, put, delete, ltb, ◌==◌,
  is_some,
}
use aerosmart_gateway.Base.Int.{ℤ, pos, ltb_ℤ, leb_ℤ, max_ℤ, pos_part}
use aerosmart_gateway.Base.Decimal.{atoi, itoa}
use aerosmart_gateway.Base.Float.{Floats}
use aerosmart_gateway.Config.Types.{ReadRegister, WriteRegister}
use aerosmart_gateway.Serial.Errors.{Err, Result, ok, err, wrap, other, is_cancellation}
use aerosmart_gateway.Serial.World.{sleep_ctx}
use aerosmart_gateway.Registers.Gate.{ReadGate, preempt, release}
use aerosmart_gateway.Registers.Resettle.{PendingRefresh, schedule}
use aerosmart_gateway.Registers.Device.{Device}
use aerosmart_gateway.Registers.Reader.{Reader, find_register, read_single_raw, format_by_type}

-- lastWrite
pub record LastWrite : Type 0 where
  pub value : Bytes
  pub at : ℕ

-- The gate, the reader's trusted values, `writeSeq`, `lastCommand` and the resettler's `pending`
pub record Memory (F : Type 0) : Type 0 where
  pub gate : ReadGate
  pub trusted : Map F
  pub write_seq : Map ℕ
  pub last_command : Map LastWrite
  pub pending : List PendingRefresh

-- What NewWriter, SetReader and SetResettleDelay leave fixed; `byTopic` holds the last register of
-- each subscribed topic.
pub record Writer (F : Type 0) : Type 0 where
  pub registers : List WriteRegister
  pub reader : Option (Reader F)
  pub retries : ℕ
  pub backoff : ℕ
  pub settle_delay : ℕ
  pub dedupe_window : ℕ
  pub resettle : Option ℕ  -- the resettler's delay

-- NewWriter: at least one attempt
unfoldable pub new_writer : {F : Type 0} → List WriteRegister → ℤ → ℕ → ℕ → Writer F
new_writer registers retries backoff settle_delay = record {
  registers = registers;
  reader = none;
  retries = pos_part (max_ℤ retries (pos 1));
  backoff = backoff;
  settle_delay = settle_delay;
  dedupe_window = 1_000_000_000;
  resettle = none;
}

-- A lookup in `byTopic`
unfoldable pub find_topic : Bytes → List WriteRegister → Option WriteRegister
find_topic topic [] = none
find_topic topic (reg ∷ regs) = elim (find_topic topic regs) [
  | some later ↦ some later
  | none ↦
      if not (is_empty reg.subscribe_topic) && eq_bytes reg.subscribe_topic topic
      then some reg
      else none
]

-- GetSubscribeTopics
unfoldable pub get_subscribe_topics : List WriteRegister → List Bytes
get_subscribe_topics [] = []
get_subscribe_topics (reg ∷ regs) =
    let rest = get_subscribe_topics regs in
    if is_empty reg.subscribe_topic then rest else reg.subscribe_topic ∷ rest

-- WriteSequence
unfoldable pub write_sequence : Map ℕ → Bytes → ℕ
write_sequence seqs name = elim (seqs name) [ none ↦ 0 | some n ↦ n ]

module _ {F : Type 0} where
  -- nextWriteSequence, on a uint64
  unfoldable pub next_write_sequence : Bytes → Memory F → Memory F × ℕ
  unfolding write_sequence
  next_write_sequence name m =
      let next = (write_sequence m.write_seq name + 1) % 2 ^ 64 in
      (record m { write_seq = put name next m.write_seq }, next)

  -- isDuplicate
  unfoldable pub is_duplicate : ℕ → ℕ → Bytes → Bytes → Memory F → Bool
  is_duplicate window now topic value m = elim (m.last_command topic) [
    | none ↦ false
    | some last ↦ if not (eq_bytes last.value value) then false else ltb (now - last.at) window
  ]

  -- rememberSent
  unfoldable pub remember_sent : ℕ → Bytes → Bytes → Memory F → Memory F
  remember_sent now topic value m = record m {
    last_command = put topic (record { value = value; at = now }) m.last_command;
  }

  -- forgetSent
  unfoldable pub forget_sent : Bytes → Bytes → Memory F → Memory F
  forget_sent topic value m = elim (m.last_command topic) [
    | none ↦ m
    | some last ↦
        if eq_bytes last.value value
        then record m { last_command = delete topic m.last_command }
        else m
  ]

  -- `defer w.resettle.schedule(register, seq)`, if there is a resettler
  unfoldable pub schedule_refresh : Option ℕ → ℕ → WriteRegister → ℕ → Memory F → Memory F
  unfolding schedule
  schedule_refresh none now register seq m = m
  schedule_refresh (some delay) now register seq m = record m {
    pending = schedule delay now register seq m.pending;
  }

-- writeResult: `actual` is none when it is not resolved.
pub record WriteResult : Type 0 where
  pub actual : Option Bytes
  pub err : Option Err

-- writeAttempts
abbrev pub write_attempts : ℕ
write_attempts = 2
