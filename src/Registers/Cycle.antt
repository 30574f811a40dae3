-- ===== src/Registers/Cycle.antt =====
-- internal/registers/poller.go, with ReadAll and PublishAll of reader.go and derived.go: one read cycle.
-- `d` has the context of the cycle; `visit` is the order in which `range` goes through a map.
pub mod Published
pub mod Snapshot
use aerosmart_gateway.Base.{
  ℕ, Bool, true, false, ◌||◌, not, Option, none, some, List, [], ◌∷◌, Bytes, is_empty,
  if◌then◌else◌, Map,
}
use aerosmart_gateway.Base.Float.{Floats}
use aerosmart_gateway.Config.Types.{ReadRegister, WriteRegister, DerivedRegister}
use aerosmart_gateway.Serial.Errors.{Err, Result, ok, err, cycle_skipped, is_cancellation}
use aerosmart_gateway.Registers.Gate.{ReadGate, try_begin_cycle}
use aerosmart_gateway.Registers.Device.{Device}
use aerosmart_gateway.Registers.Reader.{Reader, find_register, read_single_raw}
use aerosmart_gateway.Registers.Values.{RegisterValue, Values, set, lookup}
use aerosmart_gateway.Registers.Derived.{calculate, find_topic}

-- What ReadAll returns, with the state behind it.
pub record Readout (W F : Type 0) : Type 0 where
  pub world : W
  pub trusted : Map F
  pub values : Values
  pub err : Option Err

-- What one publish loop carries along: the first error.
pub record Publishing (W : Type 0) : Type 0 where
  pub world : W
  pub err : Option Err

-- A Poller, with the settings of its reader and its calculator (`derived` may be nil)
pub record Poller (F : Type 0) : Type 0 where
  pub reader : Reader F
  pub derived : Option (List DerivedRegister)
  pub write_registers : List WriteRegister

module _ {W F : Type 0} (d : Device W) (fl : Floats F) where
  -- What follows readSingleRaw in the loop of ReadAll; `more` is the rest of the loop.
  unfoldable pub after_reading :
      ReadRegister F
      → Values
      → (Map F → Values → W → Readout W F)
      → W × Map F × Result (Bytes × Bytes)
      → Readout W F
  after_reading reg values more (w, trusted, ok (value, raw)) =
      more trusted
        (set reg.name (record { name = reg.name; value = value; raw_value = raw; valid = true })
          values)
        w
  after_reading reg values more (w, trusted, err e) =
      let invalid : RegisterValue = record {
        name = reg.name;
        value = [];
        raw_value = [];
        valid = false;
      } in
      elim (is_cancellation e) [
        | true ↦ record { world = w; trusted = trusted; values = values; err = some e }
        | false ↦ more trusted (set reg.name invalid values) w
      ]

  -- The loop of ReadAll
  unfoldable pub read_registers :
      Reader F → List (ReadRegister F) → Map F → Values → W → Readout W F
  unfolding after_reading
  read_registers reader [] trusted values w = record {
    world = w;
    trusted = trusted;
    values = values;
    err = none;
  }
  read_registers reader (reg ∷ regs) trusted values w = elim (d.clock.ctx_err w) [
    | some e ↦ record { world = w; trusted = trusted; values = values; err = some e }
    | none ↦
        after_reading reg values (read_registers reader regs)
          (read_single_raw d fl reg reader trusted w)
  ]

  -- ReadAll
  unfoldable pub read_all : Reader F → Map F → W → Readout W F
  unfolding read_registers
  read_all reader trusted w = read_registers reader reader.registers trusted [] w

module _ {W : Type 0} (d : Device W) where
  -- One entry of a publish loop, to the topic that its name has.
  unfoldable pub publish_entry :
      (Bytes → Option Bytes) → Bytes → RegisterValue → Publishing W → Publishing W
  publish_entry topic_of name v p = if not v.valid then p else (elim (topic_of name) [
    | none ↦ p
    | some topic ↦
        if is_empty topic
        then p
        else (let (w, failed) = d.publisher.publish topic v.value p.world in
            record { world = w; err = elim p.err [ none ↦ failed | some e ↦ some e ] })
  ])

  -- PublishAll of reader.go and of derived.go, which differ in where the topics come from
  unfoldable pub publish_all : (Bytes → Option Bytes) → Values → Publishing W → Publishing W
  unfolding publish_entry
  publish_all topic_of [] p = p
  publish_all topic_of ((name, v) ∷ more) p = elim (d.clock.ctx_err p.world) [
    | some e ↦ record p { err = some e }
    | none ↦ publish_all topic_of more (publish_entry topic_of name v p)
  ]

  -- One register of publishWriteRegisterState
  unfoldable pub publish_write_state : Values → WriteRegister → W → W
  publish_write_state values reg w =
      if is_empty reg.state_from || is_empty reg.topic
      then w
      else (elim (lookup reg.state_from values) [
        | none ↦ w
        | some source ↦
            if not source.valid then w else (d.publisher.publish reg.topic source.value w).0
      ])

  -- publishWriteRegisterState
  unfoldable pub publish_write_states : Values → List WriteRegister → W → W
  unfolding publish_write_state
  publish_write_states values [] w = w
  publish_write_states values (reg ∷ regs) w = elim (d.clock.ctx_err w) [
    | some e ↦ w
    | none ↦ publish_write_states values regs (publish_write_state values reg w)
  ]

-- `topics[name]` of PublishAll in reader.go
unfoldable pub topic_in : {F : Type 0} → List (ReadRegister F) → Bytes → Option Bytes
topic_in registers name = elim (find_register name registers) [
  | none ↦ none
  | some reg ↦ some reg.topic
]

module _ {W F : Type 0} (d : Device W) (fl : Floats F) (visit : W → Values → Values)
    (p : Poller F) where
  -- The end of RunCycle: the derived values.
  unfoldable pub publish_derived : Option (List DerivedRegister) → Values → W → W
  publish_derived none values w = w
  publish_derived (some registers) values w =
      let start : Publishing W = record { world = w; err = none } in
      (publish_all d (λ name. find_topic name registers) (visit w (calculate fl registers values))
        start).world

  -- `if preempted() { return cycleCtx.Err() }`, with what the rest of the cycle returns
  unfoldable pub unless_preempted : W → W × Option Err → W × Option Err
  unless_preempted w rest = elim (d.clock.ctx_err w) [ some e ↦ (w, some e) | none ↦ rest ]

  -- RunCycle behind ReadAll: `w₁` is the world behind the registers' values, `w₂` behind the states of
  -- the write registers, `w₃` behind the derived values.
  unfoldable pub publish_cycle : Values → W → W × Option Err
  unfolding publish_derived unless_preempted
  publish_cycle values w =
      let start : Publishing W = record { world = w; err = none } in
      let w₁ = (publish_all d (topic_in p.reader.registers) (visit w values) start).world in
      let w₂ = publish_write_states d values p.write_registers w₁ in
      let w₃ = publish_derived p.derived values w₂ in
      unless_preempted w
        (unless_preempted w₁ (unless_preempted w₂ (unless_preempted w₃ (w₃, none))))

  -- RunCycle behind TryBeginCycle, in the context of the cycle
  unfoldable pub cycle_body : Map F → W → W × Map F × Option Err
  unfolding read_all publish_cycle
  cycle_body trusted w =
      let r = read_all d fl p.reader trusted w in
      elim r.err [
        | some e ↦ (r.world, r.trusted, some e)
        | none ↦ let (w₁, e) = publish_cycle r.values r.world in (w₁, r.trusted, e)
      ]

-- RunCycle up to TryBeginCycle, with the gate behind it: a cycle that is skipped, or the id of the
-- cycle whose body runs and that is ended by end_cycle.
unfoldable pub begin_run : {W : Type 0} → Device W → ReadGate → W → ReadGate × Result ℕ
begin_run d gate w =
    if not (d.dev.is_healthy w)
    then (gate, err cycle_skipped)
    else (let (gate₁, id) = try_begin_cycle (d.clock.now w) gate in
        (gate₁, elim id [ none ↦ err cycle_skipped | some n ↦ ok n ]))
