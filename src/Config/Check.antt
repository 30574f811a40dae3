-- ===== src/Config/Check.antt =====
-- internal/config/config.go: RegistersConfig.Validate. The maps that collect names are lists of them.
pub mod Accepted
pub mod Names
use aerosmart_gateway.Base.{
  Bool, true, false, ◌&&◌, ◌||◌, not, Option, none, some, List, [], ◌∷◌, ◌++◌, Bytes, codes,
  eq_bytes, is_empty, if◌then◌else◌, is_some,
}
use aerosmart_gateway.Base.Int.{ℤ, pos, ltb_ℤ, eq_ℤ}
use aerosmart_gateway.Base.Float.{Floats}
use aerosmart_gateway.Base.Text.{strip_prefix}
use aerosmart_gateway.Config.Types.{ReadRegister, WriteRegister, DerivedRegister, Registers}
use aerosmart_gateway.Serial.Errors.{Err, invalid_config, wrap}

pub data Problem : Type 0 where
  no_name duplicate_name no_command no_topic range negative_step zero_range : Problem
  no_placeholder no_subscribe_topic topic_clash unknown_state command_topic : Problem
  unknown_verify unknown_source : Bytes → Problem

-- `names[name]`
unfoldable pub knows : List Bytes → Bytes → Bool
knows [] name = false
knows (x ∷ xs) name = eq_bytes x name || knows xs name

-- strings.Contains, for a text that is not empty
unfoldable pub contains : Bytes → Bytes → Bool
contains [] part = false
contains (c ∷ s) part = is_some (strip_prefix part (c ∷ s)) || contains s part

-- `if bad { problems = append(problems, ...) }`
unfoldable pub complain : Bool → Problem → List Problem → List Problem
complain bad problem problems = if bad then problem ∷ problems else problems

-- One problem for each name that is not among `names`.
unfoldable pub unknown : (Bytes → Problem) → List Bytes → List Bytes → List Problem → List Problem
unknown problem names [] rest = rest
unknown problem names (x ∷ xs) rest =
    complain (not (knows names x)) (problem x) (unknown problem names xs rest)

module _ {F : Type 0} (fl : Floats F) where
  -- The checks of a read register that has a name of its own, in front of those that follow
  unfoldable pub read_problems : ReadRegister F → List Problem → List Problem
  read_problems reg rest = complain (is_empty reg.command) no_command (
      complain (is_empty reg.topic) no_topic (
        complain (ltb_ℤ reg.max_value reg.min_value) range (
          complain (fl.lt reg.confirm_step (fl.of_int (pos 0))) negative_step
            (complain (eq_ℤ reg.min_value (pos 0) && eq_ℤ reg.max_value (pos 0)) zero_range rest))))

  -- The first loop; `names` are those of the registers before.
  unfoldable pub check_reads : List Bytes → List (ReadRegister F) → List Problem → List Problem
  unfolding read_problems
  check_reads names [] rest = rest
  check_reads names (reg ∷ regs) rest =
      let old = is_empty reg.name || knows names reg.name in
      let more = check_reads (if old then names else reg.name ∷ names) regs rest in
      if is_empty reg.name
      then no_name ∷ more
      else if knows names reg.name
      then duplicate_name ∷ more
      else read_problems reg more

-- `readNames` behind the first loop
unfoldable pub read_names : {F : Type 0} → List Bytes → List (ReadRegister F) → List Bytes
unfolding knows
read_names names [] = names
read_names names (reg ∷ regs) =
    read_names (if is_empty reg.name || knows names reg.name then names else reg.name ∷ names) regs

-- The checks of a write register that has a name of its own
unfoldable pub write_problems :
    List Bytes → List Bytes → WriteRegister → List Problem → List Problem
write_problems reads topics reg rest =
    complain (not (contains reg.command_template (codes "{value}"))) no_placeholder (
      complain (is_empty reg.subscribe_topic) no_subscribe_topic (
        complain (not (is_empty reg.subscribe_topic) && knows topics reg.subscribe_topic)
          topic_clash
          (complain (ltb_ℤ reg.max_value reg.min_value) range (
            unknown unknown_verify reads reg.verify_registers (
              complain (not (is_empty reg.state_from) && not (knows reads reg.state_from))
                unknown_state
                (complain
                  (not (is_empty reg.ha_command_topic)
                    && not (eq_bytes reg.ha_command_topic reg.subscribe_topic))
                  command_topic rest))))))

-- The second loop; a topic is noted once, by the first register that subscribes to it.
unfoldable pub check_writes :
    List Bytes → List Bytes → List Bytes → List WriteRegister → List Problem → List Problem
unfolding write_problems
check_writes reads names topics [] rest = rest
check_writes reads names topics (reg ∷ regs) rest =
    let old = is_empty reg.name || knows names reg.name in
    let noted = old || is_empty reg.subscribe_topic || knows topics reg.subscribe_topic in
    let more =
      check_writes reads (if old then names else reg.name ∷ names)
        (if noted then topics else reg.subscribe_topic ∷ topics) regs rest in
    if is_empty reg.name
    then no_name ∷ more
    else if knows names reg.name
    then duplicate_name ∷ more
    else write_problems reads topics reg more

-- The third loop
unfoldable pub check_derived : List Bytes → List Bytes → List DerivedRegister → List Problem
check_derived reads names [] = []
check_derived reads names (reg ∷ regs) =
    let more =
      check_derived reads (if knows names reg.name then names else reg.name ∷ names) regs in
    if knows names reg.name
    then duplicate_name ∷ more
    else complain (is_empty reg.topic) no_topic (unknown unknown_source reads reg.sources more)

-- Validate
unfoldable pub validate : {F : Type 0} → Floats F → Registers F → Option Err
unfolding check_reads check_writes check_derived
validate fl c =
    let reads = read_names [] c.read_registers in
    let problems =
      check_reads fl [] c.read_registers
        (check_writes reads [] [] c.write_registers (check_derived reads [] c.derived_registers)) in
    if is_empty problems then none else some (wrap invalid_config)
