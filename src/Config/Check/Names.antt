-- ===== src/Config/Check/Names.antt =====
-- That RegistersConfig.Validate of internal/config/config.go accepts no name twice in one section.
use aerosmart_gateway.Base.{
  ◌≡◌, refl, sym, ◌∙◌, inl, inr, Bool, true, false, ◌||◌, none, List, [], ◌∷◌, Bytes, eq_bytes,
  is_empty, if◌then◌else◌, All, All-map, arith, Bool-cases,
}
use aerosmart_gateway.Base.Float.{Floats}
use aerosmart_gateway.Config.Types.{ReadRegister, WriteRegister, DerivedRegister, Registers}
use aerosmart_gateway.Config.Check.{
  Problem, no_name, duplicate_name, knows, read_problems, check_reads, read_names, write_problems,
  check_writes, check_derived, complain, unknown, unknown_source, no_topic, validate,
}
use aerosmart_gateway.Config.Check.Accepted.{
  complain-nil, unknown-nil, write_problems-nil, name-nil, eq_bytes_sym, read_problems-nil,
  check_reads-nil, none-nil,
}

-- No register has the name of one behind it.
abbrev pub AreDistinct : {R : Type 0} → (R → Bytes) → List R → Type 0
AreDistinct name [] = Unit
AreDistinct name (reg ∷ regs) =
    All (λ later. eq_bytes (name later) (name reg) ≡ false) regs × AreDistinct name regs

-- None of the registers has one of the names.
abbrev AreNew : {R : Type 0} → (R → Bytes) → List Bytes → List R → Type 0
AreNew name names regs = All (λ reg. knows names (name reg) ≡ false) regs

eq_bytes_ne_sym : (x y : Bytes) → eq_bytes x y ≡ false → eq_bytes y x ≡ false
eq_bytes_ne_sym x y h = elim (Bool-cases (eq_bytes y x)) [
  | inr apart ↦ apart
  | inl same ↦ let bad : true ≡ false = sym (eq_bytes_sym y x same) ∙ h in cc
]

-- What is new behind a register that has a new name
AreNew-cons :
    {R : Type 0} (name : R → Bytes) (n : Bytes) (names : List Bytes) (regs : List R)
    → AreNew name (n ∷ names) regs
    → All (λ later. eq_bytes (name later) n ≡ false) regs × AreNew name names regs
unfolding knows
AreNew-cons name n names regs h = (
  All-map (λ reg e. eq_bytes_ne_sym n (name reg) (ground arith)) regs h,
  All-map (λ reg e. ground arith) regs h,
)

-- The names that are known behind a register whose name is new
new_names :
    {R : Type 0} (name : R → Bytes) (old : Bool) (n : Bytes) (names : List Bytes) (regs : List R)
    → old ≡ false
    → AreNew name (if old then names else n ∷ names) regs
    → AreNew name (n ∷ names) regs
new_names name true n names regs e h = cc
new_names name false n names regs e h = h

check_reads-names :
    {F : Type 0} (fl : Floats F) (names : List Bytes) (regs : List (ReadRegister F))
    (rest : List Problem)
    → check_reads fl names regs rest ≡ []
    → AreNew (λ reg. reg.name) names regs × AreDistinct (λ reg. reg.name) regs
unfolding check_reads
check_reads-names fl names [] rest e = (tt, tt)
check_reads-names fl names (reg ∷ regs) rest e =
    let old = is_empty reg.name || knows names reg.name in
    let seen = if old then names else reg.name ∷ names in
    let more = check_reads fl seen regs rest in
    let (filled, new, checked) =
      name-nil (is_empty reg.name) (knows names reg.name) no_name duplicate_name more
        (read_problems fl reg more) e in
    let (later, distinct) =
      check_reads-names fl seen regs rest (read_problems-nil fl reg more checked) in
    let is_new : old ≡ false = rw (filled, new) refl in
    let (apart, fresh) =
      AreNew-cons (λ reg. reg.name) reg.name names regs
        (new_names (λ reg. reg.name) old reg.name names regs is_new later) in
    ((new, fresh), (apart, distinct))

check_writes-names :
    (reads names topics : List Bytes) (regs : List WriteRegister) (rest : List Problem)
    → check_writes reads names topics regs rest ≡ []
    → AreNew (λ reg. reg.name) names regs × AreDistinct (λ reg. reg.name) regs × (rest ≡ [])
unfolding check_writes
check_writes-names reads names topics [] rest e = (tt, tt, e)
check_writes-names reads names topics (reg ∷ regs) rest e =
    let old = is_empty reg.name || knows names reg.name in
    let seen = if old then names else reg.name ∷ names in
    let noted = old || is_empty reg.subscribe_topic || knows topics reg.subscribe_topic in
    let then_topics = if noted then topics else reg.subscribe_topic ∷ topics in
    let more = check_writes reads seen then_topics regs rest in
    let (filled, new, checked) =
      name-nil (is_empty reg.name) (knows names reg.name) no_name duplicate_name more
        (write_problems reads topics reg more) e in
    let (_, _, nothing) = write_problems-nil reads topics reg more checked in
    let (later, distinct, last) = check_writes-names reads seen then_topics regs rest nothing in
    let is_new : old ≡ false = rw (filled, new) refl in
    let (apart, fresh) =
      AreNew-cons (λ reg. reg.name) reg.name names regs
        (new_names (λ reg. reg.name) old reg.name names regs is_new later) in
    ((new, fresh), (apart, distinct), last)

taken-nil :
    (taken : Bool) (p : Problem) (more checked : List Problem)
    → (if taken then p ∷ more else checked) ≡ []
    → (taken ≡ false) × (checked ≡ [])
taken-nil true p more checked e = cc
taken-nil false p more checked e = (refl, e)

check_derived-names :
    (reads names : List Bytes) (regs : List DerivedRegister)
    → check_derived reads names regs ≡ []
    → AreNew (λ reg. reg.name) names regs × AreDistinct (λ reg. reg.name) regs
unfolding check_derived
check_derived-names reads names [] e = (tt, tt)
check_derived-names reads names (reg ∷ regs) e =
    let seen = if knows names reg.name then names else reg.name ∷ names in
    let more = check_derived reads seen regs in
    let (new, checked) =
      taken-nil (knows names reg.name) duplicate_name more
        (complain (is_empty reg.topic) no_topic (unknown unknown_source reads reg.sources more))
        e in
    let (_, e₁) = complain-nil _ _ _ checked in
    let (_, nothing) = unknown-nil _ reads reg.sources more e₁ in
    let (later, distinct) = check_derived-names reads seen regs nothing in
    let (apart, fresh) =
      AreNew-cons (λ reg. reg.name) reg.name names regs
        (new_names (λ reg. reg.name) (knows names reg.name) reg.name names regs new later) in
    ((new, fresh), (apart, distinct))

-- The names of a configuration that Validate accepts
pub validate-AreDistinct :
    {F : Type 0} (fl : Floats F) (c : Registers F)
    → validate fl c ≡ none
    → AreDistinct (λ reg. reg.name) c.read_registers
      × AreDistinct (λ reg. reg.name) c.write_registers
      × AreDistinct (λ reg. reg.name) c.derived_registers
unfolding validate
validate-AreDistinct fl c e =
    let reads = read_names [] c.read_registers in
    let nothing = none-nil _ e in
    let (_, distinct_r) = check_reads-names fl [] c.read_registers _ nothing in
    let (_, distinct_w, last) =
      check_writes-names reads [] [] c.write_registers _
        (check_reads-nil fl [] c.read_registers _ nothing) in
    let (_, distinct_d) = check_derived-names reads [] c.derived_registers last in
    (distinct_r, distinct_w, distinct_d)
