-- ===== src/Config/Check/Accepted.antt =====
-- What the registers that RegistersConfig.Validate accepts promise to internal/registers.
use aerosmart_gateway.Base.{
  ◌≡◌, refl, sym, ◌⊎◌, inl, inr, Bool, true, false, ◌&&◌, ◌||◌, not, none, some, List, [], ◌∷◌,
  Bytes, codes, eq_bytes, eq_bytes_refl, eq_bytes_iff, is_empty, if◌then◌else◌, All, arith,
  Bool-cases, Option-cases,
}
use aerosmart_gateway.Base.Int.{◌≤ℤ◌}
use aerosmart_gateway.Base.Float.{Floats}
use aerosmart_gateway.Config.Types.{ReadRegister, WriteRegister, Registers}
use aerosmart_gateway.Config.Check.{
  Problem, no_name, duplicate_name, knows, contains, complain, unknown, read_problems, check_reads,
  read_names, write_problems, check_writes, validate,
}
use aerosmart_gateway.Serial.Errors.{invalid_config, wrap}
use aerosmart_gateway.Registers.Reader.{find_register}
use aerosmart_gateway.Registers.Writer.{find_topic}

pub complain-nil :
    (bad : Bool) (p : Problem) (ps : List Problem)
    → complain bad p ps ≡ []
    → (bad ≡ false) × (ps ≡ [])
unfolding complain
complain-nil true p ps e = cc
complain-nil false p ps e = (refl, e)

pub unknown-nil :
    (p : Bytes → Problem) (names xs : List Bytes) (rest : List Problem)
    → unknown p names xs rest ≡ []
    → All (λ x. knows names x ≡ true) xs × (rest ≡ [])
unfolding unknown
unknown-nil p names [] rest e = (tt, e)
unknown-nil p names (x ∷ xs) rest e =
    let (known, more) = complain-nil _ _ _ e in
    let (all, nil) = unknown-nil p names xs rest more in ((ground arith, all), nil)

pub eq_bytes_sym : (x y : Bytes) → eq_bytes x y ≡ true → eq_bytes y x ≡ true
eq_bytes_sym x y h = (eq_bytes_iff y x).1 (sym ((eq_bytes_iff x y).0 h))

-- A name that was collected is that of a register.
read_names-find :
    {F : Type 0} (names : List Bytes) (regs : List (ReadRegister F)) (x : Bytes)
    → knows (read_names names regs) x ≡ true
    → (knows names x ≡ true) ⊎ ((reg : ReadRegister F) × (find_register x regs ≡ some reg))
unfolding read_names find_register knows
read_names-find names [] x e = inl e
read_names-find names (reg ∷ regs) x e =
    elim (read_names-find
      (if is_empty reg.name || knows names reg.name then names else reg.name ∷ names) regs x e) [
        | inr (r, found) ↦ inr (r, rw found refl)
        | inl known ↦ elim (Option-cases (find_register x regs)) [
          | inr (r, found) ↦ inr (r, rw found refl)
          | inl missing ↦ elim (Bool-cases (eq_bytes reg.name x)) [
            | inl same ↦ inr (reg, rw (missing, same) refl)
            | inr differs ↦ inl (ground arith)
          ]
        ]
      ]

-- What is left of the checks when a write register has none of the problems.
abbrev IsSound : List Bytes → WriteRegister → Type 0
IsSound reads reg =
    (contains reg.command_template (codes "{value}") ≡ true)
    × (is_empty reg.subscribe_topic ≡ false)
    × (reg.min_value ≤ℤ reg.max_value)
    × All (λ x. knows reads x ≡ true) reg.verify_registers
    × ((reg.state_from ≡ []) ⊎ (knows reads reg.state_from ≡ true))

pub write_problems-nil :
    (reads topics : List Bytes) (reg : WriteRegister) (rest : List Problem)
    → write_problems reads topics reg rest ≡ []
    → IsSound reads reg × (knows topics reg.subscribe_topic ≡ false) × (rest ≡ [])
unfolding write_problems
write_problems-nil reads topics reg rest e =
    let (a, e₁) = complain-nil _ _ _ e in
    let (b, e₂) = complain-nil _ _ _ e₁ in
    let (c, e₃) = complain-nil _ _ _ e₂ in
    let (r, e₄) = complain-nil _ _ _ e₃ in
    let (v, e₅) = unknown-nil _ reads reg.verify_registers _ e₄ in
    let (s, e₆) = complain-nil _ _ _ e₅ in
    let (t, e₇) = complain-nil _ _ _ e₆ in
    ((ground arith, b, ground arith, v, state reg.state_from s), ground arith, e₇)
  where
    state :
        (x : Bytes)
        → (not (is_empty x) && not (knows reads x)) ≡ false
        → (x ≡ []) ⊎ (knows reads x ≡ true)
    state [] h = inl refl
    state (y ∷ x) h = inr (ground arith)

find_topic-fresh :
    (topics : List Bytes) (t : Bytes) (regs : List WriteRegister)
    → All (λ r. knows (t ∷ topics) r.subscribe_topic ≡ false) regs
    → (All (λ r. knows topics r.subscribe_topic ≡ false) regs) × (find_topic t regs ≡ none)
unfolding find_topic knows
find_topic-fresh topics t [] h = (tt, refl)
find_topic-fresh topics t (r ∷ regs) (h, hs) =
    let (fresh, none_later) = find_topic-fresh topics t regs hs in
    let flip = eq_bytes_sym r.subscribe_topic t in
    ((ground arith, fresh), rw none_later (ground (arith, flip)))

-- A register behind another one is still the one that is found.
find_topic-later :
    (reg : WriteRegister) (all regs : List WriteRegister)
    → All (λ r. find_topic r.subscribe_topic all ≡ some r) regs
    → All (λ r. find_topic r.subscribe_topic (reg ∷ all) ≡ some r) regs
unfolding find_topic
find_topic-later reg all [] h = tt
find_topic-later reg all (r ∷ regs) (h, hs) = (rw h refl, find_topic-later reg all regs hs)

-- The topics that are noted behind a register that is new in all respects.
topics_of :
    (noted : Bool) (topics : List Bytes) (t : Bytes) (regs : List WriteRegister)
    → noted ≡ false
    → All (λ r. knows (if noted then topics else t ∷ topics) r.subscribe_topic ≡ false) regs
    → All (λ r. knows (t ∷ topics) r.subscribe_topic ≡ false) regs
topics_of true topics t regs e h = cc
topics_of false topics t regs e h = h

pub name-nil :
    (unnamed taken : Bool) (p q : Problem) (more checked : List Problem)
    → (if unnamed then p ∷ more else if taken then q ∷ more else checked) ≡ []
    → (unnamed ≡ false) × (taken ≡ false) × (checked ≡ [])
name-nil true taken p q more checked e = cc
name-nil false true p q more checked e = cc
name-nil false false p q more checked e = (refl, refl, e)

pub check_writes-nil :
    (reads names topics : List Bytes) (regs : List WriteRegister) (rest : List Problem)
    → check_writes reads names topics regs rest ≡ []
    → All (IsSound reads) regs
      × All (λ r. knows topics r.subscribe_topic ≡ false) regs
      × All (λ r. find_topic r.subscribe_topic regs ≡ some r) regs
unfolding check_writes find_topic
check_writes-nil reads names topics [] rest e = (tt, tt, tt)
check_writes-nil reads names topics (reg ∷ regs) rest e =
    let seen = if is_empty reg.name || knows names reg.name then names else reg.name ∷ names in
    let noted =
      (is_empty reg.name || knows names reg.name)
      || is_empty reg.subscribe_topic
      || knows topics reg.subscribe_topic in
    let then_topics = if noted then topics else reg.subscribe_topic ∷ topics in
    let later = check_writes reads seen then_topics regs rest in
    let (named, new, checked) =
      name-nil (is_empty reg.name) (knows names reg.name) no_name duplicate_name later
        (write_problems reads topics reg later) e in
    let ((template, subscribed, order, verified, state), fresh, more) =
      write_problems-nil reads topics reg later checked in
    let (all, apart, found) = check_writes-nil reads seen then_topics regs rest more in
    let is_new : noted ≡ false = rw (named, new, subscribed, fresh) refl in
    let kept = topics_of noted topics reg.subscribe_topic regs is_new apart in
    let (before, last) = find_topic-fresh topics reg.subscribe_topic regs kept in
    (
      ((template, subscribed, order, verified, state), all),
      (fresh, before),
      (
        rw (last, subscribed, eq_bytes_refl reg.subscribe_topic) refl,
        find_topic-later reg regs regs found,
      ),
    )

module _ {F : Type 0} (fl : Floats F) where
  pub read_problems-nil :
      (reg : ReadRegister F) (rest : List Problem) → read_problems fl reg rest ≡ [] → rest ≡ []
  unfolding read_problems
  read_problems-nil reg rest e =
      let (a, e₁) = complain-nil _ _ _ e in
      let (b, e₂) = complain-nil _ _ _ e₁ in
      let (r, e₃) = complain-nil _ _ _ e₂ in
      let (s, e₄) = complain-nil _ _ _ e₃ in let (z, e₅) = complain-nil _ _ _ e₄ in e₅

  pub check_reads-nil :
      (names : List Bytes) (regs : List (ReadRegister F)) (rest : List Problem)
      → check_reads fl names regs rest ≡ []
      → rest ≡ []
  unfolding check_reads
  check_reads-nil names [] rest e = e
  check_reads-nil names (reg ∷ regs) rest e =
      let seen = if is_empty reg.name || knows names reg.name then names else reg.name ∷ names in
      let more = check_reads fl seen regs rest in
      let (named, new, checked) =
        name-nil (is_empty reg.name) (knows names reg.name) no_name duplicate_name more
          (read_problems fl reg more) e in
      check_reads-nil seen regs rest (read_problems-nil reg more checked)

-- `name` is the name of a read register.
abbrev pub IsRead : {F : Type 0} → Registers F → Bytes → Type 0
IsRead {F = F} c name = (reg : ReadRegister F) × (find_register name c.read_registers ≡ some reg)

-- A write register that the service can serve
pub IsServed : {F : Type 0} → Registers F → WriteRegister → Type 0
IsServed c reg =
    (contains reg.command_template (codes "{value}") ≡ true)
    × (find_topic reg.subscribe_topic c.write_registers ≡ some reg)
    × (reg.min_value ≤ℤ reg.max_value)
    × All (IsRead c) reg.verify_registers
    × ((reg.state_from ≡ []) ⊎ IsRead c reg.state_from)

module _ {F : Type 0} (c : Registers F) where
  knows-IsRead : (x : Bytes) → knows (read_names [] c.read_registers) x ≡ true → IsRead c x
  unfolding knows
  knows-IsRead x e = elim (read_names-find [] c.read_registers x e) [
    | inl h ↦ cc
    | inr found ↦ found
  ]

  verified-IsRead :
      (xs : List Bytes)
      → All (λ x. knows (read_names [] c.read_registers) x ≡ true) xs
      → All (IsRead c) xs
  verified-IsRead [] h = tt
  verified-IsRead (x ∷ xs) (h, hs) = (knows-IsRead x h, verified-IsRead xs hs)

  IsSound-IsServed :
      (regs : List WriteRegister)
      → All (IsSound (read_names [] c.read_registers)) regs
      → All (λ r. find_topic r.subscribe_topic c.write_registers ≡ some r) regs
      → All (IsServed c) regs
  unfolding IsServed
  IsSound-IsServed [] h found = tt
  IsSound-IsServed (reg ∷ regs) ((template, subscribed, order, verified, state), hs)
        (found, founds) =
      (
        (
          template,
          found,
          order,
          verified-IsRead reg.verify_registers verified,
          elim state [
            | inl none_set ↦ inl none_set
            | inr known ↦ inr (knows-IsRead reg.state_from known)
          ],
        ),
        IsSound-IsServed regs hs founds,
      )

pub none-nil :
    (ps : List Problem)
    → (if is_empty ps then none else some (wrap invalid_config)) ≡ none
    → ps ≡ []
none-nil [] h = refl
none-nil (p ∷ ps) h = cc

-- If RegistersConfig.Validate accepts a configuration, the template of every write register has the
-- placeholder `{value}`, the service finds that register, and no other, by its subscribe topic, its
-- bounds are in order, and its verify registers and its state register, if it names one, are read
-- registers.
pub validate-IsServed :
    {F : Type 0} (fl : Floats F) (c : Registers F)
    → validate fl c ≡ none
    → All (IsServed c) c.write_registers
unfolding validate
validate-IsServed fl c e =
    let reads = read_names [] c.read_registers in
    let nothing = check_reads-nil fl [] c.read_registers _ (none-nil _ e) in
    let (sound, fresh, found) = check_writes-nil reads [] [] c.write_registers _ nothing in
    IsSound-IsServed c c.write_registers sound found
