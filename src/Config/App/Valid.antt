-- ===== src/Config/App/Valid.antt =====
-- internal/config/config.go: which application configurations Validate accepts.
use aerosmart_gateway.Base.{
  ℕ, ◌-◌, ◌≡◌, ◌≢◌, refl, ◌↔◌, ◌⊎◌, inl, inr, Bool, true, false, ◌&&◌, ◌||◌, not, Option, none,
  some, List, [], ◌∷◌, map, Bytes, codes, eq_bytes, is_empty, if◌then◌else◌, leb, All, arith,
  Bool-cases,
}
use aerosmart_gateway.Base.Int.{ℤ, pos, ltb_ℤ, leb_ℤ, eq_ℤ, ◌≤ℤ◌}
use aerosmart_gateway.Serial.Errors.{Err, invalid_config, wrap}
use aerosmart_gateway.Config.App.{
  AppConfig, Problem, parity, byte_size, stop_bits, retries, read_interval, broker, qos, negative,
  reopen_backoffs, connect_delays, jitter, logging, complain,
}

-- strings.ToUpper, which makes no other letter an ASCII one
unfoldable pub to_upper : Bytes → Bytes
to_upper s = map (λ (c : ℕ). if leb b'a' c && leb c b'z' then c - 32 else c) s

unfoldable pub is_parity : Bytes → Bool
unfolding to_upper
is_parity s =
    eq_bytes (to_upper s) (codes "N")
    || eq_bytes (to_upper s) (codes "O")
    || eq_bytes (to_upper s) (codes "E")

-- The settings that must not be negative, with their keys.
abbrev pub durations : AppConfig → List (Bytes × ℤ)
durations c =
    (codes "serial.read_timeout", c.serial.read_timeout)
    ∷ (codes "serial.response_timeout", c.serial.response_timeout)
    ∷ (codes "serial.retry_backoff", c.serial.retry_backoff)
    ∷ (codes "serial.reopen_backoff", c.serial.reopen_backoff)
    ∷ (codes "serial.reopen_max_backoff", c.serial.reopen_max_backoff)
    ∷ (codes "serial.health_check_interval", c.serial.health_check_interval)
    ∷ (codes "serial.write_priority_timeout", c.serial.write_priority_timeout)
    ∷ (codes "serial.write_settle_delay", c.serial.write_settle_delay)
    ∷ (codes "serial.write_resettle_delay", c.serial.write_resettle_delay)
    ∷ (codes "serial.bus_quiet_gap", c.serial.bus_quiet_gap)
    ∷ (codes "serial.bus_quiet_max_wait", c.serial.bus_quiet_max_wait)
    ∷ (codes "mqtt.op_timeout", c.mqtt.op_timeout)
    ∷ (codes "mqtt.connect_retry_initial_delay_ms", c.mqtt.connect_retry_initial_delay_ms)
    ∷ (codes "mqtt.connect_retry_max_delay_ms", c.mqtt.connect_retry_max_delay_ms)
    ∷ (codes "ha_discovery.expire_after", c.discovery.expire_after)
    ∷ []

unfoldable pub check_durations : List (Bytes × ℤ) → List Problem → List Problem
check_durations [] problems = problems
check_durations ((key, value) ∷ more) problems =
    complain (ltb_ℤ value (pos 0)) (negative key) (check_durations more problems)

-- The problems behind those of the durations, and all that Validate lists
unfoldable pub late_problems : AppConfig → List Problem
late_problems c =
    complain (ltb_ℤ c.serial.reopen_max_backoff c.serial.reopen_backoff) reopen_backoffs (
      complain (ltb_ℤ c.mqtt.connect_retry_max_delay_ms c.mqtt.connect_retry_initial_delay_ms)
        connect_delays
        (complain
          (ltb_ℤ c.mqtt.connect_retry_jitter_percent (pos 0)
            || ltb_ℤ (pos 100) c.mqtt.connect_retry_jitter_percent)
          jitter
          (complain (not c.logging.console_logging && not c.logging.file_logging) logging [])))

unfoldable pub problems : AppConfig → List Problem
problems c = complain (not (is_parity c.serial.parity)) parity (
    complain (ltb_ℤ c.serial.byte_size (pos 5) || ltb_ℤ (pos 8) c.serial.byte_size) byte_size (
      complain (not (eq_ℤ c.serial.stop_bits (pos 1)) && not (eq_ℤ c.serial.stop_bits (pos 2)))
        stop_bits
        (complain (ltb_ℤ c.serial.retries (pos 1)) retries (
          complain (leb_ℤ c.read_interval (pos 0)) read_interval (
            complain (is_empty c.mqtt.broker) broker (
              complain (ltb_ℤ c.mqtt.qos (pos 0) || ltb_ℤ (pos 2) c.mqtt.qos) qos
                (check_durations (durations c) (late_problems c))))))))

-- Validate
unfoldable pub validate : AppConfig → Option Err
unfolding problems
validate c = if is_empty (problems c) then none else some (wrap invalid_config)

-- N, O or E, in either case
abbrev pub IsParity : Bytes → Type 0
IsParity s =
    (s ≡ codes "N")
    ⊎ ((s ≡ codes "O")
        ⊎ ((s ≡ codes "E") ⊎ ((s ≡ codes "n") ⊎ ((s ≡ codes "o") ⊎ (s ≡ codes "e")))))

-- What the program needs of its configuration.
pub record IsWorkable (c : AppConfig) : Type 0 where
  pub parity : IsParity c.serial.parity
  pub byte_size : (pos 5 ≤ℤ c.serial.byte_size) × (c.serial.byte_size ≤ℤ pos 8)
  pub stop_bits : (c.serial.stop_bits ≡ pos 1) ⊎ (c.serial.stop_bits ≡ pos 2)
  pub retries : pos 1 ≤ℤ c.serial.retries
  pub read_interval : pos 1 ≤ℤ c.read_interval
  pub broker : c.mqtt.broker ≢ []
  pub qos : (pos 0 ≤ℤ c.mqtt.qos) × (c.mqtt.qos ≤ℤ pos 2)
  pub durations : All (λ (d : Bytes × ℤ). pos 0 ≤ℤ d.1) (durations c)
  pub reopen_backoffs : c.serial.reopen_backoff ≤ℤ c.serial.reopen_max_backoff
  pub connect_delays : c.mqtt.connect_retry_initial_delay_ms ≤ℤ c.mqtt.connect_retry_max_delay_ms
  pub jitter :
      (pos 0 ≤ℤ c.mqtt.connect_retry_jitter_percent)
      × (c.mqtt.connect_retry_jitter_percent ≤ℤ pos 100)
  pub logged : (c.logging.console_logging ≡ true) ⊎ (c.logging.file_logging ≡ true)

complain-nil :
    (bad : Bool) (p : Problem) (ps : List Problem)
    → (complain bad p ps ≡ []) ↔ ((bad ≡ false) × (ps ≡ []))
unfolding complain
complain-nil true p ps = ((λ e. cc), (λ e. cc))
complain-nil false p ps = ((λ e. (refl, e)), (λ e. e.1))

check_durations-nil :
    (l : List (Bytes × ℤ)) (ps : List Problem)
    → (check_durations l ps ≡ []) ↔ (All (λ (d : Bytes × ℤ). pos 0 ≤ℤ d.1) l × (ps ≡ []))
unfolding check_durations
check_durations-nil [] ps = ((λ e. (tt, e)), (λ e. e.1))
check_durations-nil ((k, v) ∷ l) ps =
    let here = complain-nil (ltb_ℤ v (pos 0)) (negative k) (check_durations l ps) in
    let there = check_durations-nil l ps in
    (
      (λ e.
          let (good, rest) = here.0 e in
          let (all, nil) = there.0 rest in ((ground arith, all), nil)),
      (λ e. here.1 (ground arith, there.1 (e.0.1, e.1))),
    )

is_parity-of : (s : Bytes) → is_parity s ≡ true → IsParity s
unfolding is_parity eq_bytes
is_parity-of [] h = cc
is_parity-of (c ∷ []) h =
    let by_code : (c ≡ 78) ⊎ ((c ≡ 79) ⊎ ((c ≡ 69) ⊎ ((c ≡ 110) ⊎ ((c ≡ 111) ⊎ (c ≡ 101))))) =
      ground arith in
    ground arith
is_parity-of (c ∷ d ∷ s) h = absurd (ground arith)

IsParity-is_parity : (s : Bytes) → IsParity s → is_parity s ≡ true
unfolding is_parity eq_bytes
IsParity-is_parity s (inl e) = rw e refl
IsParity-is_parity s (inr (inl e)) = rw e refl
IsParity-is_parity s (inr (inr (inl e))) = rw e refl
IsParity-is_parity s (inr (inr (inr (inl e)))) = rw e refl
IsParity-is_parity s (inr (inr (inr (inr (inl e))))) = rw e refl
IsParity-is_parity s (inr (inr (inr (inr (inr e))))) = rw e refl

problems-IsWorkable : (c : AppConfig) → problems c ≡ [] → IsWorkable c
unfolding problems late_problems
problems-IsWorkable c e =
    let (a, e₁) = (complain-nil _ _ _).0 e in
    let (b, e₂) = (complain-nil _ _ _).0 e₁ in
    let (s, e₃) = (complain-nil _ _ _).0 e₂ in
    let (r, e₄) = (complain-nil _ _ _).0 e₃ in
    let (i, e₅) = (complain-nil _ _ _).0 e₄ in
    let (m, e₆) = (complain-nil _ _ _).0 e₅ in
    let (q, e₇) = (complain-nil _ _ _).0 e₆ in
    let (d, e₈) = (check_durations-nil (durations c) (late_problems c)).0 e₇ in
    let (o, e₉) = (complain-nil _ _ _).0 e₈ in
    let (n, e₁₀) = (complain-nil _ _ _).0 e₉ in
    let (j, e₁₁) = (complain-nil _ _ _).0 e₁₀ in
    let (l, e₁₂) = (complain-nil _ _ _).0 e₁₁ in
    record {
      parity = is_parity-of c.serial.parity (ground arith);
      byte_size = (ground arith, ground arith);
      stop_bits = ground arith;
      retries = ground arith;
      read_interval = ground arith;
      broker = λ z. ground arith;
      qos = (ground arith, ground arith);
      durations = d;
      reopen_backoffs = ground arith;
      connect_delays = ground arith;
      jitter = (ground arith, ground arith);
      logged = ground arith;
    }

IsWorkable-problems : (c : AppConfig) → IsWorkable c → problems c ≡ []
unfolding problems late_problems
IsWorkable-problems c h =
    let late : late_problems c ≡ [] = (complain-nil _ _ _).1 (
      ground arith,
      (complain-nil _ _ _).1 (
        ground arith,
        (complain-nil _ _ _).1 (ground arith, (complain-nil _ _ _).1 (ground arith, refl)),
      ),
    ) in
    (complain-nil _ _ _).1 (
      rw (IsParity-is_parity c.serial.parity h.parity) refl,
      (complain-nil _ _ _).1 (
        ground arith,
        (complain-nil _ _ _).1 (
          ground arith,
          (complain-nil _ _ _).1 (
            ground arith,
            (complain-nil _ _ _).1 (
              ground arith,
              (complain-nil _ _ _).1 (
                nonempty c.mqtt.broker h.broker,
                (complain-nil _ _ _).1 (
                  ground arith,
                  (check_durations-nil (durations c) (late_problems c)).1 (h.durations, late),
                ),
              ),
            ),
          ),
        ),
      ),
    )
  where
    nonempty : (s : Bytes) → s ≢ [] → is_empty s ≡ false
    nonempty [] n = absurd (n refl)
    nonempty (x ∷ s) n = refl

-- Validate accepts exactly the configurations that the program can work with: a parity of N, O or E,
-- 5 to 8 data bits, one or two stop bits, at least one attempt, a positive read interval, a broker, a
-- known QoS, no negative duration, backoff limits at or above the first backoff, a jitter in percent,
-- and somewhere to log to. It refuses any other with ErrInvalidConfig.
pub validate-IsWorkable :
    (c : AppConfig)
    → ((validate c ≡ none) ↔ IsWorkable c)
      × ((validate c ≡ none) ⊎ (validate c ≡ some (wrap invalid_config)))
unfolding validate
validate-IsWorkable c = (
  ((λ e. problems-IsWorkable c (ground arith)), (λ h. rw (IsWorkable-problems c h, validate) refl)),
  elim (Bool-cases (is_empty (problems c))) [ inl e ↦ inl (rw e refl) | inr e ↦ inr (rw e refl) ],
)
