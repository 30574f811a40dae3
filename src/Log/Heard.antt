-- ===== src/Log/Heard.antt =====
-- That the logger of logger.go writes what it is asked to, whatever becomes of its file.
use aerosmart_gateway.Base.{
  ℕ, ◌<◌, ◌≤◌, ◌≡◌, refl, ap, ◌∙◌, ◌⊎◌, inl, inr, Bool, true, false, ◌&&◌, not, Option, none, some,
  List, [], ◌∷◌, ◌++◌, Bytes, codes, is_empty, eq_bytes, if◌then◌else◌, ltb, arith, Bool-cases,
  ◌||◌, is_some, subst, sym, append-nil,
}
use aerosmart_gateway.Config.App.{AppConfig, Logging, logging_defaults, apply_defaults}
use aerosmart_gateway.Config.App.Valid.{validate, validate-IsWorkable}
use aerosmart_gateway.Log.{
  Level, rank, level_of, LogConfig, Output, Logger, with_file, new_with_config, line_of, write_line,
  emit,
}

-- The logger's configuration, as run of cmd/main.go makes it
unfoldable pub log_config : AppConfig → LogConfig
log_config c = record {
  level = c.log_level;
  log_file = c.logging.log_file;
  file_logging = c.logging.file_logging;
  console_logging = c.logging.console_logging;
}

-- The loggers that NewWithConfig makes and Close leaves: each output is there exactly if it is switched
-- on.
abbrev pub sinks : Level → Bool → Option ℕ → Logger
sinks level console file = record {
  level = level;
  console_logger = console;
  file_logger = file;
  file_logging = is_some file;
  console_logging = console;
  file = file;
}

-- What a line becomes on the console, and in the open file
abbrev pub printed : Bool → Bytes → List Bytes
printed true line = line ∷ []
printed false line = []

abbrev pub stored : Option ℕ → Bytes → List (ℕ × Bytes)
stored none line = []
stored (some f) line = (f, line) ∷ []

asks_for_output :
    (c : AppConfig)
    → validate (apply_defaults c) ≡ none
    → let l = log_config (apply_defaults c) in
      (l.console_logging ≡ true) ⊎ ((l.file_logging ≡ true) × (is_empty l.log_file ≡ false))
unfolding log_config apply_defaults logging_defaults
asks_for_output c valid = elim ((validate-IsWorkable (apply_defaults c)).0.0 valid).logged [
  | inl on_console ↦ inl on_console
  | inr in_file ↦ inr (in_file, has_file c.logging in_file)
]
  where
    has_file :
        (l : Logging)
        → (logging_defaults l).file_logging ≡ true
        → is_empty (logging_defaults l).log_file ≡ false
    has_file l e = elim (Bool-cases (is_empty l.log_file)) [
      | inl empty ↦
          let bad : true ≡ false =
            sym e
            ∙ ap (λ b. if b || eq_bytes l.log_file (codes "-") then false else l.file_logging)
                empty in
          cc
      | inr filled ↦ filled
    ]

-- Some output is switched on.
abbrev pub HasOutput : Bool → Option ℕ → Type 0
HasOutput console file = (console ≡ true) ⊎ (is_some file ≡ true)

module _ {W : Type 0} (out : Output W) where
  -- The loggers of a config that asks for some output
  pub new_with_config-sinks :
      (c : LogConfig) (w : W)
      → (c.console_logging ≡ true) ⊎ ((c.file_logging ≡ true) × (is_empty c.log_file ≡ false))
      → (console : Bool) × (file : Option ℕ) × HasOutput console file
        × ((new_with_config out c w).0 ≡ sinks (level_of c.level) console file)
  unfolding new_with_config with_file level_of
  new_with_config-sinks c w asked = go (c.file_logging && not (is_empty c.log_file)) refl
    where
      on_console :
          (c.console_logging ≡ true) ⊎ ((c.file_logging ≡ true) × (is_empty c.log_file ≡ false))
          → (c.file_logging && not (is_empty c.log_file)) ≡ false
          → HasOutput c.console_logging none
      on_console (inl console_on) e = inl console_on
      on_console (inr (a, b)) e =
          let bad : true ≡ false =
            ap (λ x. x && not false) (sym a) ∙ ap (λ x. c.file_logging && not x) (sym b) ∙ e in
          cc

      go :
          (b : Bool)
          → (c.file_logging && not (is_empty c.log_file)) ≡ b
          → (console : Bool) × (file : Option ℕ) × HasOutput console file
            × ((if◌then◌else◌ {A = Logger × W} b
                  (let (w₁, opened) = out.open_file c.log_file w in
                    (
                      with_file out c opened,
                      elim opened [
                        | none ↦
                            out.print
                              (codes "[WARN] Could not open log file; logging to console instead")
                              w₁
                        | some f ↦ w₁
                      ],
                    ))
                  (sinks (level_of c.level) c.console_logging none, w)).0
                ≡ sinks (level_of c.level) console file)
      go false e = (c.console_logging, none, on_console asked e, refl)
      go true e = opened ((out.open_file c.log_file w).1)
        where
          opened :
              (o : Option ℕ)
              → (console : Bool) × (file : Option ℕ) × HasOutput console file
                × (with_file out c o ≡ sinks (level_of c.level) console file)
          opened none = (true, none, inl refl, refl)
          opened (some f) = (c.console_logging, some f, inr refl, refl)

module _ {W : Type 0} (out : Output W) (console : W → List Bytes)
    (written : W → List (ℕ × Bytes)) where
  -- `console` and `written` are the logs of what was printed, and of what was written to which file.
  pub record IsLogged : Type 0 where
    pub print_console : (s : Bytes) (w : W) → console (out.print s w) ≡ console w ++ s ∷ []
    pub print_written : (s : Bytes) (w : W) → written (out.print s w) ≡ written w
    pub append_console : (f : ℕ) (s : Bytes) (w : W) → console (out.append f s w) ≡ console w
    pub append_written :
        (f : ℕ) (s : Bytes) (w : W) → written (out.append f s w) ≡ written w ++ (f, s) ∷ []

  -- A message below the logger's level is dropped. Any other is a line on the console or in the open
  -- file, at least, and on each that is switched on.
  pub IsHeard : Logger → (level : Level) → Bytes → Bytes → W → Type 0
  IsHeard l level prefix text w =
      let w₁ = emit out level prefix text l w in
      let line = line_of out prefix text w in
      ((rank level < rank l.level) × (w₁ ≡ w))
      ⊎ ((rank l.level ≤ rank level)
          × HasOutput l.console_logging l.file
          × (console w₁ ≡ console w ++ printed l.console_logging line)
          × (written w₁ ≡ written w ++ stored l.file line))

  pub write_line_lem :
      (level : Level) (shown : Bool) (file : Option ℕ) (line : Bytes) (w : W)
      → IsLogged
      → let w₁ = write_line out line (sinks level shown file) w in
        (console w₁ ≡ console w ++ printed shown line)
        × (written w₁ ≡ written w ++ stored file line)
  unfolding write_line
  write_line_lem level true none line w h =
      (h.print_console line w, h.print_written line w ∙ sym (append-nil _))
  write_line_lem level true (some f) line w h = (
    h.append_console f line _ ∙ h.print_console line w,
    h.append_written f line _ ∙ ap (λ u. u ++ (f, line) ∷ []) (h.print_written line w),
  )
  write_line_lem level false none line w h = (sym (append-nil _), sym (append-nil _))
  write_line_lem level false (some f) line w h =
      (h.append_console f line w ∙ sym (append-nil _), h.append_written f line w)

  emit-IsHeard :
      (level₀ : Level) (shown : Bool) (file : Option ℕ) (level : Level) (prefix text : Bytes)
      (w : W)
      → IsLogged
      → HasOutput shown file
      → IsHeard (sinks level₀ shown file) level prefix text w
  unfolding IsHeard emit
  emit-IsHeard level₀ shown file level prefix text w h some_output =
      go (ltb (rank level) (rank level₀)) refl
    where
      line : Bytes
      line = line_of out prefix text w

      behind : Bool → W
      behind b = if b then w else write_line out line (sinks level₀ shown file) w

      go :
          (b : Bool)
          → ltb (rank level) (rank level₀) ≡ b
          → ((rank level < rank level₀) × (behind b ≡ w))
            ⊎ ((rank level₀ ≤ rank level)
                × HasOutput shown file
                × (console (behind b) ≡ console w ++ printed shown line)
                × (written (behind b) ≡ written w ++ stored file line))
      go true e = inl (ground arith, refl)
      go false e = inr (
        ground arith,
        some_output,
        (write_line_lem level₀ shown file line w h).0,
        (write_line_lem level₀ shown file line w h).1,
      )

  -- Whatever the configuration, once its defaults are taken and Validate accepts it, and whether or not
  -- the log file can be opened: the logger that run makes drops a message below its level, and puts
  -- every other on the console or in the open log file, once on each of the two that is switched on.
  pub new_with_config-IsHeard :
      (c : AppConfig) (w₀ : W) (level : Level) (prefix text : Bytes) (w : W)
      → IsLogged
      → validate (apply_defaults c) ≡ none
      → IsHeard (new_with_config out (log_config (apply_defaults c)) w₀).0 level prefix text w
  unfolding log_config
  new_with_config-IsHeard c w₀ level prefix text w h valid =
      let (shown, file, some_output, e) =
        new_with_config-sinks out (log_config (apply_defaults c)) w₀ (asks_for_output c valid) in
      subst (λ l. IsHeard l level prefix text w) (sym e)
        (emit-IsHeard (level_of (log_config (apply_defaults c)).level) shown file level prefix text
          w h some_output)
