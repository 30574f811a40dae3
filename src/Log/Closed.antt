-- ===== src/Log/Closed.antt =====
-- That Close of logger.go is final and can be repeated.
use aerosmart_gateway.Base.{
  ℕ, ◌≡◌, refl, ◌∙◌, ◌⊎◌, Bool, true, false, Option, none, some, List, Bytes, is_empty,
  if◌then◌else◌, ltb, subst, sym, append-nil,
}
use aerosmart_gateway.Log.{
  Level, rank, level_of, LogConfig, Output, new_with_config, Logger, line_of, write_line, emit,
  close,
}
use aerosmart_gateway.Log.Heard.{sinks, IsLogged, write_line_lem, new_with_config-sinks}

module _ {W : Type 0} (out : Output W) (written : W → List (ℕ × Bytes)) where
  -- What follows Close: no message reaches a file, and a second Close changes nothing and succeeds.
  pub IsClosed : Logger → (level : Level) → Bytes → Bytes → W → Type 0
  IsClosed l level prefix text w =
      (written (emit out level prefix text l w) ≡ written w) × (close out l w ≡ (l, w, none))

module _ {W : Type 0} (out : Output W) (console : W → List Bytes)
    (written : W → List (ℕ × Bytes)) where
  emit-unwritten :
      (level₀ : Level) (shown : Bool) (level : Level) (prefix text : Bytes) (w : W)
      → IsLogged out console written
      → written (emit out level prefix text (sinks level₀ shown none) w) ≡ written w
  unfolding emit
  emit-unwritten level₀ shown level prefix text w h = go (ltb (rank level) (rank level₀))
    where
      line : Bytes
      line = line_of out prefix text w

      go :
          (b : Bool)
          → written (if b then w else write_line out line (sinks level₀ shown none) w) ≡ written w
      go true = refl
      go false = (write_line_lem out console written level₀ shown none line w h).1 ∙ append-nil _

  closed :
      (level₀ : Level) (shown : Bool) (file : Option ℕ) (w₁ : W) (level : Level)
      (prefix text : Bytes) (w : W)
      → IsLogged out console written
      → IsClosed out written (close out (sinks level₀ shown file) w₁).0 level prefix text w
  unfolding IsClosed close
  closed level₀ shown none w₁ level prefix text w h =
      (emit-unwritten level₀ shown level prefix text w h, refl)
  closed level₀ shown (some f) w₁ level prefix text w h =
      (emit-unwritten level₀ shown level prefix text w h, refl)

  -- Close is final and can be repeated: for the logger of any config that asks for some output, behind
  -- Close no message changes any file again, whatever its level, and a further Close leaves logger and
  -- world as they are and returns no error.
  pub close-IsClosed :
      (c : LogConfig) (w₀ w₁ : W) (level : Level) (prefix text : Bytes) (w : W)
      → IsLogged out console written
      → (c.console_logging ≡ true) ⊎ ((c.file_logging ≡ true) × (is_empty c.log_file ≡ false))
      → IsClosed out written (close out (new_with_config out c w₀).0 w₁).0 level prefix text w
  unfolding close
  close-IsClosed c w₀ w₁ level prefix text w h asked =
      let (shown, file, _, e) = new_with_config-sinks out c w₀ asked in
      subst (λ l. IsClosed out written (close out l w₁).0 level prefix text w) (sym e)
        (closed (level_of c.level) shown file w₁ level prefix text w h)
