-- ===== src/Registers/Derived/Inputs.antt =====
-- What the formulas of derived.go read.
use aerosmart_gateway.Base.{◌≡◌, true, false, some, List, ◌∷◌, Bytes}
use aerosmart_gateway.Base.Float.{Floats}
use aerosmart_gateway.Config.Types.{DerivedRegister}
use aerosmart_gateway.Serial.Errors.{ok}
use aerosmart_gateway.Registers.Values.{RegisterValue, Values, lookup}
use aerosmart_gateway.Registers.Derived.{source, gather, derived_formula}

-- What a formula reads for a name, and that a valid value of the snapshot reads as that number.
abbrev pub IsRead : {F : Type 0} → Floats F → Values → List (Bytes × F) → Bytes → Type 0
IsRead fl values src name =
    (v : RegisterValue) × (lookup name values ≡ some v)
    × (v.valid ≡ true)
    × (fl.parse v.value ≡ some (source fl name src))

module _ {F : Type 0} (fl : Floats F) (values : Values) where
  -- What a successful round of the loop has found.
  abbrev Found : Bytes → List Bytes → List (Bytes × F) → Type 0
  Found name names src =
      (v : RegisterValue) × (x : F) × (more : List (Bytes × F)) × (lookup name values ≡ some v)
      × (v.valid ≡ true)
      × (fl.parse v.value ≡ some x)
      × (gather fl values names ≡ ok more)
      × (src ≡ (name, x) ∷ more)

-- A text that was computed by the formula of the register's name, from these numbers.
abbrev pub IsComputed :
    {F : Type 0} → Floats F → DerivedRegister → List (Bytes × F) → Bytes → Type 0
IsComputed {F} fl reg src text =
    (formula : List (Bytes × F) → F) × (derived_formula fl reg.name ≡ some formula)
    × (fl.is_nan (formula src) ≡ false)
    × (fl.is_inf (formula src) ≡ false)
    × (text ≡ fl.print 1 (formula src))
