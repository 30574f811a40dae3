-- ===== src/Registers/Values.antt =====
-- internal/registers/reader.go: the map from register names to values that a read cycle fills. It is
-- the list of its entries, one for each name.
use aerosmart_gateway.Base.{Bool, Option, none, some, List, [], ◌∷◌, Bytes, eq_bytes, if◌then◌else◌}

-- RegisterValue
pub record RegisterValue : Type 0 where
  pub name : Bytes
  pub value : Bytes
  pub raw_value : Bytes
  pub valid : Bool

abbrev pub Values : Type 0
Values = List (Bytes × RegisterValue)

-- `m[name] = v`
unfoldable pub set : Bytes → RegisterValue → Values → Values
set name v [] = (name, v) ∷ []
set name v ((key, u) ∷ more) =
    let rest = set name v more in if eq_bytes key name then (name, v) ∷ more else (key, u) ∷ rest

-- `m[name]`
unfoldable pub lookup : Bytes → Values → Option RegisterValue
lookup name [] = none
lookup name ((key, u) ∷ more) = if eq_bytes key name then some u else lookup name more
