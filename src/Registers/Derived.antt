-- ===== src/Registers/Derived.antt =====
-- internal/registers/derived.go: values computed from a read cycle's snapshot. `F` is float64.
pub mod Inputs
use aerosmart_gateway.Base.{
  ◌≡◌, Bool, true, false, ◌&&◌, ◌||◌, not, Option, none, some, List, [], ◌∷◌, ◌++◌, Bytes, codes,
  eq_bytes, is_empty, if◌then◌else◌, is_some,
}
use aerosmart_gateway.Base.Int.{pos}
use aerosmart_gateway.Base.Float.{Floats}
use aerosmart_gateway.Config.Types.{DerivedRegister}
use aerosmart_gateway.Serial.Errors.{Err, Result, ok, err, wrap, other, no_formula}
use aerosmart_gateway.Registers.Device.{Device}
use aerosmart_gateway.Registers.Values.{RegisterValue, Values, set, lookup}

abbrev pub ratio : Bytes
ratio = codes "zuluftabluftprozent"

abbrev pub stage_four : Bytes
stage_four = codes "co2luefterstufe4"

abbrev pub shading : Bytes
shading = codes "beschattungtemp_adjusted"

-- derivedInputs; a name that is not in the map has none.
unfoldable pub derived_inputs : Bytes → List Bytes
derived_inputs name =
    if eq_bytes name ratio
    then codes "zuluftumin" ∷ codes "abluftumin" ∷ []
    else if eq_bytes name stage_four
    then codes "co2luefterstufe3" ∷ []
    else if eq_bytes name shading
    then codes "beschattungtemp" ∷ codes "beschattungaussentemp" ∷ codes "aussentemp" ∷ []
    else []

unfoldable pub has_formula : Bytes → Bool
has_formula name = eq_bytes name ratio || eq_bytes name stage_four || eq_bytes name shading

unfoldable pub member : Bytes → List Bytes → Bool
member name [] = false
member name (x ∷ xs) = eq_bytes x name || member name xs

unfoldable pub covers : List Bytes → List Bytes → Bool
covers sources [] = true
covers sources (input ∷ inputs) = member input sources && covers sources inputs

-- Validate: whether a problem is listed for none of the registers
unfoldable pub all_covered : List DerivedRegister → Bool
all_covered [] = true
all_covered (reg ∷ regs) =
    has_formula reg.name && covers reg.sources (derived_inputs reg.name) && all_covered regs

unfoldable pub validate : List DerivedRegister → Option Err
unfolding all_covered
validate registers = if all_covered registers then none else some (wrap no_formula)

module _ {F : Type 0} (fl : Floats F) where
  -- `src[name]`: zero when it is missing
  abbrev pub source : Bytes → List (Bytes × F) → F
  source name [] = fl.of_int (pos 0)
  source name ((key, x) ∷ more) = if eq_bytes key name then x else source name more

  -- `math.Round(x * 10) / 10`
  abbrev to_tenths : F → F
  to_tenths x = fl.div (fl.round (fl.mul x (fl.of_int (pos 10)))) (fl.of_int (pos 10))

  -- derivedFormulas["zuluftabluftprozent"]
  unfoldable pub supply_ratio : List (Bytes × F) → F
  supply_ratio src =
      let abluft = source (codes "abluftumin") src in
      let zuluft = source (codes "zuluftumin") src in
      if fl.eq abluft (fl.of_int (pos 0))
      then (if fl.eq zuluft (fl.of_int (pos 0)) then fl.of_int (pos 100) else fl.nan)
      else fl.div
          (fl.round
            (fl.mul (fl.mul (fl.div zuluft abluft) (fl.of_int (pos 100))) (fl.of_int (pos 10))))
          (fl.of_int (pos 10))

  -- derivedFormulas["co2luefterstufe4"]
  unfoldable pub stage_four_limit : List (Bytes × F) → F
  stage_four_limit src = fl.round (fl.mul (source (codes "co2luefterstufe3") src) (fl.decimal 12 1))

  -- derivedFormulas["beschattungtemp_adjusted"]
  unfoldable pub shading_limit : List (Bytes × F) → F
  shading_limit src =
      let limit = source (codes "beschattungtemp") src in
      if fl.lt (source (codes "beschattungaussentemp") src) (source (codes "aussentemp") src)
      then to_tenths (fl.sub limit (fl.decimal 5 1))
      else to_tenths (fl.add limit (fl.of_int (pos 1)))

  -- derivedFormulas
  unfoldable pub derived_formula : Bytes → Option (List (Bytes × F) → F)
  derived_formula name =
      if eq_bytes name ratio
      then some supply_ratio
      else if eq_bytes name stage_four
      then some stage_four_limit
      else if eq_bytes name shading
      then some shading_limit
      else none

  -- The values of the sources; an error if one is missing, invalid or no number
  unfoldable pub gather : Values → List Bytes → Result (List (Bytes × F))
  gather values [] = ok []
  gather values (name ∷ names) =
      let rest = gather values names in
      elim (lookup name values) [
        | none ↦ err (other 7)
        | some v ↦ if not v.valid then err (other 7) else elim (fl.parse v.value) [
          | none ↦ err (other 8)
          | some x ↦ elim rest [ err e ↦ err e | ok src ↦ ok ((name, x) ∷ src) ]
        ]
      ]

  -- calculateSingle
  unfoldable pub calculate_single : DerivedRegister → Values → Result Bytes
  calculate_single derived values = elim (gather values derived.sources) [
    | err e ↦ err e
    | ok src ↦ elim (derived_formula derived.name) [
      | none ↦ err (wrap no_formula)
      | some formula ↦
          let result = formula src in
          if fl.is_nan result || fl.is_inf result then err (other 9) else ok (fl.print 1 result)
    ]
  ]

  -- One register of Calculate
  unfoldable pub calculated : DerivedRegister → Result Bytes → RegisterValue
  calculated derived (err e) = record {
    name = derived.name;
    value = [];
    raw_value = [];
    valid = false;
  }
  calculated derived (ok value) = record {
    name = derived.name;
    value = value;
    raw_value = [];
    valid = true;
  }

  -- The loop of Calculate
  unfoldable pub calculate_from : List DerivedRegister → Values → Values → Values
  unfolding calculate_single calculated
  calculate_from [] values results = results
  calculate_from (reg ∷ regs) values results =
      calculate_from regs values
        (set reg.name (calculated reg (calculate_single reg values)) results)

  -- Calculate
  unfoldable pub calculate : List DerivedRegister → Values → Values
  unfolding calculate_from
  calculate registers values = calculate_from registers values []

-- `topics[name]`: that of the last register of the name
unfoldable pub find_topic : Bytes → List DerivedRegister → Option Bytes
find_topic name [] = none
find_topic name (reg ∷ regs) = elim (find_topic name regs) [
  | some later ↦ some later
  | none ↦ if eq_bytes reg.name name then some reg.topic else none
]
