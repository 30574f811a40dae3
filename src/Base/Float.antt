-- ===== src/Base/Float.antt =====
-- float64 and the functions on it that the program uses, as a parameter: antt has no floating point.
-- `F` is the type of the values.
use Prim.Native.Nat.{ℕ}
use mathlib.Core.Bool.{Bool}
use mathlib.Core.Option.{Option}
use aerosmart_gateway.Base.Strings.{Bytes}
use aerosmart_gateway.Base.Int.{ℤ}

pub record Floats (F : Type 0) : Type 0 where
  pub parse : Bytes → Option F  -- strconv.ParseFloat(s, 64)
  pub of_int : ℤ → F  -- float64(n)
  pub decimal : ℕ → ℕ → F  -- `decimal 12 1` is the constant 1.2
  pub nan : F  -- math.NaN()
  pub add : F → F → F
  pub sub : F → F → F
  pub mul : F → F → F
  pub div : F → F → F
  pub abs : F → F  -- math.Abs
  pub round : F → F  -- math.Round
  pub lt : F → F → Bool
  pub le : F → F → Bool
  pub eq : F → F → Bool
  pub is_nan : F → Bool
  pub is_inf : F → Bool
  pub print : ℕ → F → Bytes  -- fmt.Sprintf("%.nf", x)
