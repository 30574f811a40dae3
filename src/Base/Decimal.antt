-- ===== src/Base/Decimal.antt =====
-- strconv.Itoa and strconv.Atoi, on 64-bit integers.
use Prim.Native.Nat.{ℕ, zero, suc, ◌+◌, ◌-◌, ◌*◌, ◌/◌, ◌%◌, ◌^◌}
use mathlib.Core.Bool.{◌&&◌}
use mathlib.Core.List.{[], ◌∷◌}
use mathlib.Core.Option.{Option, none, some}
use mathlib.Core.Path.{◌≡◌, refl}
use aerosmart_gateway.Base.Tests.{ltb, leb, ◌==◌, if◌then◌else◌}
use aerosmart_gateway.Base.Strings.{Bytes, codes}
use aerosmart_gateway.Base.Int.{ℤ, pos, negsuc}

-- The digits of `n` in front of `out`; as much fuel as the number is enough.
unfoldable pub digits : ℕ → ℕ → Bytes → Bytes
digits zero n out = out
digits (suc fuel) n out =
    let rest = digits fuel (n / 10) ((b'0' + n % 10) ∷ out) in
    if ltb n 10 then (b'0' + n) ∷ out else rest

-- strconv.Itoa
unfoldable pub itoa : ℤ → Bytes
unfolding digits
itoa (pos n) = digits (suc n) n []
itoa (negsuc n) = b'-' ∷ digits (suc (suc n)) (suc n) []

-- The value of a run of digits behind `n`; none if another byte stands in it.
unfoldable pub read_digits : ℕ → Bytes → Option ℕ
read_digits n [] = some n
read_digits n (c ∷ s) =
    if leb b'0' c && leb c b'9' then read_digits (n * 10 + (c - b'0')) s else none

unfoldable pub negate : ℕ → ℤ
negate zero = pos 0
negate (suc n) = negsuc n

-- At least one digit, and a magnitude up to `limit`.
unfoldable pub magnitude : ℕ → Bytes → Option ℕ
unfolding read_digits
magnitude limit [] = none
magnitude limit (c ∷ s) = elim (read_digits 0 (c ∷ s)) [
  | none ↦ none
  | some n ↦ if leb n limit then some n else none
]

-- strconv.Atoi: an optional sign, decimal digits, and the range of an int
unfoldable pub atoi : Bytes → Option ℤ
unfolding magnitude negate
atoi [] = none
atoi (c ∷ s) =
    if c == b'-'
    then (elim (magnitude (2 ^ 63) s) [ none ↦ none | some n ↦ some (negate n) ])
    else if c == b'+'
    then (elim (magnitude (2 ^ 63 - 1) s) [ none ↦ none | some n ↦ some (pos n) ])
    else (elim (magnitude (2 ^ 63 - 1) (c ∷ s)) [ none ↦ none | some n ↦ some (pos n) ])

itoa_runs : itoa (negsuc 1204) ≡ codes "-1205"
unfolding itoa
itoa_runs = refl

atoi_runs : atoi (codes "-0120") ≡ some (negsuc 119)
unfolding atoi
atoi_runs = refl
