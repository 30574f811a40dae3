-- ===== src/Tests/Fixed.antt =====
-- A stand-in for float64: a number of tenths, with the operations cut to that precision.
use aerosmart_gateway.Base.{
  ℕ, zero, suc, ◌≡◌, refl, ◌+◌, ◌-◌, ◌*◌, ◌/◌, ◌%◌, ◌^◌, Bytes, false, Option, none, some, [], ◌∷◌,
  ◌++◌, ◌==◌, if◌then◌else◌,
}
use aerosmart_gateway.Base.Int.{ℤ, pos, negsuc, pos_part, neg_part, sub_ℕ, ltb_ℤ, leb_ℤ, eq_ℤ}
use aerosmart_gateway.Base.Decimal.{digits, read_digits, negate}
use aerosmart_gateway.Base.Float.{Floats}

-- Apply a function to the magnitude.
abbrev on_magnitude : (ℕ → ℕ) → ℤ → ℤ
unfolding negate
on_magnitude f (pos n) = pos (f n)
on_magnitude f (negsuc n) = negate (f (suc n))

abbrev tenths_of : Bytes → Option ℕ
unfolding read_digits
tenths_of s = elim (read_digits 0 s) [ none ↦ none | some n ↦ some (n * 10) ]

-- Whole numbers, or one digit behind a point.
abbrev before_point : Bytes → Bytes
before_point [] = []
before_point (c ∷ s) = if c == b'.' then [] else c ∷ before_point s

abbrev behind_point : Bytes → ℕ
behind_point [] = 0
behind_point (c ∷ []) = 0
behind_point (c ∷ d ∷ s) = if c == b'.' then d - b'0' else behind_point (d ∷ s)

abbrev parse_tenths : Bytes → Option ℤ
unfolding read_digits negate
parse_tenths [] = none
parse_tenths (c ∷ s) =
    if c == b'-'
    then (elim (tenths_of (before_point s)) [
      | none ↦ none
      | some n ↦ some (negate (n + behind_point s))
    ])
    else (elim (tenths_of (before_point (c ∷ s))) [
      | none ↦ none
      | some n ↦ some (pos (n + behind_point (c ∷ s)))
    ])

abbrev print_tenths : ℕ → ℕ → Bytes
unfolding digits
print_tenths zero n = digits (suc n) (n / 10) []
print_tenths (suc k) n = digits (suc n) (n / 10) [] ++ b'.' ∷ ((b'0' + n % 10) ∷ [])

abbrev sign : ℤ → Bytes → Bytes
sign (pos n) s = s
sign (negsuc n) s = b'-' ∷ s

abbrev magnitude_of : ℤ → ℕ
magnitude_of z = pos_part z + neg_part z

abbrev times : ℤ → ℤ → ℤ
times a b =
    sub_ℕ ((pos_part a * pos_part b + neg_part a * neg_part b) / 10)
      ((pos_part a * neg_part b + neg_part a * pos_part b) / 10)

abbrev over : ℤ → ℤ → ℤ
over a b =
    sub_ℕ (pos_part a * 10 / pos_part b + neg_part a * 10 / neg_part b)
      (pos_part a * 10 / neg_part b + neg_part a * 10 / pos_part b)

abbrev pub fixed : Floats ℤ
unfolding negate read_digits digits
fixed = record {
  parse = parse_tenths;
  of_int = λ z. sub_ℕ (pos_part z * 10) (neg_part z * 10);
  decimal = λ m k. pos (m * 10 / 10 ^ k);
  nan = pos 0;
  add = λ a b. sub_ℕ (pos_part a + pos_part b) (neg_part a + neg_part b);
  sub = λ a b. sub_ℕ (pos_part a + neg_part b) (neg_part a + pos_part b);
  mul = times;
  div = over;
  abs = λ a. pos (magnitude_of a);
  round = on_magnitude (λ n. (n + 5) / 10 * 10);
  lt = ltb_ℤ;
  le = leb_ℤ;
  eq = eq_ℤ;
  is_nan = λ a. false;
  is_inf = λ a. false;
  print = λ k a. sign a (print_tenths k (magnitude_of a));
}

-- A step of zero is not below zero.
pub lt-of_int : fixed.lt (pos 0) (fixed.of_int (pos 0)) ≡ false
unfolding negate fixed
lt-of_int = refl
