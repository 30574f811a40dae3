-- ===== src/Base/Strings.antt =====
-- A Go string as the list of its bytes, and `==` on strings.
use Prim.Native.Nat.{ℕ}
use Prim.Native.Char.{code}
use Prim.Native.String.{String}
use mathlib.Core.Path.{◌≡◌, refl}
use mathlib.Core.Logic.{◌↔◌, ◌≢◌, inl, inr}
use mathlib.Core.Bool.{Bool, true, false, ◌&&◌}
use mathlib.Core.Option.{Option, none, some}
use mathlib.Core.List.{List, [], ◌∷◌}
use native.Mathlib.Omega.{arith}
use aerosmart_gateway.Base.Tests.{◌==◌, if◌then◌else◌, Bool-cases}

abbrev pub Bytes : Type 0
Bytes = List ℕ

-- The bytes of an ASCII literal.
abbrev pub codes : String → Bytes
codes String.[] = []
codes (String.◌∷◌ c s) = code c ∷ codes s

unfoldable pub eq_bytes : Bytes → Bytes → Bool
eq_bytes [] [] = true
eq_bytes [] (d ∷ t) = false
eq_bytes (c ∷ s) [] = false
eq_bytes (c ∷ s) (d ∷ t) = c == d && eq_bytes s t

eq_bytes→eq : (s t : Bytes) → eq_bytes s t ≡ true → s ≡ t
unfolding eq_bytes
eq_bytes→eq [] [] h = refl
eq_bytes→eq [] (d ∷ t) h = cc
eq_bytes→eq (c ∷ s) [] h = cc
eq_bytes→eq (c ∷ s) (d ∷ t) h = ground (arith, eq_bytes→eq s t)

pub eq_bytes_refl : (s : Bytes) → eq_bytes s s ≡ true
unfolding eq_bytes
eq_bytes_refl [] = refl
eq_bytes_refl (c ∷ s) = ground (arith, eq_bytes_refl s)

pub eq_bytes_iff : (s t : Bytes) → (eq_bytes s t ≡ true) ↔ (s ≡ t)
eq_bytes_iff s t = (eq_bytes→eq s t, λ e. rw e (eq_bytes_refl t))

pub eq_bytes_ne : (s t : Bytes) → s ≢ t → eq_bytes s t ≡ false
eq_bytes_ne s t h = elim (Bool-cases (eq_bytes s t)) [
  | inl e ↦ absurd (h (eq_bytes→eq s t e))
  | inr e ↦ e
]

-- `s == ""`.
abbrev pub is_empty {ℓ} : {A : Type ℓ} → List A → Bool
is_empty [] = true
is_empty (c ∷ s) = false

-- A map from strings that is only looked up and written: `m[k]` and `m[k] = v`.
abbrev pub Map : Type 0 → Type 0
Map V = Bytes → Option V

abbrev pub put : {V : Type 0} → Bytes → V → Map V → Map V
put k v m = λ j. if eq_bytes j k then some v else m j

abbrev pub delete : {V : Type 0} → Bytes → Map V → Map V
delete k m = λ j. if eq_bytes j k then none else m j

pub put_self : {V : Type 0} (k : Bytes) (v : V) (m : Map V) → put k v m k ≡ some v
put_self k v m = rw eq_bytes_refl

pub put_ne : {V : Type 0} (k j : Bytes) (v : V) (m : Map V) → j ≢ k → put k v m j ≡ m j
put_ne k j v m h = rw (eq_bytes_ne j k h)
