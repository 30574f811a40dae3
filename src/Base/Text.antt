-- ===== src/Base/Text.antt =====
-- Go's strings.TrimSpace, strings.Replace and the prefix and suffix tests, on the bytes of a string.
use Prim.Native.Nat.{ℕ, zero, suc}
use mathlib.Core.Bool.{Bool}
use mathlib.Core.Option.{Option, none, some}
use mathlib.Core.Path.{◌≡◌, refl}
use mathlib.Core.List.{List, [], ◌∷◌, ◌++◌, map, reverse}
use aerosmart_gateway.Base.Tests.{◌==◌, if◌then◌else◌, is_some}
use aerosmart_gateway.Base.Lists.{length}
use aerosmart_gateway.Base.Strings.{Bytes, codes}

-- What stands behind `prefix` in `s`, if `s` begins with it.
unfoldable pub strip_prefix : Bytes → Bytes → Option Bytes
strip_prefix [] s = some s
strip_prefix (c ∷ p) [] = none
strip_prefix (c ∷ p) (d ∷ s) = if c == d then strip_prefix p s else none

-- strings.HasPrefix and strings.HasSuffix
unfoldable pub has_prefix : Bytes → Bytes → Bool
has_prefix s p = is_some (strip_prefix p s)

unfoldable pub has_suffix : Bytes → Bytes → Bool
has_suffix s p = is_some (strip_prefix (reverse p) (reverse s))

unfoldable pub strip_any : List Bytes → Bytes → Option Bytes
strip_any [] s = none
strip_any (p ∷ ps) s = elim (strip_prefix p s) [ some t ↦ some t | none ↦ strip_any ps s ]

-- Take encodings off the front, at most `fuel` of them.
unfoldable pub trim_left : ℕ → List Bytes → Bytes → Bytes
trim_left zero ps s = s
trim_left (suc fuel) ps s = elim (strip_any ps s) [ none ↦ s | some t ↦ trim_left fuel ps t ]

-- unicode.IsSpace, in UTF-8
abbrev spaces : List Bytes
spaces =
    (0x09 ∷ [])
    ∷ (0x0a ∷ [])
    ∷ (0x0b ∷ [])
    ∷ (0x0c ∷ [])
    ∷ (0x0d ∷ [])
    ∷ (0x20 ∷ [])
    ∷ (0xc2 ∷ 0x85 ∷ [])
    ∷ (0xc2 ∷ 0xa0 ∷ [])
    ∷ (0xe1 ∷ 0x9a ∷ 0x80 ∷ [])
    ∷ (0xe2 ∷ 0x80 ∷ 0x80 ∷ [])
    ∷ (0xe2 ∷ 0x80 ∷ 0x81 ∷ [])
    ∷ (0xe2 ∷ 0x80 ∷ 0x82 ∷ [])
    ∷ (0xe2 ∷ 0x80 ∷ 0x83 ∷ [])
    ∷ (0xe2 ∷ 0x80 ∷ 0x84 ∷ [])
    ∷ (0xe2 ∷ 0x80 ∷ 0x85 ∷ [])
    ∷ (0xe2 ∷ 0x80 ∷ 0x86 ∷ [])
    ∷ (0xe2 ∷ 0x80 ∷ 0x87 ∷ [])
    ∷ (0xe2 ∷ 0x80 ∷ 0x88 ∷ [])
    ∷ (0xe2 ∷ 0x80 ∷ 0x89 ∷ [])
    ∷ (0xe2 ∷ 0x80 ∷ 0x8a ∷ [])
    ∷ (0xe2 ∷ 0x80 ∷ 0xa8 ∷ [])
    ∷ (0xe2 ∷ 0x80 ∷ 0xa9 ∷ [])
    ∷ (0xe2 ∷ 0x80 ∷ 0xaf ∷ [])
    ∷ (0xe2 ∷ 0x81 ∷ 0x9f ∷ [])
    ∷ (0xe3 ∷ 0x80 ∷ 0x80 ∷ [])
    ∷ []

-- strings.TrimSpace; every round takes a byte off, so the length is fuel enough.
unfoldable pub trim_space : Bytes → Bytes
unfolding trim_left strip_any strip_prefix
trim_space s =
    let front = trim_left (length s) spaces s in
    reverse (trim_left (length front) (map reverse spaces) (reverse front))

-- strings.Replace(s, old, new, 1), for an `old` that is not empty
unfoldable pub replace_first : Bytes → Bytes → Bytes → Bytes
unfolding strip_prefix
replace_first old new [] = []
replace_first old new (c ∷ s) =
    let rest = replace_first old new s in
    elim (strip_prefix old (c ∷ s)) [ some behind ↦ new ++ behind | none ↦ c ∷ rest ]

trim_space_runs :
    trim_space (0xc2 ∷ 0xa0 ∷ codes "\t+3 x\n " ++ 0xe2 ∷ 0x80 ∷ 0x89 ∷ []) ≡ codes "+3 x"
unfolding trim_space
trim_space_runs = refl
