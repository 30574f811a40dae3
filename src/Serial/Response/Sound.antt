-- ===== src/Serial/Response/Sound.antt =====
-- What ParseResponse of serial.go accepts.
use mathlib.Core.List.{Memᴰ}
use aerosmart_gateway.Base.{
  true, false, not, some, List, [], ◌∷◌, ◌++◌, Bytes, eq_bytes_iff, ◌≡◌, refl, arith, Bool-cases,
  Option-cases, inl, inr,
}
use aerosmart_gateway.Serial.Response.{
  space, is_printable_ascii, is_noise, fields, trim_func, split_lines, has_char, is_integer,
  parse_fields, parse_line, parse_lines, parse_response,
}

-- A line that answers `expected` with `value`: behind the noise at its ends it is printable, and is the
-- two words of `expected` and an integer.
pub record IsAnswer (raw expected value : Bytes) : Type 0 where
  pub node : Bytes
  pub register : Bytes
  pub shape : fields (trim_func is_noise raw) ≡ node ∷ register ∷ value ∷ []
  pub prefix : expected ≡ node ++ space ∷ register
  pub integer : is_integer value ≡ true
  pub printable : has_char (λ c. not (is_printable_ascii c)) (trim_func is_noise raw) ≡ false

parse_fields_sound :
    (fs : List Bytes) (expected : Bytes) {v : Bytes}
    → parse_fields fs expected ≡ some v
    → (node : Bytes) × (register : Bytes) × (fs ≡ node ∷ register ∷ v ∷ [])
      × (expected ≡ node ++ space ∷ register)
      × (is_integer v ≡ true)
unfolding parse_fields
parse_fields_sound [] expected h = cc
parse_fields_sound (a ∷ []) expected h = cc
parse_fields_sound (a ∷ b ∷ []) expected h = cc
parse_fields_sound (a ∷ b ∷ c ∷ []) expected h = (
  a,
  b,
  ground (arith, eq_bytes_iff (a ++ space ∷ b) expected),
  ground (arith, eq_bytes_iff (a ++ space ∷ b) expected),
  ground (arith, eq_bytes_iff (a ++ space ∷ b) expected),
)
parse_fields_sound (a ∷ b ∷ c ∷ d ∷ more) expected h = cc

parse_line_sound :
    (raw expected : Bytes) {v : Bytes} → parse_line raw expected ≡ some v → IsAnswer raw expected v
unfolding parse_line
parse_line_sound raw expected {v} h =
    elim (Bool-cases (has_char (λ c. not (is_printable_ascii c)) (trim_func is_noise raw))) [
      | inl e ↦ cc
      | inr e ↦
          let (node, register, shape, prefix, integer) =
            parse_fields_sound (fields (trim_func is_noise raw)) expected {v = v} (ground arith) in
          record {
            node = node;
            register = register;
            shape = shape;
            prefix = prefix;
            integer = integer;
            printable = e;
          }
    ]

parse_lines_sound :
    (lines : List Bytes) (expected : Bytes) {v : Bytes}
    → parse_lines lines expected ≡ some v
    → (raw : Bytes) × Memᴰ raw lines × IsAnswer raw expected v
unfolding parse_lines
parse_lines_sound [] expected h = cc
parse_lines_sound (line ∷ more) expected {v} h = elim (Option-cases (parse_line line expected)) [
  | inl e ↦
      let (raw, m, a) = parse_lines_sound more expected {v = v} (rw (e, parse_lines) at h) in
      (raw, Memᴰ.tail m, a)
  | inr (x, e) ↦ (line, Memᴰ.head refl, parse_line_sound line expected (ground arith))
]

-- A value is only taken from a line of the response that is printable behind its noise, has exactly
-- three fields, names the expected node and register, and ends in an integer, which is the value.
pub parse_response_sound :
    (response expected : Bytes) {v : Bytes}
    → parse_response response expected ≡ some v
    → (raw : Bytes) × Memᴰ raw (split_lines response) × IsAnswer raw expected v
unfolding parse_response
parse_response_sound response expected h = parse_lines_sound (split_lines response) expected h
