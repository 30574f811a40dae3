-- ===== src/Serial/Response.antt =====
-- internal/serial/serial.go: commandPrefix and ParseResponse, with the library functions on strings
-- that they use. Strings are bytes. A byte above 0x7e belongs to a character that is not printable
-- ASCII, so trimming and searching by bytes and by characters agree; commands are ASCII.
pub mod Sound
pub mod RoundTrip
use aerosmart_gateway.Base.{
  ℕ, Bool, true, false, ◌&&◌, ◌||◌, not, Option, none, some, List, [], ◌∷◌, ◌++◌, Bytes, codes, leb,
  ltb, ◌==◌, if◌then◌else◌, is_empty, eq_bytes, ◌≡◌, refl,
}

abbrev pub space : ℕ
space = b' '

-- isPrintableASCII
abbrev pub is_printable_ascii : ℕ → Bool
is_printable_ascii c = leb 0x20 c && leb c 0x7e

-- The ASCII characters of `unicode.IsSpace`.
abbrev pub is_space : ℕ → Bool
is_space c = c == space || leb 0x09 c && leb c 0x0d

-- `strings.Fields`; `cur` is the field so far.
unfoldable pub fields_from : Bytes → Bytes → List Bytes
fields_from [] [] = []
fields_from (d ∷ cur) [] = (d ∷ cur) ∷ []
fields_from cur (c ∷ s) = elim (is_space c) [
  | true ↦ if is_empty cur then fields_from [] s else cur ∷ fields_from [] s
  | false ↦ fields_from (cur ++ c ∷ []) s
]

unfoldable pub fields : Bytes → List Bytes
unfolding fields_from
fields s = fields_from [] s

-- `strings.TrimLeftFunc`, `strings.TrimRightFunc`, `strings.TrimFunc`.
unfoldable pub trim_start : (ℕ → Bool) → Bytes → Bytes
trim_start p [] = []
trim_start p (c ∷ s) = if p c then trim_start p s else c ∷ s

unfoldable pub trim_end : (ℕ → Bool) → Bytes → Bytes
trim_end p [] = []
trim_end p (c ∷ s) = let t = trim_end p s in if p c && is_empty t then [] else c ∷ t

unfoldable pub trim_func : (ℕ → Bool) → Bytes → Bytes
unfolding trim_start trim_end
trim_func p s = trim_end p (trim_start p s)

-- `strings.SplitSeq(s, "\n")`; `cur` is the part so far.
unfoldable pub split_from : Bytes → Bytes → List Bytes
split_from cur [] = cur ∷ []
split_from cur (c ∷ s) = elim (c == b'\n') [
  | true ↦ cur ∷ split_from [] s
  | false ↦ split_from (cur ++ c ∷ []) s
]

unfoldable pub split_lines : Bytes → List Bytes
unfolding split_from
split_lines s = split_from [] s

-- The test of `strings.IndexFunc(line, p) >= 0`.
unfoldable pub has_char : (ℕ → Bool) → Bytes → Bool
has_char p [] = false
has_char p (c ∷ s) = p c || has_char p s

abbrev pub is_digit : ℕ → Bool
is_digit c = leb b'0' c && leb c b'9'

-- `strings.TrimPrefix(s, "-")`
abbrev pub trim_minus : Bytes → Bytes
trim_minus [] = []
trim_minus (c ∷ s) = if c == b'-' then s else c ∷ s

-- The loop of isInteger.
unfoldable pub all_digits : Bytes → Bool
all_digits [] = true
all_digits (c ∷ s) = is_digit c && all_digits s

unfoldable pub is_integer : Bytes → Bool
unfolding all_digits
is_integer s = not (is_empty (trim_minus s)) && all_digits (trim_minus s)

-- commandPrefix; with fewer than two fields it is `strings.TrimSpace(command)`
prefix_of : List Bytes → Bytes → Bytes
unfolding trim_func
prefix_of [] command = trim_func is_space command
prefix_of (node ∷ []) command = trim_func is_space command
prefix_of (node ∷ register ∷ more) command = node ++ space ∷ register

unfoldable pub command_prefix : Bytes → Bytes
unfolding prefix_of fields
command_prefix command = prefix_of (fields command) command

abbrev pub is_noise : ℕ → Bool
is_noise c = c == space || not (is_printable_ascii c)

-- The fields of one line are judged: exactly three, the last an integer, the others the command's.
unfoldable pub parse_fields : List Bytes → Bytes → Option Bytes
parse_fields (node ∷ register ∷ value ∷ []) expected =
    if is_integer value && eq_bytes (node ++ space ∷ register) expected then some value else none
parse_fields [] expected = none
parse_fields (node ∷ []) expected = none
parse_fields (node ∷ register ∷ []) expected = none
parse_fields (node ∷ register ∷ value ∷ extra ∷ more) expected = none

-- One line of the response.
unfoldable pub parse_line : Bytes → Bytes → Option Bytes
parse_line raw expected =
    let line = trim_func is_noise raw in
    if has_char (λ c. not (is_printable_ascii c)) line
    then none
    else parse_fields (fields line) expected

unfoldable pub parse_lines : List Bytes → Bytes → Option Bytes
parse_lines [] expected = none
parse_lines (line ∷ more) expected = elim (parse_line line expected) [
  | some value ↦ some value
  | none ↦ parse_lines more expected
]

-- ParseResponse
unfoldable pub parse_response : Bytes → Bytes → Option Bytes
parse_response response expected = parse_lines (split_lines response) expected

parse_example : parse_response (codes "\u{1}130 1067 -3\r") (codes "130 1067") ≡ some (codes "-3")
unfolding parse_response parse_lines split_lines parse_line trim_func has_char fields parse_fields
    is_integer eq_bytes
parse_example = refl
