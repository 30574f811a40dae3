-- ===== src/Serial/Response/RoundTrip.antt =====
-- A reply to a command is found and read, also with noise around it (serial.go).
use mathlib.Core.List.{cons-ne-nil}
use aerosmart_gateway.Base.{
  ℕ, Bool, true, false, ◌||◌, not, some, [], ◌∷◌, ◌++◌, Bytes, eq_bytes_refl, ◌≡◌, ◌≢◌, refl, sym,
  ap, ◌∙◌, arith, All, All-append, append_assoc, append-nil, ◌==◌, is_empty, ◌≤◌, Bool-cases, inl,
  inr, ◌⊎◌,
}
use aerosmart_gateway.Serial.Response.{
  space, is_space, is_printable_ascii, is_noise, fields_from, fields, trim_start, trim_end,
  trim_func, split_from, split_lines, has_char, all_digits, is_integer, command_prefix,
  parse_fields, parse_line, parse_lines, parse_response,
}

abbrev pub Every : (ℕ → Bool) → Bytes → Type 0
Every p = All (λ c. p c ≡ true)

abbrev pub None : (ℕ → Bool) → Bytes → Type 0
None p = All (λ c. p c ≡ false)

trim_start-append :
    (p : ℕ → Bool) (noise s : Bytes) → Every p noise → trim_start p (noise ++ s) ≡ trim_start p s
unfolding trim_start
trim_start-append p [] s h = refl
trim_start-append p (c ∷ noise) s (h, hs) = rw h (trim_start-append p noise s hs)

trim_end-noise : (p : ℕ → Bool) (noise : Bytes) → Every p noise → trim_end p noise ≡ []
unfolding trim_end
trim_end-noise p [] h = refl
trim_end-noise p (c ∷ noise) (h, hs) = rw (h, trim_end-noise p noise hs)

trim_end-clean :
    (p : ℕ → Bool) (s noise : Bytes) → None p s → Every p noise → trim_end p (s ++ noise) ≡ s
unfolding trim_end
trim_end-clean p [] noise hs hn = trim_end-noise p noise hn
trim_end-clean p (c ∷ s) noise (h, hs) hn = rw (h, trim_end-clean p s noise hs hn)

append-ne-nil : (s t : Bytes) → t ≢ [] → is_empty (s ++ t) ≡ false
append-ne-nil [] [] h = absurd (h refl)
append-ne-nil [] (c ∷ t) h = refl
append-ne-nil (c ∷ s) t h = refl

trim_end-append :
    (p : ℕ → Bool) (s t u : Bytes) → trim_end p u ≡ t → t ≢ [] → trim_end p (s ++ u) ≡ s ++ t
unfolding trim_end
trim_end-append p [] t u e h = e
trim_end-append p (c ∷ s) t u e h =
    rw (trim_end-append p s t u e h) (ground (arith, append-ne-nil s t h))

fields_from-word :
    (word cur rest : Bytes)
    → None is_space word
    → fields_from cur (word ++ rest) ≡ fields_from (cur ++ word) rest
unfolding fields_from
fields_from-word [] cur rest h = rw append-nil
fields_from-word (c ∷ word) [] rest (h, hs) =
    rw (h, fields_from) (fields_from-word word (c ∷ []) rest hs)
fields_from-word (c ∷ word) (d ∷ cur) rest (h, hs) =
    rw (h, fields_from) (fields_from-word word (d ∷ cur ++ c ∷ []) rest hs ∙ rw append_assoc)

-- A visible character: printable, and no space.
abbrev pub IsGraphic : ℕ → Type 0
IsGraphic c = (33 ≤ c) × (c ≤ 126)

abbrev pub IsWord : Bytes → Type 0
IsWord s = (s ≢ []) × All IsGraphic s

All-map : (P Q : ℕ → Type 0) (s : Bytes) → ((c : ℕ) → P c → Q c) → All P s → All Q s
All-map P Q [] f h = tt
All-map P Q (c ∷ s) f (h, hs) = (f c h, All-map P Q s f hs)

graphic-not-space : (c : ℕ) → IsGraphic c → is_space c ≡ false
graphic-not-space c h = ground arith

graphic-not-noise : (c : ℕ) → IsGraphic c → is_noise c ≡ false
graphic-not-noise c h = ground arith

word-no-space : (s : Bytes) → All IsGraphic s → None is_space s
word-no-space s = All-map IsGraphic (λ c. is_space c ≡ false) s graphic-not-space

-- fields of a word, at the end and before a space
fields_from-last : (word : Bytes) → IsWord word → fields_from [] word ≡ word ∷ []
unfolding fields_from
fields_from-last [] (h, hs) = absurd (h refl)
fields_from-last (c ∷ word) (h, hs) =
    ap (fields_from []) (sym (append-nil (c ∷ word)))
    ∙ fields_from-word (c ∷ word) [] [] (word-no-space (c ∷ word) hs)

fields_from-next :
    (word rest : Bytes)
    → IsWord word
    → fields_from [] (word ++ space ∷ rest) ≡ word ∷ fields_from [] rest
unfolding fields_from
fields_from-next [] rest (h, hs) = absurd (h refl)
fields_from-next (c ∷ word) rest (h, hs) =
    fields_from-word (c ∷ word) [] (space ∷ rest) (word-no-space (c ∷ word) hs)

-- an integer is a word
all_digits-IsGraphic : (s : Bytes) → all_digits s ≡ true → All IsGraphic s
unfolding all_digits
all_digits-IsGraphic [] h = tt
all_digits-IsGraphic (c ∷ s) h = ((ground arith), all_digits-IsGraphic s (ground arith))

integer-IsWord : (s : Bytes) → is_integer s ≡ true → IsWord s
unfolding is_integer
integer-IsWord [] h = cc
integer-IsWord (c ∷ s) h = (
  cons-ne-nil c s,
  elim (Bool-cases (c == b'-')) [
    | inl e ↦ (ground arith, all_digits-IsGraphic s (ground arith))
    | inr e ↦ all_digits-IsGraphic (c ∷ s) (ground arith)
  ],
)

-- A request: two words, alone or with more behind a space.
command_prefix-word :
    (node register : Bytes)
    → IsWord node
    → IsWord register
    → command_prefix (node ++ space ∷ register) ≡ node ++ space ∷ register
unfolding command_prefix
command_prefix-word node register hn hr =
    rw (fields_from-next node register hn, fields_from-last register hr)

command_prefix-more :
    (node register more : Bytes)
    → IsWord node
    → IsWord register
    → command_prefix (node ++ space ∷ (register ++ space ∷ more)) ≡ node ++ space ∷ register
unfolding command_prefix
command_prefix-more node register more hn hr =
    rw (fields_from-next node (register ++ space ∷ more) hn, fields_from-next register more hr)

split_from-single : (s cur : Bytes) → All (λ c. c ≢ b'\n') s → split_from cur s ≡ (cur ++ s) ∷ []
unfolding split_from
split_from-single [] cur h = rw append-nil
split_from-single (c ∷ s) cur (h, hs) =
    ground (arith, split_from-single s (cur ++ c ∷ []), append_assoc cur (c ∷ []) s)

-- "node register value", as the unit sends it
abbrev pub reply : Bytes → Bytes → Bytes → Bytes
reply node register value = node ++ space ∷ (register ++ space ∷ value)

has_char-append :
    (p : ℕ → Bool) (s t : Bytes) → has_char p (s ++ t) ≡ (has_char p s || has_char p t)
unfolding has_char
has_char-append p [] t = refl
has_char-append p (c ∷ s) t = ground (arith, has_char-append p s t)

has_char-None : (p : ℕ → Bool) (s : Bytes) → None p s → has_char p s ≡ false
unfolding has_char
has_char-None p [] h = refl
has_char-None p (c ∷ s) (h, hs) = rw (h, has_char-None p s hs)

abbrev IsPrint : ℕ → Type 0
IsPrint c = (32 ≤ c) × (c ≤ 126)

word-IsPrint : (s : Bytes) → All IsGraphic s → All IsPrint s
word-IsPrint s = All-map IsGraphic IsPrint s (λ c h. omega arith)

module _ (node register value : Bytes) (hn : IsWord node) (hr : IsWord register)
    (hv : is_integer value ≡ true) where
  reply-IsPrint : All IsPrint (reply node register value)
  reply-IsPrint =
      All-append IsPrint node (space ∷ (register ++ space ∷ value)) (word-IsPrint node hn.1) (
        omega arith,
        All-append IsPrint register (space ∷ value) (word-IsPrint register hr.1)
            (omega arith, word-IsPrint value (integer-IsWord value hv).1),
      )

  fields-reply : fields (reply node register value) ≡ node ∷ register ∷ value ∷ []
  unfolding fields
  fields-reply = rw (
    fields_from-next node (register ++ space ∷ value) hn,
    fields_from-next register value hr,
    fields_from-last value (integer-IsWord value hv),
  )

  trim_start-reply :
      (s : Bytes)
      → trim_start is_noise (reply node register value ++ s) ≡ reply node register value ++ s
  unfolding trim_start
  trim_start-reply s = go node hn
    where
      go :
          (n : Bytes)
          → IsWord n
          → trim_start is_noise (reply n register value ++ s) ≡ reply n register value ++ s
      go [] (h, hs) = absurd (h refl)
      go (c ∷ n) (h, (hc, hs)) = rw (graphic-not-noise c hc, trim_start)

  trim-reply :
      (before after : Bytes)
      → Every is_noise before
      → Every is_noise after
      → trim_func is_noise (before ++ (reply node register value ++ after))
        ≡ reply node register value
  unfolding trim_func
  trim-reply before after hb ha =
      ap (trim_end is_noise) (
        trim_start-append is_noise before (reply node register value ++ after) hb
        ∙ trim_start-reply after)
      ∙ ap (trim_end is_noise) regroup
      ∙ trim_end-append is_noise (node ++ space ∷ (register ++ space ∷ [])) value (value ++ after)
          (trim_end-clean is_noise value after
            (All-map IsGraphic (λ c. is_noise c ≡ false) value graphic-not-noise
              (integer-IsWord value hv).1)
            ha)
          (integer-IsWord value hv).0
      ∙ simp append_assoc
    where
      regroup :
          reply node register value ++ after
          ≡ (node ++ space ∷ (register ++ space ∷ [])) ++ (value ++ after)
      regroup = simp append_assoc

  -- A reply of the unit to a request is found and its value returned, whatever the request says behind
  -- its two words (`more` is empty, or begins with a space) and whatever noise stands around the reply
  -- on its line.
  pub parse_response-reply :
      (before after more : Bytes)
      → Every is_noise before
      → Every is_noise after
      → All (λ c. c ≢ b'\n') before
      → All (λ c. c ≢ b'\n') after
      → (more ≡ []) ⊎ ((rest : Bytes) × (more ≡ space ∷ rest))
      → parse_response
          (before ++ (reply node register value ++ after))
          (command_prefix (node ++ space ∷ (register ++ more)))
        ≡ some value
  unfolding parse_response parse_lines parse_line parse_fields split_lines
  parse_response-reply before after more hb ha nb na hm =
      rw (request more hm, single) (rw (parsed, parse_lines))
    where
      request :
          (more : Bytes)
          → (more ≡ []) ⊎ ((rest : Bytes) × (more ≡ space ∷ rest))
          → command_prefix (node ++ space ∷ (register ++ more)) ≡ node ++ space ∷ register
      request more (inl e) = rw (e, append-nil) (command_prefix-word node register hn hr)
      request more (inr (rest, e)) = rw e (command_prefix-more node register rest hn hr)

      single :
          split_from [] (before ++ (reply node register value ++ after))
          ≡ (before ++ (reply node register value ++ after)) ∷ []
      single = split_from-single (before ++ (reply node register value ++ after)) [] (
          All-append (λ c. c ≢ b'\n') before (reply node register value ++ after) nb
            (All-append (λ c. c ≢ b'\n') (reply node register value) after
              (All-map IsPrint (λ c. c ≢ b'\n') (reply node register value) (λ c h. omega arith)
                reply-IsPrint)
              na))

      clean : has_char (λ c. not (is_printable_ascii c)) (reply node register value) ≡ false
      clean =
          has_char-None (λ c. not (is_printable_ascii c)) (reply node register value)
            (All-map IsPrint (λ c. not (is_printable_ascii c) ≡ false) (reply node register value)
              (λ c h. ground arith) reply-IsPrint)

      parsed :
          parse_line (before ++ (reply node register value ++ after)) (node ++ space ∷ register)
          ≡ some value
      parsed =
          rw (trim-reply before after hb ha, parse_line)
            (rw clean (rw (fields-reply, hv, eq_bytes_refl (node ++ space ∷ register))))
