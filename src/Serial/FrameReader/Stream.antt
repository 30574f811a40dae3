-- ===== src/Serial/FrameReader/Stream.antt =====
-- What readFrame of framing.go delivers, against the stream of bytes that the port has received.
use aerosmart_gateway.Base.{
  ℕ, zero, suc, ◌-◌, ◌<◌, min, ◌≡◌, ◌≢◌, refl, sym, ap, ◌∙◌, true, false, Option, none, some, List,
  [], ◌∷◌, ◌++◌, Bytes, length, ltb, ◌==◌, ==_iff, Bool-cases, arith, ◌⊎◌, inl, inr, All,
  append_assoc, append-nil,
}
use aerosmart_gateway.Serial.Errors.{Err, frame_overflow, is_timeout}
use aerosmart_gateway.Serial.World.{Port, Clock, Line, IsLogged}
use aerosmart_gateway.Serial.FrameReader.{
  FrameReader, FrameResult, frame, failed, out_of_fuel, Round, done, again, max_frame_len,
  idle_poll, newline, cut_line, read, after_read, frame_round, no_line, read_frame, reset,
  trim_right,
}

-- The reference: the complete lines of a text without their terminators; `cur` is the line so far.
lines_from : Bytes → Bytes → List Bytes
lines_from cur [] = []
lines_from cur (c ∷ s) = elim (c == newline) [
  | true ↦ trim_right cur ∷ lines_from [] s
  | false ↦ lines_from (cur ++ c ∷ []) s
]

pub complete_lines : Bytes → List Bytes
unfolding lines_from
complete_lines s = lines_from [] s

abbrev pub LacksNewline : Bytes → Type 0
LacksNewline = All (λ c. c ≢ newline)

-- `cut_line` finds the first newline, if there is one.
abbrev IsCut : Bytes → Option (Bytes × Bytes) → Type 0
IsCut s none = LacksNewline s
IsCut s (some (line, rest)) = (s ≡ line ++ newline ∷ rest) × LacksNewline line

IsCut-cons :
    (c : ℕ) (s : Bytes) (o : Option (Bytes × Bytes))
    → c ≢ newline
    → IsCut s o
    → IsCut (c ∷ s) (elim o [ none ↦ none | some (line, rest) ↦ some (c ∷ line, rest) ])
IsCut-cons c s none h k = (h, k)
IsCut-cons c s (some (line, rest)) h (e, k) = (ap (λ t. c ∷ t) e, (h, k))

cut_line-IsCut : (s : Bytes) → IsCut s (cut_line s)
unfolding cut_line
cut_line-IsCut [] = tt
cut_line-IsCut (c ∷ s) = elim (Bool-cases (c == newline)) [
  | inl e ↦ rw (e, cut_line) (ap (λ d. d ∷ s) ((==_iff c newline).0 e), tt)
  | inr e ↦ rw (e, cut_line) (IsCut-cons c s (cut_line s) (ground arith) (cut_line-IsCut s))
]

lines_from-append :
    (line cur rest : Bytes)
    → LacksNewline line
    → lines_from cur (line ++ newline ∷ rest) ≡ trim_right (cur ++ line) ∷ lines_from [] rest
unfolding lines_from
lines_from-append [] cur rest h = rw append-nil
lines_from-append (c ∷ line) cur rest h =
    ground (arith, lines_from-append line (cur ++ c ∷ []) rest, append_assoc cur (c ∷ []) line)

pub complete_lines-append :
    (line rest : Bytes)
    → LacksNewline line
    → complete_lines (line ++ newline ∷ rest) ≡ trim_right line ∷ complete_lines rest
unfolding complete_lines
complete_lines-append line rest h = lines_from-append line [] rest h

module _ {W : Type 0} (port : Port W) (clock : Clock W) (line : Line W)
    (logged : IsLogged port clock line) where
  read_received :
      (wait : ℕ) (f : FrameReader) (w : W)
      → (line.received (read port clock wait f w).1
          ≡ line.received w ++ (read port clock wait f w).2)
        × ((read port clock wait f w).0.buf ≡ f.buf)
  unfolding read
  read_received wait f w = ground (
    arith,
    logged.read_received w,
    logged.set_received wait w,
    logged.read_received (port.set_read_timeout wait w).0,
    append-nil (line.received w),
  )

  -- What a round does with the bytes: `consumed` is what was delivered or dropped before it.
  abbrev InSync : Bytes → FrameReader → W → Type 0
  InSync consumed f w = line.received w ≡ consumed ++ f.buf

  -- A frame takes its line and the terminator off the stream, and leaves the rest for later calls. A
  -- failure takes nothing, unless it is an overflow: that drops more than 512 bytes with no newline.
  abbrev pub Accounts : Bytes → FrameReader × W × FrameResult → Type 0
  Accounts consumed (f, w, frame t) =
      (raw : Bytes) × LacksNewline raw
      × (t ≡ trim_right raw)
      × InSync (consumed ++ (raw ++ newline ∷ [])) f w
  Accounts consumed (f, w, failed err) =
      InSync consumed f w
      ⊎ ((dropped : Bytes) × (err ≡ frame_overflow)
          × (max_frame_len < length dropped)
          × LacksNewline dropped
          × InSync (consumed ++ dropped) f w
          × (f.buf ≡ []))
  Accounts consumed (f, w, out_of_fuel) = InSync consumed f w

  abbrev RoundAccounts : Bytes → Round W FrameResult → Type 0
  RoundAccounts consumed (done f w result) = Accounts consumed (f, w, result)
  RoundAccounts consumed (again f w) = InSync consumed f w

  after_read-Accounts :
      (consumed : Bytes) (f₀ : FrameReader) (w₀ : W) (out : FrameReader × W × Bytes × Option Err)
      → InSync consumed f₀ w₀
      → (line.received out.1 ≡ line.received w₀ ++ out.2) × (out.0.buf ≡ f₀.buf)
      → RoundAccounts consumed (after_read port clock out)
  unfolding after_read
  after_read-Accounts consumed f₀ w₀ (f, w, c ∷ bytes, err) s (p, q) =
      ground (arith, append_assoc consumed f₀.buf (c ∷ bytes))
  after_read-Accounts consumed f₀ w₀ (f, w, [], none) s (p, q) =
      ground (arith, append-nil (line.received w₀), logged.sleep_received idle_poll w)
  after_read-Accounts consumed f₀ w₀ (f, w, [], some err) s (p, q) =
      elim (Bool-cases (is_timeout err)) [
        | inl e ↦
            rw e (ground (arith, append-nil (line.received w₀), logged.sleep_received idle_poll w))
        | inr e ↦ rw e (inl (ground (arith, append-nil (line.received w₀))))
      ]

  no_line-Accounts :
      (deadline : ℕ) (f : FrameReader) (w : W) (consumed : Bytes)
      → InSync consumed f w
      → LacksNewline f.buf
      → RoundAccounts consumed (no_line port clock deadline f w)
  unfolding no_line reset
  no_line-Accounts deadline f w consumed s lacks =
      elim (Bool-cases (ltb max_frame_len (length f.buf))) [
        | inl e ↦
            rw e (
              inr
                (f.buf, refl, ground arith, lacks, s ∙ sym (append-nil (consumed ++ f.buf)), refl))
        | inr e ↦ rw e (elim (Bool-cases (min f.timeout (deadline - clock.now w) == 0)) [
          | inl z ↦ rw z (inl s)
          | inr z ↦ rw z (
              after_read-Accounts consumed f w
                (read port clock (min f.timeout (deadline - clock.now w)) f w) s
                (read_received (min f.timeout (deadline - clock.now w)) f w))
        ])
      ]

  frame_round-Accounts :
      (deadline : ℕ) (f : FrameReader) (w : W) (consumed : Bytes)
      → InSync consumed f w
      → RoundAccounts consumed (frame_round port clock deadline f w)
  unfolding frame_round
  frame_round-Accounts deadline f w consumed s = by_cut (cut_line f.buf) refl (cut_line-IsCut f.buf)
    where
      by_cut :
          (o : Option (Bytes × Bytes))
          → cut_line f.buf ≡ o
          → IsCut f.buf o
          → RoundAccounts consumed (frame_round port clock deadline f w)
      by_cut none e cut = rw (e, frame_round) (no_line-Accounts deadline f w consumed s cut)
      by_cut (some (raw, rest)) e (split, lacks) =
          rw (e, frame_round)
            (
              raw,
              lacks,
              refl,
              ground (
                arith,
                append_assoc raw (newline ∷ []) rest,
                append_assoc consumed (raw ++ newline ∷ []) rest,
              ),
            )

  -- One call of `readFrame`, however the bytes were split and whatever it returns: nothing that was
  -- received is lost or delivered twice, but what an overflow drops.
  pub read_frame-Accounts :
      (fuel deadline : ℕ) (f : FrameReader) (w : W) (consumed : Bytes)
      → InSync consumed f w
      → Accounts consumed (read_frame port clock fuel deadline f w)
  unfolding read_frame
  read_frame-Accounts zero deadline f w consumed s = s
  read_frame-Accounts (suc fuel) deadline f w consumed s =
      by_round (frame_round port clock deadline f w) refl
        (frame_round-Accounts deadline f w consumed s)
        (λ f₁ w₁ s₁. read_frame-Accounts fuel deadline f₁ w₁ consumed s₁)
    where
      by_round :
          (r : Round W FrameResult)
          → frame_round port clock deadline f w ≡ r
          → RoundAccounts consumed r
          → ((f₁ : FrameReader) (w₁ : W)
              → InSync consumed f₁ w₁
              → Accounts consumed (read_frame port clock fuel deadline f₁ w₁))
          → Accounts consumed (read_frame port clock (suc fuel) deadline f w)
      by_round (done f₁ w₁ result) e a rest = rw (e, read_frame) a
      by_round (again f₁ w₁) e a rest = rw (e, read_frame) (rest f₁ w₁ a)
