-- ===== src/Serial/FrameReader/Session.antt =====
-- A series of readFrame calls on one reader (framing.go), against the lines of the whole stream.
use aerosmart_gateway.Base.{
  ℕ, ◌≡◌, ◌≢◌, refl, sym, ap, ◌∙◌, List, [], ◌∷◌, ◌++◌, Bytes, inl, inr, All, append_assoc,
  append-nil,
}
use aerosmart_gateway.Serial.Errors.{frame_overflow}
use aerosmart_gateway.Serial.World.{Port, Clock, Line, IsLogged}
use aerosmart_gateway.Serial.FrameReader.{
  FrameReader, FrameResult, frame, failed, out_of_fuel, newline, read_frame, new_frame_reader,
}
use aerosmart_gateway.Serial.FrameReader.Stream.{
  complete_lines, complete_lines-append, Accounts, read_frame-Accounts,
}

-- The frames among the results, in order.
abbrev pub delivered : List FrameResult → List Bytes
delivered [] = []
delivered (frame t ∷ rs) = t ∷ delivered rs
delivered (failed err ∷ rs) = delivered rs
delivered (out_of_fuel ∷ rs) = delivered rs

abbrev pub NoOverflow : List FrameResult → Type 0
NoOverflow = All (λ r. r ≢ failed frame_overflow)

module _ {W : Type 0} (port : Port W) (clock : Clock W) where
  -- One call for each deadline; the buffer is carried from call to call.
  unfoldable pub read_frames : ℕ → List ℕ → FrameReader → W → FrameReader × W × List FrameResult
  read_frames fuel [] f w = (f, w, [])
  read_frames fuel (deadline ∷ more) f w =
      let (f₁, w₁, r) = read_frame port clock fuel deadline f w in
      let (f₂, w₂, rs) = read_frames fuel more f₁ w₁ in (f₂, w₂, r ∷ rs)

delivered-cons :
    (r : FrameResult) (rs : List FrameResult)
    → delivered (r ∷ rs) ≡ delivered (r ∷ []) ++ delivered rs
delivered-cons (frame t) rs = refl
delivered-cons (failed err) rs = refl
delivered-cons out_of_fuel rs = refl

module _ {W : Type 0} (port : Port W) (clock : Clock W) (line : Line W)
    (logged : IsLogged port clock line) where
  -- What was taken off the stream so far is whole lines, and `out` is those lines.
  abbrev Delivers : List Bytes → FrameReader → W → Type 0
  Delivers out f w =
      (consumed : Bytes) × (line.received w ≡ consumed ++ f.buf)
      × ((s : Bytes) → complete_lines (consumed ++ s) ≡ out ++ complete_lines s)

  step-Delivers :
      (out : List Bytes) (consumed : Bytes)
      → ((s : Bytes) → complete_lines (consumed ++ s) ≡ out ++ complete_lines s)
      → (res : FrameReader × W × FrameResult) → res.2 ≢ failed frame_overflow
      → Accounts port clock line logged consumed res
      → Delivers (out ++ delivered (res.2 ∷ [])) res.0 res.1
  step-Delivers out consumed whole (f, w, frame t) h (raw, lacks, e, sync) = (
    consumed ++ (raw ++ newline ∷ []),
    sync,
    λ s. simp (append_assoc, whole, complete_lines-append raw s lacks, e),
  )
  step-Delivers out consumed whole (f, w, failed err) h (inl sync) =
      (consumed, sync, λ s. simp (append-nil, whole))
  step-Delivers out consumed whole (f, w, failed err) h (inr over) = absurd (h (ap failed over.1))
  step-Delivers out consumed whole (f, w, out_of_fuel) h sync =
      (consumed, sync, λ s. simp (append-nil, whole))

  read_frames-Delivers :
      (fuel : ℕ) (deadlines : List ℕ) (f : FrameReader) (w : W) (out : List Bytes)
      → Delivers out f w
      → NoOverflow (read_frames port clock fuel deadlines f w).2
      → Delivers
          (out ++ delivered (read_frames port clock fuel deadlines f w).2)
          (read_frames port clock fuel deadlines f w).0
          (read_frames port clock fuel deadlines f w).1
  unfolding read_frames
  read_frames-Delivers fuel [] f w out d h = rw append-nil d
  read_frames-Delivers fuel (deadline ∷ more) f w out (consumed, sync, whole) (h, hs) =
      let r = read_frame port clock fuel deadline f w in
      let (c₁, sync₁, whole₁) =
        step-Delivers out consumed whole r h
          (read_frame-Accounts port clock line logged fuel deadline f w consumed sync) in
      let rest =
        read_frames-Delivers fuel more r.0 r.1 (out ++ delivered (r.2 ∷ [])) (c₁, sync₁, whole₁)
          hs in
      let later = (read_frames port clock fuel more r.0 r.1).2 in
      (
        rest.0,
        rest.1,
        λ s.
            rest.2 s
            ∙ ap (λ d. d ++ complete_lines s)
                (append_assoc out _ _ ∙ ap (λ d. out ++ d) (sym (delivered-cons r.2 later))),
      )

  -- Whatever pieces the bytes arrive in and whichever calls time out or fail in between, the frames
  -- that a new reader delivers, and the complete lines it still holds, are the lines of the stream that
  -- was received since, in order and each once.
  pub read_frames-complete_lines :
      (timeout fuel : ℕ) (deadlines : List ℕ) (w : W)
      → line.received w ≡ []
      → NoOverflow (read_frames port clock fuel deadlines (new_frame_reader timeout) w).2
      → let (f₁, w₁, results) =
          read_frames port clock fuel deadlines (new_frame_reader timeout) w in
        complete_lines (line.received w₁) ≡ delivered results ++ complete_lines f₁.buf
  unfolding new_frame_reader
  read_frames-complete_lines timeout fuel deadlines w start h =
      let d =
        read_frames-Delivers fuel deadlines (new_frame_reader timeout) w [] ([], start, λ s. refl)
          h in
      ap complete_lines d.1 ∙ d.2 _
