-- ===== src/Serial/FrameReader/Termination.antt =====
-- The loops of framing.go end: enough fuel always gives a result.
use aerosmart_gateway.Base.{
  ℕ, zero, suc, ◌+◌, ◌-◌, ◌*◌, ◌≤◌, ◌<◌, min, ◌≡◌, ◌≢◌, refl, Option, none, some, [], ◌∷◌, Bytes,
  length, length-append, leb, ◌==◌, if◌then◌else◌, arith, inl, inr, Bool-cases,
}
use aerosmart_gateway.Serial.World.{Port, Clock, IsTimely}
use aerosmart_gateway.Serial.FrameReader.{
  FrameReader, FrameResult, frame, failed, out_of_fuel, Round, done, again, idle_poll, newline,
  cut_line, read, after_read, frame_round, no_line, read_frame, reset, QuietResult,
  quiet_out_of_fuel, quiet_done, quiet_again, quiet_round, quiet_loop, wait_quiet, Round-cases,
  QuietRound-cases,
}

-- The bytes behind the first newline are fewer.
abbrev Shorter : Bytes → Option (Bytes × Bytes) → Type 0
Shorter s none = Unit
Shorter s (some (line, rest)) = length rest < length s

cut_line-Shorter : (s : Bytes) → Shorter s (cut_line s)
unfolding cut_line
cut_line-Shorter [] = tt
cut_line-Shorter (c ∷ s) = elim (Bool-cases (c == newline)) [
  | inl e ↦ rw (e, cut_line) (omega arith)
  | inr e ↦ rw (e, cut_line) (step (cut_line s) (cut_line-Shorter s))
]
  where
    step :
        (o : Option (Bytes × Bytes))
        → Shorter s o
        → Shorter (c ∷ s) (elim o [ none ↦ none | some (line, rest) ↦ some (c ∷ line, rest) ])
    step none h = tt
    step (some (line, rest)) h = omega arith

module _ {W : Type 0} (port : Port W) (clock : Clock W) (timely : IsTimely port clock) where
  -- Reading takes time and brings at most a scratch buffer.
  pub read_ticks :
      (wait : ℕ) (f : FrameReader) (w : W)
      → (clock.now w ≤ clock.now (read port clock wait f w).1)
        × (length (read port clock wait f w).2 ≤ 256)
        × ((read port clock wait f w).0.buf ≡ f.buf)
        × ((read port clock wait f w).2 ≢ [] → clock.now w < clock.now (read port clock wait f w).1)
  unfolding read
  read_ticks wait f w = ground (
    arith,
    timely.read_ticks w,
    timely.read_fits w,
    timely.set_passes wait w,
    timely.read_ticks (port.set_read_timeout wait w).0,
    timely.read_fits (port.set_read_timeout wait w).0,
  )

  -- The bytes that are buffered, and the reads that still fit before the deadline.
  abbrev pub frame_measure : ℕ → FrameReader → W → ℕ
  frame_measure deadline f w = length f.buf + 257 * (deadline - clock.now w)

  -- A round that does not return makes the measure smaller.
  frame_round_falls :
      (deadline : ℕ) (f : FrameReader) (w : W) {f₁ : FrameReader} {w₁ : W}
      → frame_round port clock deadline f w ≡ again f₁ w₁
      → frame_measure deadline f₁ w₁ < frame_measure deadline f w
  unfolding frame_round no_line after_read reset
  frame_round_falls deadline f w h = ground (
    arith,
    read_ticks (min f.timeout (deadline - clock.now w)) f w,
    timely.sleep_lasts idle_poll (read port clock (min f.timeout (deadline - clock.now w)) f w).1,
    length-append f.buf (read port clock (min f.timeout (deadline - clock.now w)) f w).2,
  )

  frame_round_result :
      (deadline : ℕ) (f : FrameReader) (w : W) {f₁ : FrameReader} {w₁ : W} {r : FrameResult}
      → frame_round port clock deadline f w ≡ done f₁ w₁ r
      → r ≢ out_of_fuel
  unfolding frame_round no_line after_read reset
  frame_round_result deadline f w h = ground arith

  -- `readFrame` returns: with one round for every buffered byte, and 257 for every nanosecond that is
  -- left before the deadline, the loop never runs out of fuel.
  pub read_frame_total :
      (fuel deadline : ℕ) (f : FrameReader) (w : W)
      → frame_measure deadline f w < fuel
      → (read_frame port clock fuel deadline f w).2 ≢ out_of_fuel
  unfolding read_frame
  read_frame_total zero deadline f w h = elim h [ ]
  read_frame_total (suc fuel) deadline f w h =
      elim (Round-cases (frame_round port clock deadline f w)) [
        | inl (f₁, w₁, r, e) ↦ rw (e, read_frame) (frame_round_result deadline f w e)
        | inr (f₁, w₁, e) ↦
            let falls = frame_round_falls deadline f w e in
            rw (e, read_frame) (read_frame_total fuel deadline f₁ w₁ (omega arith))
      ]

  -- A call that returns a frame has used up a part of the measure, and no call adds to it.
  abbrev pub Used : ℕ → ℕ → FrameReader × W × FrameResult → Type 0
  Used before deadline (f, w, frame t) = frame_measure deadline f w < before
  Used before deadline (f, w, failed err) = Unit
  Used before deadline (f, w, out_of_fuel) = Unit

  abbrev RoundUsed : ℕ → ℕ → Round W FrameResult → Type 0
  RoundUsed before deadline (done f w r) = Used before deadline (f, w, r)
  RoundUsed before deadline (again f w) = frame_measure deadline f w < before

  frame_round-Used :
      (deadline : ℕ) (f : FrameReader) (w : W)
      → RoundUsed (frame_measure deadline f w) deadline (frame_round port clock deadline f w)
  frame_round-Used deadline f w = by_round (frame_round port clock deadline f w) refl
    where
      by_round :
          (r : Round W FrameResult)
          → frame_round port clock deadline f w ≡ r
          → RoundUsed (frame_measure deadline f w) deadline r
      by_round (done f₁ w₁ (frame t)) e =
          unfold frame_round no_line after_read reset in ground (arith, cut_line-Shorter f.buf)
      by_round (done f₁ w₁ (failed err)) e = tt
      by_round (done f₁ w₁ out_of_fuel) e = tt
      by_round (again f₁ w₁) e = frame_round_falls deadline f w e

  Used-mono :
      (a b deadline : ℕ) (out : FrameReader × W × FrameResult)
      → Used a deadline out
      → a ≤ b
      → Used b deadline out
  Used-mono a b deadline (f, w, frame t) h k = omega arith
  Used-mono a b deadline (f, w, failed err) h k = tt
  Used-mono a b deadline (f, w, out_of_fuel) h k = tt

  pub read_frame-Used :
      (fuel deadline : ℕ) (f : FrameReader) (w : W)
      → Used (frame_measure deadline f w) deadline (read_frame port clock fuel deadline f w)
  unfolding read_frame
  read_frame-Used zero deadline f w = tt
  read_frame-Used (suc fuel) deadline f w =
      by_round (frame_round port clock deadline f w) refl (frame_round-Used deadline f w)
        (λ f₁ w₁. read_frame-Used fuel deadline f₁ w₁)
    where
      by_round :
          (r : Round W FrameResult)
          → frame_round port clock deadline f w ≡ r
          → RoundUsed (frame_measure deadline f w) deadline r
          → ((f₁ : FrameReader) (w₁ : W)
              → Used
                  (frame_measure deadline f₁ w₁)
                  deadline
                  (read_frame port clock fuel deadline f₁ w₁))
          → Used
              (frame_measure deadline f w)
              deadline
              (read_frame port clock (suc fuel) deadline f w)
      by_round (done f₁ w₁ result) e u rest = rw (e, read_frame) u
      by_round (again f₁ w₁) e u rest =
          rw (e, read_frame)
            (Used-mono (frame_measure deadline f₁ w₁) (frame_measure deadline f w) deadline
              (read_frame port clock fuel deadline f₁ w₁) (rest f₁ w₁) (omega arith))

  -- Rounds left before the deadline, and one more while the silence is short of a gap.
  abbrev quiet_measure : ℕ → ℕ → ℕ → W → ℕ
  quiet_measure gap deadline last_byte w =
      2 * (deadline - clock.now w) + (if leb gap (clock.now w - last_byte) then 0 else 1)

  quiet_round_falls :
      (gap deadline last_byte : ℕ) (f : FrameReader) (w : W) {f₁ : FrameReader} {w₁ : W} {last₁ : ℕ}
      → quiet_round port clock gap deadline last_byte f w ≡ quiet_again f₁ w₁ last₁
      → quiet_measure gap deadline last₁ w₁ < quiet_measure gap deadline last_byte w
  unfolding quiet_round
  quiet_round_falls gap deadline last_byte f w h = ground (
    arith,
    read_ticks (min (gap - (clock.now w - last_byte)) (deadline - clock.now w)) f w,
    timely.sleep_lasts idle_poll
        (read port clock (min (gap - (clock.now w - last_byte)) (deadline - clock.now w)) f w).1,
  )

  quiet_round_result :
      (gap deadline last_byte : ℕ) (f : FrameReader) (w : W) {f₁ : FrameReader} {w₁ : W}
      {r : QuietResult}
      → quiet_round port clock gap deadline last_byte f w ≡ quiet_done f₁ w₁ r
      → r ≢ quiet_out_of_fuel
  unfolding quiet_round
  quiet_round_result gap deadline last_byte f w h = ground arith

  quiet_loop_total :
      (fuel gap deadline last_byte : ℕ) (f : FrameReader) (w : W)
      → quiet_measure gap deadline last_byte w < fuel
      → (quiet_loop port clock fuel gap deadline last_byte f w).2 ≢ quiet_out_of_fuel
  unfolding quiet_loop
  quiet_loop_total zero gap deadline last_byte f w h = elim h [ ]
  quiet_loop_total (suc fuel) gap deadline last_byte f w h =
      elim (QuietRound-cases (quiet_round port clock gap deadline last_byte f w)) [
        | inl (f₁, w₁, r, e) ↦ rw (e, quiet_loop) (quiet_round_result gap deadline last_byte f w e)
        | inr (f₁, w₁, last₁, e) ↦
            let falls = quiet_round_falls gap deadline last_byte f w e in
            rw (e, quiet_loop) (quiet_loop_total fuel gap deadline last₁ f₁ w₁ (omega arith))
      ]

  -- `waitQuiet` returns, however busy the bus is: two rounds for every nanosecond of `maxWait` and two
  -- more are enough.
  pub wait_quiet_total :
      (fuel gap max_wait : ℕ) (f : FrameReader) (w : W)
      → 2 * max_wait + 1 < fuel
      → (wait_quiet port clock fuel gap max_wait f w).2 ≢ quiet_out_of_fuel
  unfolding wait_quiet
  wait_quiet_total fuel gap max_wait f w h =
      quiet_loop_total fuel gap (clock.now w + max_wait) (clock.now w) f w (ground arith)
