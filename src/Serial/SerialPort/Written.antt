-- ===== src/Serial/SerialPort/Written.antt =====
-- How often a transaction of serial.go writes its command.
use aerosmart_gateway.Base.{
  ℕ, zero, suc, ◌+◌, ◌≡◌, ◌≢◌, refl, ◌∙◌, Bytes, Option, none, List, [], ◌∷◌, ◌++◌, arith, ◌⊎◌, inl,
  inr, Option-cases, min, ◌-◌,
}
use aerosmart_gateway.Base.Int.{pos_part}
use aerosmart_gateway.Serial.Errors.{Err}
use aerosmart_gateway.Serial.World.{Port, Clock, Line, IsLogged}
use aerosmart_gateway.Serial.FrameReader.{
  FrameReader, FrameResult, Round, done, again, idle_poll, read, after_read, no_line, frame_round,
  read_frame, QuietResult, QuietRound, quiet_done, quiet_again, quiet, busy, quiet_failed,
  quiet_out_of_fuel, quiet_round, quiet_loop, wait_quiet,
}
use aerosmart_gateway.Serial.Response.{command_prefix}
use aerosmart_gateway.Serial.SerialPort.{
  SerialPort, Outcome, returned, raised, unfinished, crlf, drain_loop, send_command, after_quiet,
  transmit, on_frame, await_response, await_sent, transact, send, session, max_drain_interrupts,
}

module _ {W : Type 0} (port : Port W) (clock : Clock W) (line : Line W)
    (logged : IsLogged port clock line) (open_port : W → W × Option Err) where
  -- Reading, waiting and draining write nothing.
  read_written :
      (wait : ℕ) (f : FrameReader) (w : W)
      → line.written (read port clock wait f w).1 ≡ line.written w
  unfolding read
  read_written wait f w = ground (
    arith,
    logged.read_written w,
    logged.set_written wait w,
    logged.read_written (port.set_read_timeout wait w).0,
  )

  abbrev RoundKeeps : {R : Type 0} → List Bytes → Round W R → Type 0
  RoundKeeps log (done f w r) = line.written w ≡ log
  RoundKeeps log (again f w) = line.written w ≡ log

  frame_round_written :
      (deadline : ℕ) (f : FrameReader) (w : W)
      → RoundKeeps (line.written w) (frame_round port clock deadline f w)
  unfolding frame_round no_line after_read
  frame_round_written deadline f w =
      let wait = min f.timeout (deadline - clock.now w) in
      ground
        (arith, read_written wait f w, logged.sleep_written idle_poll (read port clock wait f w).1)

  read_frame_written :
      (fuel deadline : ℕ) (f : FrameReader) (w : W)
      → line.written (read_frame port clock fuel deadline f w).1 ≡ line.written w
  unfolding read_frame
  read_frame_written zero deadline f w = refl
  read_frame_written (suc fuel) deadline f w =
      by_round (frame_round port clock deadline f w) refl (frame_round_written deadline f w)
        (λ f₁ w₁. read_frame_written fuel deadline f₁ w₁)
    where
      by_round :
          (r : Round W FrameResult)
          → frame_round port clock deadline f w ≡ r
          → RoundKeeps (line.written w) r
          → ((f₁ : FrameReader) (w₁ : W)
              → line.written (read_frame port clock fuel deadline f₁ w₁).1 ≡ line.written w₁)
          → line.written (read_frame port clock (suc fuel) deadline f w).1 ≡ line.written w
      by_round (done f₁ w₁ result) e a rest = rw (e, read_frame) a
      by_round (again f₁ w₁) e a rest = rw (e, read_frame) (rest f₁ w₁ ∙ a)

  abbrev QuietKeeps : List Bytes → QuietRound W → Type 0
  QuietKeeps log (quiet_done f w r) = line.written w ≡ log
  QuietKeeps log (quiet_again f w last_byte) = line.written w ≡ log

  quiet_round_written :
      (gap deadline last_byte : ℕ) (f : FrameReader) (w : W)
      → QuietKeeps (line.written w) (quiet_round port clock gap deadline last_byte f w)
  unfolding quiet_round
  quiet_round_written gap deadline last_byte f w =
      let wait = min (gap - (clock.now w - last_byte)) (deadline - clock.now w) in
      ground
        (arith, read_written wait f w, logged.sleep_written idle_poll (read port clock wait f w).1)

  quiet_loop_written :
      (fuel gap deadline last_byte : ℕ) (f : FrameReader) (w : W)
      → line.written (quiet_loop port clock fuel gap deadline last_byte f w).1 ≡ line.written w
  unfolding quiet_loop
  quiet_loop_written zero gap deadline last_byte f w = refl
  quiet_loop_written (suc fuel) gap deadline last_byte f w =
      by_round (quiet_round port clock gap deadline last_byte f w) refl
        (quiet_round_written gap deadline last_byte f w)
        (λ last₁ f₁ w₁. quiet_loop_written fuel gap deadline last₁ f₁ w₁)
    where
      by_round :
          (r : QuietRound W)
          → quiet_round port clock gap deadline last_byte f w ≡ r
          → QuietKeeps (line.written w) r
          → ((last₁ : ℕ) (f₁ : FrameReader) (w₁ : W)
              → line.written (quiet_loop port clock fuel gap deadline last₁ f₁ w₁).1
                ≡ line.written w₁)
          → line.written (quiet_loop port clock (suc fuel) gap deadline last_byte f w).1
            ≡ line.written w
      by_round (quiet_done f₁ w₁ result) e a rest = rw (e, quiet_loop) a
      by_round (quiet_again f₁ w₁ last₁) e a rest = rw (e, quiet_loop) (rest last₁ f₁ w₁ ∙ a)

  wait_quiet_written :
      (fuel gap max_wait : ℕ) (f : FrameReader) (w : W)
      → line.written (wait_quiet port clock fuel gap max_wait f w).1 ≡ line.written w
  unfolding wait_quiet
  wait_quiet_written fuel gap max_wait f w =
      quiet_loop_written fuel gap (clock.now w + max_wait) (clock.now w) f w

  drain_loop_written :
      (n : ℕ) (last : Option Err) (w : W)
      → line.written (drain_loop port clock open_port n last w).0 ≡ line.written w
  unfolding drain_loop
  drain_loop_written zero last w = refl
  drain_loop_written (suc n) last w =
      ground (arith, logged.drain_written w, drain_loop_written n (port.drain w).1 (port.drain w).0)

  -- At most one write, and exactly one if the command was sent.
  abbrev pub AtMostOnce : {A : Type 0} → Bytes → W → W × Outcome A → Type 0
  AtMostOnce command w (w₁, returned a) = line.written w₁ ≡ line.written w ++ (command ++ crlf) ∷ []
  AtMostOnce command w (w₁, raised err) =
      (line.written w₁ ≡ line.written w)
      ⊎ (line.written w₁ ≡ line.written w ++ (command ++ crlf) ∷ [])
  AtMostOnce command w (w₁, unfinished) =
      (line.written w₁ ≡ line.written w)
      ⊎ (line.written w₁ ≡ line.written w ++ (command ++ crlf) ∷ [])

  send_command_written :
      (command : Bytes) (f : FrameReader) (w : W)
      → let (f₁, w₁, err) = send_command port clock open_port command f w in
        ((line.written w₁ ≡ line.written w) × (err ≢ none))
        ⊎ (line.written w₁ ≡ line.written w ++ (command ++ crlf) ∷ [])
  unfolding send_command
  send_command_written command f w =
      let w₁ = (port.reset_input w).0 in
      let w₂ = (port.write (command ++ crlf) w₁).0 in
      ground (
        arith,
        logged.reset_written w,
        logged.write_written (command ++ crlf) w₁,
        drain_loop_written max_drain_interrupts none w₂,
      )

  after_quiet_written :
      (command : Bytes) (s : SerialPort) (w : W) (out : FrameReader × W × QuietResult)
      → line.written out.1 ≡ line.written w
      → let (s₁, f₁, w₁, result) = after_quiet port clock open_port command s out in
        AtMostOnce command w (w₁, result)
  unfolding after_quiet
  after_quiet_written command s w (f, w₁, quiet_failed err) e = ground arith
  after_quiet_written command s w (f, w₁, quiet_out_of_fuel) e = inl e
  after_quiet_written command s w (f, w₁, quiet) e =
      ground (arith, send_command_written command f w₁)
  after_quiet_written command s w (f, w₁, busy) e =
      ground (arith, send_command_written command f w₁)

  transmit_written :
      (fuel : ℕ) (command : Bytes) (s : SerialPort) (f : FrameReader) (w : W)
      → let (s₁, f₁, w₁, result) = transmit port clock open_port fuel command s f w in
        AtMostOnce command w (w₁, result)
  unfolding transmit
  transmit_written fuel command s f w =
      let gap = pos_part s.cfg.bus_quiet_gap in
      let max_wait = pos_part s.cfg.bus_quiet_max_wait in
      after_quiet_written command s w (wait_quiet port clock fuel gap max_wait f w)
        (wait_quiet_written fuel gap max_wait f w)

  await_response_written :
      (rounds frame_fuel deadline : ℕ) (want : Bytes) (s : SerialPort) (f : FrameReader) (w : W)
      → line.written (await_response port clock open_port rounds frame_fuel deadline want s f w).2
        ≡ line.written w
  unfolding await_response on_frame
  await_response_written zero frame_fuel deadline want s f w = refl
  await_response_written (suc rounds) frame_fuel deadline want s f w =
      let (f₁, w₁, result) = read_frame port clock frame_fuel deadline f w in
      ground (
        arith,
        read_frame_written frame_fuel deadline f w,
        await_response_written rounds frame_fuel deadline want s f₁ w₁,
      )

  await_sent_written :
      (rounds frame_fuel : ℕ) (command : Bytes) (w : W)
      (out : SerialPort × FrameReader × W × Outcome (Unit {0}))
      → AtMostOnce command w (out.2, out.3)
      → let (s₁, f₁, w₁, result) = await_sent port clock open_port rounds frame_fuel command out in
        AtMostOnce command w (w₁, result)
  unfolding await_sent
  await_sent_written rounds frame_fuel command w (s, f, w₁, raised err) h = h
  await_sent_written rounds frame_fuel command w (s, f, w₁, unfinished) h = h
  await_sent_written rounds frame_fuel command w (s, f, w₁, returned _) h =
      let deadline = clock.now w₁ + pos_part s.cfg.response_timeout in
      any
        (await_response port clock open_port rounds frame_fuel deadline (command_prefix command) s f
          w₁)
        (await_response_written rounds frame_fuel deadline (command_prefix command) s f w₁ ∙ h)
    where
      any :
          (out : SerialPort × FrameReader × W × Outcome Bytes)
          → line.written out.2 ≡ line.written w ++ (command ++ crlf) ∷ []
          → AtMostOnce command w (out.2, out.3)
      any (s₂, f₂, w₂, returned v) e = e
      any (s₂, f₂, w₂, raised err) e = inr e
      any (s₂, f₂, w₂, unfinished) e = inr e

  -- A transaction never sends its command again to resync: whatever happens it calls Write at most
  -- once, with the command and its terminator, and exactly once if it returns a value.
  pub transact_written :
      (quiet_fuel rounds frame_fuel : ℕ) (command : Bytes) (s : SerialPort) (w : W)
      → let (s₁, w₁, result) =
          transact port clock open_port quiet_fuel rounds frame_fuel command s w in
        AtMostOnce command w (w₁, result)
  unfolding transact
  transact_written quiet_fuel rounds frame_fuel command s w =
      elim (Option-cases (clock.ctx_err w)) [
        | inr (e, p) ↦ rw (p, transact) (inl refl)
        | inl p ↦
            rw (p, transact)
              (elim (Option-cases (session s)) [
                | inl q ↦ rw (q, transact) (inl refl)
                | inr (f, q) ↦
                    rw (q, transact)
                      (await_sent_written rounds frame_fuel command w
                        (transmit port clock open_port quiet_fuel command s f w)
                        (transmit_written quiet_fuel command s f w))
              ])
      ]

  -- The same of Send, which waits for no response.
  pub send_written :
      (quiet_fuel : ℕ) (command : Bytes) (s : SerialPort) (w : W)
      → let (s₁, w₁, result) = send port clock open_port quiet_fuel command s w in
        AtMostOnce command w (w₁, result)
  unfolding send
  send_written quiet_fuel command s w = elim (Option-cases (clock.ctx_err w)) [
    | inr (e, p) ↦ rw (p, send) (inl refl)
    | inl p ↦
        rw (p, send)
          (elim (Option-cases (session s)) [
            | inl q ↦ rw (q, send) (inl refl)
            | inr (f, q) ↦ rw (q, send) (transmit_written quiet_fuel command s f w)
          ])
  ]
