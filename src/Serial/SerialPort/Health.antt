-- ===== src/Serial/SerialPort/Health.antt =====
-- The health of the port in serial.go: what makes it unhealthy, and the states that methods keep to.
use aerosmart_gateway.Base.{
  ℕ, zero, suc, ◌+◌, ◌≡◌, refl, ap, ◌∙◌, Bytes, true, ◌&&◌, not, Option, none, some, arith, inl,
  inr, Option-cases, is_some,
}
use aerosmart_gateway.Base.Int.{pos_part}
use aerosmart_gateway.Serial.Errors.{
  Err, port_not_open, is_port_error, is_cancellation, cancellation-not-port_error,
}
use aerosmart_gateway.Serial.World.{Port, Clock}
use aerosmart_gateway.Serial.FrameReader.{
  FrameReader, FrameResult, frame, failed, out_of_fuel, read_frame, QuietResult, quiet, busy,
  quiet_failed, quiet_out_of_fuel, wait_quiet,
}
use aerosmart_gateway.Serial.Response.{parse_response, command_prefix}
use aerosmart_gateway.Serial.Config.{Config}
use aerosmart_gateway.Serial.SerialPort.{
  SerialPort, Outcome, returned, raised, unfinished, mark_unhealthy, after_quiet, transmit,
  on_frame, await_response, await_sent, transact, session, new, keep_reader,
}

-- The states of the port: closed, or open with a port and its frame reader. Only an open port is healthy.
pub record IsSound (s : SerialPort) : Type 0 where
  pub has_port : s.port ≡ s.is_open
  pub has_reader : is_some s.fr ≡ s.is_open
  pub healthy_open : s.healthy ≡ true → s.is_open ≡ true

pub new-IsSound : (cfg : Config) → IsSound (new cfg)
unfolding new
new-IsSound cfg = ground arith

-- After an outcome the port is as healthy as before, unless the outcome is a port error.
abbrev pub Judged : {A : Type 0} → SerialPort → SerialPort × Outcome A → Type 0
Judged s (s₁, raised err) =
    (s₁.healthy ≡ (s.healthy && not (is_port_error err)))
    × (s₁.is_open ≡ s.is_open)
    × (s₁.port ≡ s.port)
Judged s (s₁, returned a) = (s₁.healthy ≡ s.healthy) × (s₁.is_open ≡ s.is_open) × (s₁.port ≡ s.port)
Judged s (s₁, unfinished) = (s₁.healthy ≡ s.healthy) × (s₁.is_open ≡ s.is_open) × (s₁.port ≡ s.port)

module _ {W : Type 0} (port : Port W) (clock : Clock W) (open_port : W → W × Option Err)
    (cancels : (w : W) (err : Err) → clock.ctx_err w ≡ some err → is_cancellation err ≡ true) where
  after_quiet-Judged :
      (command : Bytes) (s : SerialPort) (out : FrameReader × W × QuietResult)
      → let (s₁, f₁, w₁, result) = after_quiet port clock open_port command s out in
        Judged s (s₁, result)
  unfolding after_quiet is_port_error mark_unhealthy
  after_quiet-Judged command s (f, w, quiet_failed err) =
      ground (arith, cancellation-not-port_error err)
  after_quiet-Judged command s (f, w, quiet_out_of_fuel) = (refl, refl, refl)
  after_quiet-Judged command s (f, w, quiet) = ground arith
  after_quiet-Judged command s (f, w, busy) = ground arith

  -- A cancelled context judges nothing.
  cancelled-Judged :
      (A : Type 0) (s : SerialPort) (w : W) {err : Err}
      → clock.ctx_err w ≡ some err
      → Judged {A = A} s (s, raised err)
  cancelled-Judged A s w {err} p = ground (arith, cancels w err p, cancellation-not-port_error err)

  on_frame-Judged :
      (want : Bytes) (s : SerialPort) (out : FrameReader × W × FrameResult)
      (more : FrameReader → W → SerialPort × FrameReader × W × Outcome Bytes)
      → ((f : FrameReader) (w : W) → Judged s ((more f w).0, (more f w).3))
      → Judged s (
        (on_frame port clock open_port want s out more).0,
        (on_frame port clock open_port want s out more).3,
      )
  unfolding on_frame is_port_error mark_unhealthy
  on_frame-Judged want s (f, w, failed err) more h = ground arith
  on_frame-Judged want s (f, w, out_of_fuel) more h = (refl, refl, refl)
  on_frame-Judged want s (f, w, frame t) more h = elim (Option-cases (parse_response t want)) [
    | inl e ↦ rw (e, on_frame) (h f w)
    | inr (v, e) ↦ rw (e, on_frame) (refl, refl, refl)
  ]

  await_response-Judged :
      (rounds frame_fuel deadline : ℕ) (want : Bytes) (s : SerialPort) (f : FrameReader) (w : W)
      → let (s₁, f₁, w₁, result) =
          await_response port clock open_port rounds frame_fuel deadline want s f w in
        Judged s (s₁, result)
  unfolding await_response
  await_response-Judged zero frame_fuel deadline want s f w = (refl, refl, refl)
  await_response-Judged (suc rounds) frame_fuel deadline want s f w =
      elim (Option-cases (clock.ctx_err w)) [
        | inr (err, p) ↦ rw (p, await_response) (cancelled-Judged Bytes s w p)
        | inl p ↦
            rw (p, await_response)
              (on_frame-Judged want s (read_frame port clock frame_fuel deadline f w)
                (await_response port clock open_port rounds frame_fuel deadline want s)
                (await_response-Judged rounds frame_fuel deadline want s))
      ]

  await_sent-Judged :
      (rounds frame_fuel : ℕ) (command : Bytes) (s : SerialPort)
      (out : SerialPort × FrameReader × W × Outcome (Unit {0}))
      → Judged s (out.0, out.3)
      → let (s₁, f₁, w₁, result) = await_sent port clock open_port rounds frame_fuel command out in
        Judged s (s₁, result)
  unfolding await_sent
  await_sent-Judged rounds frame_fuel command s (s₁, f, w, raised err) h = h
  await_sent-Judged rounds frame_fuel command s (s₁, f, w, unfinished) h = h
  await_sent-Judged rounds frame_fuel command s (s₁, f, w, returned _) (h, k, l) =
      let deadline = clock.now w + pos_part s₁.cfg.response_timeout in
      let want = command_prefix command in
      any (await_response port clock open_port rounds frame_fuel deadline want s₁ f w)
        (await_response-Judged rounds frame_fuel deadline want s₁ f w)
    where
      any :
          (out : SerialPort × FrameReader × W × Outcome Bytes)
          → Judged s₁ (out.0, out.3)
          → Judged s (out.0, out.3)
      any (s₂, f₂, w₂, returned v) (a, b, c) = (a ∙ h, b ∙ k, c ∙ l)
      any (s₂, f₂, w₂, raised err) (a, b, c) =
          (a ∙ ap (λ x. x && not (is_port_error err)) h, b ∙ k, c ∙ l)
      any (s₂, f₂, w₂, unfinished) (a, b, c) = (a ∙ h, b ∙ k, c ∙ l)

  not-session :
      (s : SerialPort)
      → IsSound s
      → session s ≡ none
      → Judged {A = Bytes} s (s, raised port_not_open)
  unfolding session is_port_error
  not-session s h e = ground arith

  transmit-Judged :
      (quiet_fuel : ℕ) (command : Bytes) (s : SerialPort) (f : FrameReader) (w : W)
      → let (s₁, f₁, w₁, result) = transmit port clock open_port quiet_fuel command s f w in
        Judged s (s₁, result)
  unfolding transmit
  transmit-Judged quiet_fuel command s f w = after_quiet-Judged command s (
      wait_quiet port clock quiet_fuel (pos_part s.cfg.bus_quiet_gap)
        (pos_part s.cfg.bus_quiet_max_wait) f w)

  keep_reader-Judged :
      {A : Type 0} (s : SerialPort) {f : FrameReader}
      → IsSound s
      → session s ≡ some f
      → (out : SerialPort × FrameReader × W × Outcome A) → Judged s (out.0, out.3)
      → Judged s ((keep_reader out).0, (keep_reader out).2) × IsSound (keep_reader out).0
  unfolding session
  keep_reader-Judged s h q (s₁, f₁, w₁, returned a) j = (j, ground arith)
  keep_reader-Judged s h q (s₁, f₁, w₁, raised err) j = (j, ground arith)
  keep_reader-Judged s h q (s₁, f₁, w₁, unfinished) j = (j, ground arith)

  -- Only a port error marks the port unhealthy: after a transaction it is as healthy as it was, unless
  -- the transaction failed with a port error, which a timeout or a cancellation is not. The port stays
  -- open, and the state sound.
  pub transact-Judged :
      (quiet_fuel rounds frame_fuel : ℕ) (command : Bytes) (s : SerialPort) (w : W)
      → IsSound s
      → let (s₁, w₁, result) =
          transact port clock open_port quiet_fuel rounds frame_fuel command s w in
        Judged s (s₁, result) × IsSound s₁
  unfolding transact
  transact-Judged quiet_fuel rounds frame_fuel command s w h =
      elim (Option-cases (clock.ctx_err w)) [
        | inr (err, p) ↦ rw (p, transact) (cancelled-Judged Bytes s w p, h)
        | inl p ↦
            rw (p, transact)
              (elim (Option-cases (session s)) [
                | inl q ↦ rw (q, transact) (not-session s h q, h)
                | inr (f, q) ↦
                    rw (q, transact)
                      (keep_reader-Judged s h q
                        (await_sent port clock open_port rounds frame_fuel command
                          (transmit port clock open_port quiet_fuel command s f w))
                        (await_sent-Judged rounds frame_fuel command s
                          (transmit port clock open_port quiet_fuel command s f w)
                          (transmit-Judged quiet_fuel command s f w)))
              ])
      ]
