-- ===== src/Registers/Reader/Untouched.antt =====
-- What a call of reader.go's readSingleRaw leaves alone.
use aerosmart_gateway.Base.{
  ℕ, zero, suc, ◌==◌, ◌≡◌, refl, ap, ◌∙◌, Bool, true, false, Option, none, List, [], Bytes, Map,
  arith, inl, inr, Bool-cases, Option-cases,
}
use aerosmart_gateway.Base.Float.{Floats}
use aerosmart_gateway.Config.Types.{ReadRegister}
use aerosmart_gateway.Serial.Errors.{Err, Result, ok, err}
use aerosmart_gateway.Serial.World.{sleep_ctx}
use aerosmart_gateway.Registers.Device.{Device, jittered, IsUntouched}
use aerosmart_gateway.Registers.Reader.{
  Reader, Sample, to_sample, Attempt, finish, retry, judge_sample, judge_exchange, pause, attempt,
  read_attempts, read_single_raw,
}

module _ {W A : Type 0} (d : Device W) (o : W → A) (u : IsUntouched d o) where
  pub sleep_ctx_untouched : (n : ℕ) (w : W) → o (sleep_ctx d.clock n w).0 ≡ o w
  unfolding sleep_ctx
  sleep_ctx_untouched n w = elim (Bool-cases (n == 0)) [
    | inl e ↦ rw (e, sleep_ctx) refl
    | inr e ↦ rw (e, sleep_ctx) (u.by_wait n w)
  ]

  jittered_untouched : (n : ℕ) (w : W) → o (jittered d n w).0 ≡ o w
  unfolding jittered
  jittered_untouched n w = elim (Bool-cases (n == 0)) [
    | inl e ↦ rw (e, jittered) refl
    | inr e ↦ rw (e, jittered) (u.by_random _ w)
  ]

  module _ {F : Type 0} (fl : Floats F) (register : ReadRegister F) where
    pause_untouched :
        (backoff : ℕ) (first : Bool) (w : W) → o (pause d fl register backoff first w).0 ≡ o w
    unfolding pause
    pause_untouched backoff true w = refl
    pause_untouched backoff false w =
        sleep_ctx_untouched (jittered d backoff w).1 (jittered d backoff w).0
        ∙ jittered_untouched backoff w

    abbrev world : Attempt W F → W
    world (finish w trusted result) = w
    world (retry w samples last) = w

    world-judge_sample :
        (w : W) (trusted : Map F) (samples : List (Sample F)) (last : Option Err)
        (r : Result (Sample F))
        → world (judge_sample d fl register w trusted samples last r) ≡ w
    unfolding judge_sample
    world-judge_sample w trusted samples last (err e) = refl
    world-judge_sample w trusted samples last (ok s) = ground arith

    world-judge_exchange :
        (trusted : Map F) (samples : List (Sample F)) (last : Option Err) (out : W × Result Bytes)
        → world (judge_exchange d fl register trusted samples last out) ≡ out.0
    unfolding judge_exchange
    world-judge_exchange trusted samples last (w, ok value) =
        world-judge_sample w trusted samples last (to_sample fl value register)
    world-judge_exchange trusted samples last (w, err e) = ground arith

    attempt_untouched :
        (backoff : ℕ) (first : Bool) (trusted : Map F) (samples : List (Sample F))
        (last : Option Err) (w : W)
        → o (world (attempt d fl register backoff first trusted samples last w)) ≡ o w
    unfolding attempt
    attempt_untouched backoff first trusted samples last w =
        elim (Option-cases (d.clock.ctx_err w)) [
          | inr (e, p) ↦ rw (p, attempt) refl
          | inl p ↦
              let w₁ = (pause d fl register backoff first w).0 in
              let paused = pause_untouched backoff first w in
              rw (p, attempt)
                (elim (Bool-cases (pause d fl register backoff first w).1) [
                  | inl s ↦
                      rw (s, attempt)
                        (ap o (
                            world-judge_exchange trusted samples last
                              (d.dev.transact register.command w₁))
                          ∙ (u.by_transact register.command w₁ ∙ paused))
                  | inr s ↦ rw (s, attempt) paused
                ])
        ]

    read_attempts_untouched :
        (n backoff : ℕ) (first : Bool) (trusted : Map F) (samples : List (Sample F))
        (last : Option Err) (w : W)
        → o (read_attempts d fl register n backoff first trusted samples last w).0 ≡ o w
    unfolding read_attempts
    read_attempts_untouched zero backoff first trusted samples last w = refl
    read_attempts_untouched (suc n) backoff first trusted samples last w =
        by_attempt (attempt d fl register backoff first trusted samples last w) refl
          (attempt_untouched backoff first trusted samples last w)
          (λ samples₁ last₁ w₁. read_attempts_untouched n backoff false trusted samples₁ last₁ w₁)
      where
        by_attempt :
            (r : Attempt W F)
            → attempt d fl register backoff first trusted samples last w ≡ r
            → o (world r) ≡ o w
            → ((samples₁ : List (Sample F)) (last₁ : Option Err) (w₁ : W)
                → o (read_attempts d fl register n backoff false trusted samples₁ last₁ w₁).0
                  ≡ o w₁)
            → o (read_attempts d fl register (suc n) backoff first trusted samples last w).0 ≡ o w
        by_attempt (finish w₁ t₁ result) e q rest = rw (e, read_attempts) q
        by_attempt (retry w₁ samples₁ last₁) e q rest =
            rw (e, read_attempts) (rest samples₁ last₁ w₁ ∙ q)

    -- Reading a register sends nothing but the exchanges, and publishes nothing.
    pub read_single_raw_untouched :
        (r : Reader F) (trusted : Map F) (w : W)
        → o (read_single_raw d fl register r trusted w).0 ≡ o w
    unfolding read_single_raw
    read_single_raw_untouched r trusted w =
        read_attempts_untouched r.retries r.backoff true trusted [] none w
