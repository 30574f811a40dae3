-- ===== src/Registers/Reader/Trust.antt =====
-- Which readings reader.go lets through, and what it asks of the unit for them.
use mathlib.Core.List.{Memᴰ}
use aerosmart_gateway.Base.{
  ℕ, zero, suc, ◌+◌, ◌≤◌, ◌<◌, ◌/◌, ◌≡◌, ◌≢◌, refl, sym, ap, ◌∙◌, Bool, true, false, Option, none,
  List, [], ◌∷◌, ◌++◌, Bytes, Map, put, ◌⊎◌, inl, inr, arith, All, All-append, length, Bool-cases,
  Option-cases,
}
use aerosmart_gateway.Base.Float.{Floats}
use aerosmart_gateway.Config.Types.{ReadRegister}
use aerosmart_gateway.Serial.Errors.{Err, Result, ok, err, is_port_error}
use aerosmart_gateway.Serial.World.{sleep_ctx}
use aerosmart_gateway.Registers.Device.{Device, jittered, History, IsContext, IsRecorded}
use aerosmart_gateway.Registers.Reader.{
  Reader, Sample, to_sample, is_trusted, agree, any_agrees, Attempt, finish, retry, judge_sample,
  judge_exchange, pause, attempt, read_attempts, read_single_raw, ctx_result,
}

pub to_sample-raw :
    {F : Type 0} (fl : Floats F) (raw : Bytes) (register : ReadRegister F) {s : Sample F}
    → to_sample fl raw register ≡ ok s
    → s.raw ≡ raw
unfolding to_sample
to_sample-raw fl raw register h = ground arith

module _ {W F : Type 0} (d : Device W) (fl : Floats F) (register : ReadRegister F)
    (h : History W) where
  abbrev Exchange : Type 0
  Exchange = Bytes × Result Bytes

  -- A sample that was read in one of these exchanges.
  abbrev pub ReadIn : List Exchange → Sample F → Type 0
  ReadIn new s = (to_sample fl s.raw register ≡ ok s) × Memᴰ (register.command, ok s.raw) new

  -- Why a sample may be trusted.
  abbrev pub Reason : Map F → List Exchange → Sample F → Type 0
  Reason trusted new s =
      (is_trusted fl trusted register s.value ≡ true)
      ⊎ ((earlier : Sample F) × ReadIn new earlier × (agree fl earlier s register ≡ true))

  -- What a call leaves behind, `base` being the exchanges before it.
  abbrev pub Accounted : ℕ → List Exchange → Map F → W × Map F × Result (Bytes × Bytes) → Type 0
  Accounted limit base trusted (w, trusted₁, ok (text, raw)) =
      (s : Sample F) × (new : List Exchange) × (to_sample fl raw register ≡ ok s)
      × (text ≡ s.text)
      × (h.exchanges w ≡ (register.command, ok raw) ∷ (new ++ base))
      × (length new < limit)
      × Reason trusted new s
      × (trusted₁ ≡ put register.name s.value trusted)
  Accounted limit base trusted (w, trusted₁, err e) =
      (new : List Exchange) × (h.exchanges w ≡ new ++ base)
      × (length new ≤ limit)
      × (trusted₁ ≡ trusted)

  abbrev AttemptAccounted : ℕ → List Exchange → Map F → Attempt W F → Type 0
  AttemptAccounted limit base trusted (finish w trusted₁ result) =
      Accounted limit base trusted (w, trusted₁, result)
  AttemptAccounted limit base trusted (retry w samples last) =
      (new : List Exchange) × (h.exchanges w ≡ new ++ base)
      × (length new ≤ limit)
      × All (ReadIn new) samples

  ReadIn-cons :
      (x : Exchange) (new : List Exchange) (samples : List (Sample F))
      → All (ReadIn new) samples
      → All (ReadIn (x ∷ new)) samples
  ReadIn-cons x new [] a = tt
  ReadIn-cons x new (s ∷ samples) ((e, m), a) = ((e, Memᴰ.tail m), ReadIn-cons x new samples a)

  any_agrees-some :
      (new : List Exchange) (samples : List (Sample F)) (s : Sample F)
      → All (ReadIn new) samples
      → any_agrees fl samples s register ≡ true
      → (earlier : Sample F) × ReadIn new earlier × (agree fl earlier s register ≡ true)
  unfolding any_agrees
  any_agrees-some new [] s a e = cc
  any_agrees-some new (t ∷ samples) s (r, a) e = elim (Bool-cases (agree fl t s register)) [
    | inl p ↦ (t, r, p)
    | inr p ↦ any_agrees-some new samples s a (rw p at e)
  ]

  judge_sample-Accounted :
      (limit : ℕ) (base new : List Exchange) (trusted : Map F) (samples : List (Sample F))
      (last : Option Err) (w : W) (raw : Bytes) (o : Result (Sample F))
      → to_sample fl raw register ≡ o
      → h.exchanges w ≡ (register.command, ok raw) ∷ (new ++ base)
      → length new < limit
      → All (ReadIn new) samples
      → AttemptAccounted limit base trusted (judge_sample d fl register w trusted samples last o)
  unfolding judge_sample
  judge_sample-Accounted limit base new trusted samples last w raw (err e) p q k a =
      ((register.command, ok raw) ∷ new, q, k, ReadIn-cons (register.command, ok raw) new samples a)
  judge_sample-Accounted limit base new trusted samples last w raw (ok s) p q k a =
      elim (Bool-cases (is_trusted fl trusted register s.value)) [
        | inl t ↦ rw (t, judge_sample) (accepted (inl t))
        | inr t ↦
            rw (t, judge_sample)
              (elim (Bool-cases (any_agrees fl samples s register)) [
                | inl g ↦ rw (g, judge_sample) (accepted (inr (any_agrees-some new samples s a g)))
                | inr g ↦
                    rw (g, judge_sample)
                      (
                        (register.command, ok raw) ∷ new,
                        q,
                        k,
                        All-append (ReadIn ((register.command, ok raw) ∷ new)) samples (s ∷ [])
                            (ReadIn-cons (register.command, ok raw) new samples a)
                            ((read, Memᴰ.head (ap (λ r. (register.command, ok r)) same)), tt),
                      )
              ])
      ]
    where
      same : s.raw ≡ raw
      same = to_sample-raw fl raw register p

      read : to_sample fl s.raw register ≡ ok s
      read = ap (λ x. to_sample fl x register) same ∙ p

      accepted :
          Reason trusted new s
          → Accounted limit base trusted (w, put register.name s.value trusted, ok (s.text, s.raw))
      accepted reason = (
        s,
        new,
        read,
        refl,
        q ∙ ap (λ x. (register.command, ok x) ∷ (new ++ base)) (sym same),
        k,
        reason,
        refl,
      )

  judge_exchange-Accounted :
      (limit : ℕ) (base new : List Exchange) (trusted : Map F) (samples : List (Sample F))
      (last : Option Err) (out : W × Result Bytes)
      → h.exchanges out.0 ≡ (register.command, out.1) ∷ (new ++ base)
      → length new < limit
      → All (ReadIn new) samples
      → AttemptAccounted limit base trusted (judge_exchange d fl register trusted samples last out)
  unfolding judge_exchange
  judge_exchange-Accounted limit base new trusted samples last (w, ok raw) q k a =
      judge_sample-Accounted limit base new trusted samples last w raw (to_sample fl raw register)
        refl q k a
  judge_exchange-Accounted limit base new trusted samples last (w, err e) q k a =
      elim (Option-cases (d.clock.ctx_err w)) [
        | inr (c, p) ↦ rw (p, judge_exchange) ((register.command, err e) ∷ new, q, k, refl)
        | inl p ↦
            rw (p, judge_exchange)
              (elim (Bool-cases (is_port_error e)) [
                | inl g ↦ rw (g, judge_exchange) ((register.command, err e) ∷ new, q, k, refl)
                | inr g ↦
                    rw (g, judge_exchange)
                      (
                        (register.command, err e) ∷ new,
                        q,
                        k,
                        ReadIn-cons (register.command, err e) new samples a,
                      )
              ])
      ]

  module _ (context : IsContext d) (recorded : IsRecorded d h) where
    sleep_recorded : (n : ℕ) (w : W) → h.exchanges (sleep_ctx d.clock n w).0 ≡ h.exchanges w
    unfolding sleep_ctx
    sleep_recorded n w = ground (arith, recorded.wait_recorded n w)

    jittered_recorded : (n : ℕ) (w : W) → h.exchanges (jittered d n w).0 ≡ h.exchanges w
    unfolding jittered
    jittered_recorded n w = ground (arith, recorded.random_recorded (n / 2 + 1) w)

    pause_recorded :
        (backoff : ℕ) (first : Bool) (w : W)
        → h.exchanges (pause d fl register backoff first w).0 ≡ h.exchanges w
    unfolding pause
    pause_recorded backoff true w = refl
    pause_recorded backoff false w =
        sleep_recorded (jittered d backoff w).1 (jittered d backoff w).0
        ∙ jittered_recorded backoff w

    -- A pause that is cut short leaves the context ended.
    sleep_cut :
        (n : ℕ) (w : W)
        → (sleep_ctx d.clock n w).1 ≡ false
        → d.clock.ctx_err (sleep_ctx d.clock n w).0 ≢ none
    unfolding sleep_ctx
    sleep_cut n w e = ground (arith, context.wait_cut n w)

    pause_cut :
        (backoff : ℕ) (first : Bool) (w : W)
        → (pause d fl register backoff first w).1 ≡ false
        → d.clock.ctx_err (pause d fl register backoff first w).0 ≢ none
    unfolding pause
    pause_cut backoff true w e = cc
    pause_cut backoff false w e = sleep_cut (jittered d backoff w).1 (jittered d backoff w).0 e

    attempt-Accounted :
        (limit : ℕ) (base new : List Exchange) (backoff : ℕ) (first : Bool) (trusted : Map F)
        (samples : List (Sample F)) (last : Option Err) (w : W)
        → h.exchanges w ≡ new ++ base
        → length new < limit
        → All (ReadIn new) samples
        → AttemptAccounted limit base trusted
            (attempt d fl register backoff first trusted samples last w)
    unfolding attempt
    attempt-Accounted limit base new backoff first trusted samples last w q k a =
        elim (Option-cases (d.clock.ctx_err w)) [
          | inr (e, p) ↦ rw (p, attempt) (new, q, omega arith, refl)
          | inl p ↦
              rw (p, attempt)
                (elim (Bool-cases (pause d fl register backoff first w).1) [
                  | inl s ↦
                      rw (s, attempt)
                        (exchanged (pause d fl register backoff first w).0
                          (pause_recorded backoff first w ∙ q))
                  | inr s ↦
                      rw (s, attempt)
                        (cut (pause d fl register backoff first w).0
                          (pause_recorded backoff first w ∙ q) (pause_cut backoff first w s))
                ])
        ]
      where
        exchanged :
            (w₁ : W)
            → h.exchanges w₁ ≡ new ++ base
            → AttemptAccounted limit base trusted (
                judge_exchange d fl register trusted samples last
                  (d.dev.transact register.command w₁))
        exchanged w₁ q₁ =
            judge_exchange-Accounted limit base new trusted samples last
              (d.dev.transact register.command w₁)
              (recorded.transact_recorded register.command w₁
                ∙ ap (λ x. (register.command, (d.dev.transact register.command w₁).1) ∷ x) q₁)
              k a

        cut :
            (w₁ : W)
            → h.exchanges w₁ ≡ new ++ base
            → d.clock.ctx_err w₁ ≢ none
            → AttemptAccounted limit base trusted (finish w₁ trusted (ctx_result d fl register w₁))
        cut w₁ q₁ n = elim (Option-cases (d.clock.ctx_err w₁)) [
          | inl p ↦ absurd (n p)
          | inr (e, p) ↦ rw (p, ctx_result) (new, q₁, omega arith, refl)
        ]

    read_attempts-Accounted :
        (n limit : ℕ) (base new : List Exchange) (backoff : ℕ) (first : Bool) (trusted : Map F)
        (samples : List (Sample F)) (last : Option Err) (w : W)
        → h.exchanges w ≡ new ++ base
        → length new + n ≤ limit
        → All (ReadIn new) samples
        → Accounted limit base trusted
            (read_attempts d fl register n backoff first trusted samples last w)
    unfolding read_attempts
    read_attempts-Accounted zero limit base new backoff first trusted samples last w q k a =
        (new, q, omega arith, refl)
    read_attempts-Accounted (suc n) limit base new backoff first trusted samples last w q k a =
        by_attempt (attempt d fl register backoff first trusted samples last w) refl
          (attempt-Accounted (suc (length new)) base new backoff first trusted samples last w q
            (omega arith) a)
          (λ new₁ samples₁ last₁ w₁.
            read_attempts-Accounted n limit base new₁ backoff false trusted samples₁ last₁ w₁)
      where
        widen :
            (out : W × Map F × Result (Bytes × Bytes))
            → Accounted (suc (length new)) base trusted out
            → Accounted limit base trusted out
        widen (w₁, t₁, ok (text, raw)) (s, m, b, c, e, f, r, t) = (s, m, b, c, e, omega arith, r, t)
        widen (w₁, t₁, err x) (m, e, f, t) = (m, e, omega arith, t)

        by_attempt :
            (o : Attempt W F)
            → attempt d fl register backoff first trusted samples last w ≡ o
            → AttemptAccounted (suc (length new)) base trusted o
            → ((new₁ : List Exchange) (samples₁ : List (Sample F)) (last₁ : Option Err) (w₁ : W)
                → h.exchanges w₁ ≡ new₁ ++ base
                → length new₁ + n ≤ limit
                → All (ReadIn new₁) samples₁
                → Accounted limit base trusted
                    (read_attempts d fl register n backoff false trusted samples₁ last₁ w₁))
            → Accounted limit base trusted
                (read_attempts d fl register (suc n) backoff first trusted samples last w)
        by_attempt (finish w₁ t₁ result) e a rest = rw (e, read_attempts) (widen (w₁, t₁, result) a)
        by_attempt (retry w₁ samples₁ last₁) e (new₁, q₁, k₁, a₁) rest =
            rw (e, read_attempts) (rest new₁ samples₁ last₁ w₁ q₁ (omega arith) a₁)

    -- A call makes at most `retries` exchanges. A value that it returns was read by the last of them, is
    -- in range, and is within confirm_step of the last trusted value or agrees with another reading of
    -- this call; it becomes the register's trusted value. On an error no trusted value changes.
    pub read_single_raw-Accounted :
        (r : Reader F) (trusted : Map F) (w : W)
        → Accounted r.retries (h.exchanges w) trusted (read_single_raw d fl register r trusted w)
    unfolding read_single_raw
    read_single_raw-Accounted r trusted w =
        read_attempts-Accounted r.retries r.retries (h.exchanges w) [] r.backoff true trusted []
          none w refl (omega arith) tt
