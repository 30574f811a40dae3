-- ===== src/Serial/Errors.antt =====
-- The errors of the program, and how they are classified (internal/serial/framing.go, serial.go).
-- `wrap` is what `fmt.Errorf("...: %w", ...)` makes: `errors.Is` and `errors.As` look through it.
use aerosmart_gateway.Base.{ℕ, Bool, true, false, ◌≡◌, refl, arith, if◌then◌else◌}

-- The codes of the driver's `PortError` that the program tells apart; `other_code` is any other.
pub data PortCode : Type 0 where
  port_closed port_not_found invalid_serial_port other_code : PortCode

pub data Err : Type 0 where
  -- framing.go: ErrReadTimeout, ErrFrameOverflow; serial.go: ErrPortNotOpen
  read_timeout frame_overflow port_not_open : Err
  -- the standard library's values
  eof os_deadline_exceeded ctx_canceled ctx_deadline_exceeded os_closed not_exist : Err
  -- syscall.Errno
  eagain eintr eio enodev enxio ebadf etimedout : Err
  -- registers: ErrUnconfirmed, ErrCycleSkipped, ErrNoFormula; config: ErrInvalidConfig
  unconfirmed cycle_skipped no_formula invalid_config : Err
  -- any other `net.Error`, with what its `Timeout` says
  net_error : Bool → Err
  -- the driver's `*serial.PortError`
  port_error : PortCode → Err
  -- any error that is none of these
  other : ℕ → Err
  wrap : Err → Err

-- `errors.Is(err, e)` for a sentinel `e` is a test of the innermost error.
abbrev pub cause : Err → Err
cause (wrap e) = cause e
cause e = e

-- What a function returns that has a value and an error.
pub data Result {ℓ} (A : Type ℓ) : Type ℓ where
  ok : A → Result A
  err : Err → Result A

-- The innermost error counts as a timeout: the four sentinels, or a `net.Error` that says so.
-- `os.ErrDeadlineExceeded`, `context.DeadlineExceeded` and `syscall.Errno` are `net.Error`s.
abbrev says_timeout : Err → Bool
says_timeout read_timeout = true
says_timeout eof = true
says_timeout os_deadline_exceeded = true
says_timeout eagain = true
says_timeout ctx_deadline_exceeded = true
says_timeout etimedout = true
says_timeout (net_error b) = b
says_timeout _ = false

unfoldable pub is_timeout : Err → Bool
is_timeout e = says_timeout (cause e)

-- The codes that mean that the port is gone, and the other errors that do.
abbrev says_gone : Err → Bool
says_gone (port_error port_closed) = true
says_gone (port_error port_not_found) = true
says_gone (port_error invalid_serial_port) = true
says_gone eio = true
says_gone enodev = true
says_gone enxio = true
says_gone ebadf = true
says_gone os_closed = true
says_gone not_exist = true
says_gone port_not_open = true
says_gone _ = false

unfoldable pub is_port_error : Err → Bool
unfolding is_timeout
is_port_error e = if is_timeout e then false else says_gone (cause e)

-- serial.go and reader.go have one copy each.
abbrev says_cancelled : Err → Bool
says_cancelled ctx_canceled = true
says_cancelled ctx_deadline_exceeded = true
says_cancelled _ = false

unfoldable pub is_cancellation : Err → Bool
is_cancellation e = says_cancelled (cause e)

-- `errors.Is(err, syscall.EINTR)`.
unfoldable pub is_interrupted : Err → Bool
is_interrupted e = elim (cause e) [ eintr ↦ true | _ ↦ false ]

cause_split : (e : Err) → says_timeout (cause e) ≡ true → says_gone (cause e) ≡ false
cause_split (wrap e) h = cause_split e h
cause_split (net_error b) h = refl
cause_split (port_error c) h = cc
cause_split read_timeout h = refl
cause_split e h = ground arith

-- A cancelled context is never a port error, however deep it is wrapped.
pub cancellation-not-port_error : (e : Err) → is_cancellation e ≡ true → is_port_error e ≡ false
unfolding is_cancellation is_port_error
cancellation-not-port_error (wrap e) h = cancellation-not-port_error e h
cancellation-not-port_error (net_error b) h = cc
cancellation-not-port_error (port_error c) h = cc
cancellation-not-port_error read_timeout h = refl
cancellation-not-port_error e h = ground arith
