-- ===== src/Tests/Serial.antt =====
-- A simulated line for internal/serial: it hands over one byte at a time, and a nanosecond passes for
-- each read and write. Writing a command makes the unit send `answer`.
use aerosmart_gateway.Base.{
  ℕ, ◌+◌, ◌≤◌, ◌<◌, ◌≡◌, ◌≢◌, refl, Bytes, codes, true, Option, none, List, [], ◌∷◌, ◌++◌,
  append-nil, arith, length,
}
use aerosmart_gateway.Serial.Errors.{Err}
use aerosmart_gateway.Serial.World.{Port, Clock, Line, IsTimely, IsLogged}
use aerosmart_gateway.Serial.FrameReader.{
  FrameReader, FrameResult, new_frame_reader, read, after_read, no_line, frame_round, read_frame,
  out_of_fuel, frame, wait_quiet, quiet_out_of_fuel, cut_line, trim_right,
}
use aerosmart_gateway.Serial.FrameReader.Termination.{read_frame_total, wait_quiet_total}
use aerosmart_gateway.Serial.FrameReader.Session.{
  read_frames, read_frames-complete_lines, delivered, NoOverflow,
}
use aerosmart_gateway.Serial.FrameReader.Stream.{complete_lines}

pub record Wire : Type 0 where
  pub clock : ℕ
  pub input : Bytes
  pub received : Bytes
  pub written : List Bytes
  pub answer : Bytes

abbrev pub step : Bytes → Wire → Wire × Bytes × Option Err
step [] w = (record w { clock = w.clock + 1 }, [], none)
step (c ∷ rest) w =
    (record w { clock = w.clock + 1; input = rest; received = w.received ++ c ∷ [] }, c ∷ [], none)

abbrev pub port : Port Wire
port = record {
  read = λ w. step w.input w;
  write = λ b w.
      (record w { clock = w.clock + 1; input = w.answer; written = w.written ++ b ∷ [] }, none);
  reset_input = λ w. (w, none);
  drain = λ w. (w, none);
  set_read_timeout = λ d w. (w, none);
  close = λ w. (w, none);
}

abbrev pub clock : Clock Wire
clock = record {
  now = λ w. w.clock;
  sleep = λ d w. record w { clock = w.clock + d };
  ctx_err = λ w. none;
  wait = λ d w. (record w { clock = w.clock + d }, true);
}

abbrev pub line : Line Wire
line = record { received = λ w. w.received; written = λ w. w.written }

step-ticks : (s : Bytes) (w : Wire) → (w.clock < (step s w).0.clock) × (length (step s w).1 ≤ 256)
step-ticks [] w = omega arith
step-ticks (c ∷ s) w = omega arith

pub timely : IsTimely port clock
timely = record {
  read_ticks = λ w. (step-ticks w.input w).0;
  read_fits = λ w. (step-ticks w.input w).1;
  sleep_lasts = λ d w. omega arith;
  set_passes = λ d w. omega arith;
}

step-received :
    (s : Bytes) (w : Wire)
    → ((step s w).0.received ≡ w.received ++ (step s w).1) × ((step s w).0.written ≡ w.written)
step-received [] w = (rw append-nil, refl)
step-received (c ∷ s) w = (refl, refl)

pub logged : IsLogged port clock line
logged = record {
  read_received = λ w. (step-received w.input w).0;
  sleep_received = λ d w. refl;
  set_received = λ d w. refl;
  read_written = λ w. (step-received w.input w).1;
  sleep_written = λ d w. refl;
  set_written = λ d w. refl;
  reset_written = λ w. refl;
  drain_written = λ w. refl;
  write_written = λ b w. refl;
}

-- Two replies, the first behind a stray carriage return, and the beginning of a third.
abbrev pub busy_line : Wire
busy_line = record {
  clock = 0;
  input = codes "130 201 3\r\n140 1045 7\n130";
  received = [];
  written = [];
  answer = [];
}

abbrev pub reader : FrameReader
reader = record { buf = []; timeout = 100; port_timeout = 0 }

-- One call delivers the first reply without its terminator.
first_frame : (read_frame port clock 20 1_000 reader busy_line).2 ≡ frame (codes "130 201 3")
unfolding read_frame frame_round cut_line no_line after_read read trim_right
first_frame = refl

read_frame_total_example : (read_frame port clock 257_001 1_000 reader busy_line).2 ≢ out_of_fuel
read_frame_total_example =
    read_frame_total port clock timely 257_001 1_000 reader busy_line (omega arith)

wait_quiet_total_example : (wait_quiet port clock 202 20 100 reader busy_line).2 ≢ quiet_out_of_fuel
wait_quiet_total_example =
    wait_quiet_total port clock timely 202 20 100 reader busy_line (omega arith)

two_results :
    (read_frames port clock 40 (1_000 ∷ 1_000 ∷ []) (new_frame_reader 100) busy_line).2
    ≡ frame (codes "130 201 3") ∷ frame (codes "140 1045 7") ∷ []
unfolding read_frames new_frame_reader read_frame frame_round cut_line no_line after_read read
    trim_right
two_results = refl

two_frames-NoOverflow :
    (s t : Bytes) (rs : List FrameResult) → rs ≡ frame s ∷ frame t ∷ [] → NoOverflow rs
two_frames-NoOverflow s t rs e = rw e ((λ x. absurd (cc)), ((λ x. absurd (cc)), tt))

read_frames-complete_lines_example :
    let (f₁, w₁, results) =
      read_frames port clock 40 (1_000 ∷ 1_000 ∷ []) (new_frame_reader 100) busy_line in
    complete_lines (line.received w₁) ≡ delivered results ++ complete_lines f₁.buf
read_frames-complete_lines_example =
    read_frames-complete_lines port clock line logged 100 40 (1_000 ∷ 1_000 ∷ []) busy_line refl
      (two_frames-NoOverflow (codes "130 201 3") (codes "140 1045 7") _ two_results)
