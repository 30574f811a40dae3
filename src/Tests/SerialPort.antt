-- ===== src/Tests/SerialPort.antt =====
-- Transactions, the supervisor and the defaults of internal/serial on the simulated line.
use aerosmart_gateway.Base.{
  ◌≡◌, ◌≢◌, refl, Bytes, codes, true, false, Option, none, some, [], ◌∷◌, ◌++◌, arith, inl,
  eq_bytes,
}
use mathlib.Core.List.{Memᴰ}
use aerosmart_gateway.Base.Int.{pos, negsuc}
use aerosmart_gateway.Serial.Errors.{Err, is_cancellation}
use aerosmart_gateway.Serial.FrameReader.{
  FrameReader, new_frame_reader, read_frame, FrameResult, frame, wait_quiet, cut_line, trim_right,
  newline,
}
use aerosmart_gateway.Serial.FrameReader.Stream.{Accounts, read_frame-Accounts}
use aerosmart_gateway.Serial.Response.{parse_response, command_prefix, split_lines, is_integer}
use aerosmart_gateway.Serial.Response
use aerosmart_gateway.Serial.FrameReader
use aerosmart_gateway.Serial.SerialPort
use aerosmart_gateway.Serial.Response.Sound.{IsAnswer, parse_response_sound}
use aerosmart_gateway.Serial.Response.RoundTrip.{parse_response-reply, reply}
use aerosmart_gateway.Serial.Config.{Config}
use aerosmart_gateway.Serial.SerialPort.{
  SerialPort, Outcome, returned, raised, unfinished, crlf, transact, send, new,
}
use aerosmart_gateway.Serial.SerialPort.Written.{AtMostOnce, transact_written}
use aerosmart_gateway.Serial.SerialPort.Health.{IsSound, Judged, transact-Judged}
use aerosmart_gateway.Serial.SerialPort.Termination.{transact_total}
use aerosmart_gateway.Serial.Supervisor.{Supervisor}
use aerosmart_gateway.Tests.Serial.{Wire, port, clock, line, timely, logged, busy_line, reader}

read_frame-Accounts_example :
    Accounts port clock line logged [] (read_frame port clock 20 1_000 reader busy_line)
read_frame-Accounts_example =
    read_frame-Accounts port clock line logged 20 1_000 reader busy_line [] refl

abbrev noisy : Bytes
noisy = 1 ∷ codes "130 201 -3" ++ 13 ∷ []

noisy_value : parse_response noisy (codes "130 201") ≡ some (codes "-3")
unfolding parse_response Response.parse_lines split_lines Response.parse_line Response.has_char
    Response.trim_func Response.parse_fields Response.fields Response.is_integer eq_bytes
noisy_value = refl

minus_three : is_integer (codes "-3") ≡ true
unfolding is_integer
minus_three = refl

parse_response_sound_example :
    (raw : Bytes) × Memᴰ raw (split_lines noisy) × IsAnswer raw (codes "130 201") (codes "-3")
parse_response_sound_example = parse_response_sound noisy (codes "130 201") noisy_value

parse_response-reply_example :
    parse_response
      ((1 ∷ []) ++ (reply (codes "130") (codes "201") (codes "-3") ++ 13 ∷ []))
      (command_prefix (codes "130 201"))
    ≡ some (codes "-3")
parse_response-reply_example =
    parse_response-reply (codes "130") (codes "201") (codes "-3") ((λ e. cc), omega arith)
      ((λ e. cc), omega arith) minus_three (1 ∷ []) (13 ∷ []) [] (refl, tt) (refl, tt) (omega arith)
      (omega arith) (inl refl)

abbrev settings : Config
settings = record {
  port = codes "/dev/ttyUSB0";
  baud_rate = pos 115_200;
  data_bits = pos 8;
  parity = codes "N";
  stop_bits = pos 1;
  read_timeout = pos 100;
  response_timeout = pos 1_000;
  reopen_backoff = pos 4;
  max_reopen_backoff = pos 30;
  health_check_interval = pos 10;
  bus_quiet_gap = pos 20;
  bus_quiet_max_wait = pos 100;
}

-- Nothing is set but a negative read timeout.
abbrev unset : Config
unset = record {
  port = [];
  baud_rate = pos 0;
  data_bits = pos 0;
  parity = [];
  stop_bits = pos 0;
  read_timeout = negsuc 4;
  response_timeout = pos 0;
  reopen_backoff = pos 60_000_000_000;
  max_reopen_backoff = pos 0;
  health_check_interval = pos 0;
  bus_quiet_gap = pos 0;
  bus_quiet_max_wait = pos 0;
}

abbrev opened : SerialPort
opened = record { cfg = settings; port = true; fr = some reader; is_open = true; healthy = true }

abbrev answering : Wire
answering = record {
  clock = 0;
  input = [];
  received = [];
  written = [];
  answer = codes "140 7 1\r\n130 201 3\r\n";
}

abbrev open_port : Wire → Wire × Option Err
open_port w = (w, none)

-- The frame of another conversation is passed over.
transact_value :
    (transact port clock open_port 10 10 40 (codes "130 201") opened answering).2
    ≡ returned (codes "3")
unfolding transact SerialPort.await_sent SerialPort.transmit wait_quiet FrameReader.quiet_round
    FrameReader.read SerialPort.await_response SerialPort.on_frame read_frame
    FrameReader.frame_round cut_line FrameReader.reset FrameReader.no_line FrameReader.after_read
    trim_right command_prefix parse_response Response.parse_lines split_lines Response.parse_line
    Response.has_char Response.trim_func Response.parse_fields Response.fields Response.is_integer
    eq_bytes
transact_value = refl

transact_written_example :
    let (s₁, w₁, result) =
      transact port clock open_port 10 10 40 (codes "130 201") opened answering in
    AtMostOnce port clock line logged open_port (codes "130 201") answering (w₁, result)
transact_written_example =
    transact_written port clock line logged open_port 10 10 40 (codes "130 201") opened answering

never_cancelled : (w : Wire) (err : Err) → clock.ctx_err w ≡ some err → is_cancellation err ≡ true
never_cancelled w err e = cc

opened-IsSound : IsSound opened
opened-IsSound = ground arith

transact-Judged_example :
    let (s₁, w₁, result) =
      transact port clock open_port 10 10 40 (codes "130 201") opened answering in
    Judged opened (s₁, result) × IsSound s₁
transact-Judged_example =
    transact-Judged port clock open_port never_cancelled 10 10 40 (codes "130 201") opened answering
      opened-IsSound

transact_total_example :
    (transact port clock open_port 202 257_001 257_001 (codes "130 201") opened answering).2
    ≢ unfinished
transact_total_example =
    transact_total port clock open_port timely 202 257_001 257_001 (codes "130 201") opened
      answering (omega arith) (omega arith) (omega arith)

abbrev waiting : Supervisor
waiting = record { backoff = 8; healthy_since = none }

abbrev failed_port : SerialPort
failed_port = record opened { healthy = false }
