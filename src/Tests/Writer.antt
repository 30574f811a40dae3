-- ===== src/Tests/Writer.antt =====
-- Commands of internal/registers/writer.go and resettle.go on the simulated unit.
use aerosmart_gateway.Base.{
  ℕ, ◌≡◌, refl, codes, true, none, some, [], ◌∷◌, arith, ltb, ◌-◌, eq_bytes, put,
}
use aerosmart_gateway.Base.Int.{ℤ, pos}
use aerosmart_gateway.Base.Decimal.{atoi, itoa}
use aerosmart_gateway.Base.Text.{trim_space}
use aerosmart_gateway.Config.Types.{WriteRegister}
use aerosmart_gateway.Serial.Errors.{eio, is_cancellation, wrap, other}
use aerosmart_gateway.Serial.World.{sleep_ctx}
use aerosmart_gateway.Registers.Gate.{ReadGate}
use aerosmart_gateway.Registers.Reader.{find_register}
use aerosmart_gateway.Mqtt.Command.{parse_write_register_command}
use aerosmart_gateway.Registers.Resettle.{PendingRefresh, due}
use aerosmart_gateway.Registers.Resettle.Due.{IsSplit, due-IsSplit}
use aerosmart_gateway.Registers.Writer
use aerosmart_gateway.Registers.Writer.{Memory, Writer, WriteResult, is_duplicate}
use aerosmart_gateway.Registers.Writer.Command.{send_command, verify}
use aerosmart_gateway.Registers.Writer.Command
use aerosmart_gateway.Registers.Writer.Handle
use aerosmart_gateway.Registers.Writer.Handle.{handle_message, apply_command}
use aerosmart_gateway.Registers.Writer.Handle.Sent.{Commanded, handle_message-Commanded}
use aerosmart_gateway.Registers.Writer.Handle.Retry.{command_of, apply_command-resend_failed}
use aerosmart_gateway.Tests.Fixed.{fixed}
use aerosmart_gateway.Tests.Bus.{
  Bus, device, traffic, device-IsTraced, failing, idle_bus, nothing_trusted,
}

abbrev stage : WriteRegister
stage = record {
  name = codes "stage";
  command_template = codes "130 40 {value}";
  subscribe_topic = codes "aerosmart/stage/set";
  topic = codes "aerosmart/stage";
  min_value = pos 0;
  max_value = pos 4;
  verify_registers = [];
  state_from = [];
  ha_name = codes "Stage";
  ha_command_topic = [];
}

abbrev writer : Writer ℤ
writer = record {
  registers = stage ∷ [];
  reader = none;
  retries = 3;
  backoff = 10;
  settle_delay = 5;
  dedupe_window = 1_000_000_000;
  resettle = some 100;
}

abbrev gate : ReadGate
gate = record { cancel = some 7; cycle_id = 7; until = none; timeout = 1_000; holds = 0 }

abbrev fresh : Memory ℤ
fresh = record {
  gate = gate;
  trusted = nothing_trusted;
  write_seq = λ name. none;
  last_command = λ topic. none;
  pending = [];
}

abbrev late : PendingRefresh
late = record { register = stage; seq = 2; due = 70 }

abbrev early : PendingRefresh
early = record { register = record stage { name = codes "party" }; seq = 1; due = 30 }

due-IsSplit_example : IsSplit 50 (late ∷ early ∷ []) (due 50 (late ∷ early ∷ []))
due-IsSplit_example = due-IsSplit 50 (late ∷ early ∷ [])

handle_message-Commanded_example :
    Commanded device fixed writer traffic
      (codes "aerosmart/stage/set")
      (codes " +3\n")
      fresh
      (idle_bus [])
      (handle_message device fixed writer
        (codes "aerosmart/stage/set")
        (codes " +3\n")
        fresh
        (idle_bus []))
handle_message-Commanded_example =
    handle_message-Commanded device fixed writer traffic device-IsTraced (omega arith)
      (codes "aerosmart/stage/set") (codes " +3\n") fresh (idle_bus [])

-- The message is trimmed, parsed and sent as the number that it is.
commanded_run :
    (handle_message device fixed writer
      (codes "aerosmart/stage/set")
      (codes " +3\n")
      fresh
      (idle_bus [])).1.sent
    ≡ codes "130 40 3" ∷ []
unfolding handle_message Writer.find_topic eq_bytes trim_space atoi itoa is_duplicate send_command
    parse_write_register_command sleep_ctx verify Command.publish_state
commanded_run = refl

-- The memory and the world behind one round of the command.
abbrev sent_once : Bus
sent_once = record (idle_bus []) { sent = codes "130 40 3" ∷ [] }

abbrev settled : Bus
settled = record sent_once { clock = 5 }

abbrev confirmed : WriteResult
confirmed = record { actual = none; err = none }

abbrev remembered : Memory ℤ
remembered = record {
  gate = record { cancel = none; cycle_id = 7; until = some 1_000; timeout = 1_000; holds = 1 };
  trusted = nothing_trusted;
  write_seq = put (codes "stage") 1 (λ name. none);
  last_command =
      put (codes "aerosmart/stage/set") (record { value = codes "3"; at = 0 }) (λ topic. none);
  pending = [];
}

-- A register that is to be verified by one that cannot be read.
abbrev unverified : WriteRegister
unverified = record stage { verify_registers = codes "missing" ∷ [] }

abbrev checking : Writer ℤ
checking = record writer { reader = some (record { registers = []; retries = 2; backoff = 0 }) }

abbrev unconfirmed_result : WriteResult
unconfirmed_result = record { actual = none; err = some (other 4) }

first_send :
    send_command failing fixed checking
      (command_of failing fixed checking unverified (pos 3))
      (idle_bus [])
    ≡ (sent_once, none)
unfolding send_command itoa parse_write_register_command
first_send = refl

settle : sleep_ctx failing.clock 5 sent_once ≡ (settled, true)
unfolding sleep_ctx
settle = refl

unconfirmed_run :
    verify failing fixed checking unverified (pos 3) nothing_trusted settled
    ≡ (settled, nothing_trusted, unconfirmed_result)
unfolding verify eq_bytes Command.read_back_one find_register
unconfirmed_run = refl

second_send :
    send_command failing fixed checking
      (command_of failing fixed checking unverified (pos 3))
      settled
    ≡ (record settled { clock = 25 }, some eio)
unfolding send_command itoa parse_write_register_command sleep_ctx is_cancellation
second_send = refl

apply_command-resend_failed_example :
    let (m₁, w₁, failed) =
      apply_command failing fixed checking
        (codes "aerosmart/stage/set")
        unverified
        (pos 3)
        fresh
        (idle_bus []) in
    (failed ≡ some (wrap eio))
    × ((window now : ℕ)
        → is_duplicate window now (codes "aerosmart/stage/set") (itoa (pos 3)) m₁
          ≡ ltb (now - 0) window)
apply_command-resend_failed_example =
    apply_command-resend_failed failing fixed checking (codes "aerosmart/stage/set") unverified
      (pos 3) fresh (idle_bus []) sent_once settled settled (record settled { clock = 25 })
      nothing_trusted unconfirmed_result (other 4) eio first_send settle unconfirmed_run refl
      second_send
