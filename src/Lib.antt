-- ===== src/Lib.antt =====
-- Verification of aerosmart-gateway, a gateway between an aerosmart ventilation unit on a shared serial
-- bus and an MQTT broker with Home Assistant.
--
-- The program's parts. internal/serial talks to the unit: it waits for a quiet bus, writes a command,
-- reads lines until one answers it, and a supervisor reopens a port that has failed. internal/registers
-- reads the unit's registers in cycles, publishes what it can trust, computes derived values, and
-- applies the commands that arrive by MQTT; a gate gives writes priority over read cycles.
-- internal/config holds the settings, internal/mqtt the broker's client, cmd wires them together.
--
-- How the code is modelled. A function of the source is a function of its name in snake_case, on records
-- with the source's fields. Everything outside the program (the port's driver, the clock, contexts,
-- randomness, the broker, files) is a type W with the functions that the source calls, which return the
-- next state; what the proofs need of them is a record of documented behaviour (IsTimely, IsLogged,
-- IsContext, IsRecorded, IsTraced, IsSent, IsAsked). A method that holds a mutex is one step. Errors are
-- values of Err, whose wrap is %w. Strings are lists of bytes. float64 is a parameter (Base/Float.antt),
-- since there is no floating point to compute with. The calls of the logger are left out of the other
-- functions.
--
-- Which file models what:
--   Serial/Errors.antt               errors and their classification, framing.go and serial.go
--   Serial/World.antt                Port and the clock, with their laws
--   Serial/FrameReader.antt          frameReader: read, readFrame, waitQuiet (internal/serial/framing.go)
--     Termination, Stream, Session   both loops end; no byte is lost; the lines of a whole session
--   Serial/Response.antt             ParseResponse and commandPrefix (internal/serial/serial.go)
--     Sound, RoundTrip               what a value was taken from; replies are found
--   Serial/Config.antt               Config.applyDefaults
--   Serial/SerialPort.antt           SerialPort: open, close, reopen, transmit, Transact, Send
--     Written, Termination, Health   one write per call; calls return; when the port turns unhealthy
--   Serial/Supervisor.antt           one round of Supervise, and its backoff
--   Config/Types.antt                the register definitions of registers.yaml
--   Config/App.antt                  AppConfig and applyDefaults (internal/config/config.go)
--     Valid, Budget                  Validate and ValidateCycleBudget
--   Config/Check.antt                RegistersConfig.Validate (internal/config/config.go)
--     Accepted, Names                what accepted write registers promise the writer; distinct names
--   Config/Warnings.antt             Warnings of both configurations (internal/config/config.go)
--   Mqtt/Command.antt                ParseWriteRegisterCommand (internal/mqtt/client.go)
--   Mqtt/Client.antt                 publishing with retries (internal/mqtt/client.go)
--     Delivered, Retained            what is sent, and what success means; what the broker then retains
--     Untouched                      what publishing leaves alone
--   Mqtt/Session.antt                connecting, subscribing, Disconnect (internal/mqtt/client.go)
--     Closed, Restored               what follows a shutdown; what a new connection restores
--   Mqtt/Discovery.antt              Home Assistant's entries (internal/mqtt/discovery.go)
--     Topics                         that different entities have different topics
--     Publish, Publish/OneEntity     publishing them (internal/mqtt/client.go); none is left stale
--     Publish/Elsewhere              what publishing one leaves alone
--   Registers/Gate.antt              ReadGate (internal/registers/gate.go)
--     System, Priority               the gate with a poll loop and writers, in every order of steps
--   Registers/Device.antt            Transactor, Publisher and the world of internal/registers
--   Registers/Reader.antt            readSingleRaw and what it calls (internal/registers/reader.go)
--     Trust, Range, Untouched        which readings are let through, and what a read leaves alone
--   Registers/Values.antt            the map of a read cycle's values
--   Registers/Derived.antt           DerivedCalculator (internal/registers/derived.go)
--     Inputs                         what the formulas read
--   Registers/Cycle.antt             ReadAll, PublishAll and RunCycle (internal/registers/poller.go)
--     Published, Snapshot            what a cycle publishes
--   Registers/Resettle.antt          the pending re-reads (internal/registers/resettle.go)
--     Due, Schedule                  which are due, and what a new request replaces
--     Loop, Loop/Wakeup, Loop/Kept   run and the callers of schedule, in every order of steps
--   Registers/Writer.antt            the Writer's shared maps (internal/registers/writer.go)
--     Command, Handle, Refresh       sending, reading back and judging; HandleMessage; settle re-reads
--     Handle/Sent, Retry             what is sent for a message; which repetitions are dropped
--   Cmd/Queue.antt                   the command queue (cmd/commandqueue.go)
--     Fifo                           the queue with its callers, in every order of steps
--   Cmd/PollLoop.antt                pollLoop (cmd/main.go)
--     Paced                          how long it waits, and when it ends
--   Cmd/StartUp.antt                 openSerialWithRetry, connectMQTTWithRetry (cmd/main.go)
--     Opened, Connected              how often each tries, and what its result means
--   Cmd/Announce.antt                publishHADiscovery (cmd/main.go)
--     Counted, Kept, Acting          one loop: its counts, what it leaves; what one entity leaves
--     Retained                       what the broker retains behind it
--   Cmd/Load.antt                    loadConfig, and what run configures (cmd/main.go)
--     Ready                          what a configuration that is loaded promises
--   Cmd/Service.antt                 run, as the order of its steps, and main's exit status (cmd/main.go)
--     Orderly, Started               that the order is right; what has been started at the end
--   Log.antt                         Logger, its levels and its outputs (internal/logger/logger.go)
--     Heard, Closed                  where a message goes; what follows Close
--   Base                             integers, texts, decimal numbers and lists
--   Tests                            simulated ports and units, and runs of the models on them
--
-- Fuel. The loops of readFrame, waitQuiet and Transact run on fuel, with theorems that fuel in
-- proportion to the time that is left is enough: a read takes time and returns at most 256 bytes. All
-- other loops are structural. The supervisor's endless loop is modelled by its single rounds, and those of
-- pollLoop and openSerialWithRetry by any number of first rounds.
--
-- Bounds. Time is a natural number of nanoseconds. The gate's cycle id and the writer's sequence
-- numbers are 64-bit and wrap; int is modelled by integers, with the 64-bit wrap where the source
-- multiplies settings.
--
-- Not modelled: the driver behind Port, the paho client, YAML decoding, the text of a JSON payload, the
-- formatting of log messages and warnings, and the flags and the signal handler of cmd/main.go.
pub mod Base
pub mod Serial
pub mod Config
pub mod Log
pub mod Mqtt
pub mod Registers
pub mod Cmd
mod Tests
