-- ===== src/Lib.antt =====
-- Verification of the ESP32 real-time energy controller: a firmware that samples a power meter, runs a
-- latching protection state machine over the samples, and drives a relay by its state.
--
-- The parts, and the files that model them (paths from the root of the repository):
--
-- Base: what all parts share. Words are numbers below 2 ^ 32 and `sub32` is the wrapping subtraction
-- by which the code takes the age of a time stamp. A `float` is a value of any type with the
-- operations that the code uses (Base/Float); what is proved from properties of floats names IEEE 754
-- comparisons as the hypothesis `IsIeee`, which whole thousandths with a NaN meet. C strings are lists
-- of bytes.
--
-- Measurement: lib/energy_core/src/measurement_types.h, measurement_core.h, measurement_core.cpp.
-- `build_measurement` is `buildMeasurement`, with its two long guards as `some_not_finite` and
-- `some_out_of_range`; `simulation_sample` is `simulationSample`.
--
-- Protection: lib/energy_core/src/protection_core.h and protection_core.cpp. `ProtectionCore` is the
-- class with its private members; `begin`, `update`, `tick`, `request_reset`, `acknowledge` and
-- `raise_internal_fault` are its methods, which return the changed object. Protection/Events has the
-- calls of the firmware as data, `step` makes one and `run` any number. Protection/Policy is an
-- independent description by one phase instead of flags, after docs/fault-management.md.
--
-- Guard: src/protection.cpp. The core, the mutex and the atomic flag `internalFaultPending`; whether
-- the mutex is taken in time is an argument of each call. Guard/Calls sends calls to events of the core.
--
-- Actuator: lib/energy_core/src/actuator_policy.h, actuator_policy.cpp, src/build_mode.h and
-- src/actuator.cpp. The state holds every write to a pin; what the relay pin reads back is an argument.
--
-- Heartbeat: lib/energy_core/src/heartbeat_monitor.h and heartbeat_monitor.cpp. The loop of
-- `firstStale` is a recursion on the rounds left, so it needs no fuel.
--
-- Command: lib/energy_core/src/remote_command.h, remote_command.cpp and energy_topics.h.
--
-- Controller: src/main.cpp (SensorTask, ControlTask, requestCommand and `setup`), with
-- `mqttCallback` of src/mqtt_manager.cpp and the commands of src/diagnostics.h and diagnostics.cpp.
-- `App` is what the tasks share: the guarded core, the actuator, the two queues, the latest sample and
-- the time of the subscription. A `Turn` is what a task does to it between two points at which another may
-- come in: a sample is read, ControlTask takes a sample or ticks, it takes one command, a command is
-- asked for by hand or by a message. Any sequence of turns is an interleaving in which a turn of
-- ControlTask is whole; System takes it apart. `control_round` is a
-- whole round of ControlTask while no other task posts a command; the fuel of its drain loop is a list
-- of moments, one for each pass, and as many as commands wait are enough. A queue that is full after
-- the time-out drops the item.
--
-- Controller/Startup has `setup` with `createTasks` and `fatalStop`; what the kernel grants is an
-- argument. These are the steps of `setup` by themselves; the tasks, which run from their creation on, are
-- in System, where `fatalStop` is a step among theirs.
--
-- Watchdog: src/watchdog_manager.h and watchdog_manager.cpp. A monitor of Heartbeat with a slot for each
-- task and the count of failed registrations; the answers of the task watchdog are arguments, and the
-- lines of the status are data instead of text.
--
-- Telemetry: lib/energy_core/src/telemetry_json.h and telemetry_json.cpp. `Writer` is the bounded writer;
-- the keys and values that `buildTelemetryJson` writes are the list `fields`. The text that `snprintf`
-- makes of a float is an operation of Base/Float; that of a `uint32_t` is `decimal`, whose ten digits
-- of fuel are those of the largest word.
--
-- Telemetry/RoundTrip has a reader of JSON strings and decimal numbers, and Telemetry/Json one of whole
-- objects, with the length of the text as its fuel; both are independent of the
-- writer. Telemetry/Contract has the members that an input should read as. Telemetry/Size bounds how
-- long each key and value can get.
--
-- Measurement/Meter: src/measurement.cpp. `read_measurement` is `readMeasurement` of a build; the answers
-- of the meter's driver, which is no part of the repository, are an argument.
--
-- Watchdog/Supervisor: `watchdogTask` of src/main.cpp. A round may end in a restart; the three times
-- that it reads are an argument. `drive_safe_output` of Controller is what it does to the relay before,
-- and the turn `stops` of Controller/Turns puts it among the turns of the other tasks.
--
-- Cli: `cliTask` of src/main.cpp. `CliState` is its buffer of 40 bytes with the index and the overflow
-- flag; `press` takes one byte, `read_bytes` any number, and a finished line is an `Outcome`, which
-- `carry_out_line` carries out on the `App` of Controller. Cli/Line has the text that the array stands
-- for. The reports that a line prints are in Console.
--
-- Network: a round of `networkTask` of src/main.cpp (Network/Round) and src/mqtt_manager.cpp but for
-- the callback (Network/Mqtt). The state has the variables of both and every call of a library so
-- far, the latest first; what a call returns is any function of the calls so far (`World`). Shared is
-- what a round reads of the other tasks. Network/Protocol says which messages fit
-- docs/mqtt-protocol.md. Network/Packets has the settings of `mqttManagerBegin` and how long a packet is
-- in MQTT 3.1.1, for a publication, a subscription and a connection; Network/Retained has the newest
-- message on a topic.
--
-- Console: the texts for people. Console/Reports and Console/Tables have the functions of
-- src/diagnostics.cpp, each as the list of the lines that it prints, and `getNetworkSnapshot` of
-- src/main.cpp; Console/Display has the calls that a round of `displayTask` makes on the LCD. What
-- C says of the length of a printed float is the hypothesis `PrintsShort`.
--
-- System: src/main.cpp as a whole. `System` has what the tasks share, the watchdog, and the variables of
-- NetworkTask and the line editor, and the result that ControlTask has got from the core and not yet
-- applied to the outputs; a `Step` is what a task does between two points at which another may come in,
-- and `system_step` carries it out by the definitions of the parts. ControlTask `judges` a sample or a
-- tick, which ends with the release of the mutex, `applies` the result to the outputs, and then executes
-- a command; `fails` is `fatalStop`. NetworkTask and DisplayTask read the snapshot, the latest sample and
-- the relay at points of their own (`Readings`), so that they can be old when they are used. `Reached` has
-- the states that a device comes to: by a boot up to the creation of the tasks, from which on they run,
-- which is also what a restart by the supervisor leads to, or by a step from such a state. What the
-- libraries, the drivers and the clock answer is free in each step, and so is the order of the steps.
-- System/Calls has the calls of the guarded core that a step makes; System/Contract carries the contract
-- of Protection/Policy along them.
--
-- Config: the constants of src/config.example.h, with which System/Configured makes a firmware.
--
-- How they interact: a sample of Measurement is an argument of Guard's `protection_update`, whose
-- result goes to Actuator's `actuator_apply_result`; a message that Command accepts, or a line of Cli,
-- becomes a command on the queue of Controller, from which ControlTask asks Guard for a reset or an
-- acknowledgement. Network publishes what Guard's snapshot and Telemetry give it; Watchdog supervises
-- the heartbeats of all tasks.
--
-- Enumerations are closed data types, so the `default` branches for values outside the enumeration
-- have no counterpart. The echo of the line editor, the log messages and the delays are not modelled,
-- and neither are the pin modes, ports and libraries that `setup` starts: they are output or calls of
-- the kernel and of libraries. PubSubClient, Wi-Fi, Blynk, the LCD and the driver of the
-- meter are no part of the repository; the root certificate is data.
pub mod Base
pub mod Measurement
pub mod Protection
pub mod Guard
pub mod Actuator
pub mod Heartbeat
pub mod Command
pub mod Controller
pub mod Watchdog
pub mod Telemetry
pub mod Cli
pub mod Console
pub mod Network
pub mod Config
pub mod System
