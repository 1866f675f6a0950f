-- ===== src/Lib.antt =====
-- pv-matter bridges a photovoltaic inverter, which another daemon publishes over MQTT, to Matter. The
-- MQTT side takes events from the client, routes each publish by its topic and decodes the payload; the
-- messages are folded into one snapshot of the inverter; the snapshots go through a channel to the
-- Matter side, which shares the newest with its attribute handlers and notifies what changed.
--
-- Which file models what:
--   Senml, Senml/Decimal    src/senml.rs: `parse_pack` over the raw elements, `scale_decimal` over the
--                           text of a number. Senml/Reference describes a pack without loop variables,
--                           Senml/Decimal/Digits, Rounding, Literal and Grammar the
--                           scaling.
--   Domain                  src/domain.rs: `DomainMsg`, `State`, `State::apply`. Domain/Status has the
--                           enums with their parsers and votes, Domain/Info `InverterInfo`,
--                           Domain/Snapshot `PvSnapshot` with `apply_pack`, `set_status` and
--                           `source_status`. Mask, Readings, Severity, Range, History, Order,
--                           Trace and Redelivery prove; Trace has a quotient of the lists of
--                           messages.
--   Ingest                  src/ingest.rs: `Router::route` and the loop `run`; Ingest/Client the options
--                           of the client. Ingest/Address, Origin, Lock, Loop and Subscribed prove.
--   Config                  src/config.rs: `Config::from_env`, over Number, the parsing and printing of
--                           unsigned integers. Config/Laws and Number/Laws prove.
--   Matter/Epm, Eem, Clusters  src/matter/epm.rs, eem.rs, power_source.rs, temperature.rs: what a read
--                           of each attribute returns, with the structures of Matter/Measurement.
--                           Matter/Epm/Envelope and Rows prove.
--   Matter/Metadata         the `CLUSTER` constants of src/matter. Matter/Metadata/Reports proves.
--   Matter/Node             src/matter/node.rs and desc_tags.rs: endpoints, handler chain, parts, tags.
--                           Matter/Node/Agreement proves.
--   Matter/Descriptor       src/matter/desc_tags.rs: the wrapper of the descriptor handler.
--   Matter/Handlers         `Handlers` of src/matter/node.rs, with a child for each handler of src/matter.
--                           Matter/Handlers/Independent proves.
--   Matter/Runtime          src/matter/mod.rs: the calls and the futures of `run`. Matter/Runtime/Polls
--                           and Outcome prove.
--   Main                    src/main.rs: the bootstrap and the steady loop; Main/Start the basic
--                           information and `main` as a whole, with its proofs in Main/Start/Ok.
--                           Main/Pipeline joins all parts, and Main/Resume proves of inputs in two
--                           parts.
--   Matter/Bridge           src/matter/bridge.rs: `run_bridge`. Matter/Bridge/Sleeps, Changes, Run,
--                           Snoc and Subscriber prove.
--   System                  the tasks of src/ingest.rs, src/main.rs and src/matter/bridge.rs with the two
--                           channels between them, as a step relation: every order of the steps is a
--                           run. System/Messages, Shown, Truth, Progress, Settled, Bounded,
--                           Redelivered, Traces, Onward and Monotone prove, Sequential and Tasks
--                           against the functions of the single tasks, and Subscribed for one who
--                           reads what is notified.
--   Lifecycle               what src/main.rs adds to System when a task ends or a signal comes: the
--                           branches of its `select!`, the shutdown, the join of the thread and the
--                           exit. Lifecycle/Refines, Exits, Joined, Ends, Returns, Signals and
--                           Heard prove, and Away, Left and Sequential against `main` as one
--                           function.
--   Serde, Matter/Tlv       what the code takes from serde_json and from the builders of rs-matter.
--   Int, Text, Common       machine integers, strings, and what all parts share. Tests has runs, and
--                           Tests/Source the unit tests of the source.
--
-- How the code is read. A function that changes `&mut self` returns the new state; an await is an
-- event or a wake of the input, so a run is a list of them. A `Result` is `Result`, an `Option`
-- `Option`. A `String` is a list of code points. An `i64` is an integer, and its arithmetic wraps at
-- 2 ^ 63 as in a release build; a `checked_` operation returns `none` there. Digits are compared as code
-- points, since the code looks at bytes only once it knows them to be ASCII. Other loops are recursions
-- on the list that they run over, so that no fuel is needed.
--
-- The channels of System have the bounds of the source, 64 messages and 16 snapshots; a send into a full
-- one waits. The printing of a number takes its successor as fuel, more than its digits.
--
-- Third-party code is a parameter: the two decoders of serde_json, the constants `MATTER_EPOCH_SECS` and
-- `MATTER_PORT`, the array builders of rs-matter, which attributes it keeps as required, the ids and
-- feature bits of its clusters, its data versions and its descriptor handler, the results of its calls
-- and futures, which topics an MQTT broker delivers for a filter, and which instants the clock can
-- represent (`has_instant`), since `Instant::now() + timeout` panics past the last one. What the
-- environment, the MQTT client, the channel, the timer and the clock give is input. Of the log lines,
-- only the warning of a second device and the accuracy minimums are kept.
--
-- The ends of the tasks. A signal is heard by a listener that tokio installs when the `select!` is first
-- polled and drops when another branch is taken; before the first `select!` a signal ends the process, so
-- runs with one are not followed. The five seconds of the join are an outcome that may come at any time;
-- they do not end the process: when the body of `main` has returned, the runtime is dropped, and the drop
-- waits for the blocking closure that joins the Matter thread, a stage of its own (`dropping`). The
-- Matter thread ends by a step of its own, once it has been told to or by a fault; whether a thread that
-- was told to stop ever takes this step is for the environment, and a theorem that needs it says so.
-- Once the ingest task is gone, `recv` yields `None` in every turn of the loop, which goes on: these
-- turns are steps without any work.
-- What ends the ingest task or the Matter thread by itself is not looked into: it is a step of its own.
--
-- Not modelled: the `.env` file and the log, the root endpoint and the macros of rs-matter, and what its
-- descriptor handler answers.
pub mod Common
pub mod Int
pub mod Text
pub mod Serde
pub mod Number
pub mod Config
pub mod Senml
pub mod Domain
pub mod Ingest
pub mod Matter
pub mod Main
pub mod System
pub mod Lifecycle
pub mod Tests
