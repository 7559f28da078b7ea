-- ===== src/Lib.antt =====
-- The Rust core of kestara-webrtc (native/src): WebRTC peers and data channels behind numeric
-- handles, for a Kotlin library that reaches it through JNI (native/src/bridge.rs) or a C ABI
-- (native/src/c_bridge.rs).
--
-- The parts. Kotlin submits commands to a runtime (native/src/runtime.rs), whose control loop hands
-- each to a task. The task carries it out on the registry (native/src/registry.rs), which calls the
-- WebRTC library, and sends its completion to the runtime's event queue (native/src/events.rs).
-- Callbacks of the library and one polling task per channel send to the same queue. Kotlin polls the
-- queue. A message of a channel holds a permit of the channel until it is polled through the C ABI, or
-- until its buffer is released on the JVM.
--
-- The files.
--   Base, Map, Errors: shared names, hash maps as association lists, and the error messages. A text
--     is the list of its UTF-8 bytes.
--   Events: native/src/events.rs, with the queue as a list.
--   Registry/Types, State, Task, Access: the configuration records and `RuntimeState` of
--     native/src/registry.rs, the form of its asynchronous functions, and its locks and lookups.
--   Registry/Builder, Peers, Channels, Callbacks, Delivery: `create_peer`; the operations on peers; on
--     channels; `EventHandler`; and `poll_data_channel` with the delivery buffers and the polling.
--   Registry/Shutdown: `shutdown_all`, with the tasks of its join set as a step relation.
--   Registry/Invariant, Runs, Still, Closing, Orphans: what is proved of them.
--   Stats: `encode_stats` of native/src/registry.rs, as a list of fields, with Kotlin's decoder.
--   Runtime/Command, Execute, Certificate: `Command`, `execute`, `dispatch` and the certificates of
--     native/src/runtime.rs.
--   Runtime/Control: the loop of `run_runtime` with commands whose tasks overlap, as a step relation, with
--     the draining of the tasks, the deadline of the shutdown, the aborts and `complete_error`.
--   Runtime/Create, Sockets, Table, Handles: the creation of runtimes, `create_socket_mux` and
--     `socket_addresses`, the table of runtimes with the delivery buffers, and its handles.
--   Runtime/Targets, Calls, Forward, Completion, Rotation: what is proved of commands.
--   Wire: `encode_event` of native/src/c_bridge.rs with the decoder that Kotlin has for it, and the
--     decoder of a channel's announcement.
--   Bridge/Arguments, Ports, Masks, Configuration, Operations, Request, Submit, Checked: the requests
--     of `kestara_runtime_submit` and `peer_configuration` of native/src/c_bridge.rs, with the checks
--     of arguments of native/src/bridge.rs that they use.
--   Bridge/Boundary: the other functions of native/src/c_bridge.rs with its error boundary.
--   Bridge/Memory: `KestaraBytes` of native/src/c_bridge.rs, `output_string` and `kestara_bytes_free`,
--     with the allocated blocks as a map.
--   Bridge/CreateRuntime: the configuration of a runtime as both bridges read it.
--   Bridge/Jni: the functions of native/src/bridge.rs. Values and Calls: arguments, exceptions and the
--     calls that submit a command; Peer: the configuration of a peer; Methods: runtimes and
--     certificates; Poll and Buffers: events and the buffers of messages; Polls: polling through either
--     bridge; Requests, Same and Equivalent: the request that corresponds to a call, and the commands
--     of both.
--   Examples: the theorems at work.
--
-- The model. An asynchronous function is a function on the state that returns a value, fails, or is
-- dropped by its timeout, and that may change the state in each case. What the WebRTC library answers
-- is a record `Engine` of functions of the calls made so far. At each `await` the engine's
-- `interfere` changes the state, which stands for everything that other tasks do meanwhile, and its
-- `expired` may drop the task there. What is asked of the interference is a hypothesis: `Rely` for
-- well-formed registries, which allows a task to insert under a handle that it took before, `Spares` for
-- the closing of a peer; and `Alone` says that there is none and no deadline passes. A peer, a channel
-- or a socket of the library is a number, a certificate its PEM text, a `{:?}` text or an error of the
-- library a text. `RuntimeState` keeps three fields more than the code: how many handles were given out,
-- the calls made and the tasks spawned.
--
-- Bounds. Handles are counted modulo 2 ^ 64 as in the code, and facts about fresh handles are stated
-- for the first 2 ^ 64 - 2 of them, which no process lives to use up. All functions are total, by
-- recursion on lists; no fuel is used. Lengths on the wire are cut at 2 ^ 31 - 1 as in the code.
--
-- Choices. A send to the event queue always succeeds: the code ignores the failure of one whose
-- receiver is gone. A delivery permit is named by the channel whose semaphore issued it. In
-- Runtime/Control what a task does, apart from its completion, is an event of another task. A task that
-- was aborted, and a command that is in the queue when the loop ends, is counted as lost when it is
-- dropped, which stands after the end of the loop; a task whose thread is blocked may still complete
-- there. A mutex is a flag that says whether it is poisoned. What the operating system answers to the
-- creation of threads and sockets is a record `Host` of functions. A method of the JVM returns a value or
-- throws an exception with its class and text.
--
-- Not modelled: raw pointers to inputs, which are null or give their bytes; the threads themselves,
-- whose start succeeds or fails in `Host`; failures of the JVM to make strings and buffers; the
-- functions that return the version; the Kotlin sources, apart from the decoders and the form of the
-- requests; the WebRTC library, which is the engine, and the JSON decoder, which is a parameter.
pub mod Base
pub mod Map
pub mod Errors
pub mod Events
pub mod Wire
pub mod Stats
pub mod Registry
pub mod Runtime
pub mod Bridge
pub mod Examples
