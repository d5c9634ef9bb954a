-- ===== src/Lib.antt =====
-- Weave, message passing for Zephyr, and the settings table that is built on it. A source fans a
-- payload out to the sinks wired to it; a sink's handler runs at once or behind a message queue
-- (core). An observable is a value behind a semaphore whose changes go to an owner and to
-- observers through the core; a method is a call sent through the core whose caller waits on a
-- semaphore; a packet is a network buffer that the core routes, with metadata in its user data.
-- The settings table keeps registers with types, ranges and access flags in observables,
-- addressed in a space of 16 bits.
--
-- Files, and the code that they model:
--
-- - Prelude: lists, Boolean tests, C results (`ℤ`, errno) and what the other files share
--
-- - World: the structs of include/weave/core.h, observable.h and method.h, and the memory:
--   structs and byte buffers by address, `memcpy`
--
-- - Kernel: what the code calls and does not contain. `Kernel` has the message queues, semaphores
--   and time points of Zephyr; `Lawful` states their documented behaviour, each call at the state
--   in which it takes effect; `Program` has the statics that the definition macros lay out and
--   the functions behind function pointers
--
-- - Core: src/core.c (sink_deliver, weave_source_emit, weave_sink_send, weave_process_messages,
--   weave_init). Pending, Loop, Log, Drain, Balance, Deliver, Emit, Wiring and Returned hold its
--   theorems
--
-- - Observable: src/observable.c; Guard, Store, Notified (handlers and what they leave alone),
--   Settled, RoundTrip and Notify hold its theorems
--
-- - Method: src/method.c; Checks, Complete, Immediate, Queued and Answer hold its theorems
--
-- - Packet: src/packet.c and the accessors of include/weave/packet.h; Meta, Access, Alloc, Filter
--   and Balance hold its theorems. `NetBuf` has the network buffers, the tick counter and the
--   atomics; `Memory` and `Counters` state their laws
--
-- - Table: samples/settings_table/src/settings_api.c and settings_api.h. Value (types and
--   values), Areas (checks at start, lookup), Access (reads and writes by address), Api (the
--   functions of settings_api.h) are the model, with the definition macros (Define) and the two
--   areas of motor_settings.c and sensor_settings.c (SampleAreas); Order, Layout, Registers,
--   Lookup, Guarded, Writes, Safety, Start, SetGet, Validated, Published and Defaults hold its
--   theorems
--
-- - Groups: samples/settings_registers/src/settings.c and settings.h, and the observables and
--   validators in motor_settings.c and network_settings.c. Registry, Access, Configs and
--   Observables are the model; Limits, Lookup, Rejected, Stored, RoundTrip and Bulk hold its
--   theorems
--
-- - Routing: samples/packet_routing/src. Commands is cmd_handler.c, Protocol protocol.c, Server
--   tcp_server.c, Sensors sensors.c; Totals, Header, Inbound, Chained, Outbound and Stream hold
--   their theorems. `BufData` has the data of buffers and the conversions of times, `Sockets` the
--   socket calls
--
-- - Rpc: samples/sensor_rpc/src/sensor_module.c and sensor_module.h. Sensor is the state and the
--   handlers, Thread the thread; Spec is the abstract sensor and the refinement, Statistics what
--   the statistics say. `Clock` has the clock and the timer
--
-- - Shell: the commands of samples/settings_table/src/settings_shell.c (TableCommands, with the
--   values of registers as texts in Values) and of samples/settings_registers/src/main.c
--   (RegisterCommands). Text has strtoul, strtol and the formats of printf that they use; Decimal
--   and Hex prove that numbers and bytes are read back, ReadBack, WriteRead and Bulk hold the
--   theorems on the commands. A command returns its result, the text that it prints when it
--   succeeds without the names in front, and the world
--
-- - Slab: samples/memslab_core/src/main.c. Demo is the source of slab blocks and the loop that
--   sends them, `SlabServices` the slab; Leak is its theorem
--
-- - Image: the macros of include/weave that define statics and calls. Macros has them as
--   functions, Boot an observable at boot, Typed the call of a method by its macro
--
-- - Rate: samples/observable/src (settings.c and sensor_module.c). Sample has the commands, the
--   start and the observer; SetGet is its theorem
--
-- - Tests: a small kernel, a memory of buffers, applications on them, and the theorems at
--   concrete inputs
--
-- A function of the code is a function of the same name that takes the world and returns its
-- result and the new world. Pointers are addresses, NULL is `none`; a negative errno is `neg`.
-- Where C returns early, the model computes the later state first, under `let`, and chooses by
-- `if`.
--
-- The loop of weave_process_messages has no bound in the code. Here it runs on fuel; fuel above
-- the length of the queue is enough for a drain that does not wait, as the first result shows.
-- The fragments of a packet in Routing/Server are followed on fuel, and a fuel as long as the
-- chain is enough for Routing.Stream; the session with a client there runs on fuel without a
-- bound, since the client decides when it ends. All other loops run over lists or texts. The
-- packets of a run of the command handler are a list. Integers wrap where the code's types do:
-- uint16_t ends of ranges, 16 bits of a packet's counter, 32 bits of a tick stamp; size_t has 32
-- bits.
--
-- Not modelled: a handler that changes the connections or the ops of a source during its
-- emission, other threads between the steps of one call (each kernel service takes effect at the
-- state in which it is called), logging and the texts of error messages, the compile-time checks
-- of the macros, CONFIG_WEAVE_PACKET_TIMESTAMP_HIRES, and the programs that only call a sample's
-- functions and print. Floating-point texts are parameters.
pub mod Prelude
pub mod World
pub mod Kernel
pub mod Core
pub mod Observable
pub mod Tests
pub mod Method
pub mod Packet
pub mod Table
pub mod Groups
pub mod Routing
pub mod Rpc
pub mod Shell
pub mod Slab
pub mod Image
pub mod Rate
