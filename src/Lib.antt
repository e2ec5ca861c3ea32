-- ===== src/Lib.antt =====
-- A verification library for safeedge, a safety runtime for drives at the edge.
--
-- The program's parts and how they meet. Two safety state machines, one per channel, decide in every
-- cycle what a drive may do (src/safety/safety_state_machine.cpp). A supervisor evaluates both, compares
-- their states and combines their outputs towards the safe side (src/safety/dual_channel.cpp). Safety
-- data reaches a machine as telegrams over an untrusted transport: a sender frames them and a receiver
-- checks and orders them and latches any fault (src/safety/black_channel.cpp), under a checksum
-- (src/safety/crc32.cpp) that also covers the address, which is not sent. The control loop runs at a
-- fixed period (src/rt/cyclic_executor.cpp), on a thread set up for it (src/rt/thread_config.cpp),
-- records its delays in histograms (src/rt/latency_histogram.cpp), and may not allocate
-- (src/rt/no_alloc_guard.cpp). In the daemon a cycle of that loop passes a telegram, evaluates the
-- supervisor and stores a snapshot (src/apps/safeedged.cpp). The snapshot goes through a seqlock
-- (include/safeedge/ipc/seqlock_slot.hpp), which other threads and processes read without holding up the
-- loop; among them is an OPC UA server, which writes it into variables, fires events at transitions
-- (src/opcua/address_space.cpp, src/opcua/events.cpp, src/apps/safeedge_opcua.cpp), and decides who may
-- connect (src/opcua/security.cpp). A ring for one producer and one consumer
-- (include/safeedge/concurrent/spsc_ring.hpp) passes values between threads.
--
-- The files and what they model.
--   Safety/Types: the enumerations and structs of include/safeedge/safety/safety_state_machine.hpp.
--   Safety/Machine: SafetyStateMachine. `evaluate` is its method; `next_machine` is the state that the
--     method leaves, in the order of the source's parts: demands, a latched fault, then
--     `monitor_and_request`, the monitors followed by the requested transition. Every `return` of the
--     source reports `outputs_for` of the state as it then is.
--   Safety/DualChannel: DualChannelSupervisor. `compared` evaluates the channels and runs the
--     cross-comparison; `conclude` releases the latch or returns the safe outputs.
--   Safety/Crc32: Crc32 and its table. A checksum object is its running state.
--   Safety/BlackChannel: Telegram has the framing and computeTelegramCrc, Sender is SafetySender,
--     Receiver is SafetyReceiver. A method that changes an object returns the new one, and what
--     `receive` writes through its reference arguments is the record `Received`.
--   Rt/Histogram: LatencyHistogram. Buckets are a list of counters, and the histogram of a list of
--     samples is what recording them one by one gives.
--   Rt/Executor: CyclicExecutor::run. `cycle` is the body of its loop, from the return of the sleep on;
--     what it reads of the clock and of the stop flag is an argument, one reading for each round.
--   Rt/ThreadConfig: applyThreadConfig; what the calls of the operating system return is a parameter.
--   Rt/Guard: the allocation guard as one thread sees it, with its depths and the shared counters.
--     `Process` is either running or ended by an abort, and Rt/Guard/Scopes runs code with nested scopes.
--   Ipc/Seqlock: SeqlockSlot. `World` is the counter and the words; `writer_step` and `reader_step` make
--     one access of an atomic each, at the positions `Writer` and `Reader`, and Ipc/Seqlock/Steps runs a
--     schedule of them.
--   Ipc/SharedMemory: SharedMemoryRegion, with what the calls of the operating system return as a
--     `System` and what the process holds as a `World`. Ipc/SharedMemory/Ownership runs the operations
--     on the regions of a process, by their indexes.
--   Concurrent/Ring: SpscRing. `World` has the two positions, the cached ones and the slots;
--     `producer_step` and `consumer_step` make one access of a shared position each, and
--     Concurrent/Ring/Queue runs a schedule of them beside a queue.
--   Edge/Snapshot: RuntimeSnapshot.
--   Apps/Daemon: the control thread. `Control` holds its locals, `cycle` is the lambda `cycle` and `run`
--     its repetition; `Reading` is what a cycle reads of flags, clocks and statistics.
--     Apps/Daemon/Watcher is FileFlagWatcher, one step for each access of the file or of the flag;
--     Apps/Daemon/Startup has the settings and the period.
--   Opcua/Security: configureSecurity, with dropUnencryptedEndpoints (Endpoints) and readTrustList
--     (TrustList), and configureServerVerification (Client); each text of a detail is a constructor.
--   Opcua/AddressSpace: specs, buildAddressSpace and publishSnapshot, whose writes are a list.
--   Opcua/Events: describeTransition, and the round of the publisher thread of the OPC UA server.
-- The children of these modules hold the proofs, named for what they show, and tests with examples.
--   Common: lists, buffers, tests and integers over the native numbers, the exclusive or, and the
--     interface to floating point.
--
-- Bounds and numbers. Unsigned counters keep their wrap-around, as `u32` and `u64` (% 2 ^ 32 and
-- % 2 ^ 64). Signed times are exact integers, since their overflow is undefined in the source. `double`
-- is any type with the comparisons, subtraction, absolute value and constants that the source uses
-- (Common/Floating); a theorem that needs a law of the comparisons has it as a hypothesis, and the
-- examples use whole numbers with infinities and a value that is not a number. Every loop is over a
-- list or a count, except that the executor skips deadlines on fuel, one more than the nanoseconds of
-- delay: a round takes at least one off. Schedules of the
-- threads are lists of steps in any order. Each access of an atomic is one step, and all of them are in one
-- total order, so what a weaker memory order would allow besides is not covered. The theorems on the seqlock
-- hold up to 2 ^ 63 stores, after which the counter repeats, and those on the ring for a capacity
-- that divides 2 ^ 64, as the powers of two do that the source asks for.
--
-- What is not modelled. The HTTP server, the text of the metrics, the probe
-- and the command lines of the programs are input and output round third-party libraries and the
-- operating system. Of the OPC UA parts, the calls of open62541 are seen as what they return or as what is
-- asked of them. Of the executor, the sleep, a call of the operating system, is left out, and of the guard
-- the replacement of operator new and the message of an abort. Of the daemon, the health check, the
-- set-up of the shared memory, the readiness of the HTTP server, the signals and the log are left out.
pub mod Apps
pub mod Common
pub mod Concurrent
pub mod Edge
pub mod Ipc
pub mod Opcua
pub mod Rt
pub mod Safety
