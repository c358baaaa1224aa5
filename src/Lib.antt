-- ===== src/Lib.antt =====
-- Euthenia: an OpenFlow 1.3 proxy between a switch and its controller, and a tester of the
-- switch's packet-in path.
--
-- The parts and how they interact. A `Session` (Session.h, Session.cpp) is one TCP connection. Its reading
-- side asks for a header, then for the body that the header counts, and hands each whole message to a
-- `Dispatcher` (Dispatcher.h), which calls what is registered for the message's type. Its writing side posts
-- messages to the io_service, which starts an `async_write` for each. `main` of eproxy.cpp wires two sessions
-- crosswise; packet-in messages go through `PKTINMonitor` (PacketInMonitor.h), whose thread counts them in
-- windows of time and, at a threshold, runs `PKTMigrator::switch_path` (PacketInMigrator.h): a flow-mod to the
-- switch that sends its traffic to the data path port. `main` of UnitTest_PacketInTester.cpp wires one session
-- to `PacketInTester`, which has `FlowGen` (FlowGen.h, FlowGen.cpp, header_defu.h) send bursts of new flows and
-- counts the packet-in messages that come back. OFPBuffer.h and OFPShaper.h stand alone.
--
-- Which file models which part. A callback is a function of the message and of the state `W` of what it is
-- bound to, into `Result W`: a normal end, or the fault (an empty `std::function`, an access out of bounds, a
-- signed overflow, a division by zero, `std::terminate`) that stops the run. An object is a record of its
-- members, a method a function from record to record. What is logged is left out, except for the severity from
-- which each `main` logs.
--   Prelude, Prelude/*: tests, lists, results and integers over the native numbers, and no code.
--   Machine/Memory, Machine/Endian: byte buffers, `htons` and its relatives, for hosts of both byte orders.
--   Machine/Bits: `|` and `&` of machine words.
--   Openflow/Layout, Openflow/Structs/*: the structures of openflow.h as values, with C's rules for offsets
--     and padding; Openflow/Sizes compares them with the OFP_ASSERT lines. Openflow/Types has `ofp_type` and
--     the constants in use, Openflow/Fields the assignments through a structure's pointer, Openflow/Header
--     the reads of `ofp_header` and the whole messages on the wire (`IsFrame`). Openflow/Oxm has the macros that
--     make and read the header of a match field, Openflow/Oxm/Constants the fields and their headers.
--     Openflow/Enums has the other enumerations, and Openflow/Enums/Stored compares their values with the members
--     that carry them.
--   Dispatcher: `setCallBackOnMessage`, `setDefaultCallback`, `onMessage`. Dispatcher/Routing: what it calls.
--   Session: `read`, `handle_read_header`, `handle_read`; `complete` is asio finishing the outstanding read,
--     `pump` a run over bytes that the peer has sent. Session/Rounds, Framing, Bounds and Errors are about it,
--     and Session/Piecewise about a stream that comes in pieces. Session/Connection: `listen` and `connect`.
--     Session/Linked: a session with the dispatcher that `set_dispatcher` gives it, which the proxy is made of.
--     Session/Writer: `write`, `write_in_io_thread`, `handle_write`, as steps that the environment orders;
--     Session/Writer/Order is about what the socket takes.
--   Migrator: `prepare_switch`, `switch_path`, `draw_back`. Migrator/FlowMod has the wire format.
--   Monitor: `onMessage`, `start`, `stop`, and `clear`, the body of the thread, as a program counter that
--     messages and calls of `stop` interleave with. Monitor/Windows and Monitor/Stopping are about its runs,
--     and Monitor/Budget about how often the action can have run.
--   Numerals: `std::stoi` and `atoi`, which read the severity; Numerals/Decimal is about numbers that are printed
--     and read.
--   Proxy: `main` of eproxy.cpp, with OVS_ASSIST and without, and the callbacks that it wires. Proxy/Forwarding,
--     Proxy/Migration and Proxy/Delivery put the parts together, Proxy/Severity is about the log. Proxy/Events is
--     the system after `main`, as steps: a read of a session completes, a writing side moves on, the monitor's
--     thread works. Proxy/Merges has the order in which two streams meet at one socket, Proxy/Invariant what
--     is true at every moment, which Proxy/Moves and Proxy/Steps show of each step, and Proxy/Runs of all runs.
--     Proxy/Drains is about how the last byte reaches the controller.
--   FlowGen: `a_burst`, `make_pkt`, `send_packet`. FlowGen/Frames has the headers of header_defu.h, FlowGen/Time
--     `timeval_subtract` and `timespec_add`, whose laws are in its children; FlowGen/Packet, Burst, Sent and
--     Ending are about what is sent, and when a burst is over.
--   Tester: PacketInTester.cpp. Tester/Main: `main` of UnitTest_PacketInTester.cpp, and the dispatcher that it
--     makes. Tester/Start and Handshake are about its messages, Tester/Groups, Leaves and Rounds about its numbers,
--     Tester/Severity about the log.
--   Utility, Buffer, Shaper: utility.cpp, OFPBuffer.h, OFPShaper.h. Buffer/Fifo is about sequences of calls,
--     Buffer/Waiting about its threads as steps: the locked part of `pushBack`, its `notify_one` after the lock, and
--     `getFront`, which looks, sleeps on the condition variable, and takes.
--   Tests/*: runs at concrete inputs, and the theorems at inputs that meet their hypotheses.
--
-- Bounds and fuel. Bytes are numbers below 256 where a theorem needs it; counters are cut at 2^32 or 2^64 where
-- the code's types are; `data_` has 102400 bytes, and an access past them is a fault. `long` and `time_t` are
-- integers without bound, but the narrower types that the clock's arithmetic goes through are written out.
-- `pump` takes a number of rounds: one more than the bytes is enough, since each round but the last uses bytes
-- up. The loops of `a_burst` and `do_test` run over the rounds that the environment grants, and say whether they
-- have ended. The loop of the monitor's thread is a step relation, so it needs no fuel.
--
-- Not modelled. asio, pcap, Boost.Log, the clock and memory from `new` are the environment: what they give is an
-- argument, and arbitrary unless a theorem says otherwise; so is the endpoint at which `listen` and `connect` meet
-- a peer. The threads interleave between the steps named here, never within one, so data races of the tester on a
-- counter or a vector are not seen. UTOFPBuffer.cpp is a test in a comment.
pub mod Prelude
pub mod Machine
pub mod Openflow
pub mod Dispatcher
pub mod Session
pub mod Migrator
pub mod Monitor
pub mod Proxy
pub mod Numerals
pub mod Tests
pub mod FlowGen
pub mod Tester
pub mod Utility
pub mod Buffer
pub mod Shaper
