-- ===== src/Lib.antt =====
-- Models and theorems of tpt-teleop, a teleoperation stack for robots in Rust.
--
-- The program and the files that model it, with paths from the repository's root:
--
-- Ring        crates/tpt-t-ring/src/spsc.rs: the single-producer single-consumer ring over which all
--             threads talk. Ring/Spsc has the cursors as 64-bit words that wrap, and the slots;
--             Ring/Bounded is the queue it stands for, Ring/Window and Ring/Refine relate the two, and
--             Ring/Runs holds the theorems on runs of calls.
-- Core        crates/tpt-t-core/src: mode.rs in Core/Mode and Core/Table, machine.rs in Core/Machine,
--             Core/Handover, Core/Latch, Core/Events and Core/Race, bus.rs in Core/Bus and Core/Fanout,
--             mpmc.rs in Core/Mpmc, the plain records of ser in Core/Ser.
--             The machine publishes its transitions through a ring; the bus has one ring for each
--             subscriber.
-- Link        crates/tpt-t-link/src: reliable.rs in Link/Reliable (Ack, Rx and Tx are the code; Steps,
--             Tracking and Stream are the receiver's theorems, Window and Advance the
--             sender's) and backpressure.rs
--             in Link/Backpressure (Signal is the code, Rate and Levels the theorems); mesh.rs in
--             Link/Mesh (Beacon and Table are the code, Probe and Expire the theorems, Codec the round
--             trip of a beacon); crc.rs in Link/Crc. mux.rs is in Link/Mux: the frames and demux, the
--             writers in Write, the counters and the socket's calls in Stats; RoundTrip and Intact are
--             theorems. service.rs is in Link/Service: the sends and the handling of a frame, the loops
--             in Loop; Receiving, Outbox and Delivery are theorems. The service takes commands from a
--             ring, writes them through the mux, keeps them in the reliable sender, and feeds what it
--             receives to the reliable receiver, the mesh table and a callback.
-- Hal         crates/tpt-t-hal/src/mavlink.rs in Hal/Mavlink: the frames and the parser of a stream;
--             Stream, Clean and Layout are theorems.
-- Analytics   crates/tpt-t-analytics/src: direct_io.rs in Analytics/DirectIo; record.rs in
--             Analytics/Record, the storage thread's loop and its callers as steps in
--             Analytics/Record/Recorder; Parse, Lossless and Stopping are theorems.
-- Cloud       crates/tpt-t-cloud/src: sfu.rs in Cloud/Sfu with the theorems in Cloud/Sfu/Viewers,
--             fleet.rs in Cloud/Fleet with those in Cloud/Fleet/Paths and Cloud/Fleet/Commands,
--             json.rs in Cloud/Json (values and the writer) and Cloud/Json/Parse, where the index into
--             the input is the list of the bytes from it on. The fleet commands units through the
--             table of Core/Mode.
-- Media       crates/tpt-t-media/src/pool.rs in Media/Pool: the slab, the stack of free blocks and the
--             records of frames; Media/Pool/Single is what one frame after another finds there.
-- Bridge      crates/tpt-t-domain-bridge/src: lifecycle.rs in Bridge/Lifecycle, session.rs and the
--             traits of dti.rs in Bridge/Session; Calls has one function for any call of a session,
--             Lifecycle what holds over runs of them.
-- Safety      crates/tpt-t-safety/src: veto.rs, latency.rs, spline.rs, geo.rs and limits.rs in the files of
--             these names, loop_.rs in Safety/Loop with one tick in Safety/Loop/Tick; Calls has the
--             runs of calls and of the threads at the rings, Latch, Estop, Intake, Brake and
--             Silence are theorems. The loop pops commands from a ring, passes the newest through the stages
--             and pushes the result into another ring.
-- Sec         crates/tpt-t-sec/src: rbac.rs in Sec/Rbac and Sec/Grants, identity.rs in Sec/Identity and
--             Sec/Wire, zerotrust.rs in Sec/ZeroTrust and Sec/Admission, cipher.rs in Sec/Cipher (Sealing,
--             Nonces and IntoRing are theorems), session.rs in Sec/Session and Sec/Session/Agreement.
-- Prelude     what they share: Boolean tests, lists, words, bits and bytes, powers of two.
--
-- A structure is a record and an operation a function that returns the new state. Words are natural
-- numbers with their wrap-around written out, and overflow wraps as in the release profile; usize
-- has 64 bits. A callback is the list of what it is called with. A failed assertion ends the run:
-- `accept` returns none and `send` the outcome `too_long`; a tick of the safety loop in which
-- `clamp` panics returns none; the panic on a derived key that a cipher refuses is an error of the
-- handshake. Adapters, links, the signature scheme, the ciphers, the key agreement, rkyv, the sink
-- of the service, the formats of numbers in JSON and the floating-point arithmetic are parameters,
-- and a socket is the list of its answers, call after call. Hash maps are functions to options, sets
-- are lists of what was put in.
--
-- Loops that are not over a list take fuel: `drain` of the receiver has 33 rounds, one more than its
-- slots, and each round clears one bit of its 32; the first loop of `on_ack` has a round for each
-- slot and one more, and each moves the oldest frame on by one; `push` and `pop` of the MPMC ring
-- take the rounds as an argument; dropping a ring pops as often as it is long; the loop over the
-- outbox has one round more than the ring holds commands. The loops of the recorder's file and of
-- its reader take a byte at least in each round and have a round more than there are bytes. The JSON
-- parser has twice the length of its input and one, its loop over a text the length and one. The
-- safety loop empties its input in a round more than the ring has slots.
--
-- Each operation is one step, as its callers use it from one thread. Where the code is shared
-- between threads without a lock, two places are split at their loads: the mode of the machine
-- (Core/Race) and the refill of the token bucket. Atomic orderings, unsafe memory and overlapping
-- accesses of the two ends of a ring are not modelled; neither are the sockets themselves, the
-- io_uring path, devices, generated archives, the crate for input, the safety loop's thread, the
-- encoders of the media crate, the servers of the cloud crate, the exports of the analytics crate,
-- nor the drivers of the hardware crate.
pub mod Prelude
pub mod Ring
pub mod Core
pub mod Link
pub mod Analytics
pub mod Cloud
pub mod Media
pub mod Bridge
pub mod Sec
pub mod Hal
pub mod Safety
