-- ===== src/Link/Service.antt =====
-- crates/tpt-t-link/src/service.rs: the network service over the multiplexer, the reliable channel,
-- the mesh table and the ring of approved commands. The portable transmit path is modelled. Each
-- call of `now_ns` is an argument, the callback `sink` is a parameter, and an address is the number
-- `host * 2 ^ 16 + port`.
use tpt_teleop.Prelude.{
  ℕ, zero, suc, ◌+◌, ◌-◌, ◌*◌, ◌/◌, ◌%◌, Bool, true, false, Option, none, some, List, [], ◌∷◌, ◌++◌,
  length, ltb, leb, ◌==◌, ◌&&◌, if◌then◌else◌,
}
use tpt_teleop.Prelude.Words.{u32_mod, wrapping_add_32}
use tpt_teleop.Core.Ser.{ControlCommand, TelemetryPacket}
use tpt_teleop.Ring.Spsc.{Spsc, Popped, empty, got, uninit, pop, len}
use tpt_teleop.Link.Backpressure.Signal.{admit, note_rtt_ns}
use tpt_teleop.Link.Mesh.Beacon.{MeshBeacon}
use tpt_teleop.Link.Mesh.Beacon as Beacon
use tpt_teleop.Link.Mesh.Table.{NeighborEntry, NeighborTable, observe, expire}
use tpt_teleop.Link.Reliable.Ack.{AckFrame, max_reliable_payload}
use tpt_teleop.Link.Reliable.Rx.{ReliableRx, accept, build_ack}
use tpt_teleop.Link.Reliable.Tx.{ReliableTx, on_ack, tick}
use tpt_teleop.Link.Reliable.Tx as Tx
use tpt_teleop.Link.Mux.{Rkyv, Inbound, command, packet, passthrough, beacon, ack, sealed}
use tpt_teleop.Link.Mux.Write.{
  write_control_frame, write_telemetry_frame, write_mesh_frame, write_ack_frame, write_ice_frame,
  write_secure_frame,
}
use tpt_teleop.Link.Mux.Stats.{
  UdpMux, SendResult, sent, blocked, send_failed, send_framed, RecvResult, Taken, accepted,
  rejected, stop, receive,
}
pub mod Loop
pub mod Receiving
pub mod Outbox
pub mod Delivery
mod Tests

pub record ServiceConfig : Type 0 where
  pub unit_id : ℕ
  pub beacon_interval_ns : ℕ
  pub mesh_ttl_ns : ℕ
  pub beacon_peers : List ℕ
  pub primary_peer : Option ℕ
  pub reliable_control : Bool
  pub rto_ns : ℕ

-- `local_port` is the port of `local_addr`, or `cfg.listen_port` where that fails.
pub record ServiceCore : Type 0 where
  pub mux : UdpMux
  pub local_port : ℕ
  pub cfg : ServiceConfig
  pub mesh : NeighborTable
  pub rel_tx : ReliableTx
  pub rel_rx : ReliableRx
  pub outbox : Spsc ControlCommand
  pub last_beacon_ns : ℕ
  pub beacon_seq : ℕ

pub data Event : Type 0 where
  control_event : ControlCommand → ℕ → Bool → Event
  telemetry_event : TelemetryPacket → ℕ → Event
  ice_event : List ℕ → ℕ → Event
  neighbor_up : ℕ → ℕ → Event
  secure_event : List ℕ → ℕ → ℕ → Event

-- `set_port`
abbrev pub with_port : ℕ → ℕ → ℕ
with_port port addr = addr / 65536 * 65536 + port

-- Whether a send was an `Ok`.
abbrev pub is_sent : SendResult → Bool
is_sent (sent n) = true
is_sent blocked = false
is_sent send_failed = false

unfoldable pub transmit : ℕ → List ℕ → ℕ → ServiceCore → Bool × ServiceCore
transmit dst buf now_ns c =
    let (r, mux) = send_framed dst buf now_ns c.mux in (is_sent r, record c { mux = mux })

-- The calls that write a frame and transmit it: `false` is the `?` on the writer's error.
unfoldable pub transmit_written : Option (List ℕ) → ℕ → ℕ → ServiceCore → Bool × ServiceCore
unfolding transmit
transmit_written none dst now_ns c = (false, c)
transmit_written (some buf) dst now_ns c = transmit dst buf now_ns c

-- The sender after a frame was retained, where the service is reliable; its answer is dropped.
unfoldable pub retain : ControlCommand → List ℕ → ℕ → ServiceCore → ServiceCore
retain cmd buf now_ns c =
    if c.cfg.reliable_control && leb (length buf) max_reliable_payload
    then record c { rel_tx = (Tx.send (cmd.seq % u32_mod) buf now_ns c.rel_tx).1 }
    else c

unfoldable pub send_written :
    ControlCommand → Option (List ℕ) → ℕ → ℕ → ServiceCore → Bool × ServiceCore
unfolding transmit retain
send_written cmd none dst now_ns c = (false, c)
send_written cmd (some buf) dst now_ns c = transmit dst buf now_ns (retain cmd buf now_ns c)

unfoldable pub send_control : Rkyv → ℕ → ControlCommand → ℕ → ServiceCore → Bool × ServiceCore
unfolding send_written
send_control rkyv now_ns cmd dst c =
    send_written cmd (write_control_frame rkyv cmd (if c.cfg.reliable_control then 2 else 0)) dst
      now_ns c

-- The part of `send_telemetry` after the frame was written.
unfoldable pub send_admitted : Option (List ℕ) → ℕ → ℕ → ServiceCore → Bool × ServiceCore
unfolding transmit
send_admitted none dst now_ns c = (false, c)
send_admitted (some buf) dst now_ns c =
    let (ok, bp) = admit (length buf) now_ns c.mux.backpressure in
    let c' : ServiceCore = record c { mux = record c.mux { backpressure = bp } } in
    if ok then transmit dst buf now_ns c' else (true, c')

unfoldable pub send_telemetry : Rkyv → ℕ → TelemetryPacket → ℕ → ServiceCore → Bool × ServiceCore
unfolding send_admitted
send_telemetry rkyv now_ns pkt dst c = send_admitted (write_telemetry_frame rkyv pkt) dst now_ns c

unfoldable pub send_ice : ℕ → List ℕ → ℕ → ServiceCore → Bool × ServiceCore
unfolding transmit_written
send_ice now_ns bytes dst c = transmit_written (write_ice_frame bytes) dst now_ns c

unfoldable pub send_secure : ℕ → List ℕ → ℕ → ℕ → ServiceCore → Bool × ServiceCore
unfolding transmit_written
send_secure now_ns bytes inner dst c =
    transmit_written (write_secure_frame bytes inner) dst now_ns c

unfoldable pub send_beacon_to : ℕ → ℕ → ServiceCore → Bool × ServiceCore
unfolding transmit_written
send_beacon_to now_ns dst c =
    transmit_written (write_mesh_frame (Beacon.new c.cfg.unit_id c.beacon_seq now_ns c.local_port))
      dst now_ns c

-- `mesh.iter()`
unfoldable pub entries : List (Option NeighborEntry) → List NeighborEntry
entries [] = []
entries (none ∷ ss) = entries ss
entries (some e ∷ ss) = e ∷ entries ss

unfoldable pub addresses : List NeighborEntry → List ℕ
addresses [] = []
addresses (e ∷ es) = e.addr ∷ addresses es

-- One beacon to each of these. The clock is read at each, and taken not to move in between.
unfoldable pub beacon_round : ℕ → List ℕ → ServiceCore → ServiceCore
unfolding send_beacon_to
beacon_round now_ns [] c = c
beacon_round now_ns (dst ∷ dsts) c = beacon_round now_ns dsts (send_beacon_to now_ns dst c).1

unfoldable pub beacon_fanout : ℕ → ServiceCore → ServiceCore
unfolding beacon_round entries addresses
beacon_fanout now_ns c =
    beacon_round now_ns (c.cfg.beacon_peers ++ addresses (entries c.mesh.slots)) c

abbrev pub first_address : List NeighborEntry → Option ℕ
first_address [] = none
first_address (e ∷ es) = some e.addr

unfoldable pub primary_dst : ServiceCore → Option ℕ
unfolding entries
primary_dst c = elim c.cfg.primary_peer [
  | some dst ↦ some dst
  | none ↦ first_address (entries c.mesh.slots)
]

-- `rel_rx.accept` with the empty payload, which never fails its assertion, and its answer dropped.
abbrev pub note_seq : ℕ → ReliableRx → ReliableRx
note_seq seq rx = elim (accept seq [] rx) [ none ↦ rx | some (a, rx') ↦ rx' ]

-- The answer to a reliable command.
unfoldable pub acknowledge : ℕ → ControlCommand → ℕ → ServiceCore → ServiceCore
unfolding transmit_written
acknowledge now_ns cmd from c =
    let rx = note_seq (cmd.seq % u32_mod) c.rel_rx in
    (transmit_written (write_ack_frame (build_ack 0 rx)) from now_ns (record c { rel_rx = rx })).1

unfoldable pub note_rtt : Option ℕ → ServiceCore → ServiceCore
note_rtt none c = c
note_rtt (some rtt) c = record c {
  mux = record c.mux { backpressure = note_rtt_ns rtt c.mux.backpressure };
}

-- Phase C of `Session::drain_now`: the event of a frame, and the core.
unfoldable pub handle : ℕ → Inbound → ℕ → ServiceCore → Option Event × ServiceCore
unfolding acknowledge send_beacon_to note_rtt
handle now_ns (command cmd reliable) from c =
    (some (control_event cmd from reliable), if reliable then acknowledge now_ns cmd from c else c)
handle now_ns (packet pkt) from c = (some (telemetry_event pkt from), c)
handle now_ns (passthrough bytes) from c = (some (ice_event bytes from), c)
handle now_ns (sealed bytes inner) from c = (some (secure_event bytes from inner), c)
handle now_ns (beacon b) from c =
    let peer = with_port b.listen_port from in
    let (up, mesh) = observe b.unit_id peer b.seq b.ts_ns now_ns c.mesh in
    let c' : ServiceCore = record c { mesh = mesh } in
    if up
    then (some (neighbor_up b.unit_id peer), (send_beacon_to now_ns peer c').1)
    else (none, c')
handle now_ns (ack a) from c =
    let (rtt, tx) = on_ack a now_ns c.rel_tx in (none, note_rtt rtt (record c { rel_tx = tx }))
