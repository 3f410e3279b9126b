-- ===== src/Link/Service/Receiving.antt =====
-- The receiving half of crates/tpt-t-link/src/service.rs: the reliable receiver that it keeps, and
-- what reaches the sink.
use tpt_teleop.Prelude.{
  ℕ, ◌+◌, ◌-◌, ◌%◌, ◌<◌, ◌≤◌, ◌≡◌, refl, ◌∙◌, ap, arith, true, false, Bool-cases, inl, inr, Option,
  none, some, List, [], ◌∷◌, ltb,
}
use tpt_teleop.Prelude.Words.{u32_mod, wrapping_add_32, wrapping_sub-wrapping_add_32}
use tpt_teleop.Link.Mesh.Beacon.{MeshBeacon}
use tpt_teleop.Link.Mesh.Table.{observe, abs_diff}
use tpt_teleop.Link.Reliable.Ack.{covers, half_range}
use tpt_teleop.Link.Reliable.Rx.{ReliableRx, accept, build_ack}
use tpt_teleop.Link.Mux.{
  Rkyv, Demuxed, ok, err, demux, Inbound, command, packet, passthrough, beacon, ack, sealed,
}
use tpt_teleop.Link.Mux.Stats.{
  UdpMux, RecvResult, Taken, accepted, rejected, stop, receive, recv_frame, count_frame, take_frame,
  frame, datagram, would_block, recv_failed,
}
use tpt_teleop.Link.Service.{
  ServiceCore, Event, control_event, telemetry_event, ice_event, neighbor_up, secure_event,
  transmit, transmit_written, note_seq, acknowledge, note_rtt, send_beacon_to, handle, with_port,
}
use tpt_teleop.Link.Service.Loop.{Sink, notify, emit, drain_round, drain_now}

accept-next : (seq : ℕ) (rx : ReliableRx) → (note_seq seq rx).next ≡ rx.next
unfolding accept
accept-next seq rx = ground arith

transmit_written-rel_rx :
    (buf : Option (List ℕ)) (dst now_ns : ℕ) (c : ServiceCore)
    → (transmit_written buf dst now_ns c).1.rel_rx ≡ c.rel_rx
unfolding transmit_written transmit
transmit_written-rel_rx none dst now_ns c = refl
transmit_written-rel_rx (some buf) dst now_ns c = refl

note_rtt-rel_rx : (rtt : Option ℕ) (c : ServiceCore) → (note_rtt rtt c).rel_rx ≡ c.rel_rx
unfolding note_rtt
note_rtt-rel_rx none c = refl
note_rtt-rel_rx (some r) c = refl

handle-next :
    (now_ns : ℕ) (i : Inbound) (from : ℕ) (c : ServiceCore)
    → (handle now_ns i from c).1.rel_rx.next ≡ c.rel_rx.next
unfolding handle send_beacon_to acknowledge
handle-next now_ns (command cmd true) from c =
    ap (λ rx. rx.next) (transmit_written-rel_rx _ from now_ns _)
    ∙ accept-next (cmd.seq % u32_mod) c.rel_rx
handle-next now_ns (command cmd false) from c = refl
handle-next now_ns (packet pkt) from c = refl
handle-next now_ns (passthrough bytes) from c = refl
handle-next now_ns (sealed bytes inner) from c = refl
handle-next now_ns (beacon b) from c =
    let peer = with_port b.listen_port from in
    elim (Bool-cases (observe b.unit_id peer b.seq b.ts_ns now_ns c.mesh).0) [
      | inl up ↦ rw up (ap (λ rx. rx.next) (transmit_written-rel_rx _ peer now_ns _))
      | inr quiet ↦ rw quiet refl
    ]
handle-next now_ns (ack a) from c = ap (λ rx. rx.next) (note_rtt-rel_rx _ _)

module _ (sink : Sink)
    (keeps : (e : Event) (d : ServiceCore) → (sink e d).rel_rx.next ≡ d.rel_rx.next) where
  notify-next :
      (ev : Option Event) (c : ServiceCore) → (notify sink ev c).rel_rx.next ≡ c.rel_rx.next
  notify-next none c = refl
  notify-next (some e) c = keeps e c

  drain_round-next :
      (now_ns : ℕ) (taken : Taken) (c : ServiceCore)
      → (drain_round sink now_ns taken c).2.rel_rx.next ≡ c.rel_rx.next
  unfolding drain_round
  drain_round-next now_ns stop c = refl
  drain_round-next now_ns rejected c = refl
  drain_round-next now_ns (accepted i from) c = notify-next _ _ ∙ handle-next now_ns i from c

  -- The number that the receiver expects is not moved by whatever arrives.
  drain_now-next :
      (rkyv : Rkyv) (rs : List (RecvResult × ℕ)) (c : ServiceCore)
      → (drain_now rkyv sink rs c).1.rel_rx.next ≡ c.rel_rx.next
  unfolding drain_now
  drain_now-next rkyv [] c = refl
  drain_now-next rkyv ((r, now_ns) ∷ rs) c =
      let (taken, mux) = receive rkyv r c.mux in
      let (more, ev, c') = drain_round sink now_ns taken (record c { mux = mux }) in
      let one = drain_round-next now_ns taken (record c { mux = mux }) in
      elim (Bool-cases more) [
        | inl goes_on ↦ rw (goes_on, drain_now) (drain_now-next rkyv rs c' ∙ one)
        | inr ends ↦ rw (ends, drain_now) one
      ]

  -- Whatever datagrams arrive, the acknowledgement that the service builds after them covers no
  -- frame that is 32 or more (up to half the range of numbers) past the number that the receiver
  -- expected before them, when the sink leaves the receiver alone.
  pub never_covered :
      (rkyv : Rkyv) (rs : List (RecvResult × ℕ)) (c : ServiceCore) (d : ℕ)
      → c.rel_rx.next < u32_mod
      → 32 ≤ d
      → d ≤ half_range
      → covers (build_ack 0 (drain_now rkyv sink rs c).1.rel_rx) (wrapping_add_32 c.rel_rx.next d)
        ≡ false
  unfolding covers build_ack
  never_covered rkyv rs c d word far near =
      let base = drain_now-next rkyv rs c in
      let distance = wrapping_sub-wrapping_add_32 c.rel_rx.next d word (omega (arith, near)) in
      rw (base, distance) (ground (arith, far, near))

-- The commands among these events, and those that the datagrams hold before the socket is empty.
unfoldable pub control_events : List Event → List Event
control_events [] = []
control_events (control_event cmd from reliable ∷ es) =
    control_event cmd from reliable ∷ control_events es
control_events (telemetry_event p from ∷ es) = control_events es
control_events (ice_event b from ∷ es) = control_events es
control_events (neighbor_up n from ∷ es) = control_events es
control_events (secure_event b from i ∷ es) = control_events es

abbrev pub command_of : Demuxed → ℕ → List Event → List Event
command_of (ok (command cmd reliable)) from es = control_event cmd from reliable ∷ es
command_of (ok (packet p)) from es = es
command_of (ok (passthrough b)) from es = es
command_of (ok (beacon b)) from es = es
command_of (ok (ack a)) from es = es
command_of (ok (sealed b i)) from es = es
command_of (err e) from es = es

unfoldable pub commands_in : Rkyv → List (RecvResult × ℕ) → List Event
commands_in rkyv [] = []
commands_in rkyv ((datagram buf n from, now_ns) ∷ rs) =
    command_of (demux rkyv buf n) from (commands_in rkyv rs)
commands_in rkyv ((would_block, now_ns) ∷ rs) = []
commands_in rkyv ((recv_failed, now_ns) ∷ rs) = []

round_commands :
    (sink : Sink) (now_ns : ℕ) (step : Demuxed) (from : ℕ) (m : UdpMux) (c : ServiceCore)
    (es : List Event)
    → ((drain_round sink now_ns (take_frame (frame step from) m).0 c).0 ≡ true)
      × (control_events (emit (drain_round sink now_ns (take_frame (frame step from) m).0 c).1 es)
          ≡ command_of step from (control_events es))
unfolding drain_round take_frame control_events handle
round_commands sink now_ns (ok (command cmd reliable)) from m c es = (refl, refl)
round_commands sink now_ns (ok (packet p)) from m c es = (refl, refl)
round_commands sink now_ns (ok (passthrough b)) from m c es = (refl, refl)
round_commands sink now_ns (ok (beacon b)) from m c es = (
  refl,
  elim (Bool-cases
      (observe b.unit_id (with_port b.listen_port from) b.seq b.ts_ns now_ns c.mesh).0) [
        | inl up ↦ rw up refl
        | inr quiet ↦ rw quiet refl
      ],
)
round_commands sink now_ns (ok (ack a)) from m c es = (refl, refl)
round_commands sink now_ns (ok (sealed b i)) from m c es = (refl, refl)
round_commands sink now_ns (err e) from m c es = (refl, refl)

-- The commands that reach the sink are those of the accepted datagrams, in order, one for each
-- datagram, whatever the reliable receiver has seen before and whatever the sink does.
pub control_events-drain_now :
    (rkyv : Rkyv) (sink : Sink) (rs : List (RecvResult × ℕ)) (c : ServiceCore)
    → control_events (drain_now rkyv sink rs c).0 ≡ commands_in rkyv rs
unfolding drain_now commands_in receive recv_frame control_events drain_round
control_events-drain_now rkyv sink [] c = refl
control_events-drain_now rkyv sink ((would_block, now_ns) ∷ rs) c = refl
control_events-drain_now rkyv sink ((recv_failed, now_ns) ∷ rs) c = refl
control_events-drain_now rkyv sink ((datagram buf n from, now_ns) ∷ rs) c =
    let step = demux rkyv buf n in
    let (taken, mux) = receive rkyv (datagram buf n from) c.mux in
    let c' = (drain_round sink now_ns taken (record c { mux = mux })).2 in
    let (goes_on, same) =
      round_commands sink now_ns step from (record c.mux { stats = count_frame step c.mux.stats })
        (record c { mux = mux }) (drain_now rkyv sink rs c').0 in
    rw (goes_on, drain_now)
      (same ∙ ap (command_of step from) (control_events-drain_now rkyv sink rs c'))

-- Two services whose clocks were started further apart than the skew that the mesh table allows, and
-- the time that a beacon was under way, never become neighbors: the beacon is dropped. Each clock
-- counts from its own service's start.
pub handle_far_start :
    (now_ns from start_a start_b sent_at got_at : ℕ) (b : MeshBeacon) (c : ServiceCore)
    → sent_at ≤ got_at
    → b.ts_ns + start_a ≡ sent_at
    → now_ns + start_b ≡ got_at
    → c.mesh.cfg.max_clock_skew_ns + (got_at - sent_at) < abs_diff start_a start_b
    → handle now_ns (beacon b) from c ≡ (none, c)
unfolding handle observe
handle_far_start now_ns from start_a start_b sent_at got_at b c order ours theirs far =
    let late : ltb c.mesh.cfg.max_clock_skew_ns (abs_diff b.ts_ns now_ns) ≡ true =
      ground (arith, order, ours, theirs, far) in
    rw late refl
