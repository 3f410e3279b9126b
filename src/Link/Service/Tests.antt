-- ===== src/Link/Service/Tests.antt =====
-- The service of crates/tpt-t-link/src/service.rs on concrete datagrams.
use tpt_teleop.Prelude.{
  ℕ, suc, ◌∙◌, ◌≡◌, refl, arith, true, false, Option, none, some, List, [], ◌∷◌, replicate,
}
use tpt_teleop.Core.Ser.{ControlCommand}
use tpt_teleop.Ring.Spsc.{len}
use tpt_teleop.Ring.Refine.{Holds}
use tpt_teleop.Link.Reliable.Ack.{covers}
use tpt_teleop.Link.Reliable.Rx as Rx
use tpt_teleop.Link.Reliable.Tx as Tx
use tpt_teleop.Link.Mux.{control}
use tpt_teleop.Link.Mux.Write.{stamped, framed, write_control_frame, frame_archived}
use tpt_teleop.Link.Mux.Sample.{by_fields, by_fields-IsFaithful, idle_mux, command_fields}
use tpt_teleop.Link.Mux.Stats.{sent, datagram, would_block}
use tpt_teleop.Link.Service.{ServiceCore}
use tpt_teleop.Link.Service.Loop.{flush_outbox, drain_now}
use tpt_teleop.Link.Service.Receiving.{
  never_covered, control_events, commands_in, control_events-drain_now,
}
use tpt_teleop.Link.Service.Outbox.{nil, cons, done, takes, log_all}
use tpt_teleop.Link.Service.Delivery.{arrivals, events_of, commands_in-arrivals, outbox_to_sink}
use tpt_teleop.Prelude.Words.{wrapping_add_32}

abbrev numbered : ℕ → ControlCommand
numbered n = record {
  magic = 0;
  version = 1;
  reserved = 0;
  seq = n;
  timestamp_ns = 0;
  mode = 2;
  flags = 0;
  axis_count = 6;
  pad0 = 0;
  axes = [];
  crc = 0;
}

-- A service with two commands in its outbox.
abbrev service : Option ℕ → ServiceCore
service peer = record {
  mux = record idle_mux { socket = record { answers = sent 32 ∷ sent 32 ∷ []; log = [] } };
  local_port = 443;
  cfg = record {
    unit_id = 1;
    beacon_interval_ns = 200000000;
    mesh_ttl_ns = 5000000000;
    beacon_peers = [];
    primary_peer = peer;
    reliable_control = true;
    rto_ns = 10000000;
  };
  mesh = record {
    slots = replicate 4 none;
    len = 0;
    cfg = record { max_clock_skew_ns = 30000000000; flap_cooldown_ns = 2000000000 };
  };
  rel_tx = Tx.new Tx.default;
  rel_rx = record { next = 0; map = 0; slots = replicate 32 [] };
  outbox = record {
    slots = some (numbered 1) ∷ some (numbered 2) ∷ [];
    head = 0;
    tail = 2;
    cap = 2;
  };
  last_beacon_ns = 0;
  beacon_seq = 0;
}

outbox-Holds : (peer : Option ℕ) → Holds 1 (service peer).outbox (numbered 1 ∷ numbered 2 ∷ [])
outbox-Holds peer = record {
  word = omega arith;
  cap = refl;
  slots = refl;
  head = omega arith;
  tail = refl;
  fits = omega arith;
  window = (refl, (refl, tt));
}

abbrev datagram_of : ℕ → List ℕ
datagram_of n = framed control 2 (command_fields (stamped (numbered n)))

writes : (n : ℕ) → write_control_frame by_fields (numbered n) 2 ≡ some (datagram_of n)
unfolding write_control_frame frame_archived stamped
writes n = refl

outbox_to_sink_example :
    ((flush_outbox by_fields
        (suc (len (service (some 80)).outbox))
        0
        (service (some 80))).mux.socket.log
      ≡ (80, datagram_of 2) ∷ (80, datagram_of 1) ∷ [])
    × (control_events
          (drain_now by_fields
            (λ e c. c)
            (arrivals 7 5 (datagram_of 1 ∷ datagram_of 2 ∷ []))
            (service none)).0
        ≡ events_of 2 7 (numbered 1 ∷ numbered 2 ∷ []))
unfolding log_all
outbox_to_sink_example =
    outbox_to_sink by_fields 1 0 5 80 7 (service (some 80)) (service none) (λ e c. c)
      (numbered 1 ∷ numbered 2 ∷ []) (datagram_of 1 ∷ datagram_of 2 ∷ []) by_fields-IsFaithful
      (outbox-Holds (some 80)) refl (cons (writes 1) (cons (writes 2) nil)) (takes (takes done))

-- A command of the reliable channel that arrives twice reaches the sink twice.
control_events-drain_now_example :
    control_events
      (drain_now by_fields
        (λ e c. c)
        ((datagram (datagram_of 1) 31 7, 5)
          ∷ (datagram (datagram_of 1) 31 7, 6)
          ∷ (would_block, 7)
          ∷ [])
        (service none)).0
    ≡ commands_in by_fields (
        (datagram (datagram_of 1) 31 7, 5)
        ∷ (datagram (datagram_of 1) 31 7, 6)
        ∷ (would_block, 7)
        ∷ [])
control_events-drain_now_example =
    control_events-drain_now by_fields (λ e c. c)
      ((datagram (datagram_of 1) 31 7, 5)
        ∷ (datagram (datagram_of 1) 31 7, 6)
        ∷ (would_block, 7)
        ∷ [])
      (service none)

twice :
    control_events
      (drain_now by_fields
        (λ e c. c)
        (arrivals 7 5 (datagram_of 1 ∷ datagram_of 1 ∷ []))
        (service none)).0
    ≡ events_of 2 7 (numbered 1 ∷ numbered 1 ∷ [])
twice =
    control_events-drain_now by_fields (λ e c. c)
      (arrivals 7 5 (datagram_of 1 ∷ datagram_of 1 ∷ [])) (service none)
    ∙ commands_in-arrivals by_fields 2 7 5 (numbered 1 ∷ numbered 1 ∷ [])
        (datagram_of 1 ∷ datagram_of 1 ∷ []) by_fields-IsFaithful refl
        (cons (writes 1) (cons (writes 1) nil))

never_covered_example :
    covers
      (Rx.build_ack 0
        (drain_now by_fields
          (λ e c. c)
          (arrivals 7 5 (datagram_of 0 ∷ datagram_of 40 ∷ []))
          (service none)).1.rel_rx)
      (wrapping_add_32 0 40)
    ≡ false
never_covered_example =
    never_covered (λ e c. c) (λ e d. refl) by_fields
      (arrivals 7 5 (datagram_of 0 ∷ datagram_of 40 ∷ [])) (service none) 40 (omega arith)
      (omega arith) (omega arith)
