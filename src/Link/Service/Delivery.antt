-- ===== src/Link/Service/Delivery.antt =====
-- The commands of one service's outbox all the way to the sink of another: crates/tpt-t-link/src's
-- service.rs and mux.rs together.
use tpt_teleop.Prelude.{
  ℕ, suc, ◌≡◌, refl, sym, ◌∙◌, ap, arith, Bool, true, false, some, List, [], ◌∷◌, append-nil,
  length, if◌then◌else◌,
}
use tpt_teleop.Core.Ser.{ControlCommand}
use tpt_teleop.Ring.Spsc.{len}
use tpt_teleop.Ring.Refine.{Holds, len_lem}
use tpt_teleop.Link.Mux.{Rkyv, has_ack, has_reliable, demux, ok, command}
use tpt_teleop.Link.Mux.Write.{stamped, command_frame, write}
use tpt_teleop.Link.Mux.RoundTrip.{IsFaithful, CanSend, received, demux-write}
use tpt_teleop.Link.Mux.Stats.{RecvResult, datagram}
use tpt_teleop.Link.Service.{ServiceCore, Event, control_event}
use tpt_teleop.Link.Service.Loop.{Sink, flush_outbox, drain_now}
use tpt_teleop.Link.Service.Receiving.{control_events, commands_in, control_events-drain_now}
use tpt_teleop.Link.Service.Outbox.{
  AreWritten, nil, cons, Takes, flags_of, log_all, flush_outbox_all,
}

-- The same datagrams as the peer's socket gives them, in order.
unfoldable pub arrivals : ℕ → ℕ → List (List ℕ) → List (RecvResult × ℕ)
arrivals from now_ns [] = []
arrivals from now_ns (b ∷ bs) = (datagram b (length b) from, now_ns) ∷ arrivals from now_ns bs

-- The events of these commands, each with its tag.
unfoldable pub events_of : ℕ → ℕ → List ControlCommand → List Event
events_of flags from [] = []
events_of flags from (cmd ∷ q) =
    control_event (stamped cmd) from (has_reliable flags) ∷ events_of flags from q

pub commands_in-arrivals :
    (rkyv : Rkyv) (flags from now_ns : ℕ) (q : List ControlCommand) (bufs : List (List ℕ))
    → IsFaithful rkyv
    → has_ack flags ≡ false
    → AreWritten rkyv flags q bufs
    → commands_in rkyv (arrivals from now_ns bufs) ≡ events_of flags from q
unfolding commands_in arrivals events_of received CanSend write
commands_in-arrivals rkyv flags from now_ns _ _ f plain nil = refl
commands_in-arrivals rkyv flags from now_ns _ _ f plain (cons {cmd} {buf} {q} {bufs} w ws) =
    let one : demux rkyv buf (length buf) ≡ ok (command (stamped cmd) (has_reliable flags)) =
      ap (λ b. demux rkyv b (length buf)) (sym (append-nil buf))
      ∙ demux-write rkyv (command_frame cmd flags) buf [] f plain w in
    rw one (
      ap (λ es. control_event (stamped cmd) from (has_reliable flags) ∷ es)
        (commands_in-arrivals rkyv flags from now_ns q bufs f plain ws))

flags_plain : (reliable : Bool) → has_ack (if reliable then 2 else 0) ≡ false
flags_plain true = refl
flags_plain false = refl

-- The whole way of the commands in the outbox of one service: they leave it in order as datagrams to
-- the primary peer, and when these arrive in order at another service its sink is called with the
-- same commands, in order, each with its tag. The primary peer is configured, the
-- socket takes the datagrams, every command can be written and rkyv reads back what it serialized;
-- the rounds are those of `background`.
pub outbox_to_sink :
    (rkyv : Rkyv) (k now_ns then_ns dst from : ℕ) (a b : ServiceCore) (sink : Sink)
    (q : List ControlCommand) (bufs : List (List ℕ))
    → IsFaithful rkyv
    → Holds k a.outbox q
    → a.cfg.primary_peer ≡ some dst
    → AreWritten rkyv (flags_of a) q bufs
    → Takes (length q) a.mux.socket.answers
    → ((flush_outbox rkyv (suc (len a.outbox)) now_ns a).mux.socket.log
        ≡ log_all dst bufs a.mux.socket.log)
      × (control_events (drain_now rkyv sink (arrivals from then_ns bufs) b).0
          ≡ events_of (flags_of a) from q)
outbox_to_sink rkyv k now_ns then_ns dst from a b sink q bufs f h peer ws ts = (
  (flush_outbox_all rkyv k (suc (len a.outbox)) now_ns dst a q bufs h peer ws ts
      (omega (arith, len_lem h))).1,
  control_events-drain_now rkyv sink (arrivals from then_ns bufs) b
      ∙ commands_in-arrivals rkyv (flags_of a) from then_ns q bufs f
          (flags_plain a.cfg.reliable_control) ws,
)
