-- ===== src/Link/Service/Loop.antt =====
-- The loops of crates/tpt-t-link/src/service.rs: `Session::drain_now`, `NetService::background` and a
-- tick of `NetService::poll`.
use tpt_teleop.Prelude.{
  ℕ, zero, suc, ◌-◌, Bool, true, false, Option, none, some, List, [], ◌∷◌, ltb, if◌then◌else◌,
}
use tpt_teleop.Prelude.Words.{wrapping_add_32}
use tpt_teleop.Core.Ser.{ControlCommand}
use tpt_teleop.Ring.Spsc.{empty, got, uninit, pop, len}
use tpt_teleop.Link.Mesh.Table.{expire}
use tpt_teleop.Link.Reliable.Tx.{tick}
use tpt_teleop.Link.Mux.{Rkyv}
use tpt_teleop.Link.Mux.Stats.{
  UdpMux, send_framed, RecvResult, Taken, accepted, rejected, stop, receive,
}
use tpt_teleop.Link.Service.{ServiceCore, Event, handle, send_control, beacon_fanout, primary_dst}

-- The callback of a tick.
abbrev pub Sink : Type 0
Sink = Event → ServiceCore → ServiceCore

abbrev pub notify : Sink → Option Event → ServiceCore → ServiceCore
notify sink none c = c
notify sink (some e) c = sink e c

abbrev pub emit : Option Event → List Event → List Event
emit none es = es
emit (some e) es = e ∷ es

-- A round of the loop of `drain_now` for what was taken: whether the loop goes on, the event that
-- the sink was called with, and the core.
unfoldable pub drain_round : Sink → ℕ → Taken → ServiceCore → Bool × Option Event × ServiceCore
unfolding handle
drain_round sink now_ns stop c = (false, none, c)
drain_round sink now_ns rejected c = (true, none, c)
drain_round sink now_ns (accepted i from) c =
    let (ev, c') = handle now_ns i from c in (true, ev, notify sink ev c')

-- The answers of the socket, each with the clock that is read after it; the events that the sink
-- was called with, in order. `handled` counts these.
unfoldable pub drain_now :
    Rkyv → Sink → List (RecvResult × ℕ) → ServiceCore → List Event × ServiceCore
drain_now rkyv sink [] c = ([], c)
drain_now rkyv sink ((r, now_ns) ∷ rs) c =
    let (taken, mux) = receive rkyv r c.mux in
    let (more, ev, c') = drain_round sink now_ns taken (record c { mux = mux }) in
    elim more [
      | false ↦ ([], c')
      | true ↦ let (evs, end) = drain_now rkyv sink rs c' in (emit ev evs, end)
    ]

-- What the loop over the outbox does with a command that it popped: whether it goes on.
unfoldable pub dispatch : Rkyv → ℕ → ControlCommand → ServiceCore → Bool × ServiceCore
dispatch rkyv now_ns cmd c = elim (primary_dst c) [
  | none ↦ (false, c)
  | some dst ↦ send_control rkyv now_ns cmd dst c
]

-- `n` rounds of the loop over the outbox; a round of it pops a command.
unfoldable pub flush_outbox : Rkyv → ℕ → ℕ → ServiceCore → ServiceCore
unfolding dispatch
flush_outbox rkyv zero now_ns c = c
flush_outbox rkyv (suc n) now_ns c =
    let (popped, ring) = pop c.outbox in
    let c' : ServiceCore = record c { outbox = ring } in
    elim popped [
      | empty ↦ c'
      | uninit ↦ c'
      | got cmd ↦
          let (more, c'') = dispatch rkyv now_ns cmd c' in
          elim more [ true ↦ flush_outbox rkyv n now_ns c'' | false ↦ c'' ]
    ]

unfoldable pub heartbeat : ℕ → ServiceCore → ServiceCore
heartbeat now_ns c =
    if ltb (now_ns - c.last_beacon_ns) c.cfg.beacon_interval_ns
    then c
    else let c' =
        beacon_fanout now_ns
          (record c { beacon_seq = wrapping_add_32 c.beacon_seq 1; last_beacon_ns = now_ns }) in
      record c' { mesh = (expire now_ns c.cfg.mesh_ttl_ns c'.mesh).1 }

unfoldable pub send_each : ℕ → ℕ → List (ℕ × List ℕ) → UdpMux → UdpMux
send_each dst now_ns [] m = m
send_each dst now_ns ((seq, framed) ∷ more) m =
    send_each dst now_ns more (send_framed dst framed now_ns m).1

-- The resends of the reliable channel.
unfoldable pub resend : ℕ → ServiceCore → ServiceCore
unfolding send_each
resend now_ns c = elim (primary_dst c) [
  | none ↦ c
  | some dst ↦
      let (n, out, tx) = tick now_ns c.cfg.rto_ns c.rel_tx in
      record c { rel_tx = tx; mux = send_each dst now_ns out c.mux }
]

-- The clock is read at each part; here it stands still.
unfoldable pub background : Rkyv → ℕ → ServiceCore → ServiceCore
unfolding flush_outbox heartbeat resend
background rkyv now_ns c =
    resend now_ns (heartbeat now_ns (flush_outbox rkyv (suc (len c.outbox)) now_ns c))

-- A tick after the platform's dispatch, which drains too where the socket is ready.
unfoldable pub poll :
    Rkyv → Sink → List (RecvResult × ℕ) → ℕ → ServiceCore → List Event × ServiceCore
unfolding drain_now background
poll rkyv sink rs now_ns c =
    let (evs, c') = drain_now rkyv sink rs c in (evs, background rkyv now_ns c')
