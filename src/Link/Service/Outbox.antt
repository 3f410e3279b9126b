-- ===== src/Link/Service/Outbox.antt =====
-- The sending half of crates/tpt-t-link/src/service.rs: the commands that the safety loop puts into
-- the outbox, over the ring of Ring.Refine.
use tpt_teleop.Prelude.{
  ℕ, zero, suc, ◌<◌, ◌≡◌, refl, sym, ◌∙◌, ap, subst, arith, Bool, true, false, Bool-cases, inl, inr,
  none, some, List, [], ◌∷◌, length, leb, ◌&&◌, if◌then◌else◌,
}
use tpt_teleop.Core.Ser.{ControlCommand}
use tpt_teleop.Ring.Spsc.{Spsc, Popped, empty, uninit, got, pop}
use tpt_teleop.Ring.Refine.{Holds, advanced, pop_got, advanced-Holds, pop_empty}
use tpt_teleop.Link.Reliable.Ack.{max_reliable_payload}
use tpt_teleop.Link.Mux.{Rkyv}
use tpt_teleop.Link.Mux.Write.{write_control_frame}
use tpt_teleop.Link.Mux.Stats.{SendResult, sent, send_framed, send_to, account_send}
use tpt_teleop.Link.Service.{ServiceCore, retain, transmit, send_written, send_control, primary_dst}
use tpt_teleop.Link.Service.Loop.{dispatch, flush_outbox}

dispatch-none :
    (rkyv : Rkyv) (now_ns : ℕ) (cmd : ControlCommand) (c : ServiceCore)
    → primary_dst c ≡ none
    → dispatch rkyv now_ns cmd c ≡ (false, c)
unfolding dispatch
dispatch-none rkyv now_ns cmd c e = rw (e, dispatch) refl

dispatch-some :
    (rkyv : Rkyv) (now_ns : ℕ) (cmd : ControlCommand) (c : ServiceCore) (dst : ℕ)
    → primary_dst c ≡ some dst
    → dispatch rkyv now_ns cmd c ≡ send_control rkyv now_ns cmd dst c
unfolding dispatch
dispatch-some rkyv now_ns cmd c dst e = rw (e, dispatch) refl

-- The loop after a command was dispatched.
abbrev after_dispatch : Rkyv → ℕ → ℕ → Bool × ServiceCore → ServiceCore
after_dispatch rkyv n now_ns r = elim r.0 as (λ x. ServiceCore) [
  | true ↦ flush_outbox rkyv n now_ns r.1
  | false ↦ r.1
]

-- One round that popped a command.
flush_got :
    (rkyv : Rkyv) (n now_ns : ℕ) (c : ServiceCore) (cmd : ControlCommand)
    (ring : Spsc ControlCommand)
    → pop c.outbox ≡ (got cmd, ring)
    → flush_outbox rkyv (suc n) now_ns c
      ≡ after_dispatch rkyv n now_ns (dispatch rkyv now_ns cmd (record c { outbox = ring }))
unfolding flush_outbox
flush_got rkyv n now_ns c cmd ring e =
    ap
      (λ (t : Popped ControlCommand × Spsc ControlCommand). elim t.0 as (λ x. ServiceCore) [
        | empty ↦ record c { outbox = t.1 }
        | uninit ↦ record c { outbox = t.1 }
        | got x ↦ after_dispatch rkyv n now_ns (dispatch rkyv now_ns x (record c { outbox = t.1 }))
      ])
      e

-- With nobody to send to, the first command of the outbox is taken out of it and dropped: nothing is
-- sent and nothing else of the service changes.
pub flush_outbox-primary_dst :
    (rkyv : Rkyv) (k n now_ns : ℕ) (c : ServiceCore) (cmd : ControlCommand)
    (q : List ControlCommand)
    → Holds k c.outbox (cmd ∷ q)
    → primary_dst c ≡ none
    → (flush_outbox rkyv (suc n) now_ns c ≡ record c { outbox = advanced c.outbox })
      × Holds k (advanced c.outbox) q
unfolding primary_dst
flush_outbox-primary_dst rkyv k n now_ns c cmd q h nobody =
    let c' : ServiceCore = record c { outbox = advanced c.outbox } in
    (
      flush_got rkyv n now_ns c cmd (advanced c.outbox) (pop_got h)
          ∙ ap (after_dispatch rkyv n now_ns) (dispatch-none rkyv now_ns cmd c' nobody),
      advanced-Holds h,
    )

-- The socket takes the next `n` datagrams.
pub data Takes : ℕ → List SendResult → Type 0 where
  done : {rs : List SendResult} → Takes zero rs
  takes : {n m : ℕ} {rs : List SendResult} → Takes n rs → Takes (suc n) (sent m ∷ rs)

-- Each of these commands is written as a datagram.
pub data AreWritten (rkyv : Rkyv) (flags : ℕ) : List ControlCommand → List (List ℕ) → Type 0 where
  nil : AreWritten rkyv flags [] []
  cons :
      {cmd : ControlCommand} {buf : List ℕ} {q : List ControlCommand} {bufs : List (List ℕ)}
      → write_control_frame rkyv cmd flags ≡ some buf
      → AreWritten rkyv flags q bufs
      → AreWritten rkyv flags (cmd ∷ q) (buf ∷ bufs)

abbrev pub flags_of : ServiceCore → ℕ
flags_of c = if c.cfg.reliable_control then 2 else 0

retain_keeps :
    (cmd : ControlCommand) (buf : List ℕ) (now_ns : ℕ) (c : ServiceCore)
    → ((retain cmd buf now_ns c).mux ≡ c.mux)
      × ((retain cmd buf now_ns c).cfg ≡ c.cfg)
      × ((retain cmd buf now_ns c).outbox ≡ c.outbox)
unfolding retain
retain_keeps cmd buf now_ns c =
    elim (Bool-cases (c.cfg.reliable_control && leb (length buf) max_reliable_payload)) [
      | inl kept ↦ rw kept (refl, refl, refl)
      | inr short ↦ rw short (refl, refl, refl)
    ]

transmit_sent :
    (dst m now_ns : ℕ) (buf : List ℕ) (rs : List SendResult) (c : ServiceCore)
    → c.mux.socket.answers ≡ sent m ∷ rs
    → ((transmit dst buf now_ns c).0 ≡ true)
      × ((transmit dst buf now_ns c).1.mux.socket.answers ≡ rs)
      × ((transmit dst buf now_ns c).1.mux.socket.log ≡ (dst, buf) ∷ c.mux.socket.log)
unfolding transmit send_framed send_to account_send
transmit_sent dst m now_ns buf rs c e = rw e (refl, refl, refl)

send_written_some :
    (rkyv : Rkyv) (now_ns : ℕ) (cmd : ControlCommand) (dst : ℕ) (buf : List ℕ) (c : ServiceCore)
    → write_control_frame rkyv cmd (flags_of c) ≡ some buf
    → send_control rkyv now_ns cmd dst c ≡ transmit dst buf now_ns (retain cmd buf now_ns c)
unfolding send_control send_written
send_written_some rkyv now_ns cmd dst buf c e = rw e refl

-- A command that the socket takes.
send_control_sent :
    (rkyv : Rkyv) (now_ns : ℕ) (cmd : ControlCommand) (dst m : ℕ) (rs : List SendResult)
    (buf : List ℕ) (c : ServiceCore)
    → c.mux.socket.answers ≡ sent m ∷ rs
    → write_control_frame rkyv cmd (flags_of c) ≡ some buf
    → (c' : ServiceCore) × (send_control rkyv now_ns cmd dst c ≡ (true, c'))
      × (c'.outbox ≡ c.outbox)
      × (c'.cfg ≡ c.cfg)
      × (c'.mux.socket.answers ≡ rs)
      × (c'.mux.socket.log ≡ (dst, buf) ∷ c.mux.socket.log)
unfolding transmit
send_control_sent rkyv now_ns cmd dst m rs buf c answers written =
    let (same_mux, same_cfg, same_outbox) = retain_keeps cmd buf now_ns c in
    let d = retain cmd buf now_ns c in
    let (went, rest, log) =
      transmit_sent dst m now_ns buf rs d (ap (λ m. m.socket.answers) same_mux ∙ answers) in
    (
      (transmit dst buf now_ns d).1,
      send_written_some rkyv now_ns cmd dst buf c written
          ∙ ap (λ b. (b, (transmit dst buf now_ns d).1)) went,
      same_outbox,
      same_cfg,
      rest,
      log ∙ ap (λ m. (dst, buf) ∷ m.socket.log) same_mux,
    )

flush_end :
    (rkyv : Rkyv) (n now_ns : ℕ) (c : ServiceCore)
    → pop c.outbox ≡ (empty, c.outbox)
    → flush_outbox rkyv (suc n) now_ns c ≡ c
unfolding flush_outbox
flush_end rkyv n now_ns c e =
    ap
      (λ (t : Popped ControlCommand × Spsc ControlCommand). elim t.0 as (λ x. ServiceCore) [
        | empty ↦ record c { outbox = t.1 }
        | uninit ↦ record c { outbox = t.1 }
        | got x ↦ after_dispatch rkyv n now_ns (dispatch rkyv now_ns x (record c { outbox = t.1 }))
      ])
      e

primary_dst_peer :
    (c : ServiceCore) (dst : ℕ) → c.cfg.primary_peer ≡ some dst → primary_dst c ≡ some dst
unfolding primary_dst
primary_dst_peer c dst e = rw (e, primary_dst) refl

Takes-suc :
    (n : ℕ) (rs : List SendResult)
    → Takes (suc n) rs
    → (m : ℕ) × (more : List SendResult) × (rs ≡ sent m ∷ more) × Takes n more
Takes-suc n _ (takes {m = m} {rs = more} t) = (m, more, refl, t)

-- The log after these were sent to one address, the latest first.
unfoldable pub log_all : ℕ → List (List ℕ) → List (ℕ × List ℕ) → List (ℕ × List ℕ)
log_all dst [] log = log
log_all dst (b ∷ bs) log = log_all dst bs ((dst, b) ∷ log)

-- All that the outbox holds is sent to the primary peer, in order, and the outbox is empty: where
-- there is a primary peer, the socket takes the datagrams, every command can be written, and the
-- rounds are more than the commands.
pub flush_outbox_all :
    (rkyv : Rkyv) (k n now_ns dst : ℕ) (c : ServiceCore) (q : List ControlCommand)
    (bufs : List (List ℕ))
    → Holds k c.outbox q
    → c.cfg.primary_peer ≡ some dst
    → AreWritten rkyv (flags_of c) q bufs
    → Takes (length q) c.mux.socket.answers
    → length q < n
    → Holds k (flush_outbox rkyv n now_ns c).outbox []
      × ((flush_outbox rkyv n now_ns c).mux.socket.log ≡ log_all dst bufs c.mux.socket.log)
unfolding log_all
flush_outbox_all rkyv k zero now_ns dst c q bufs h peer ws ts enough =
    absurd (omega (arith, enough))
flush_outbox_all rkyv k (suc n) now_ns dst c _ _ h peer nil ts enough =
    subst (λ d. Holds k d.outbox [] × (d.mux.socket.log ≡ c.mux.socket.log))
      (sym (flush_end rkyv n now_ns c (pop_empty h))) (h, refl)
flush_outbox_all rkyv k (suc n) now_ns dst c _ _ h peer (cons {cmd} {buf} {q} {bufs} w ws) ts
      enough =
    let d : ServiceCore = record c { outbox = advanced c.outbox } in
    let (m, rs, head, rest) = Takes-suc (length q) c.mux.socket.answers ts in
    let (c', went, outbox, cfg, answers, log) =
      send_control_sent rkyv now_ns cmd dst m rs buf d head w in
    let run =
      flush_got rkyv n now_ns c cmd (advanced c.outbox) (pop_got h)
      ∙ ap (after_dispatch rkyv n now_ns)
          (dispatch-some rkyv now_ns cmd d dst (primary_dst_peer d dst peer) ∙ went) in
    let (empty_after, logged) =
      flush_outbox_all rkyv k n now_ns dst c' q bufs
        (subst (λ o. Holds k o q) (sym outbox) (advanced-Holds h))
        (ap (λ g. g.primary_peer) cfg ∙ peer)
        (subst (λ g. AreWritten rkyv (if g.reliable_control then 2 else 0) q bufs) (sym cfg) ws)
        (subst (Takes (length q)) (sym answers) rest) (omega (arith, enough)) in
    subst
      (λ e.
        Holds k e.outbox [] × (e.mux.socket.log ≡ log_all dst bufs ((dst, buf) ∷ c.mux.socket.log)))
      (sym run) (empty_after, logged ∙ ap (log_all dst bufs) log)
