-- ===== src/Link/Mux/Stats.antt =====
-- The counters of crates/tpt-t-link/src/mux.rs and the calls of its socket: `send_framed` and
-- `recv_frame`, with what the drain loop of service.rs counts. The socket is a parameter: what it
-- answers, call after call, and a log of what it took.
use tpt_teleop.Prelude.{ℕ, suc, ◌+◌, ◌-◌, ◌<◌, ◌≡◌, arith, List, [], ◌∷◌, drop}
use tpt_teleop.Prelude.Words.{u64_mod, wrapping_add_64}
use tpt_teleop.Link.Backpressure.Signal.{Backpressure, note_send_blocked}
use tpt_teleop.Link.Mux.{
  Rkyv, Inbound, Demuxed, ok, err, FrameError, malformed, crc, payload, demux, header_len,
  trailer_len,
}

pub record LinkStats : Type 0 where
  pub tx_frames : ℕ
  pub tx_payload_bytes : ℕ
  pub tx_errors : ℕ
  pub rx_frames : ℕ
  pub rx_malformed : ℕ
  pub rx_crc_errors : ℕ
  pub rx_rejected : ℕ

-- `fetch_add(1)`
abbrev pub bump : ℕ → ℕ
bump cell = wrapping_add_64 cell 1

-- What `send_to` answers; `blocked` is `WouldBlock` or `TimedOut`.
pub data SendResult : Type 0 where
  sent : ℕ → SendResult
  blocked : SendResult
  send_failed : SendResult

pub record Socket : Type 0 where
  pub answers : List SendResult
  pub log : List (ℕ × List ℕ)

-- The answers come in turn; past the last one the socket is blocked.
abbrev pub next_answer : List SendResult → SendResult
next_answer [] = blocked
next_answer (r ∷ rs) = r

-- What the log gains: the datagrams that the socket took, the latest first.
abbrev pub logged : SendResult → ℕ → List ℕ → List (ℕ × List ℕ) → List (ℕ × List ℕ)
logged (sent n) dst buf log = (dst, buf) ∷ log
logged blocked dst buf log = log
logged send_failed dst buf log = log

unfoldable pub send_to : ℕ → List ℕ → Socket → SendResult × Socket
send_to dst buf s =
    let r = next_answer s.answers in
    (r, record { answers = drop 1 s.answers; log = logged r dst buf s.log })

pub record UdpMux : Type 0 where
  pub socket : Socket
  pub stats : LinkStats
  pub backpressure : Backpressure

-- The accounting of `send_framed`.
unfoldable pub account_send : ℕ → SendResult → UdpMux → UdpMux
account_send now_ns (sent n) m = record m {
  stats = record m.stats {
    tx_frames = bump m.stats.tx_frames;
    tx_payload_bytes = wrapping_add_64 m.stats.tx_payload_bytes (n - (header_len + trailer_len));
  };
}
account_send now_ns blocked m = record m {
  stats = record m.stats { tx_errors = bump m.stats.tx_errors };
  backpressure = note_send_blocked now_ns m.backpressure;
}
account_send now_ns send_failed m = record m {
  stats = record m.stats { tx_errors = bump m.stats.tx_errors };
}

unfoldable pub send_framed : ℕ → List ℕ → ℕ → UdpMux → SendResult × UdpMux
unfolding send_to account_send
send_framed dst buf now_ns m =
    let (r, socket) = send_to dst buf m.socket in
    (r, account_send now_ns r (record m { socket = socket }))

-- What `recv_from` answers: the buffer, the datagram's length and its sender.
pub data RecvResult : Type 0 where
  datagram : List ℕ → ℕ → ℕ → RecvResult
  would_block : RecvResult
  recv_failed : RecvResult

pub data Received : Type 0 where
  frame : Demuxed → ℕ → Received
  nothing : Received
  io_error : Received

-- The count of `recv_frame`.
unfoldable pub count_frame : Demuxed → LinkStats → LinkStats
count_frame (ok i) s = record s { rx_frames = bump s.rx_frames }
count_frame (err e) s = s

unfoldable pub recv_frame : Rkyv → RecvResult → UdpMux → Received × UdpMux
unfolding count_frame
recv_frame rkyv (datagram buf n from) m =
    let step = demux rkyv buf n in (frame step from, record m { stats = count_frame step m.stats })
recv_frame rkyv would_block m = (nothing, m)
recv_frame rkyv recv_failed m = (io_error, m)

-- The count of a reject in `Session::drain_now` of service.rs.
unfoldable pub count_reject : FrameError → LinkStats → LinkStats
count_reject malformed s = record s { rx_malformed = bump s.rx_malformed }
count_reject crc s = record s { rx_crc_errors = bump s.rx_crc_errors }
count_reject payload s = record s { rx_rejected = bump s.rx_rejected }

-- What one round of that loop makes of an answer: an accepted frame and its sender, a reject that
-- was counted, or the loop's end.
pub data Taken : Type 0 where
  accepted : Inbound → ℕ → Taken
  rejected : Taken
  stop : Taken

unfoldable pub take_frame : Received → UdpMux → Taken × UdpMux
unfolding count_reject
take_frame (frame (ok i) from) m = (accepted i from, m)
take_frame (frame (err e) from) m = (rejected, record m { stats = count_reject e m.stats })
take_frame nothing m = (stop, m)
take_frame io_error m = (stop, m)

unfoldable pub receive : Rkyv → RecvResult → UdpMux → Taken × UdpMux
unfolding recv_frame take_frame
receive rkyv r m = let (got, m') = recv_frame rkyv r m in take_frame got m'

-- Receiving these one after another.
unfoldable pub receive_all : Rkyv → List RecvResult → UdpMux → UdpMux
unfolding receive
receive_all rkyv [] m = m
receive_all rkyv (r ∷ rs) m = receive_all rkyv rs (receive rkyv r m).1

unfoldable pub count_datagrams : List RecvResult → ℕ
count_datagrams [] = 0
count_datagrams (datagram buf n from ∷ rs) = suc (count_datagrams rs)
count_datagrams (would_block ∷ rs) = count_datagrams rs
count_datagrams (recv_failed ∷ rs) = count_datagrams rs

abbrev pub counted : LinkStats → ℕ
counted s = s.rx_frames + s.rx_malformed + s.rx_crc_errors + s.rx_rejected

counted_datagram :
    (step : Demuxed) (from : ℕ) (m : UdpMux)
    → counted m.stats < u64_mod - 1
    → counted (take_frame (frame step from) (record m { stats = count_frame step m.stats })).1.stats
      ≡ suc (counted m.stats)
unfolding take_frame count_frame
counted_datagram (ok i) from m room = omega (arith, room)
counted_datagram (err malformed) from m room = omega (arith, room)
counted_datagram (err crc) from m room = omega (arith, room)
counted_datagram (err payload) from m room = omega (arith, room)

-- Each datagram that is received is counted, in one of the four counters; no counter wraps while all
-- of them together stay below 2 ^ 64.
pub counted-receive_all :
    (rkyv : Rkyv) (rs : List RecvResult) (m : UdpMux)
    → counted m.stats + count_datagrams rs < u64_mod
    → counted (receive_all rkyv rs m).stats ≡ counted m.stats + count_datagrams rs
unfolding receive_all count_datagrams
counted-receive_all rkyv [] m room = omega arith
counted-receive_all rkyv (datagram buf n from ∷ rs) m room =
    let one = counted_datagram (demux rkyv buf n) from m (omega (arith, room)) in
    let rest =
      counted-receive_all rkyv rs (receive rkyv (datagram buf n from) m).1
        (omega (arith, one, room)) in
    omega (arith, one, rest)
counted-receive_all rkyv (would_block ∷ rs) m room =
    counted-receive_all rkyv rs m (omega (arith, room))
counted-receive_all rkyv (recv_failed ∷ rs) m room =
    counted-receive_all rkyv rs m (omega (arith, room))
