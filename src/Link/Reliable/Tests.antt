-- ===== src/Link/Reliable/Tests.antt =====
-- Runs of the reliable sublayer of crates/tpt-t-link/src/reliable.rs on small inputs.
use tpt_teleop.Prelude.{
  ℕ, true, false, some, ◌≤◌, ◌≡◌, ◌≢◌, ◌^◌, ◌<◌, ◌⊎◌, refl, arith, List, [], ◌∷◌, length,
}
use tpt_teleop.Prelude.Words.{u32_mod}
use tpt_teleop.Link.Reliable.Ack.{AckFrame, max_reliable_payload}
use tpt_teleop.Link.Reliable.Rx.{
  Bytes, Accept, in_order, duplicate, ReliableRx, accept, drain, shift_down, first_slot, advance,
}
use tpt_teleop.Prelude.Bits.{test_bit, set_bit}
use tpt_teleop.Link.Reliable.Rx
use tpt_teleop.Link.Reliable.Tx.{ReliableTx, send, queued, tx_full, too_long, slot_at}
use tpt_teleop.Link.Reliable.Tracking.{frames_from, IsGenuine}
use tpt_teleop.Link.Reliable.Stream.{
  Event, arrives, drains, run, new-IsTracking, delivers_in_order, gap_fills,
}
use tpt_teleop.Link.Reliable.Window.{IsWindow, offset, is_retained, send_retains}

-- The frame with number `n` is the one byte `n`.
abbrev numbered : ℕ → Bytes
numbered n = n ∷ []

-- Frames 1 and 0 out of order, 1 again, and frame 2 late.
abbrev shuffled : List Event
shuffled =
    arrives 1 (numbered 1)
    ∷ drains
    ∷ arrives 0 (numbered 0)
    ∷ arrives 1 (numbered 1)
    ∷ drains
    ∷ arrives 2 (numbered 2)
    ∷ drains
    ∷ []

genuine : (n : ℕ) → n < 100 → IsGenuine numbered n (numbered n)
genuine n small = record { early = omega (arith, small); small = omega arith; faithful = refl }

delivers_in_order_example :
    ((run shuffled Rx.new).0 ≡ frames_from numbered 0 (length (run shuffled Rx.new).0))
    × ((run shuffled Rx.new).1.next ≡ length (run shuffled Rx.new).0)
delivers_in_order_example = delivers_in_order numbered shuffled (
  genuine 1 (omega arith),
  (
    tt,
    (genuine 0 (omega arith), (genuine 1 (omega arith), (tt, (genuine 2 (omega arith), (tt, tt))))),
  ),
)

all_three : (run shuffled Rx.new).0 ≡ frames_from numbered 0 3
unfolding run accept drain Rx.new test_bit set_bit shift_down first_slot advance
all_three = refl

gap_fills_example :
    (a : Accept) × (rx' : ReliableRx) × (rest : List (ℕ × Bytes)) × (accept 0 (numbered 0) Rx.new
      ≡ some (a, rx'))
    × ((a ≡ in_order) ⊎ (a ≡ duplicate))
    × ((drain 33 rx').0 ≡ (0, numbered 0) ∷ rest)
unfolding Rx.new
gap_fills_example =
    gap_fills numbered (numbered 0) Rx.new (new-IsTracking numbered) (genuine 0 (omega arith))

-- A sender of two slots that retains the frames 0 and 1, and nothing else.
abbrev full : ReliableTx
full = record {
  slots =
      record { seq = 0; payload = numbered 0; first_ns = 5; last_ns = 5; resends = 0 }
      ∷ record { seq = 1; payload = numbered 1; first_ns = 6; last_ns = 6; resends = 0 }
      ∷ [];
  mask = 1;
  oldest = 0;
}

full-IsWindow : IsWindow 1 full
full-IsWindow = record { small = omega arith; slots = refl; mask = refl; oldest = omega arith }

abbrev ack_two : AckFrame
ack_two = record { base_seq = 2; bitmap = 0; rtt_sample_ns = 0 }

-- A sender of two slots that retains the frame 0.
abbrev half_full : ReliableTx
half_full = record {
  slots =
      record { seq = 0; payload = numbered 0; first_ns = 5; last_ns = 5; resends = 0 }
      ∷ record { seq = 1; payload = []; first_ns = 0; last_ns = 0; resends = 0 }
      ∷ [];
  mask = 1;
  oldest = 0;
}

half_full-IsWindow : IsWindow 1 half_full
half_full-IsWindow = record { small = omega arith; slots = refl; mask = refl; oldest = omega arith }

send_retains_example :
    (((max_reliable_payload < length (numbered 1))
        × (send 1 (numbered 1) 6 half_full ≡ (too_long, half_full)))
      ⊎ ((length (numbered 1) ≤ max_reliable_payload)
          × ((2 ^ 1 ≤ offset half_full 1) ⊎ (is_retained half_full 1 ≡ true))
          × (send 1 (numbered 1) 6 half_full ≡ (tx_full 1, half_full))))
    ⊎ (length (numbered 1) ≤ max_reliable_payload)
      × (offset half_full 1 < 2 ^ 1)
      × (is_retained half_full 1 ≡ false)
      × let (result, tx) = send 1 (numbered 1) 6 half_full in
        (result ≡ queued)
        × (slot_at tx 1
            ≡ record { seq = 1; payload = numbered 1; first_ns = 6; last_ns = 6; resends = 0 })
        × (tx.oldest ≡ 0)
        × (tx.mask ≡ 1)
        × ((s : ℕ)
            → s < u32_mod
            → offset half_full s < 2 ^ 1
            → s ≢ 1
            → slot_at tx s ≡ slot_at half_full s)
send_retains_example = send_retains 1 half_full half_full-IsWindow 1 (numbered 1) 6 (omega arith)

-- The frame 0 of a full window, acknowledged.
abbrev ack_one : AckFrame
ack_one = record { base_seq = 1; bitmap = 0; rtt_sample_ns = 0 }
