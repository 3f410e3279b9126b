-- ===== src/Link/Backpressure/Tests.antt =====
-- Runs of the token bucket and the congestion level of crates/tpt-t-link/src/backpressure.rs on small
-- inputs.
use tpt_teleop.Prelude.{ℕ, ◌+◌, ◌-◌, ◌*◌, ◌≤◌, ◌≡◌, refl, arith, List, [], ◌∷◌}
use tpt_teleop.Link.Backpressure.Signal.{
  Backpressure, token_scale, gained, bucket, credit, refill, admit, spend, note_drop,
}
use tpt_teleop.Link.Backpressure.Rate.{admit_all, IsFrequent, admitted_within_capacity}
use tpt_teleop.Link.Backpressure.Levels.{Quiet, refills, admits, rtt}

-- A link of 8 Mbit/s, with 100 bytes of credit, 5 ms after the start.
abbrev link : Backpressure
link = record {
  capacity_bps = 8000000;
  tokens = 6553600;
  last_refill_ns = 5000000;
  queue_depth = 1;
  peak_queue_depth = 4;
  blocked_sends = 3;
  blocked_window = 2;
  window_start_ns = 4000000;
  dropped_frames = 0;
  rtt_ewma_ns = 4000;
}

-- One frame that fits, one that does not, and one a millisecond later.
abbrev frames : List (ℕ × ℕ)
frames = (80, 5000000) ∷ (200, 5000001) ∷ (900, 6000000) ∷ []

admits_two : (admit_all frames link).0 ≡ 980
unfolding admit_all admit refill credit spend note_drop gained bucket
admits_two = refl

admitted_within_capacity_example :
    (((admit_all frames link).0 * token_scale + (admit_all frames link).1.tokens) * 8000000000
      ≤ 6553600 * 8000000000
        + 8000000 * ((admit_all frames link).1.last_refill_ns - 5000000) * token_scale)
    × (5000000 ≤ (admit_all frames link).1.last_refill_ns)
    × ((admit_all frames link).1.capacity_bps ≡ 8000000)
admitted_within_capacity_example =
    admitted_within_capacity frames link (omega arith, (omega arith, (omega arith, tt)))

abbrev ticks : List ℕ
ticks = 5000900 ∷ 5001800 ∷ 5002700 ∷ []

-- Refills 900 ns apart: over 2700 ns the link carries two bytes.
ticks-IsFrequent : IsFrequent 8000000 5000000 ticks
unfolding IsFrequent
ticks-IsFrequent =
    (omega arith, omega arith, (omega arith, omega arith, (omega arith, omega arith, tt)))

one_refill_gains : (refill 5002700 link).tokens ≡ 6553600 + 2 * 65536
unfolding refill credit gained bucket
one_refill_gains = refl

abbrev an_hour_later : List Quiet
an_hour_later = refills 3600000000000 ∷ admits 10 3600000000001 ∷ rtt 5000 ∷ []

link_room : 6553600 + 2 * gained 5000000 6000000 link ≤ bucket link
unfolding gained bucket
link_room = omega arith
