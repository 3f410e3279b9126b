-- ===== src/Link/Reliable/Ack.antt =====
-- `AckFrame` of crates/tpt-t-link/src/reliable.rs.
use tpt_teleop.Prelude.{ℕ, ◌-◌, Bool, true, false, ltb, leb, ◌==◌, if◌then◌else◌}
use tpt_teleop.Prelude.Words.{wrapping_sub_32}
use tpt_teleop.Prelude.Bits.{test_bit}

abbrev pub max_reliable_payload : ℕ
max_reliable_payload = 256

abbrev pub sack_bits : ℕ
sack_bits = 32

abbrev pub sack_max : ℕ
sack_max = sack_bits - 1

-- `u32::MAX / 2`
abbrev pub half_range : ℕ
half_range = 2147483647

pub record AckFrame : Type 0 where
  pub base_seq : ℕ
  pub bitmap : ℕ
  pub rtt_sample_ns : ℕ

unfoldable pub covers : AckFrame → ℕ → Bool
covers ack seq =
    let diff = wrapping_sub_32 seq ack.base_seq in
    if ltb half_range diff
    then true
    else if diff == 0
    then true
    else if leb diff sack_max
    then test_bit ack.bitmap (diff - 1)
    else false
