-- ===== src/Link/Reliable/Rx.antt =====
-- `ReliableRx` of crates/tpt-t-link/src/reliable.rs. A slot is the bytes below its `len`.
use tpt_teleop.Prelude.{
  ℕ, zero, suc, ◌+◌, ◌/◌, ◌%◌, Bool, true, false, Option, none, some, List, [], ◌∷◌, ◌++◌, length,
  replicate, set, ltb, leb, ◌==◌, if◌then◌else◌,
}
use tpt_teleop.Prelude.Words.{wrapping_add_32, wrapping_sub_32}
use tpt_teleop.Prelude.Bits.{test_bit, set_bit}
use tpt_teleop.Link.Reliable.Ack.{AckFrame, max_reliable_payload, sack_bits, half_range}

abbrev pub Bytes : Type 0
Bytes = List ℕ

pub data Accept : Type 0 where
  in_order buffered duplicate overflow : Accept

-- The bitmap invariant of the source: bit `i` set means that slot `i` holds the frame `next + i`.
pub record ReliableRx : Type 0 where
  pub next : ℕ
  pub map : ℕ
  pub slots : List Bytes

unfoldable pub new : ReliableRx
new = record { next = 0; map = 0; slots = replicate sack_bits [] }

-- The number of bits set in a word of at most `n` bits.
unfoldable pub count_ones : ℕ → ℕ → ℕ
count_ones zero w = 0
count_ones (suc n) w = w % 2 + count_ones n (w / 2)

unfoldable pub buffered_count : ReliableRx → ℕ
unfolding count_ones
buffered_count rx = count_ones sack_bits (rx.map / 2)

-- `none` is the failed assertion on the payload's length.
unfoldable pub accept : ℕ → Bytes → ReliableRx → Option (Accept × ReliableRx)
accept seq payload rx =
    let diff = wrapping_sub_32 seq rx.next in
    if ltb max_reliable_payload (length payload)
    then none
    else if ltb half_range diff
    then some (duplicate, rx)
    else if leb sack_bits diff
    then some (overflow, rx)
    else if test_bit rx.map diff
    then some (duplicate, rx)
    else some (
      (if diff == 0 then in_order else buffered),
      record rx { map = set_bit rx.map diff; slots = set rx.slots diff payload },
    )

-- The slots after the loop that moves each down by one and clears the last; the first one's frame.
unfoldable pub shift_down : List Bytes → List Bytes
shift_down [] = []
shift_down (s ∷ ss) = ss ++ [] ∷ []

unfoldable pub first_slot : List Bytes → Bytes
first_slot [] = []
first_slot (s ∷ ss) = s

-- One round of the loop of `drain`, without its test.
unfoldable pub advance : ReliableRx → ReliableRx
unfolding shift_down
advance rx = record {
  next = wrapping_add_32 rx.next 1;
  map = rx.map / 2;
  slots = shift_down rx.slots;
}

-- What `out` was called with, in order, the receiver, and whether the loop ended by its test.
unfoldable pub drain : ℕ → ReliableRx → List (ℕ × Bytes) × ReliableRx × Bool
unfolding first_slot
drain zero rx = ([], rx, false)
drain (suc fuel) rx = elim (test_bit rx.map 0) [
  | true ↦
      let (frames, rx', done) = drain fuel (advance rx) in
      ((rx.next, first_slot rx.slots) ∷ frames, rx', done)
  | false ↦ ([], rx, true)
]

unfoldable pub build_ack : ℕ → ReliableRx → AckFrame
build_ack rtt_sample_ns rx = record {
  base_seq = rx.next;
  bitmap = rx.map / 2;
  rtt_sample_ns = rtt_sample_ns;
}
