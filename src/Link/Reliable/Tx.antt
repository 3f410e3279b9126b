-- ===== src/Link/Reliable/Tx.antt =====
-- `ReliableTx` of crates/tpt-t-link/src/reliable.rs. A slot's payload is its bytes below its `len`,
-- so an empty payload is a free slot.
use tpt_teleop.Prelude.{
  ℕ, zero, suc, ◌+◌, ◌-◌, ◌%◌, bit_and, max, Bool, Option, none, some, List, [], ◌∷◌, length,
  get_or, set, ltb, leb, ◌==◌, ◌&&◌, ◌||◌, not, if◌then◌else◌,
}
use tpt_teleop.Prelude.Words.{u32_mod, wrapping_add_32, wrapping_sub_32}
use tpt_teleop.Prelude.Bits.{test_bit}
use tpt_teleop.Prelude.PowTwo.{next_power_of_two}
use tpt_teleop.Link.Reliable.Ack.{AckFrame, max_reliable_payload, sack_bits}
use tpt_teleop.Link.Reliable.Rx.{Bytes}

pub record ReliableConfig : Type 0 where
  pub window : ℕ
  pub rto_ns : ℕ
  pub max_resends : ℕ

unfoldable pub default : ReliableConfig
default = record { window = 128; rto_ns = 10000000; max_resends = 200 }

pub record TxSlot : Type 0 where
  pub seq : ℕ
  pub payload : Bytes
  pub first_ns : ℕ
  pub last_ns : ℕ
  pub resends : ℕ

pub record ReliableTx : Type 0 where
  pub slots : List TxSlot
  pub mask : ℕ
  pub oldest : ℕ

-- What a read past the end would be; the masked index is never there.
abbrev pub free_slot : ℕ → TxSlot
free_slot seq = record { seq = seq; payload = []; first_ns = 0; last_ns = 0; resends = 0 }

-- `(i..).map(|i| TxSlot { seq: i as u32, .. })`, `n` of them.
unfoldable pub fresh_slots : ℕ → ℕ → List TxSlot
fresh_slots i zero = []
fresh_slots i (suc n) = free_slot (i % u32_mod) ∷ fresh_slots (suc i) n

unfoldable pub new : ReliableConfig → ReliableTx
unfolding fresh_slots
new cfg =
    let window = max (next_power_of_two cfg.window) 1 in
    record { slots = fresh_slots 0 window; mask = window - 1; oldest = 0 }

-- The number of slots, as a `u32`.
abbrev pub window_32 : ReliableTx → ℕ
window_32 tx = length tx.slots % u32_mod

-- `s.len > 0`
abbrev pub is_live : TxSlot → Bool
is_live s = not (length s.payload == 0)

unfoldable pub count_live : ℕ → ℕ → List TxSlot → ℕ
count_live oldest window [] = 0
count_live oldest window (s ∷ ss) =
    let rest = count_live oldest window ss in
    if is_live s && ltb (wrapping_sub_32 s.seq oldest) window then suc rest else rest

unfoldable pub in_flight : ReliableTx → ℕ
unfolding count_live
in_flight tx = count_live tx.oldest (window_32 tx) tx.slots

pub data Sent : Type 0 where
  queued : Sent
  tx_full : ℕ → Sent
  too_long : Sent

abbrev pub slot_at : ReliableTx → ℕ → TxSlot
slot_at tx seq = get_or tx.slots (bit_and seq tx.mask) (free_slot 0)

-- `too_long` is the failed assertion on the payload's length.
unfoldable pub send : ℕ → Bytes → ℕ → ReliableTx → Sent × ReliableTx
send seq payload now_ns tx =
    if ltb max_reliable_payload (length payload)
    then (too_long, tx)
    else if leb (length tx.slots) (wrapping_sub_32 seq tx.oldest)
    then (tx_full seq, tx)
    else if is_live (slot_at tx seq)
        && (slot_at tx seq).seq == seq
        && not ((slot_at tx seq).first_ns == 0)
    then (tx_full seq, tx)
    else (
      queued,
      record tx {
        slots = set tx.slots (bit_and seq tx.mask) (record {
          seq = seq;
          payload = payload;
          first_ns = now_ns;
          last_ns = now_ns;
          resends = 0;
        });
      },
    )

-- The slot at a sequence number, freed.
abbrev pub free : ReliableTx → ℕ → List TxSlot
free tx seq =
    set tx.slots (bit_and seq tx.mask) (record (slot_at tx seq) { payload = []; first_ns = 0 })

-- The sample that a freed frame gives, if there is none yet.
abbrev pub sample : Option ℕ → Bool → TxSlot → ℕ → Option ℕ
sample (some r) eligible s now_ns = some r
sample none eligible s now_ns = if eligible then some (now_ns - s.first_ns) else none

-- The loop that frees what `base_seq` acknowledges; `fuel` bounds its rounds.
unfoldable pub free_cumulative : ℕ → AckFrame → ℕ → Option ℕ → ReliableTx → Option ℕ × ReliableTx
free_cumulative zero ack now_ns rtt tx = (rtt, tx)
free_cumulative (suc fuel) ack now_ns rtt tx =
    let diff = wrapping_sub_32 ack.base_seq tx.oldest in
    let slot = slot_at tx tx.oldest in
    let rest =
      free_cumulative fuel ack now_ns
        (sample rtt (is_live slot && not (slot.first_ns == 0)) slot now_ns)
        (record tx { slots = free tx tx.oldest; oldest = wrapping_add_32 tx.oldest 1 }) in
    if diff == 0 || leb (window_32 tx) diff then (rtt, tx) else rest

-- The loop over the bits of the bitmap, `n` of them from bit `i` on.
unfoldable pub free_sacked : ℕ → ℕ → AckFrame → ℕ → Option ℕ → ReliableTx → Option ℕ × ReliableTx
free_sacked zero i ack now_ns rtt tx = (rtt, tx)
free_sacked (suc n) i ack now_ns rtt tx =
    let seq = wrapping_add_32 ack.base_seq (1 + i) in
    let slot = slot_at tx seq in
    let acked =
      test_bit ack.bitmap i
      && ltb (wrapping_sub_32 seq tx.oldest) (window_32 tx)
      && slot.seq == seq
      && is_live slot in
    let rtt' = if acked then sample rtt (not (slot.first_ns == 0)) slot now_ns else rtt in
    let tx' = if acked then record tx { slots = free tx seq } else tx in
    free_sacked n (suc i) ack now_ns rtt' tx'

-- A round of the first loop moves `oldest` on by one, so `length tx.slots` rounds are enough.
unfoldable pub on_ack : AckFrame → ℕ → ReliableTx → Option ℕ × ReliableTx
unfolding free_cumulative free_sacked
on_ack ack now_ns tx =
    let (rtt, tx') = free_cumulative (suc (length tx.slots)) ack now_ns none tx in
    free_sacked (sack_bits - 1) 0 ack now_ns rtt tx'

-- One slot of the loop of `tick`: the slot after it, and what `out` is called with.
unfoldable pub tick_slot : ℕ → ℕ → TxSlot → TxSlot × Option (ℕ × Bytes)
tick_slot now_ns rto_ns s =
    if not (is_live s) || s.first_ns == 0
    then (s, none)
    else if leb rto_ns (now_ns - s.last_ns)
    then (
      record s { last_ns = now_ns; resends = wrapping_add_32 s.resends 1 },
      some (s.seq, s.payload),
    )
    else (s, none)

unfoldable pub tick_slots : ℕ → ℕ → List TxSlot → List TxSlot × List (ℕ × Bytes)
tick_slots now_ns rto_ns [] = ([], [])
tick_slots now_ns rto_ns (s ∷ ss) =
    let (s', out) = tick_slot now_ns rto_ns s in
    let (ss', outs) = tick_slots now_ns rto_ns ss in
    (s' ∷ ss', elim out [ some f ↦ f ∷ outs | none ↦ outs ])

-- The number of frames sent again, the frames in order, and the sender.
unfoldable pub tick : ℕ → ℕ → ReliableTx → ℕ × List (ℕ × Bytes) × ReliableTx
unfolding tick_slots
tick now_ns rto_ns tx =
    let (slots, out) = tick_slots now_ns rto_ns tx.slots in
    (length out, out, record tx { slots = slots })

unfoldable pub max_resends_of : List TxSlot → ℕ
max_resends_of [] = 0
max_resends_of (s ∷ ss) =
    let rest = max_resends_of ss in if is_live s then max s.resends rest else rest

unfoldable pub max_resends : ReliableTx → ℕ
unfolding max_resends_of
max_resends tx = max_resends_of tx.slots
