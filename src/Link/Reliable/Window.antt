-- ===== src/Link/Reliable/Window.antt =====
-- What the sender's retention window promises, and where an acknowledgement fails it.
use tpt_teleop.Prelude.{
  dec_lt, ℕ, zero, suc, ◌+◌, ◌-◌, ◌%◌, ◌^◌, ◌<◌, ◌≤◌, ◌≡◌, ◌≢◌, refl, sym, ◌∙◌, ap, arith, bit_and,
  Bool, true, false, Option, none, length, set, get_or-set, leb, ltb, ◌==◌, ◌&&◌, not,
  if◌then◌else◌, Bool-cases, inl, inr, ◌⊎◌,
}
use tpt_teleop.Prelude.Words.{u32_mod, wrapping_add_32, wrapping_sub_32}
use tpt_teleop.Prelude.Bits.{test_bit, bit_and_mask}
use tpt_teleop.Prelude.PowTwo.{mod-mod_pow, eq_of_mod_eq}
use native.Mathlib.Nat.{pow-le-pow_right, mod-lt, one-le-pow}
use tpt_teleop.Link.Reliable.Ack.{AckFrame, max_reliable_payload}
use tpt_teleop.Link.Reliable.Rx.{Bytes}
use tpt_teleop.Link.Reliable.Tx.{
  ReliableTx, window_32, is_live, queued, tx_full, too_long, slot_at, send, free_cumulative,
  free_sacked, on_ack,
}

-- A sender with `2 ^ k` slots.
pub record IsWindow (k : ℕ) (tx : ReliableTx) : Type 0 where
  pub small : k < 32
  pub slots : length tx.slots ≡ 2 ^ k
  pub mask : tx.mask ≡ 2 ^ k - 1
  pub oldest : tx.oldest < u32_mod

-- How far a sequence number lies past the oldest one that may be unacknowledged.
abbrev pub offset : ReliableTx → ℕ → ℕ
offset tx seq = wrapping_sub_32 seq tx.oldest

-- The frame waits in its slot for an acknowledgement. (A frame whose time is 0 counts as free.)
abbrev pub is_retained : ReliableTx → ℕ → Bool
is_retained tx seq =
    is_live (slot_at tx seq) && (slot_at tx seq).seq == seq && not ((slot_at tx seq).first_ns == 0)

offsets_apart : (m o a b : ℕ) → a < m → b < m → (o + a) % m ≡ (o + b) % m → a ≡ b
offsets_apart m o a b ha hb e = elim (dec_lt b a) [
  | yes h ↦ omega (arith, eq_of_mod_eq m (o + b) (o + a) (sym e) (omega (arith, h)) (omega arith))
  | no h ↦ omega (arith, eq_of_mod_eq m (o + a) (o + b) e (omega (arith, h)) (omega arith))
]

test_bit_zero : (i : ℕ) → test_bit 0 i ≡ false
unfolding test_bit
test_bit_zero zero = refl
test_bit_zero (suc i) = test_bit_zero i

module _ (k : ℕ) (tx : ReliableTx) (w : IsWindow k tx) where
  below_half : 2 ^ k ≤ 2 ^ 31
  below_half = pow-le-pow_right {n = 2} (omega arith) {i = k} {j = 31} (omega (arith, w.small))

  window_32_lem : window_32 tx ≡ 2 ^ k
  window_32_lem = omega (arith, w.slots, below_half)

  -- The slot of a sequence number is its place modulo the window.
  place : (seq : ℕ) → bit_and seq tx.mask ≡ seq % 2 ^ k
  place seq = rw w.mask (bit_and_mask k seq)

  place_in : (seq : ℕ) → seq % 2 ^ k < length tx.slots
  place_in seq = omega (arith, w.slots, mod-lt seq (one-le-pow k 2 (omega arith)))

  place_offset : (seq : ℕ) → seq < u32_mod → seq % 2 ^ k ≡ (tx.oldest + offset tx seq) % 2 ^ k
  place_offset seq h =
      let e : seq ≡ (tx.oldest + offset tx seq) % 2 ^ 32 = omega (arith, w.oldest) in
      ap (λ n. n % 2 ^ k) e ∙ mod-mod_pow k 32 (tx.oldest + offset tx seq) (omega (arith, w.small))

  -- Two sequence numbers of one window that share a slot are the same.
  slots_apart :
      (s t : ℕ)
      → s < u32_mod
      → t < u32_mod
      → offset tx s < 2 ^ k
      → offset tx t < 2 ^ k
      → s % 2 ^ k ≡ t % 2 ^ k
      → s ≡ t
  slots_apart s t hs ht a b e =
      let same : (tx.oldest + offset tx s) % 2 ^ k ≡ (tx.oldest + offset tx t) % 2 ^ k =
        sym (place_offset s hs) ∙ e ∙ place_offset t ht in
      let offsets : offset tx s ≡ offset tx t =
        offsets_apart (2 ^ k) tx.oldest (offset tx s) (offset tx t) a b same in
      omega (arith, offsets, w.oldest, hs, ht)

  pub free_sacked_nothing :
      (n i : ℕ) (ack : AckFrame) (now : ℕ) (rtt : Option ℕ)
      → ack.bitmap ≡ 0
      → free_sacked n i ack now rtt tx ≡ (rtt, tx)
  unfolding free_sacked
  free_sacked_nothing zero i ack now rtt e = refl
  free_sacked_nothing (suc n) i ack now rtt e =
      let z : test_bit ack.bitmap i ≡ false = rw e (test_bit_zero i) in
      ground (arith, z, free_sacked_nothing n (suc i) ack now rtt e)

  free_cumulative_stuck :
      (fuel : ℕ) (ack : AckFrame) (now : ℕ)
      → ack.base_seq ≡ wrapping_add_32 tx.oldest (2 ^ k)
      → free_cumulative (suc fuel) ack now none tx ≡ (none, tx)
  unfolding free_cumulative
  free_cumulative_stuck fuel ack now base =
      let far : wrapping_sub_32 ack.base_seq tx.oldest ≡ 2 ^ k =
        omega (arith, base, below_half, w.oldest) in
      ground (arith, far, window_32_lem)

  on_ack_full :
      (ack : AckFrame) (now : ℕ)
      → ack.base_seq ≡ wrapping_add_32 tx.oldest (2 ^ k)
      → ack.bitmap ≡ 0
      → on_ack ack now tx ≡ (none, tx)
  unfolding on_ack
  on_ack_full ack now base nothing =
      rw (free_cumulative_stuck (length tx.slots) ack now base)
        (free_sacked_nothing 31 0 ack now none nothing)

  send_full :
      (seq : ℕ) (p : Bytes) (now : ℕ)
      → seq ≡ wrapping_add_32 tx.oldest (2 ^ k)
      → length p ≤ max_reliable_payload
      → send seq p now tx ≡ (tx_full seq, tx)
  unfolding send
  send_full seq p now base small =
      let far : wrapping_sub_32 seq tx.oldest ≡ 2 ^ k = omega (arith, base, below_half, w.oldest) in
      ground (arith, far, w.slots)

  -- In a window that is full, the acknowledgement of all its frames is ignored: the receiver has
  -- them all and asks for the frame after them, yet the sender frees none, reports no sample and
  -- refuses the next frame.
  pub full_window_ack_ignored :
      (ack : AckFrame) (now : ℕ) (p : Bytes)
      → ack.base_seq ≡ wrapping_add_32 tx.oldest (2 ^ k)
      → ack.bitmap ≡ 0
      → length p ≤ max_reliable_payload
      → let (rtt, tx') = on_ack ack now tx in
        (rtt ≡ none) × (tx' ≡ tx) × (send ack.base_seq p now tx' ≡ (tx_full ack.base_seq, tx))
  full_window_ack_ignored ack now p base nothing small =
      let e = on_ack_full ack now base nothing in
      (
        ap (λ r. r.0) e,
        ap (λ r. r.1) e,
        ap (λ t. send ack.base_seq p now t) (ap (λ r. r.1) e)
            ∙ send_full ack.base_seq p now base small,
      )

  written : ℕ → Bytes → ℕ → ReliableTx
  written seq p now = record tx {
    slots =
        set tx.slots (bit_and seq tx.mask)
          (record { seq = seq; payload = p; first_ns = now; last_ns = now; resends = 0 });
  }

  send_cases :
      (seq : ℕ) (p : Bytes) (now : ℕ)
      → (((max_reliable_payload < length p) × (send seq p now tx ≡ (too_long, tx)))
          ⊎ ((length p ≤ max_reliable_payload)
              × ((2 ^ k ≤ offset tx seq) ⊎ (is_retained tx seq ≡ true))
              × (send seq p now tx ≡ (tx_full seq, tx))))
        ⊎ (length p ≤ max_reliable_payload)
          × (offset tx seq < 2 ^ k)
          × (is_retained tx seq ≡ false)
          × (send seq p now tx ≡ (queued, written seq p now))
  unfolding send written
  send_cases seq p now = elim (Bool-cases (ltb max_reliable_payload (length p))) [
    | inl long ↦ inl (inl (ground (arith, long), ground (arith, long)))
    | inr short ↦ elim (Bool-cases (leb (length tx.slots) (offset tx seq))) [
      | inl far ↦ inl (
          inr
            (ground (arith, short), inl (ground (arith, far, w.slots)), ground (arith, short, far)))
      | inr near ↦ elim (Bool-cases (is_retained tx seq)) [
        | inl t ↦ inl (inr (ground (arith, short), inr t, ground (arith, short, near, t)))
        | inr t ↦ inr (
          ground (arith, short),
          ground (arith, near, w.slots),
          t,
          ground (arith, short, near, t),
        )
      ]
    ]
  ]

  written_at :
      (s seq : ℕ) (p : Bytes) (now : ℕ)
      → slot_at (written seq p now) s ≡ (
          if seq % 2 ^ k == s % 2 ^ k
          then record { seq = seq; payload = p; first_ns = now; last_ns = now; resends = 0 }
          else slot_at tx s)
  unfolding written
  written_at s seq p now =
      rw (place s, place seq) (get_or-set tx.slots (seq % 2 ^ k) (s % 2 ^ k) _ _ (place_in seq))

  written_self :
      (seq : ℕ) (p : Bytes) (now : ℕ)
      → slot_at (written seq p now) seq
        ≡ record { seq = seq; payload = p; first_ns = now; last_ns = now; resends = 0 }
  written_self seq p now = written_at seq seq p now ∙ ground arith

  written_oldest : (seq : ℕ) (p : Bytes) (now : ℕ) → (written seq p now).oldest ≡ tx.oldest
  unfolding written
  written_oldest seq p now = refl

  written_mask : (seq : ℕ) (p : Bytes) (now : ℕ) → (written seq p now).mask ≡ tx.mask
  unfolding written
  written_mask seq p now = refl

  elsewhere :
      (s seq : ℕ)
      → s < u32_mod
      → seq < u32_mod
      → offset tx s < 2 ^ k
      → offset tx seq < 2 ^ k
      → s ≢ seq
      → seq % 2 ^ k ≢ s % 2 ^ k
  elsewhere s seq hs hseq inside near other e =
      other (slots_apart s seq hs hseq inside near (sym e))

  -- In a sender of `2 ^ k` slots, a frame is refused, and nothing changes, just when its payload is
  -- too long, or when it is outside the window or waits there already. Otherwise it is queued: its
  -- slot holds its number, its payload, its time as that of the first and the last sending, and no
  -- resends, and every other frame of the window keeps its slot.
  pub send_retains :
      (seq : ℕ) (p : Bytes) (now : ℕ)
      → seq < u32_mod
      → (((max_reliable_payload < length p) × (send seq p now tx ≡ (too_long, tx)))
          ⊎ ((length p ≤ max_reliable_payload)
              × ((2 ^ k ≤ offset tx seq) ⊎ (is_retained tx seq ≡ true))
              × (send seq p now tx ≡ (tx_full seq, tx))))
        ⊎ (length p ≤ max_reliable_payload)
          × (offset tx seq < 2 ^ k)
          × (is_retained tx seq ≡ false)
          × let (result, tx') = send seq p now tx in
            (result ≡ queued)
            × (slot_at tx' seq
                ≡ record { seq = seq; payload = p; first_ns = now; last_ns = now; resends = 0 })
            × (tx'.oldest ≡ tx.oldest)
            × (tx'.mask ≡ tx.mask)
            × ((s : ℕ) → s < u32_mod → offset tx s < 2 ^ k → s ≢ seq → slot_at tx' s ≡ slot_at tx s)
  send_retains seq p now hseq = elim (send_cases seq p now) [
    | inl refused ↦ inl refused
    | inr (short, near, unseen, e) ↦ inr (
      short,
      near,
      unseen,
      rw e (
        refl,
        written_self seq p now,
        written_oldest seq p now,
        written_mask seq p now,
        λ s hs inside other.
            written_at s seq p now ∙ ground (arith, elsewhere s seq hs hseq inside near other),
      ),
    )
  ]
