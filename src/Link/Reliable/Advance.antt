-- ===== src/Link/Reliable/Advance.antt =====
-- The first loop of `on_ack` of crates/tpt-t-link/src/reliable.rs comes to an end.
use tpt_teleop.Prelude.{
  ℕ, zero, suc, ◌+◌, ◌%◌, ◌<◌, ◌≡◌, refl, ◌∙◌, ap, arith, false, Option, none, length, length-set,
  leb, ltb, ◌==◌, ◌&&◌, not, if◌then◌else◌, Bool-cases, inl, inr,
}
use tpt_teleop.Prelude.Words.{u32_mod, wrapping_add_32, wrapping_sub_32}
use tpt_teleop.Prelude.Bits.{test_bit}
use tpt_teleop.Link.Reliable.Ack.{AckFrame}
use tpt_teleop.Link.Reliable.Tx.{
  ReliableTx, window_32, free_cumulative, free_sacked, on_ack, free, slot_at, sample, is_live,
}

-- With more rounds than there are frames up to the acknowledged one, the oldest frame that is kept
-- becomes the one acknowledged, when that lies in the window.
pub free_cumulative_ends :
    (fuel : ℕ) (ack : AckFrame) (now : ℕ) (rtt : Option ℕ) (tx : ReliableTx)
    → ack.base_seq < u32_mod
    → tx.oldest < u32_mod
    → wrapping_sub_32 ack.base_seq tx.oldest < window_32 tx
    → wrapping_sub_32 ack.base_seq tx.oldest < fuel
    → (free_cumulative fuel ack now rtt tx).1.oldest ≡ ack.base_seq
unfolding free_cumulative
free_cumulative_ends zero ack now rtt tx hb ho inside enough = absurd (omega (arith, enough))
free_cumulative_ends (suc fuel) ack now rtt tx hb ho inside enough =
    elim (Bool-cases (wrapping_sub_32 ack.base_seq tx.oldest == 0)) [
      | inl there ↦
          let at_base : tx.oldest ≡ ack.base_seq = ground (arith, there, hb, ho) in rw there at_base
      | inr before ↦
          let slot = slot_at tx tx.oldest in
          let rtt' = sample rtt (is_live slot && not (slot.first_ns == 0)) slot now in
          let tx' : ReliableTx = record tx {
            slots = free tx tx.oldest;
            oldest = wrapping_add_32 tx.oldest 1;
          } in
          let positive : 0 < wrapping_sub_32 ack.base_seq tx.oldest = ground (arith, before) in
          let len : length (free tx tx.oldest) ≡ length tx.slots = length-set tx.slots _ _ in
          let window : window_32 tx' ≡ window_32 tx = ap (λ n. n % u32_mod) len in
          let step : wrapping_sub_32 ack.base_seq tx'.oldest + 1
              ≡ wrapping_sub_32 ack.base_seq tx.oldest =
            omega (arith, positive, hb, ho) in
          let near : leb (window_32 tx) (wrapping_sub_32 ack.base_seq tx.oldest) ≡ false =
            ground (arith, inside) in
          rw (before, near)
            (free_cumulative_ends fuel ack now rtt' tx' hb (omega arith)
              (omega (arith, window, step, inside)) (omega (arith, step, enough)))
    ]

free_sacked_keeps :
    (n i : ℕ) (ack : AckFrame) (now : ℕ) (rtt : Option ℕ) (tx : ReliableTx)
    → (free_sacked n i ack now rtt tx).1.oldest ≡ tx.oldest
unfolding free_sacked
free_sacked_keeps zero i ack now rtt tx = refl
free_sacked_keeps (suc n) i ack now rtt tx =
    let seq = wrapping_add_32 ack.base_seq (1 + i) in
    let slot = slot_at tx seq in
    let acked =
      test_bit ack.bitmap i
      && ltb (wrapping_sub_32 seq tx.oldest) (window_32 tx)
      && slot.seq == seq
      && is_live slot in
    let rtt' = if acked then sample rtt (not (slot.first_ns == 0)) slot now else rtt in
    let tx' : ReliableTx = if acked then record tx { slots = free tx seq } else tx in
    let same : tx'.oldest ≡ tx.oldest = elim (Bool-cases acked) [
      | inl yes_acked ↦ rw yes_acked refl
      | inr not_acked ↦ rw not_acked refl
    ] in
    free_sacked_keeps n (suc i) ack now rtt' tx' ∙ same

-- An acknowledgement of fewer frames than the window holds is taken: both loops come to an end, and
-- the oldest frame that is kept becomes the one that the receiver expects.
pub on_ack_advances :
    (ack : AckFrame) (now : ℕ) (tx : ReliableTx)
    → ack.base_seq < u32_mod
    → tx.oldest < u32_mod
    → wrapping_sub_32 ack.base_seq tx.oldest < window_32 tx
    → (on_ack ack now tx).1.oldest ≡ ack.base_seq
unfolding on_ack
on_ack_advances ack now tx hb ho inside =
    let freed = free_cumulative (suc (length tx.slots)) ack now none tx in
    free_sacked_keeps 31 0 ack now freed.0 freed.1
    ∙ free_cumulative_ends (suc (length tx.slots)) ack now none tx hb ho inside
        (omega (arith, inside))
