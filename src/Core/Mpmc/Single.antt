-- ===== src/Core/Mpmc/Single.antt =====
-- The ring of crates/tpt-t-core/src/mpmc.rs with a single cell.
use tpt_teleop.Prelude.{
  ℕ, zero, suc, ◌+◌, ◌-◌, ◌<◌, ◌≡◌, refl, ◌∙◌, ap, arith, bit_and, some, [], ◌∷◌, map,
}
use tpt_teleop.Prelude.Words.{u64_mod, wrapping_add_64, wrapping_sub_64}
use tpt_teleop.Core.Mpmc.{MpmcRing, accepted, pop_spins, push_from, push, pop_from, pop, cell_at}
use tpt_teleop.Prelude.Bits.{bit_and_mask}

only_index : (p : ℕ) → bit_and p (1 - 1) ≡ 0
only_index p = bit_and_mask 0 p ∙ omega arith

module _ {ℓ} {A : Type ℓ} where
  -- A ring of one cell that holds `a`, pushed at the position `p`.
  unfoldable pub one : ℕ → A → MpmcRing A
  one p a = record {
    cells = record { seq = p + 1; value = some a } ∷ [];
    enqueue_pos = p + 1;
    dequeue_pos = p;
    cap = 1;
  }

  -- The same ring when `b` has been pushed over `a`.
  overwritten : ℕ → A → MpmcRing A
  overwritten p b = record {
    cells = record { seq = p + 2; value = some b } ∷ [];
    enqueue_pos = p + 2;
    dequeue_pos = p;
    cap = 1;
  }

  push_over :
      (p fuel : ℕ) (a b : A)
      → p + 2 < u64_mod
      → push (suc fuel) b (one p a) ≡ (accepted, overwritten p b)
  unfolding push push_from one overwritten
  push_over p fuel a b h =
      let i = only_index (p + 1) in
      let two : wrapping_add_64 (p + 1) 1 ≡ p + 2 = omega (arith, h) in
      let fits : wrapping_sub_64 (cell_at (one p a) (p + 1)).seq (p + 1) ≡ 0 =
        rw i (omega (arith, h)) in
      ground (arith, fits, i, two)

  pop_spins_over :
      (p fuel : ℕ) (b : A)
      → p + 2 < u64_mod
      → pop_from fuel p (overwritten p b) ≡ (pop_spins, overwritten p b)
  unfolding pop_from overwritten
  pop_spins_over p zero b h = refl
  pop_spins_over p (suc fuel) b h =
      let i = only_index p in
      let ahead : wrapping_sub_64 (cell_at (overwritten p b) p).seq (wrapping_add_64 p 1) ≡ 1 =
        rw i (omega (arith, h)) in
      ground (arith, ahead, pop_spins_over p fuel b h)

  -- A ring of one cell that holds `a` accepts `b` all the same: the cell now holds `b` in the place of
  -- `a`, nothing was popped, and no number of rounds is enough for `pop` to return.
  pub single_cell_overwrites :
      (p fuel rounds : ℕ) (a b : A)
      → p + 2 < u64_mod
      → let (answer, r) = push (suc fuel) b (one p a) in
        (answer ≡ accepted)
        × (map (λ c. c.value) (one p a).cells ≡ some a ∷ [])
        × (map (λ c. c.value) r.cells ≡ some b ∷ [])
        × (r.dequeue_pos ≡ (one p a).dequeue_pos)
        × ((pop rounds r).0 ≡ pop_spins)
  unfolding pop overwritten one
  single_cell_overwrites p fuel rounds a b h =
      rw (push_over p fuel a b h)
        (refl, refl, refl, refl, ap (λ r. r.0) (pop_spins_over p rounds b h))
