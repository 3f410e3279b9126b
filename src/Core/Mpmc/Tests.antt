-- ===== src/Core/Mpmc/Tests.antt =====
-- Runs of the ring of crates/tpt-t-core/src/mpmc.rs on small inputs.
use tpt_teleop.Prelude.{ℕ, ◌≡◌, refl, arith, some, [], ◌∷◌, map}
use tpt_teleop.Prelude.PowTwo.{log2_ceil}
use tpt_teleop.Core.Mpmc.{
  MpmcRing, accepted, full, got, empty, pop_spins, fresh_cells, with_capacity, push_from, push,
  pop_from, pop,
}
use tpt_teleop.Core.Mpmc.Single.{one, single_cell_overwrites}

-- A ring made for one element holds the first one as `one` says.
first_push : push {A = ℕ} 1 7 (with_capacity 1) ≡ (accepted, one 0 7)
unfolding push push_from with_capacity fresh_cells one log2_ceil
first_push = refl

single_cell_overwrites_example :
    let (answer, r) = push {A = ℕ} 1 8 (one 0 7) in
    (answer ≡ accepted)
    × (map (λ c. c.value) (one {A = ℕ} 0 7).cells ≡ some 7 ∷ [])
    × (map (λ c. c.value) r.cells ≡ some 8 ∷ [])
    × (r.dequeue_pos ≡ (one {A = ℕ} 0 7).dequeue_pos)
    × ((pop 1000 r).0 ≡ pop_spins)
single_cell_overwrites_example = single_cell_overwrites {A = ℕ} 0 0 1000 7 8 (omega arith)

-- A ring of two cells refuses a third element, and gives the two back in order.
abbrev pair : MpmcRing ℕ
pair = record {
  cells = record { seq = 1; value = some 7 } ∷ record { seq = 2; value = some 8 } ∷ [];
  enqueue_pos = 2;
  dequeue_pos = 0;
  cap = 2;
}

third_refused : push 1 9 pair ≡ (full 9, pair)
unfolding push push_from
third_refused = refl

first_out : (pop 1 pair).0 ≡ got (some 7)
unfolding pop pop_from
first_out = refl

second_out : (pop 1 (pop 1 pair).1).0 ≡ got (some 8)
unfolding pop pop_from
second_out = refl

none_left : (pop 1 (pop 1 (pop 1 pair).1).1).0 ≡ empty
unfolding pop pop_from
none_left = refl
