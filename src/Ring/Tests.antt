-- ===== src/Ring/Tests.antt =====
-- Runs of the ring of crates/tpt-t-ring/src/spsc.rs on small inputs.
use tpt_teleop.Prelude.{ℕ, ◌-◌, ◌^◌, ◌≡◌, refl, arith, none, some, List, [], ◌∷◌}
use tpt_teleop.Prelude.PowTwo.{log2_ceil}
use tpt_teleop.Ring.Spsc.{Spsc, accepted, refused, empty, got, with_capacity, push, pop}
use tpt_teleop.Ring.Bounded.{Op, put, get, pushed, popped, run, run_queue}
use tpt_teleop.Ring.Refine.{Holds}
use tpt_teleop.Ring.Runs.{run-eq-run_queue}

-- Two values, the second one past the wrap of the cursors.
abbrev wrapped : Spsc ℕ
wrapped = record {
  slots = some 9 ∷ none ∷ some 5 ∷ some 8 ∷ [];
  head = 2 ^ 64 - 1;
  tail = 1;
  cap = 4;
}

abbrev script : List (Op ℕ)
script = put 1 ∷ put 2 ∷ put 3 ∷ get ∷ get ∷ get ∷ get ∷ get ∷ []

wrapped-Holds : Holds 2 wrapped (8 ∷ 9 ∷ [])
wrapped-Holds = record {
  word = omega arith;
  cap = refl;
  slots = refl;
  head = omega arith;
  tail = refl;
  fits = omega arith;
  window = (refl, (refl, tt));
}

run-wrapped :
    run wrapped script
    ≡ pushed accepted
      ∷ pushed accepted
      ∷ pushed (refused 3)
      ∷ popped (got 8)
      ∷ popped (got 9)
      ∷ popped (got 1)
      ∷ popped (got 2)
      ∷ popped empty
      ∷ []
unfolding run push pop
run-wrapped = refl

capacity_rounds_up : ((with_capacity {A = ℕ} 5).cap ≡ 8) × ((with_capacity {A = ℕ} 0).cap ≡ 1)
unfolding with_capacity log2_ceil
capacity_rounds_up = (refl, refl)

run-eq-run_queue_example : run wrapped script ≡ run_queue (2 ^ 2) (8 ∷ 9 ∷ []) script
run-eq-run_queue_example = run-eq-run_queue script wrapped-Holds
