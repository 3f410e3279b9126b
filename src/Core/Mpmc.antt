-- ===== src/Core/Mpmc.antt =====
-- `MpmcRing` of crates/tpt-t-core/src/mpmc.rs: cells stamped with a sequence number. One call runs at a
-- time here, and a weak exchange whose position is right succeeds.
use tpt_teleop.Prelude.{
  ℕ, zero, suc, ◌+◌, ◌-◌, ◌^◌, bit_and, max, Bool, true, false, Option, none, some, List, [], ◌∷◌,
  get_or, set, leb, ltb, ◌==◌, if◌then◌else◌,
}
use tpt_teleop.Prelude.Words.{u64_mod, wrapping_add_64, wrapping_sub_64}
use tpt_teleop.Prelude.PowTwo.{next_power_of_two}
pub mod Single
mod Tests

-- `none` is memory that no value was written to.
pub record Cell {ℓ} (A : Type ℓ) : Type ℓ where
  pub seq : ℕ
  pub value : Option A

pub record MpmcRing {ℓ} (A : Type ℓ) : Type ℓ where
  pub cells : List (Cell A)
  pub enqueue_pos : ℕ
  pub dequeue_pos : ℕ
  pub cap : ℕ

-- What a call answers; `spinning` is a loop that has run out of rounds.
pub data Pushed {ℓ} (A : Type ℓ) : Type ℓ where
  accepted : Pushed A
  full : A → Pushed A
  push_spins : Pushed A

pub data Popped {ℓ} (A : Type ℓ) : Type ℓ where
  got : Option A → Popped A
  empty : Popped A
  pop_spins : Popped A

-- `diff < 0` of a difference read as a signed word.
abbrev pub is_negative : ℕ → Bool
is_negative diff = leb (2 ^ 63) diff

module _ {ℓ} {A : Type ℓ} where
  -- The cells with the numbers `i`, `i + 1` and so on, `n` of them.
  unfoldable pub fresh_cells : ℕ → ℕ → List (Cell A)
  fresh_cells i zero = []
  fresh_cells i (suc n) = record { seq = i; value = none } ∷ fresh_cells (suc i) n

  unfoldable pub with_capacity : ℕ → MpmcRing A
  unfolding fresh_cells
  with_capacity capacity =
      let cap = next_power_of_two (max capacity 1) in
      record { cells = fresh_cells 0 cap; enqueue_pos = 0; dequeue_pos = 0; cap = cap }

  abbrev pub cell_at : MpmcRing A → ℕ → Cell A
  cell_at r pos = get_or r.cells (bit_and pos (r.cap - 1)) (record { seq = 0; value = none })

  -- The loop of `push` from a position that was loaded.
  unfoldable pub push_from : ℕ → ℕ → A → MpmcRing A → Pushed A × MpmcRing A
  push_from zero pos value r = (push_spins, r)
  push_from (suc fuel) pos value r =
      let diff = wrapping_sub_64 (cell_at r pos).seq pos in
      let again = push_from fuel r.enqueue_pos value r in
      if diff == 0
      then if r.enqueue_pos == pos
        then (
          accepted,
          record r {
            enqueue_pos = wrapping_add_64 pos 1;
            cells =
                set r.cells (bit_and pos (r.cap - 1))
                  (record { seq = wrapping_add_64 pos 1; value = some value });
          },
        )
        else again
      else if is_negative diff
      then (full value, r)
      else again

  unfoldable pub push : ℕ → A → MpmcRing A → Pushed A × MpmcRing A
  unfolding push_from
  push fuel value r = push_from fuel r.enqueue_pos value r

  -- The loop of `pop`. The cell keeps its bits.
  unfoldable pub pop_from : ℕ → ℕ → MpmcRing A → Popped A × MpmcRing A
  pop_from zero pos r = (pop_spins, r)
  pop_from (suc fuel) pos r =
      let cell = cell_at r pos in
      let diff = wrapping_sub_64 cell.seq (wrapping_add_64 pos 1) in
      let again = pop_from fuel r.dequeue_pos r in
      if diff == 0
      then if r.dequeue_pos == pos
        then (
          got cell.value,
          record r {
            dequeue_pos = wrapping_add_64 pos 1;
            cells =
                set r.cells (bit_and pos (r.cap - 1))
                  (record cell { seq = wrapping_add_64 pos r.cap });
          },
        )
        else again
      else if is_negative diff
      then (empty, r)
      else again

  unfoldable pub pop : ℕ → MpmcRing A → Popped A × MpmcRing A
  unfolding pop_from
  pop fuel r = pop_from fuel r.dequeue_pos r

  unfoldable pub len : MpmcRing A → ℕ
  len r = wrapping_sub_64 r.enqueue_pos r.dequeue_pos
