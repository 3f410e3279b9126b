-- ===== src/Ring/Spsc.antt =====
-- crates/tpt-t-ring/src/spsc.rs: `do_push`, `do_pop` and the methods of `SpscRing`. Each function
-- that stores to a cursor or a slot returns what it stored. One endpoint runs at a time here.
use tpt_teleop.Prelude.{
  ℕ, zero, suc, ◌-◌, Bool, bit_and, max, Option, none, some, List, [], ◌∷◌, replicate, get_elem?,
  set, leb, ◌==◌, if◌then◌else◌,
}
use tpt_teleop.Prelude.Words.{wrapping_add_64, wrapping_sub_64}
use tpt_teleop.Prelude.PowTwo.{next_power_of_two}

-- A slot is `MaybeUninit`: `none` stands for memory that no value was written to.
pub record Spsc {ℓ} (A : Type ℓ) : Type ℓ where
  pub slots : List (Option A)
  pub head : ℕ
  pub tail : ℕ
  pub cap : ℕ

-- `Result<(), T>`: a refused value is handed back.
pub data Pushed {ℓ} (A : Type ℓ) : Type ℓ where
  accepted : Pushed A
  refused : A → Pushed A

-- `Option<T>`, and the undefined behaviour of reading a slot that holds no value.
pub data Popped {ℓ} (A : Type ℓ) : Type ℓ where
  empty : Popped A
  got : A → Popped A
  uninit : Popped A

module _ {ℓ} {A : Type ℓ} where
  -- What `assume_init_read` gives for the slot at an index.
  abbrev pub read : Option (Option A) → Popped A
  read (some (some v)) = got v
  read _ = uninit

  -- The result, the tail and the slots after `do_push`.
  unfoldable pub do_push : ℕ → ℕ → List (Option A) → ℕ → ℕ → A → Pushed A × ℕ × List (Option A)
  do_push head tail slots mask cap value =
      if leb cap (wrapping_sub_64 tail head)
      then (refused value, tail, slots)
      else (accepted, wrapping_add_64 tail 1, set slots (bit_and tail mask) (some value))

  -- The result and the head after `do_pop`. The slot keeps its bits.
  unfoldable pub do_pop : ℕ → ℕ → List (Option A) → ℕ → Popped A × ℕ
  do_pop head tail slots mask =
      if head == tail
      then (empty, head)
      else (read (get_elem? slots (bit_and head mask)), wrapping_add_64 head 1)

  unfoldable pub with_capacity : ℕ → Spsc A
  with_capacity capacity =
      let cap = next_power_of_two (max capacity 1) in
      record { slots = replicate cap none; head = 0; tail = 0; cap = cap }

  pub capacity : Spsc A → ℕ
  capacity r = r.cap

  unfoldable pub len : Spsc A → ℕ
  len r = wrapping_sub_64 r.tail r.head

  unfoldable pub is_empty : Spsc A → Bool
  unfolding len
  is_empty r = len r == 0

  unfoldable pub is_full : Spsc A → Bool
  unfolding len
  is_full r = leb r.cap (len r)

  unfoldable pub push : Spsc A → A → Pushed A × Spsc A
  unfolding do_push
  push r value =
      let (res, tail', slots') = do_push r.head r.tail r.slots (r.cap - 1) r.cap value in
      (res, record r { tail = tail'; slots = slots' })

  unfoldable pub pop : Spsc A → Popped A × Spsc A
  unfolding do_pop
  pop r =
      let (res, head') = do_pop r.head r.tail r.slots (r.cap - 1) in
      (res, record r { head = head' })

  -- `push_slice` on the elements from `n` on: the loop stops at the first refusal.
  unfoldable pub push_slice_from : Spsc A → List A → ℕ → ℕ × Spsc A
  push_slice_from r [] n = (n, r)
  push_slice_from r (v ∷ vs) n =
      let (res, r') = push r v in
      elim res [ accepted ↦ push_slice_from r' vs (suc n) | refused _ ↦ (n, r') ]

  unfoldable pub push_slice : Spsc A → List A → ℕ × Spsc A
  unfolding push_slice_from
  push_slice r slice = push_slice_from r slice 0

  -- The loop `while let Some(v) = ring.pop()`, with what it popped, in order: `Drop` runs it for
  -- the destructors, and other crates to empty a ring. The flag says that it ended by itself.
  unfoldable pub drain : ℕ → Spsc A → List A × Spsc A × Bool
  drain zero r = ([], r, Bool.false)
  drain (suc fuel) r =
      let (res, r') = pop r in
      elim res [
        | empty ↦ ([], r', Bool.true)
        | got v ↦ let (vs, r'', done) = drain fuel r' in (v ∷ vs, r'', done)
        | uninit ↦ ([], r', Bool.false)
      ]
