-- ===== src/Ring/Bounded.antt =====
-- What a client of a ring sees: a queue of at most `cap` values, oldest first.
use tpt_teleop.Prelude.{ℕ, List, [], ◌∷◌, ◌++◌, length, ltb, if◌then◌else◌}
use tpt_teleop.Ring.Spsc.{Spsc, Pushed, accepted, refused, Popped, empty, got}
use tpt_teleop.Ring.Spsc

-- A client's calls, and what each returns.
pub data Op {ℓ} (A : Type ℓ) : Type ℓ where
  put : A → Op A
  get : Op A

pub data Reply {ℓ} (A : Type ℓ) : Type ℓ where
  pushed : Pushed A → Reply A
  popped : Popped A → Reply A

module _ {ℓ} {A : Type ℓ} where
  -- The calls on a ring, in the order in which they take effect.
  unfoldable pub run : Spsc A → List (Op A) → List (Reply A)
  run r [] = []
  run r (put v ∷ ops) = let (res, r') = Spsc.push r v in pushed res ∷ run r' ops
  run r (get ∷ ops) = let (res, r') = Spsc.pop r in popped res ∷ run r' ops

  unfoldable pub enqueue : ℕ → List A → A → Pushed A × List A
  enqueue cap q v = if ltb (length q) cap then (accepted, q ++ v ∷ []) else (refused v, q)

  unfoldable pub dequeue : List A → Popped A × List A
  dequeue [] = (empty, [])
  dequeue (v ∷ q) = (got v, q)

  -- The same calls on a queue of at most `cap` values.
  unfoldable pub run_queue : ℕ → List A → List (Op A) → List (Reply A)
  run_queue cap q [] = []
  run_queue cap q (put v ∷ ops) =
      let (res, q') = enqueue cap q v in pushed res ∷ run_queue cap q' ops
  run_queue cap q (get ∷ ops) = let (res, q') = dequeue q in popped res ∷ run_queue cap q' ops
