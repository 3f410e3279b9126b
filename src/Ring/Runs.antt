-- ===== src/Ring/Runs.antt =====
-- What the ring's callers rely on: whole runs of pushes and pops, batches, and emptying a ring.
use tpt_teleop.Prelude.{
  ℕ, zero, suc, ◌+◌, ◌-◌, ◌*◌, ◌^◌, ◌↔◌, sym, subst, ◌≤◌, ◌<◌, ◌≡◌, refl, ◌∙◌, ap, ap₂, max, min,
  arith, true, none, List, [], ◌∷◌, ◌++◌, append-nil, append_assoc, length, take, length-append,
  length-replicate, ltb, ◌==◌, ◌⊎◌, inl, inr, Bool-cases, ltb→lt,
}
use tpt_teleop.Prelude.PowTwo.{log2_ceil, log2_ceil-lt, next_power_of_two, next_power_of_two_lem}
use tpt_teleop.Ring.Spsc.{
  Spsc, accepted, refused, empty, got, with_capacity, len, push, pop, is_full, is_empty, push_slice,
  push_slice_from, drain,
}
use tpt_teleop.Ring.Bounded.{Op, put, get, pushed, popped, run, enqueue, dequeue, run_queue}
use tpt_teleop.Ring.Refine.{
  Holds, len_lem, push-Holds, pop-Holds, push_refused, push-accepted, extended-Holds, pop_got,
  advanced-Holds, pop_empty, extended, advanced,
}

module _ {ℓ} {A : Type ℓ} where
  -- A new ring is empty, and its capacity is the least power of two that is at least 1 and at least
  -- what was asked for.
  pub with_capacity_lem :
      (n : ℕ)
      → n ≤ 2 ^ 63
      → Holds (log2_ceil (max n 1)) (with_capacity {A = A} n) []
        × (max n 1 ≤ (with_capacity {A = A} n).cap)
        × (((with_capacity {A = A} n).cap ≡ 1) ⊎ ((with_capacity {A = A} n).cap < 2 * max n 1))
  unfolding with_capacity
  with_capacity_lem n h =
      let (reaches, least) = next_power_of_two_lem (max n 1) (omega arith) in
      (
        record {
          word = log2_ceil-lt (max n 1) (omega arith);
          cap = refl;
          slots = length-replicate (next_power_of_two (max n 1)) none;
          head = omega arith;
          tail = omega arith;
          fits = omega arith;
          window = tt;
        },
        reaches,
        least,
      )

no_values {ℓ} : {A : Type ℓ} {n : ℕ} (q : List A) → n ≡ length q → ((n == 0) ≡ true) ↔ (q ≡ [])
no_values [] e = (λ _. refl, λ _. ground arith)
no_values (x ∷ q) e = (λ t. ground arith, λ t. cc)

-- One more value fits, so the prefix taken is one longer.
take_more {ℓ} :
    {A : Type ℓ} (q : List A) (v : A) (vs : List A) (c : ℕ)
    → length q < c
    → (q ++ v ∷ []) ++ take (min (length vs) (c - length (q ++ v ∷ []))) vs
      ≡ q ++ take (min (suc (length vs)) (c - length q)) (v ∷ vs)
take_more q v vs c room =
    append_assoc q (v ∷ []) (take (min (length vs) (c - length (q ++ v ∷ []))) vs)
    ∙ ap (λ j. q ++ take j (v ∷ vs)) one_more
  where
    one_more :
        suc (min (length vs) (c - length (q ++ v ∷ []))) ≡ min (suc (length vs)) (c - length q)
    one_more = omega (arith, length-append q (v ∷ []))

take_none {ℓ} :
    {A : Type ℓ} (q vs : List A) (m c : ℕ) → c ≤ m → q ++ take (min (length vs) (c - m)) vs ≡ q
take_none q vs m c full = ap (λ j. q ++ take j vs) nothing ∙ (rw append-nil)
  where
    nothing : min (length vs) (c - m) ≡ 0
    nothing = omega arith

take-nil {ℓ} : {A : Type ℓ} (n : ℕ) → take {A = A} n [] ≡ []
take-nil zero = refl
take-nil (suc n) = refl

-- One round of each loop.
module _ {ℓ} {A : Type ℓ} where
  pub drain_end :
      (fuel : ℕ) (r : Spsc A) {r' : Spsc A}
      → pop r ≡ (empty, r')
      → drain (suc fuel) r ≡ ([], r', true)
  unfolding drain
  drain_end fuel r e = ground (arith, e)

  pub drain_round :
      (fuel : ℕ) (r : Spsc A) {r' : Spsc A} {v : A}
      → pop r ≡ (got v, r')
      → drain (suc fuel) r ≡ (v ∷ (drain fuel r').0, (drain fuel r').1, (drain fuel r').2)
  unfolding drain
  drain_round fuel r e = ground (arith, e)

  push_slice_round :
      (r : Spsc A) {r' : Spsc A} (v : A) (vs : List A) (n : ℕ)
      → push r v ≡ (accepted, r')
      → push_slice_from r (v ∷ vs) n ≡ push_slice_from r' vs (suc n)
  unfolding push_slice_from
  push_slice_round r v vs n e = ground (arith, e)

  push_slice_stop :
      (r : Spsc A) {r' : Spsc A} (v : A) {w : A} (vs : List A) (n : ℕ)
      → push r v ≡ (refused w, r')
      → push_slice_from r (v ∷ vs) n ≡ (n, r')
  unfolding push_slice_from
  push_slice_stop r v vs n e = ground (arith, e)

module _ {ℓ} {A : Type ℓ} {k : ℕ} where
  -- Any sequence of pushes and pops has the replies that a queue of the ring's capacity gives:
  -- first in, first out, no value lost, doubled or made up, a refusal exactly when the queue is
  -- full, and `empty` exactly when it is empty. The cursors may start anywhere and may wrap.
  pub run-eq-run_queue :
      {r : Spsc A} {q : List A} (ops : List (Op A))
      → Holds k r q
      → run r ops ≡ run_queue (2 ^ k) q ops
  unfolding run run_queue
  run-eq-run_queue [] h = refl
  run-eq-run_queue {r} {q} (put v ∷ ops) h =
      let (e, h') = push-Holds v h in
      ap₂ (λ s t. pushed s ∷ t) e
        (run-eq-run_queue {r = (push r v).1} {q = (enqueue (2 ^ k) q v).1} ops h')
  run-eq-run_queue {r} {q} (get ∷ ops) h =
      let (e, h') = pop-Holds h in
      ap₂ (λ s t. popped s ∷ t) e (run-eq-run_queue {r = (pop r).1} {q = (dequeue q).1} ops h')

  -- `len`, `is_empty` and `is_full` say how long the queue is.
  pub observers_lem :
      {r : Spsc A} {q : List A}
      → Holds k r q
      → (len r ≡ length q)
        × ((is_empty r ≡ true) ↔ (q ≡ []))
        × ((is_full r ≡ true) ↔ (length q ≡ 2 ^ k))
  unfolding is_empty is_full
  observers_lem {r} {q} h = (len_lem h, no_values q (len_lem h), ground (arith, len_lem h, h.fits))

  -- With more fuel than values the loop that empties a ring ends by itself, and it has popped
  -- every value once, in order: so `Drop` runs each destructor once.
  pub drain_lem :
      (fuel : ℕ) {r : Spsc A} (q : List A)
      → length q < fuel
      → Holds k r q
      → ((drain fuel r).0 ≡ q) × ((drain fuel r).2 ≡ true) × Holds k (drain fuel r).1 []
  unfolding drain
  drain_lem zero q f h = absurd (omega arith)
  drain_lem (suc fuel) [] f h = rw (drain_end fuel _ (pop_empty h)) (refl, refl, h)
  drain_lem (suc fuel) {r} (x ∷ q) f h =
      let (e, done, h') = drain_lem fuel {r = advanced r} q (omega arith) (advanced-Holds h) in
      rw (drain_round fuel _ (pop_got h)) (ap (λ t. x ∷ t) e, done, h')

  push_slice_from_lem :
      {r : Spsc A} {q : List A} (vs : List A) (n : ℕ)
      → Holds k r q
      → let m = min (length vs) (2 ^ k - length q) in
        ((push_slice_from r vs n).0 ≡ n + m) × Holds k (push_slice_from r vs n).1 (q ++ take m vs)
  unfolding push_slice_from
  push_slice_from_lem {r} {q} [] n h = (omega arith, rw (take-nil, append-nil) h)
  push_slice_from_lem {r} {q} (v ∷ vs) n h = elim (Bool-cases (ltb (length q) (2 ^ k))) [
    | inl t ↦
        let room : length q < 2 ^ k = ltb→lt _ _ t in
        let (e, h') =
          push_slice_from_lem {r = extended k r v} {q = q ++ v ∷ []} vs (suc n)
            (extended-Holds v h room) in
        rw (push_slice_round r v vs n (push-accepted v h room)) (
          omega (arith, e, length-append q (v ∷ [])),
          subst (Holds k (push_slice_from (extended k r v) vs (suc n)).1)
              (take_more q v vs (2 ^ k) room) h',
        )
    | inr t ↦
        let full : length q ≡ 2 ^ k = ground (arith, h.fits) in
        rw (push_slice_stop r v vs n (push_refused v h full)) (
          omega arith,
          subst (Holds k r) (sym (take_none q (v ∷ vs) (length q) (2 ^ k) (omega arith))) h,
        )
  ]

  -- `push_slice` moves the longest prefix that fits, and says how long it is.
  pub push_slice_lem :
      {r : Spsc A} {q : List A} (vs : List A)
      → Holds k r q
      → let m = min (length vs) (2 ^ k - length q) in
        ((push_slice r vs).0 ≡ m) × Holds k (push_slice r vs).1 (q ++ take m vs)
  unfolding push_slice
  push_slice_lem vs h = let (e, h') = push_slice_from_lem vs 0 h in (omega arith, h')
