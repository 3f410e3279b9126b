-- ===== src/Ring/Refine.antt =====
-- A ring behaves as a queue of at most its capacity, whatever the values of its wrapping cursors.
use tpt_teleop.Prelude.{
  ℕ, suc, ◌+◌, ◌-◌, ◌%◌, ◌^◌, ◌≤◌, ◌<◌, ◌≡◌, refl, sym, ◌∙◌, ap, subst, bit_and, arith, some, List,
  [], ◌∷◌, ◌++◌, length, length-append, length-set, set, ltb, inl, inr, Bool-cases, ltb→lt,
}
use tpt_teleop.Prelude.Words.{u64_mod, wrapping_add_64}
use tpt_teleop.Prelude.Bits.{bit_and_mask}
use tpt_teleop.Prelude.PowTwo.{mod-mod_pow, pow_below_word}
use tpt_teleop.Ring.Spsc.{Spsc, accepted, refused, empty, got, len}
use tpt_teleop.Ring.Spsc.{push, pop}
use tpt_teleop.Ring.Bounded.{enqueue, dequeue}
use tpt_teleop.Ring.Window.{Window, Window-congr, Window-set}

-- The ring has `2 ^ k` slots and holds the values of `q`, oldest first.
pub record Holds {ℓ} {A : Type ℓ} (k : ℕ) (r : Spsc A) (q : List A) : Type ℓ where
  pub word : k < 64
  pub cap : r.cap ≡ 2 ^ k
  pub slots : length r.slots ≡ 2 ^ k
  pub head : r.head < u64_mod
  pub tail : r.tail ≡ wrapping_add_64 r.head (length q)
  pub fits : length q ≤ 2 ^ k
  pub window : Window r.slots (2 ^ k) r.head q

-- The ring after an accepted push, and after a pop that returned a value.
abbrev pub extended {ℓ} : {A : Type ℓ} → ℕ → Spsc A → A → Spsc A
extended k r v = record r {
  tail = wrapping_add_64 r.tail 1;
  slots = set r.slots (r.tail % 2 ^ k) (some v);
}

abbrev pub advanced {ℓ} : {A : Type ℓ} → Spsc A → Spsc A
advanced r = record r { head = wrapping_add_64 r.head 1 }

module _ {ℓ} {A : Type ℓ} {k : ℕ} where
  -- The cursors are as far apart as the queue is long, past the wrap too.
  pub len_lem : {r : Spsc A} {q : List A} → Holds k r q → len r ≡ length q
  unfolding len
  len_lem h = omega (arith, pow_below_word k h.word)

  pub push_refused :
      {r : Spsc A} {q : List A} (v : A) → Holds k r q → length q ≡ 2 ^ k → push r v ≡ (refused v, r)
  unfolding push len
  push_refused v h full = ground (arith, len_lem h)

  -- The mask takes a cursor to its place modulo the capacity.
  place : {r : Spsc A} {q : List A} → Holds k r q → (n : ℕ) → bit_and n (r.cap - 1) ≡ n % 2 ^ k
  place {r} h n = rw h.cap (bit_and_mask k n)

  pub push-accepted :
      {r : Spsc A} {q : List A} (v : A)
      → Holds k r q
      → length q < 2 ^ k
      → push r v ≡ (accepted, extended k r v)
  unfolding push len
  push-accepted {r} v h room = ground (arith, len_lem h, place h r.tail)

  pub extended-Holds :
      {r : Spsc A} {q : List A} (v : A)
      → Holds k r q
      → length q < 2 ^ k
      → Holds k (extended k r v) (q ++ v ∷ [])
  extended-Holds {r} {q} v h room = record {
    word = h.word;
    cap = h.cap;
    slots = length-set r.slots (r.tail % 2 ^ k) (some v) ∙ h.slots;
    head = h.head;
    tail = omega (arith, length-append q (v ∷ []), pow_below_word k h.word);
    fits = omega (arith, length-append q (v ∷ []));
    window =
        subst (λ (n : ℕ). Window (set r.slots n (some v)) (2 ^ k) r.head (q ++ v ∷ []))
          (sym at_tail) (Window-set r.slots (2 ^ k) r.head q v h.slots room h.window);
  }
    where
      at_tail : r.tail % 2 ^ k ≡ (r.head + length q) % 2 ^ k
      at_tail =
          ap (λ (t : ℕ). t % 2 ^ k) h.tail
          ∙ mod-mod_pow k 64 (r.head + length q) (omega (arith, h.word))

  -- A push has the result that it has on the queue, and leaves the ring holding the queue after it.
  pub push-Holds :
      {r : Spsc A} {q : List A} (v : A)
      → Holds k r q
      → ((push r v).0 ≡ (enqueue (2 ^ k) q v).0) × Holds k (push r v).1 (enqueue (2 ^ k) q v).1
  unfolding enqueue
  push-Holds {r} {q} v h = elim (Bool-cases (ltb (length q) (2 ^ k))) [
    | inl room ↦
        rw (push-accepted v h (ltb→lt _ _ room), room) (refl, extended-Holds v h (ltb→lt _ _ room))
    | inr full ↦ rw (push_refused v h (ground (arith, h.fits)), full) (refl, h)
  ]

  pub pop_got : {r : Spsc A} {x : A} {q : List A} → Holds k r (x ∷ q) → pop r ≡ (got x, advanced r)
  unfolding pop
  pop_got {r} h = ground (arith, h.window.0, place h r.head, pow_below_word k h.word)

  pub advanced-Holds :
      {r : Spsc A} {x : A} {q : List A} → Holds k r (x ∷ q) → Holds k (advanced r) q
  advanced-Holds {r} {x} {q} h = record {
    word = h.word;
    cap = h.cap;
    slots = h.slots;
    head = omega arith;
    tail = omega (arith, h.tail);
    fits = omega (arith, h.fits);
    window =
        Window-congr r.slots (2 ^ k) (suc r.head) (wrapping_add_64 r.head 1) q
          (ap (λ (t : ℕ). t % 2 ^ k) (omega arith)
            ∙ sym (mod-mod_pow k 64 (r.head + 1) (omega (arith, h.word))))
          h.window.1;
  }

  pub pop_empty : {r : Spsc A} → Holds k r [] → pop r ≡ (empty, r)
  unfolding pop
  pop_empty h = ground (arith, h.tail, h.head)

  -- A pop returns the oldest value, and says `empty` only of an empty queue. It never reads a slot
  -- that holds no value.
  pub pop-Holds :
      {r : Spsc A} {q : List A}
      → Holds k r q
      → ((pop r).0 ≡ (dequeue q).0) × Holds k (pop r).1 (dequeue q).1
  unfolding dequeue
  pop-Holds {r} {q = []} h = rw (pop_empty h) (refl, h)
  pop-Holds {r} {q = x ∷ q} h = rw (pop_got h) (refl, advanced-Holds h)
