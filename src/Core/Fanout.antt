-- ===== src/Core/Fanout.antt =====
-- The bus as one bounded queue for each subscriber.
use tpt_teleop.Prelude.{
  ℕ, zero, suc, ◌+◌, ◌^◌, ◌<◌, ◌≡◌, refl, subst, arith, true, false, some, List, [], ◌∷◌, ◌++◌, map,
  length, get_elem?, set, ltb, if◌then◌else◌,
}
use tpt_teleop.Ring.Spsc.{Spsc, push, drain}
use tpt_teleop.Ring.Bounded.{enqueue}
use tpt_teleop.Ring.Refine.{Holds, push-Holds}
use tpt_teleop.Ring.Runs.{drain_lem}
use tpt_teleop.Core.Bus.{MessageBus, publish, publish_to, try_deliver, poll, is_ok}

-- Each ring holds the queue at its place.
pub data HoldsEach {ℓ} {A : Type ℓ} (k : ℕ) : List (Spsc A) → List (List A) → Type ℓ where
  nil : HoldsEach k [] []
  cons :
      {r : Spsc A} {q : List A} {rs : List (Spsc A)} {qs : List (List A)}
      → Holds k r q
      → HoldsEach k rs qs
      → HoldsEach k (r ∷ rs) (q ∷ qs)

module _ {ℓ} {A : Type ℓ} where
  -- How many queues have room for one more value.
  abbrev pub room_in : ℕ → List (List A) → ℕ
  room_in c [] = 0
  room_in c (q ∷ qs) = if ltb (length q) c then suc (room_in c qs) else room_in c qs

  HoldsEach-set :
      (k : ℕ) (rs : List (Spsc A)) (qs : List (List A)) (i : ℕ) {r : Spsc A} {q : List A}
      → HoldsEach k rs qs
      → Holds k r q
      → HoldsEach k (set rs i r) (set qs i q)
  HoldsEach-set k _ _ i nil e = nil
  HoldsEach-set k _ _ zero (cons h hs) e = cons e hs
  HoldsEach-set k _ _ (suc i) (cons {rs} {qs} h hs) e = cons h (HoldsEach-set k rs qs i hs e)

  HoldsEach-get :
      (k : ℕ) (rs : List (Spsc A)) (qs : List (List A)) (i : ℕ) {q : List A}
      → HoldsEach k rs qs
      → get_elem? qs i ≡ some q
      → (r : Spsc A) × (get_elem? rs i ≡ some r) × Holds k r q
  HoldsEach-get k _ _ i nil e = cc
  HoldsEach-get k _ _ zero (cons {r} h hs) e = (r, refl, subst (Holds k r) (cc e) h)
  HoldsEach-get k _ _ (suc i) (cons {rs} {qs} h hs) e = HoldsEach-get k rs qs i hs e

  is_ok-push :
      (k : ℕ) (v : A) (r : Spsc A) (q : List A)
      → Holds k r q
      → is_ok (push r v).0 ≡ ltb (length q) (2 ^ k)
  unfolding enqueue
  is_ok-push k v r q h = ground (arith, (push-Holds v h).0)

  publish_to_lem :
      (k : ℕ) (v : A) (rs : List (Spsc A)) (qs : List (List A)) (n : ℕ)
      → HoldsEach k rs qs
      → ((publish_to v rs n).0 ≡ n + room_in (2 ^ k) qs)
        × HoldsEach k (publish_to v rs n).1 (map (λ q. (enqueue (2 ^ k) q v).1) qs)
  unfolding publish_to
  publish_to_lem k v _ _ n nil = (omega arith, nil)
  publish_to_lem k v _ _ n (cons {r} {q} {rs} {qs} h hs) =
      let n' : ℕ = elim (is_ok (push r v).0) [ true ↦ n + 1 | false ↦ n ] in
      let (count, held) = publish_to_lem k v rs qs n' hs in
      (ground (arith, count, is_ok-push k v r q h), cons (push-Holds v h).1 held)

  -- A publication is appended to the queue of every subscriber that has room and dropped for the
  -- others, and the result says how many got it.
  pub publish_lem :
      (k : ℕ) (v : A) (bus : MessageBus A) (qs : List (List A))
      → HoldsEach k bus.subscribers qs
      → ((publish v bus).0 ≡ room_in (2 ^ k) qs)
        × HoldsEach k (publish v bus).1.subscribers (map (λ q. (enqueue (2 ^ k) q v).1) qs)
  unfolding publish
  publish_lem k v bus qs h =
      let (count, held) = publish_to_lem k v bus.subscribers qs 0 h in (omega (arith, count), held)

  -- A delivery to one subscriber says whether it had room, appends the value to that queue if so,
  -- and leaves the other queues alone.
  pub try_deliver_lem :
      (k id : ℕ) (v : A) (bus : MessageBus A) (qs : List (List A)) {q : List A}
      → HoldsEach k bus.subscribers qs
      → get_elem? qs id ≡ some q
      → (after : MessageBus A) × (try_deliver id v bus ≡ some (ltb (length q) (2 ^ k), after))
        × HoldsEach k after.subscribers (set qs id (enqueue (2 ^ k) q v).1)
  unfolding try_deliver
  try_deliver_lem k id v bus qs {q} h e =
      let (r, found, hr) = HoldsEach-get k bus.subscribers qs id h e in
      (
        record bus { subscribers = set bus.subscribers id (push r v).1 },
        ground (arith, found, is_ok-push k v r q hr),
        HoldsEach-set k bus.subscribers qs id h (push-Holds v hr).1,
      )

  -- A poll hands over everything that is pending for one subscriber, oldest first, and counts it.
  -- That queue is empty afterwards, and the other queues are as they were.
  pub poll_lem :
      (k fuel id : ℕ) (out : List A) (bus : MessageBus A) (qs : List (List A)) {q : List A}
      → HoldsEach k bus.subscribers qs
      → get_elem? qs id ≡ some q
      → length q < fuel
      → (after : MessageBus A) × (poll fuel id out bus ≡ some (length q, out ++ q, after))
        × HoldsEach k after.subscribers (set qs id [])
  unfolding poll
  poll_lem k fuel id out bus qs {q} h e f =
      let (r, found, hr) = HoldsEach-get k bus.subscribers qs id h e in
      let (all, _, empty) = drain_lem fuel q f hr in
      (
        record bus { subscribers = set bus.subscribers id (drain fuel r).1 },
        ground (arith, found, all),
        HoldsEach-set k bus.subscribers qs id h empty,
      )
