-- ===== src/Core/Bus.antt =====
-- crates/tpt-t-core/src/bus.rs: the fan-out message bus, one ring to a subscriber. A subscriber
-- that is not there panics in the source, and is `none` here.
use tpt_teleop.Prelude.{
  ℕ, ◌+◌, ◌-◌, Bool, true, false, Option, none, some, List, [], ◌∷◌, ◌++◌, length, get_elem?, set,
}
use tpt_teleop.Ring.Spsc
use tpt_teleop.Ring.Spsc.{Spsc, Pushed, accepted, refused, with_capacity, drain}

pub record MessageBus {ℓ} (A : Type ℓ) : Type ℓ where
  pub subscribers : List (Spsc A)
  pub per_subscriber_capacity : ℕ

module _ {ℓ} {A : Type ℓ} where
  unfoldable pub new : ℕ → MessageBus A
  new per_subscriber_capacity = record {
    subscribers = [];
    per_subscriber_capacity = per_subscriber_capacity;
  }

  -- The new subscriber's id, and the bus with its ring.
  unfoldable pub subscribe : MessageBus A → ℕ × MessageBus A
  subscribe bus =
      let rings = bus.subscribers ++ with_capacity bus.per_subscriber_capacity ∷ [] in
      (length rings - 1, record bus { subscribers = rings })

  unfoldable pub subscriber_count : MessageBus A → ℕ
  subscriber_count bus = length bus.subscribers

  -- `.is_ok()`
  abbrev pub is_ok : Pushed A → Bool
  is_ok accepted = true
  is_ok (refused _) = false

  -- The loop of `publish`: how many rings accepted, and the rings after it.
  unfoldable pub publish_to : A → List (Spsc A) → ℕ → ℕ × List (Spsc A)
  publish_to value [] delivered = (delivered, [])
  publish_to value (ring ∷ rings) delivered =
      let (res, ring') = Spsc.push ring value in
      let (n, rings') =
        publish_to value rings (elim (is_ok res) [ true ↦ delivered + 1 | false ↦ delivered ]) in
      (n, ring' ∷ rings')

  unfoldable pub publish : A → MessageBus A → ℕ × MessageBus A
  unfolding publish_to
  publish value bus =
      let (n, rings) = publish_to value bus.subscribers 0 in (n, record bus { subscribers = rings })

  unfoldable pub try_deliver : ℕ → A → MessageBus A → Option (Bool × MessageBus A)
  try_deliver id value bus = elim (get_elem? bus.subscribers id) [
    | none ↦ none
    | some ring ↦
        let (res, ring') = Spsc.push ring value in
        some (is_ok res, record bus { subscribers = set bus.subscribers id ring' })
  ]

  -- How many values were appended to `out`, and `out` after it. `fuel` bounds the loop's rounds.
  unfoldable pub poll : ℕ → ℕ → List A → MessageBus A → Option (ℕ × List A × MessageBus A)
  poll fuel id out bus = elim (get_elem? bus.subscribers id) [
    | none ↦ none
    | some ring ↦
        let (vs, ring', done) = drain fuel ring in
        some (length vs, out ++ vs, record bus { subscribers = set bus.subscribers id ring' })
  ]

  unfoldable pub pending : ℕ → MessageBus A → Option ℕ
  pending id bus = elim (get_elem? bus.subscribers id) [
    | none ↦ none
    | some ring ↦ some (Spsc.len ring)
  ]
