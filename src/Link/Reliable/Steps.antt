-- ===== src/Link/Reliable/Steps.antt =====
-- The branches of `accept` and the rounds of `drain`, each as an equation.
use native.Mathlib.Nat.{pow-succ'}
use tpt_teleop.Prelude.{
  ℕ, zero, suc, ◌-◌, ◌^◌, ◌<◌, ◌≤◌, ◌≡◌, arith, true, false, some, [], ◌∷◌, length, set, ◌⊎◌, ltb,
  leb, ◌==◌, if◌then◌else◌, Bool-cases, inl, inr,
}
use tpt_teleop.Prelude.Words.{wrapping_sub_32}
use tpt_teleop.Prelude.Bits.{test_bit, set_bit}
use tpt_teleop.Link.Reliable.Ack.{max_reliable_payload, sack_bits, half_range}
use tpt_teleop.Link.Reliable.Rx.{
  Bytes, Accept, in_order, buffered, duplicate, overflow, ReliableRx, accept, first_slot, advance,
  drain,
}

-- The receiver after it has stored a frame `i` places past the one that it expects.
abbrev pub stored : ℕ → Bytes → ReliableRx → ReliableRx
stored i p rx = record rx { map = set_bit rx.map i; slots = set rx.slots i p }

-- A frame leaves the receiver alone, or is stored within the reorder window.
pub accept_cases :
    (seq : ℕ) (p : Bytes) (rx : ReliableRx)
    → length p ≤ max_reliable_payload
    → ((a : Accept) × (accept seq p rx ≡ some (a, rx)))
      ⊎ ((a : Accept) × (accept seq p rx ≡ some (a, stored (wrapping_sub_32 seq rx.next) p rx))
          × (wrapping_sub_32 seq rx.next < sack_bits)
          × (test_bit rx.map (wrapping_sub_32 seq rx.next) ≡ false))
unfolding accept
accept_cases seq p rx small =
    let d = wrapping_sub_32 seq rx.next in
    elim (Bool-cases (ltb half_range d)) [
      | inl old ↦ inl (duplicate, ground (arith, old))
      | inr recent ↦ elim (Bool-cases (leb sack_bits d)) [
        | inl far ↦ inl (overflow, ground (arith, recent, far))
        | inr near ↦ elim (Bool-cases (test_bit rx.map d)) [
          | inl seen ↦ inl (duplicate, ground (arith, near, seen))
          | inr fresh ↦ inr (
            (if d == 0 then in_order else buffered),
            ground (arith, near, fresh),
            ground (arith, near),
            fresh,
          )
        ]
      ]
    ]

pub drain_idle :
    (fuel : ℕ) (rx : ReliableRx) → test_bit rx.map 0 ≡ false → drain (suc fuel) rx ≡ ([], rx, true)
unfolding drain
drain_idle fuel rx e = ground (arith, e)

pub drain_ready :
    (fuel : ℕ) (rx : ReliableRx)
    → test_bit rx.map 0 ≡ true
    → drain (suc fuel) rx ≡ (
      (rx.next, first_slot rx.slots) ∷ (drain fuel (advance rx)).0,
      (drain fuel (advance rx)).1,
      (drain fuel (advance rx)).2,
    )
unfolding drain
drain_ready fuel rx e = ground (arith, e)

-- A round of `drain` halves the bitmap.
pub halved :
    (m : ℕ) (rx : ReliableRx)
    → rx.map < 2 ^ m
    → test_bit rx.map 0 ≡ true
    → (0 < m) × ((advance rx).map < 2 ^ (m - 1))
unfolding advance test_bit
halved zero rx w b = absurd (ground arith)
halved (suc m) rx w b =
    let e : suc m - 1 ≡ m = omega arith in (omega arith, rw e (omega (arith, pow-succ' 2 m)))
