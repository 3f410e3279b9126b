-- ===== src/Link/Reliable/Tracking.antt =====
-- What the receiver's reorder buffer holds between two calls, and that each call keeps it so.
use tpt_teleop.Prelude.{
  ℕ, zero, suc, ◌+◌, ◌*◌, ◌-◌, ◌/◌, ◌%◌, ◌^◌, ◌<◌, ◌≤◌, ◌≡◌, refl, sym, ◌∙◌, ap, ap₂, subst, arith,
  true, some, List, [], ◌∷◌, ◌++◌, length, length-append, length-set, set, Bool-cases, inl, inr,
}
use tpt_teleop.Prelude.Words.{wrapping_add_32, wrapping_sub_32}
use tpt_teleop.Prelude.Bits.{test_bit, set_bit, set_bit-lt}
use tpt_teleop.Link.Reliable.Ack.{max_reliable_payload, sack_bits, half_range}
use tpt_teleop.Link.Reliable.Rx.{
  Bytes, Accept, ReliableRx, accept, shift_down, first_slot, advance, drain,
}
use tpt_teleop.Link.Reliable.Steps.{stored, accept_cases, drain_idle, drain_ready, halved}

-- The frame with each sequence number, as the sender made it.
module _ (sent : ℕ → Bytes) where
  -- Each slot whose bit is set holds the frame at its place from `n` on, and that place comes
  -- before the half range.
  abbrev pub Matches : ℕ → ℕ → List Bytes → Type 0
  Matches n w [] = w ≡ 0
  Matches n w (s ∷ ss) =
      (test_bit w 0 ≡ true → (s ≡ sent n) × (n < half_range)) × Matches (suc n) (w / 2) ss

  -- The sender's frames from `n` on, `k` of them.
  abbrev pub frames_from : ℕ → ℕ → List (ℕ × Bytes)
  frames_from n zero = []
  frames_from n (suc k) = (n, sent n) ∷ frames_from (suc n) k

  Matches-set :
      (n w i : ℕ) (ss : List Bytes)
      → i < length ss
      → n + i < half_range
      → Matches n w ss
      → Matches n (set_bit w i) (set ss i (sent (n + i)))
  unfolding test_bit set_bit
  Matches-set n w i [] l r m = absurd (omega arith)
  Matches-set n w zero (s ∷ ss) l r (m, ms) = (
    λ _. (ap sent (omega arith), omega arith),
    subst (λ v. Matches (suc n) v ss) (omega arith) ms,
  )
  Matches-set n w (suc i) (s ∷ ss) l r (m, ms) =
      let e : suc n + i ≡ n + suc i = omega arith in
      let v : set_bit (w / 2) i ≡ (set_bit (w / 2) i * 2 + w % 2) / 2 = omega arith in
      (
        λ t. m (ground arith),
        subst (λ v. Matches (suc n) v (set ss i (sent (n + suc i)))) v
            (subst (λ j. Matches (suc n) (set_bit (w / 2) i) (set ss i (sent j))) e
              (Matches-set (suc n) (w / 2) i ss (omega arith) (omega arith) ms)),
      )

  Matches-shift : (n w : ℕ) (ss : List Bytes) → Matches n w ss → Matches n w (ss ++ [] ∷ [])
  unfolding test_bit
  Matches-shift n w [] m = (λ t. absurd (ground arith), omega arith)
  Matches-shift n w (s ∷ ss) (m, ms) = (m, Matches-shift (suc n) (w / 2) ss ms)

  -- A receiver whose reorder buffer holds frames of the sender only.
  pub record IsTracking (rx : ReliableRx) : Type 0 where
    pub window : length rx.slots ≡ sack_bits
    pub word : rx.map < 2 ^ sack_bits
    pub reach : rx.next ≤ half_range
    pub holds : Matches rx.next rx.map rx.slots

  -- What the network may hand over: a frame that was sent, any number of times. Sequence numbers
  -- stay below the half range, so that no old frame is taken for a new one.
  pub record IsGenuine (seq : ℕ) (payload : Bytes) : Type 0 where
    pub early : seq < half_range
    pub small : length payload ≤ max_reliable_payload
    pub faithful : payload ≡ sent seq

  stored-IsTracking :
      (seq : ℕ) (p : Bytes) (rx : ReliableRx)
      → IsTracking rx
      → IsGenuine seq p
      → rx.next ≤ seq
      → seq - rx.next < sack_bits
      → IsTracking (stored (seq - rx.next) p rx)
  stored-IsTracking seq p rx t g ge lt =
      let i = seq - rx.next in
      let e : rx.next + i ≡ seq = omega arith in
      record {
        window = length-set rx.slots i p ∙ t.window;
        word = set_bit-lt sack_bits i rx.map t.word lt;
        reach = t.reach;
        holds =
            subst (λ q. Matches rx.next (set_bit rx.map i) (set rx.slots i q))
              (ap sent e ∙ sym g.faithful)
              (Matches-set rx.next rx.map i rx.slots (omega (arith, t.window))
                (omega (arith, g.early)) t.holds);
      }

  pub accept_lem :
      (seq : ℕ) (p : Bytes) (rx : ReliableRx)
      → IsTracking rx
      → IsGenuine seq p
      → (a : Accept) × (rx' : ReliableRx) × (accept seq p rx ≡ some (a, rx'))
        × (rx'.next ≡ rx.next)
        × IsTracking rx'
  accept_lem seq p rx t g = elim (accept_cases seq p rx g.small) [
    | inl (a, e) ↦ (a, rx, e, refl, t)
    | inr (a, e, near, fresh) ↦
        let ge : rx.next ≤ seq = omega (arith, t.reach, g.early) in
        let d : wrapping_sub_32 seq rx.next ≡ seq - rx.next = omega (arith, t.reach, g.early) in
        (
          a,
          stored (seq - rx.next) p rx,
          e ∙ ap (λ i. some (a, stored i p rx)) d,
          refl,
          stored-IsTracking seq p rx t g ge (omega arith),
        )
  ]

  -- The first slot when its bit is set, and the slots after they moved down.
  shift_lem :
      (n w : ℕ) (ss : List Bytes)
      → length ss ≡ sack_bits
      → Matches n w ss
      → test_bit w 0 ≡ true
      → (first_slot ss ≡ sent n)
        × (n < half_range)
        × (length (shift_down ss) ≡ sack_bits)
        × Matches (suc n) (w / 2) (shift_down ss)
  unfolding first_slot shift_down
  shift_lem n w [] l m b = absurd (omega arith)
  shift_lem n w (s ∷ ss) l (m, ms) b = (
    (m b).0,
    (m b).1,
    omega (arith, length-append ss ([] ∷ [])),
    Matches-shift (suc n) (w / 2) ss ms,
  )

  advance-IsTracking :
      (rx : ReliableRx)
      → IsTracking rx
      → test_bit rx.map 0 ≡ true
      → (first_slot rx.slots ≡ sent rx.next)
        × ((advance rx).next ≡ suc rx.next)
        × IsTracking (advance rx)
  unfolding advance
  advance-IsTracking rx t b =
      let (first, below, window, holds) = shift_lem rx.next rx.map rx.slots t.window t.holds b in
      let e : suc rx.next ≡ wrapping_add_32 rx.next 1 = omega arith in
      (
        first,
        sym e,
        record {
          window = window;
          word = omega (arith, t.word);
          reach = omega arith;
          holds = subst (λ n. Matches n (rx.map / 2) (shift_down rx.slots)) e holds;
        },
      )

  pub drain_lem :
      (fuel m : ℕ) (rx : ReliableRx)
      → rx.map < 2 ^ m
      → m < fuel
      → IsTracking rx
      → let (out, rx', done) = drain fuel rx in
        (out ≡ frames_from rx.next (length out))
        × (rx'.next ≡ rx.next + length out)
        × (done ≡ true)
        × IsTracking rx'
  drain_lem zero m rx w f t = absurd (omega arith)
  drain_lem (suc fuel) m rx w f t = elim (Bool-cases (test_bit rx.map 0)) [
    | inl ready ↦
        let (first, next, t') = advance-IsTracking rx t ready in
        let (pos, half) = halved m rx w ready in
        let (out, at_end, done, t'') = drain_lem fuel (m - 1) (advance rx) half (omega arith) t' in
        rw (drain_ready fuel rx ready) (
          ap₂ (λ b l. (rx.next, b) ∷ l) first
              (out ∙ ap (λ n. frames_from n (length (drain fuel (advance rx)).0)) next),
          omega (arith, at_end, next),
          done,
          t'',
        )
    | inr idle ↦ rw (drain_idle fuel rx idle) (refl, omega arith, refl, t)
  ]
