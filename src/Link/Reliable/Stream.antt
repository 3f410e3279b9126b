-- ===== src/Link/Reliable/Stream.antt =====
-- What the receiver delivers: the sender's frames in order, with none missing and none twice,
-- whatever order and however often the network hands them over.
use tpt_teleop.Prelude.{
  ℕ, zero, suc, ◌+◌, ◌≤◌, ◌≡◌, refl, sym, ◌∙◌, ap, ap₂, arith, true, none, some, List, [], ◌∷◌,
  ◌++◌, length, length-append, All, ◌⊎◌, inl, inr, Bool-cases,
}
use tpt_teleop.Prelude.Words.{wrapping_sub_32}
use tpt_teleop.Prelude.Bits.{test_bit, set_bit}
use tpt_teleop.Link.Reliable.Ack.{max_reliable_payload}
use tpt_teleop.Link.Reliable.Rx.{
  Bytes, Accept, in_order, duplicate, advance, ReliableRx, new, accept, drain,
}
use tpt_teleop.Link.Reliable.Steps.{drain_ready}
use tpt_teleop.Link.Reliable.Tracking.{frames_from, IsTracking, IsGenuine, accept_lem, drain_lem}

-- What the network and the reader do: a frame arrives, or the reader drains.
pub data Event : Type 0 where
  arrives : ℕ → Bytes → Event
  drains : Event

-- All that `out` is called with over the events, in order, and the receiver after them. 33 rounds
-- are enough for each `drain`; a payload that fails the assertion ends the program.
unfoldable pub run : List Event → ReliableRx → List (ℕ × Bytes) × ReliableRx
run [] rx = ([], rx)
run (arrives seq p ∷ es) rx = elim (accept seq p rx) [
  | none ↦ ([], rx)
  | some (a, rx') ↦ run es rx'
]
run (drains ∷ es) rx =
    let (out, rx', done) = drain 33 rx in let (rest, rx'') = run es rx' in (out ++ rest, rx'')

pub run_arrives :
    (seq : ℕ) (p : Bytes) (es : List Event) (rx : ReliableRx) {a : Accept} {rx' : ReliableRx}
    → accept seq p rx ≡ some (a, rx')
    → run (arrives seq p ∷ es) rx ≡ run es rx'
unfolding run
run_arrives seq p es rx e = ground (arith, e)

-- After the expected frame has arrived its bit is set.
accept_next :
    (p : Bytes) (rx : ReliableRx) {a : Accept} {rx' : ReliableRx}
    → accept rx.next p rx ≡ some (a, rx')
    → length p ≤ max_reliable_payload
    → test_bit rx'.map 0 ≡ true
unfolding accept test_bit set_bit
accept_next p rx e small =
    let z : wrapping_sub_32 rx.next rx.next ≡ 0 = omega arith in ground (arith, e, z)

-- Its answer is that it came in order, or that it was there.
accept_next_answer :
    (p : Bytes) (rx : ReliableRx) {a : Accept} {rx' : ReliableRx}
    → accept rx.next p rx ≡ some (a, rx')
    → length p ≤ max_reliable_payload
    → (a ≡ in_order) ⊎ (a ≡ duplicate)
unfolding accept
accept_next_answer p rx e small =
    let z : wrapping_sub_32 rx.next rx.next ≡ 0 = omega arith in
    elim (Bool-cases (test_bit rx.map 0)) [
      | inl seen ↦ inr (ground (arith, e, z, seen))
      | inr fresh ↦ inl (ground (arith, e, z, fresh))
    ]

module _ (sent : ℕ → Bytes) where
  abbrev pub IsGenuineEvent : Event → Type 0
  IsGenuineEvent (arrives seq p) = IsGenuine sent seq p
  IsGenuineEvent drains = Unit

  frames_from-append :
      (n k j : ℕ) → frames_from sent n k ++ frames_from sent (n + k) j ≡ frames_from sent n (k + j)
  frames_from-append n zero j =
      let e : n + 0 ≡ n = omega arith in
      let d : j ≡ 0 + j = omega arith in
      ap (λ m. frames_from sent m j) e ∙ ap (frames_from sent n) d
  frames_from-append n (suc k) j =
      let e : n + suc k ≡ suc n + k = omega arith in
      let d : suc (k + j) ≡ suc k + j = omega arith in
      ap (λ m. frames_from sent n (suc k) ++ frames_from sent m j) e
      ∙ ap (λ l. (n, sent n) ∷ l) (frames_from-append (suc n) k j)
      ∙ ap (frames_from sent n) d

  run_lem :
      (es : List Event) (rx : ReliableRx)
      → IsTracking sent rx
      → All IsGenuineEvent es
      → let (out, rx') = run es rx in
        (out ≡ frames_from sent rx.next (length out))
        × (rx'.next ≡ rx.next + length out)
        × IsTracking sent rx'
  unfolding run
  run_lem [] rx t g = (refl, omega arith, t)
  run_lem (arrives seq p ∷ es) rx t (g, gs) =
      let (a, rx', e, same, t') = accept_lem sent seq p rx t g in
      let (out, at_end, t'') = run_lem es rx' t' gs in
      rw (run_arrives seq p es rx e) (
        out ∙ ap (λ n. frames_from sent n (length (run es rx').0)) same,
        omega (arith, at_end, same),
        t'',
      )
  run_lem (drains ∷ es) rx t (g, gs) =
      let (out, next, _, t') = drain_lem sent 33 32 rx t.word (omega arith) t in
      let (rest, at_end, t'') = run_lem es (drain 33 rx).1 t' gs in
      let k = length (drain 33 rx).0 in
      let j = length (run es (drain 33 rx).1).0 in
      let e : length ((drain 33 rx).0 ++ (run es (drain 33 rx).1).0) ≡ k + j =
        length-append (drain 33 rx).0 (run es (drain 33 rx).1).0 in
      (
        ap₂ (λ l m. l ++ m) out (rest ∙ ap (λ n. frames_from sent n j) next)
            ∙ frames_from-append rx.next k j
            ∙ ap (frames_from sent rx.next) (sym e),
        omega (arith, at_end, next, e),
        t'',
      )

  pub new-IsTracking : IsTracking sent new
  unfolding new test_bit
  new-IsTracking = ground arith

  -- Whatever the order in which frames of the sender arrive, however often, and whichever are
  -- lost, the receiver hands over the frames 0, 1, 2 and so on, each once, with nothing missing in
  -- between, and next expects the one after the last. (Below the half range of sequence numbers.)
  pub delivers_in_order :
      (es : List Event)
      → All IsGenuineEvent es
      → let (out, rx) = run es new in
        (out ≡ frames_from sent 0 (length out)) × (rx.next ≡ length out)
  unfolding new
  delivers_in_order es g =
      let (out, at_end, _) = run_lem es new new-IsTracking g in (out, omega (arith, at_end))

  -- The frame that is expected is never refused: it is stored, or was stored already, and the drain
  -- that follows hands over this frame, with its payload, before any other.
  pub gap_fills :
      (p : Bytes) (rx : ReliableRx)
      → IsTracking sent rx
      → IsGenuine sent rx.next p
      → (a : Accept) × (rx' : ReliableRx) × (rest : List (ℕ × Bytes)) × (accept rx.next p rx
          ≡ some (a, rx'))
        × ((a ≡ in_order) ⊎ (a ≡ duplicate))
        × ((drain 33 rx').0 ≡ (rx.next, p) ∷ rest)
  gap_fills p rx t g =
      let (a, rx', e, same, t') = accept_lem sent rx.next p rx t g in
      let ready = accept_next p rx e g.small in
      let (frames, _, _, _) = drain_lem sent 33 32 rx' t'.word (omega arith) t' in
      let split = ap (λ r. r.0) (drain_ready 32 rx' ready) in
      let count : length (drain 33 rx').0 ≡ suc (length (drain 32 (advance rx')).0) =
        ap length split in
      (
        a,
        rx',
        frames_from sent (suc rx'.next) (length (drain 32 (advance rx')).0),
        e,
        accept_next_answer p rx e g.small,
        frames
            ∙ ap (frames_from sent rx'.next) count
            ∙ ap₂
                (λ n q.
                  (n, q) ∷ frames_from sent (suc rx'.next) (length (drain 32 (advance rx')).0))
                same (ap sent same ∙ sym g.faithful),
      )
