-- ===== src/Core/Events.antt =====
-- The transition log of the state machine: what observers drain.
use tpt_teleop.Prelude.{
  ℕ, ◌^◌, ◌<◌, ◌≤◌, ◌≡◌, refl, sym, ◌∙◌, ap, arith, subst, List, [], ◌∷◌, ◌++◌, append-nil,
  append_assoc, length, take, take_all, take-append_full, ltb, Bool-cases, inl, inr, ◌⊎◌, zero, suc,
  true, All,
}
use tpt_teleop.Core.Mode.{emergency_stop, Transition, allows, spec_default}
use tpt_teleop.Core.Table.{Staged, spec_default_iff}
use tpt_teleop.Core.Machine.{
  StateMachine, current, try_transition, force_emergency_stop, is_stopped, take_transitions,
}
use tpt_teleop.Core.Handover.{
  Call, request, stop, call, calls, committed, history, try_transition_lem,
  force_emergency_stop_lem, rules-call, IsStaged, history-IsStaged,
}
use tpt_teleop.Ring.Spsc.{push}
use tpt_teleop.Ring.Bounded.{enqueue}
use tpt_teleop.Ring.Refine.{Holds, push-Holds}
use tpt_teleop.Ring.Runs.{drain_lem}

-- A ring that takes what fits of a list holds its prefix.
enqueue-take {ℓ} :
    {A : Type ℓ} (c : ℕ) (q : List A) (v : A) (rest : List A)
    → length q ≤ c
    → take c ((enqueue c q v).1 ++ rest) ≡ take c (q ++ v ∷ rest)
unfolding enqueue
enqueue-take c q v rest h = elim (Bool-cases (ltb (length q) c)) [
  | inl room ↦ rw room (ap (take c) (append_assoc q (v ∷ []) rest))
  | inr full ↦ rw full (
      take-append_full c q rest (ground arith)
      ∙ sym (take-append_full c q (v ∷ rest) (ground arith)))
]

-- The log and what is committed, on each branch of a call.
data Logged (sm : StateMachine) (c : Call) : Type 0 where
  silent : (call c sm).events ≡ sm.events → committed c sm ≡ [] → Logged sm c
  logs :
      (e : Transition)
      → (call c sm).events ≡ (push sm.events e).1
      → committed c sm ≡ e ∷ []
      → Logged sm c

logged : (c : Call) (sm : StateMachine) → Logged sm c
unfolding call try_transition force_emergency_stop committed
logged (request to now) sm = elim (Bool-cases (allows sm.rules (current sm) to)) [
  | inl y ↦
      logs (record { from = current sm; to = to; at_unix_ns = now }) (ground (arith, y))
        (ground (arith, y))
  | inr n ↦ silent (ground (arith, n)) (ground (arith, n))
]
logged (stop now) sm = elim (Bool-cases (is_stopped (current sm))) [
  | inl y ↦ silent (ground (arith, y)) (ground (arith, y))
  | inr n ↦
      logs (record { from = current sm; to = emergency_stop; at_unix_ns = now }) (ground (arith, n))
        (ground (arith, n))
]

module _ (k : ℕ) where
  -- After a call the log holds what fits of what it held and of what the call committed.
  call-Holds :
      (c : Call) (sm : StateMachine) {q : List Transition}
      → Holds k sm.events q
      → (q' : List Transition) × Holds k (call c sm).events q'
        × ((rest : List Transition)
            → take (2 ^ k) (q' ++ rest) ≡ take (2 ^ k) (q ++ (committed c sm ++ rest)))
  call-Holds c sm {q} h = elim (logged c sm) [
    | silent same nothing ↦ (q, subst (λ r. Holds k r q) (sym same) h, λ rest. rw nothing refl)
    | logs e grown one ↦ (
      (enqueue (2 ^ k) q e).1,
      subst (λ r. Holds k r (enqueue (2 ^ k) q e).1) (sym grown) (push-Holds e h).1,
      λ rest. rw one (enqueue-take (2 ^ k) q e rest h.fits),
    )
  ]

  calls-Holds :
      (cs : List Call) (sm : StateMachine) (q : List Transition)
      → Holds k sm.events q
      → Holds k (calls cs sm).events (take (2 ^ k) (q ++ history cs sm))
  unfolding calls history
  calls-Holds [] sm q h =
      subst (Holds k sm.events)
        (sym (ap (take (2 ^ k)) (rw append-nil) ∙ take_all (2 ^ k) q h.fits)) h
  calls-Holds (c ∷ cs) sm q h =
      let (q', h', e) = call-Holds c sm h in
      subst (Holds k (calls cs (call c sm)).events) (e (history cs (call c sm)))
        (calls-Holds cs (call c sm) q' h')

  -- Draining after any calls gives the first transitions that they committed, as many as the log
  -- has slots, oldest first, and leaves the log empty. What came when it was full is dropped. (The log
  -- is empty before the calls, and the drain has a round more than it has slots.)
  pub take_transitions_lem :
      (cs : List Call) (sm : StateMachine) (out : List Transition) (fuel : ℕ)
      → Holds k sm.events []
      → 2 ^ k < fuel
      → let first = take (2 ^ k) (history cs sm) in
        let (drained, n, after) = take_transitions fuel (calls cs sm) out in
        (drained ≡ out ++ first) × (n ≡ length first) × Holds k after.events []
  unfolding take_transitions
  take_transitions_lem cs sm out fuel h f =
      let held = calls-Holds cs sm [] h in
      let (e, _, empty) =
        drain_lem fuel (take (2 ^ k) (history cs sm)) (omega (arith, held.fits)) held in
      (ap (λ t. out ++ t) e, ap length e, empty)

All-take : {A : Type 0} (P : A → Type 0) (n : ℕ) (xs : List A) → All P xs → All P (take n xs)
All-take P zero xs ps = tt
All-take P (suc n) [] ps = tt
All-take P (suc n) (x ∷ xs) (p, ps) = (p, All-take P n xs ps)

rules-calls : (cs : List Call) (sm : StateMachine) → (calls cs sm).rules ≡ sm.rules
unfolding calls
rules-calls [] sm = refl
rules-calls (c ∷ cs) sm = rules-calls cs (call c sm) ∙ rules-call c sm

call-Staged :
    (c : Call) (sm : StateMachine)
    → sm.rules ≡ spec_default
    → (current (call c sm) ≡ current sm) ⊎ Staged (current sm) (current (call c sm))
unfolding call
call-Staged (request to now) sm e = elim (try_transition_lem to now sm) [
  | inl (permitted, _, at, _) ↦ inr (
      subst (Staged (current sm)) (sym at) (
        (spec_default_iff (current sm) to).0
          (subst (λ r. allows r (current sm) to ≡ true) e permitted)))
  | inr (_, same) ↦ inl (ap (λ r. current r.1) same)
]
call-Staged (stop now) sm e =
    let (_, at, _) = force_emergency_stop_lem now now sm in
    inr (subst (Staged (current sm)) (sym at) (Staged.stop (current sm)))

-- After any calls under the default table, one more call leaves the mode or moves it by a staged
-- handover or an emergency stop, and every transition that an observer drains from the log is one of
-- these. (The log is empty at first, and the drain has a round more than it has slots.)
pub calls-IsStaged :
    (k : ℕ) (cs : List Call) (c : Call) (sm : StateMachine) (fuel : ℕ)
    → sm.rules ≡ spec_default
    → Holds k sm.events []
    → 2 ^ k < fuel
    → let before = calls cs sm in
      ((current (call c before) ≡ current before)
        ⊎ Staged (current before) (current (call c before)))
      × All IsStaged (take_transitions fuel before []).0
calls-IsStaged k cs c sm fuel e h f =
    let (drained, _, _) = take_transitions_lem k cs sm [] fuel h f in
    (
      call-Staged c (calls cs sm) (rules-calls cs sm ∙ e),
      subst (All IsStaged) (sym drained)
          (All-take IsStaged (2 ^ k) (history cs sm) (history-IsStaged cs sm e)),
    )
