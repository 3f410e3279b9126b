-- ===== src/Bridge/Session/Lifecycle.antt =====
-- What holds of a session over any run of calls, whatever its adapter and its link answer.
use tpt_teleop.Prelude.{
  ◌≡◌, ◌⊎◌, inl, inr, refl, ap, arith, true, false, Option, none, some, List, [], ◌∷◌, All,
  Bool-cases,
}
use tpt_teleop.Bridge.Lifecycle.{
  HandoverState, autonomous, requesting_teleop, teleop_active, returning_to_autonomy,
  can_transition_to,
}
use tpt_teleop.Bridge.Session.{
  OperatorId, DomainError, err, mode, is_stop, DomainTeleopInterface, TeleopLink, DomainSession,
  new, emergency_stop,
}
use tpt_teleop.Bridge.Session.Calls.{
  Call, requests, cancels, engages, disengages, completes, commands, stops, acknowledges, feeds,
  in_order, next, call, calls, out_of_order, call-Follows,
}

-- An operator is named just while the session is under teleoperation.
unfoldable pub IsHeld : HandoverState → Option OperatorId → Type 0
IsHeld teleop_active o = (operator : OperatorId) × (o ≡ some operator)
IsHeld _ o = o ≡ none

next-IsHeld :
    (c : Call) (state : HandoverState) (o : Option OperatorId)
    → in_order c state ≡ true
    → IsHeld state o
    → IsHeld (next c state o).0 (next c state o).1
unfolding next in_order IsHeld
next-IsHeld (requests reason) autonomous o e h = h
next-IsHeld cancels requesting_teleop o e h = h
next-IsHeld (engages operator) state o e h = (operator, refl)
next-IsHeld disengages teleop_active o e h = refl
next-IsHeld completes returning_to_autonomy o e h = h
next-IsHeld (commands cmd) teleop_active o e h = elim (Bool-cases (is_stop (mode cmd))) [
  | inl stop ↦ rw stop refl
  | inr go ↦ rw go h
]
next-IsHeld stops HandoverState.emergency_stop o e h = h
next-IsHeld stops _ o e h = refl
next-IsHeld acknowledges HandoverState.emergency_stop o e h = h
next-IsHeld feeds state o e h = h
next-IsHeld _ _ o e h = absurd (ground arith)

next_edge :
    (c : Call) (state : HandoverState) (o : Option OperatorId)
    → in_order c state ≡ true
    → ((next c state o).0 ≡ state) ⊎ (can_transition_to state (next c state o).0 ≡ true)
unfolding next in_order can_transition_to
next_edge (requests reason) autonomous o e = inr refl
next_edge cancels requesting_teleop o e = inr refl
next_edge (engages operator) requesting_teleop o e = inr refl
next_edge (engages operator) returning_to_autonomy o e = inr refl
next_edge disengages teleop_active o e = inr refl
next_edge completes returning_to_autonomy o e = inr refl
next_edge (commands cmd) teleop_active o e = elim (Bool-cases (is_stop (mode cmd))) [
  | inl stop ↦ rw stop (inr refl)
  | inr go ↦ rw go (inl refl)
]
next_edge stops HandoverState.emergency_stop o e = inl refl
next_edge stops _ o e = inr refl
next_edge acknowledges HandoverState.emergency_stop o e = inr refl
next_edge feeds state o e = inl refl
next_edge _ _ o e = absurd (ground arith)

-- A call that a stopped session does not answer, or answers with no effect.
abbrev pub IsIdle : Call → Type 0
IsIdle acknowledges = ⊥
IsIdle feeds = ⊥
IsIdle _ = Unit

idle_cases : (c : Call) → IsIdle c → (c ≡ stops) ⊎ (in_order c HandoverState.emergency_stop ≡ false)
unfolding in_order
idle_cases stops h = inl refl
idle_cases acknowledges h = absurd h
idle_cases feeds h = absurd h
idle_cases _ h = inr refl

module _ {D S F L : Type 0} (domain : DomainTeleopInterface D S F) (link_ops : TeleopLink L) where
  -- Each call follows an edge of the lifecycle or leaves the state, and one that fails leaves the
  -- state and the operator.
  pub call_follows_edges :
      (c : Call) (link : L) (s : DomainSession D)
      → let (outcome, _, s') = call domain link_ops c link s in
        ((s'.state ≡ s.state) ⊎ (can_transition_to s.state s'.state ≡ true))
        × ((e : DomainError) → outcome ≡ err e → (s'.state ≡ s.state) × (s'.operator ≡ s.operator))
  call_follows_edges c link s = elim (Bool-cases (in_order c s.state)) [
    | inr out ↦
        let (x, e) = out_of_order domain link_ops c link s out in
        rw e (inl refl, λ y z. (refl, refl))
    | inl fits ↦ elim (call-Follows domain link_ops c link s fits) [
      | inl (good, to, op) ↦
          rw (good, to) (next_edge c s.state s.operator fits, λ y z. absurd (ground (arith, z)))
      | inr (x, bad, same, op) ↦ (inl same, λ y z. (same, op))
    ]
  ]

  call-IsHeld :
      (c : Call) (link : L) (s : DomainSession D)
      → IsHeld s.state s.operator
      → let (_, _, s') = call domain link_ops c link s in IsHeld s'.state s'.operator
  call-IsHeld c link s h = elim (Bool-cases (in_order c s.state)) [
    | inr out ↦ let (x, e) = out_of_order domain link_ops c link s out in rw e h
    | inl fits ↦ elim (call-Follows domain link_ops c link s fits) [
      | inl (good, to, op) ↦ rw (to, op) (next-IsHeld c s.state s.operator fits h)
      | inr (x, bad, same, op) ↦ rw (same, op) h
    ]
  ]

  calls-IsHeld :
      (cs : List Call) (link : L) (s : DomainSession D)
      → IsHeld s.state s.operator
      → let (_, s') = calls domain link_ops cs link s in IsHeld s'.state s'.operator
  unfolding calls
  calls-IsHeld [] link s h = h
  calls-IsHeld (c ∷ cs) link s h =
      calls-IsHeld cs (call domain link_ops c link s).1 (call domain link_ops c link s).2
        (call-IsHeld c link s h)

  -- Over any run of calls of a new session an operator is named just while the session is under
  -- teleoperation.
  pub operator_while_active :
      (cs : List Call) (link : L) (adapter : D)
      → let (_, s) = calls domain link_ops cs link (new adapter) in IsHeld s.state s.operator
  unfolding new IsHeld
  operator_while_active cs link adapter = calls-IsHeld cs link (new adapter) refl

  idle_call :
      (c : Call) (link : L) (s : DomainSession D)
      → s.state ≡ HandoverState.emergency_stop
      → IsIdle c
      → ((call domain link_ops c link s).1 ≡ link) × ((call domain link_ops c link s).2 ≡ s)
  unfolding call emergency_stop
  idle_call c link s e h = elim (idle_cases c h) [
    | inl stop ↦ rw stop (refl, rw e refl)
    | inr out ↦
        let (x, r) = out_of_order domain link_ops c link s (rw e out) in
        (ap (λ t. t.1) r, ap (λ t. t.2) r)
  ]

  idle_calls :
      (cs : List Call) (link : L) (s : DomainSession D)
      → s.state ≡ HandoverState.emergency_stop
      → All IsIdle cs
      → calls domain link_ops cs link s ≡ (link, s)
  unfolding calls
  idle_calls [] link s e idle = refl
  idle_calls (c ∷ cs) link s e (h, hs) =
      let (l, t) = idle_call c link s e h in rw (l, t) (idle_calls cs link s e hs)

  stopped_at :
      (a : D) (state : HandoverState) (o : Option OperatorId)
      → let s : DomainSession D = record { adapter = a; state = state; operator = o } in
        (emergency_stop domain s).state ≡ HandoverState.emergency_stop
  unfolding emergency_stop
  stopped_at a HandoverState.emergency_stop o = refl
  stopped_at a _ o = refl

  -- From the emergency stop on, until it is acknowledged, no call but that for a sensor feed changes
  -- the session or reaches the adapter or the link.
  pub emergency_stop_holds :
      (cs : List Call) (link : L) (s : DomainSession D)
      → All IsIdle cs
      → ((emergency_stop domain s).state ≡ HandoverState.emergency_stop)
        × (calls domain link_ops cs link (emergency_stop domain s)
            ≡ (link, emergency_stop domain s))
  emergency_stop_holds cs link s idle =
      let stopped = stopped_at s.adapter s.state s.operator in
      (stopped, idle_calls cs link (emergency_stop domain s) stopped idle)
