-- ===== src/Bridge/Session/Calls.antt =====
-- The calls that a program makes of a session, and what each leaves of it.
use tpt_teleop.Prelude.{
  ◌≡◌, ◌⊎◌, inl, inr, refl, arith, Bool, true, false, Option, none, some, List, [], ◌∷◌,
  if◌then◌else◌, Bool-cases,
}
use tpt_teleop.Bridge.Lifecycle.{
  HandoverState, autonomous, requesting_teleop, teleop_active, returning_to_autonomy,
  can_transition_to,
}
use tpt_teleop.Bridge.Session.{
  OperatorId, AssistanceReason, DomainError, Outcome, ok, err, ControlCommand, mode,
  DomainTeleopInterface, TeleopLink, DomainSession, contains, check, cancel_request, engage,
  disengage, complete_handover, emergency_stop, command, acknowledge_emergency_stop, sensor_feed,
  request_assistance, is_stop,
}

pub data Call : Type 0 where
  requests : AssistanceReason → Call
  cancels : Call
  engages : OperatorId → Call
  disengages : Call
  completes : Call
  commands : ControlCommand → Call
  stops : Call
  acknowledges : Call
  feeds : Call

-- The states in which a call is in order.
unfoldable pub in_order : Call → HandoverState → Bool
in_order (requests reason) autonomous = true
in_order cancels requesting_teleop = true
in_order (engages operator) requesting_teleop = true
in_order (engages operator) returning_to_autonomy = true
in_order disengages teleop_active = true
in_order completes returning_to_autonomy = true
in_order (commands cmd) teleop_active = true
in_order stops state = true
in_order acknowledges HandoverState.emergency_stop = true
in_order feeds state = true
in_order _ _ = false

pub outcome_cases : (r : Outcome) → (r ≡ ok) ⊎ ((e : DomainError) × (r ≡ err e))
outcome_cases ok = inl refl
outcome_cases (err e) = inr (e, refl)

-- The state and the operator after a call that is in order and succeeds.
unfoldable pub next : Call → HandoverState → Option OperatorId → HandoverState × Option OperatorId
next (requests reason) state o = (requesting_teleop, o)
next cancels state o = (autonomous, o)
next (engages operator) state o = (teleop_active, some operator)
next disengages state o = (returning_to_autonomy, none)
next completes state o = (autonomous, o)
next (commands cmd) state o =
    if is_stop (mode cmd) then (HandoverState.emergency_stop, none) else (state, o)
next stops HandoverState.emergency_stop o = (HandoverState.emergency_stop, o)
next stops state o = (HandoverState.emergency_stop, none)
next acknowledges state o = (returning_to_autonomy, o)
next feeds state o = (state, o)

-- What a call returns: success, at the state and operator `to`, or an error, where they were.
abbrev pub Follows :
    {D L : Type 0}
    → HandoverState × Option OperatorId
    → HandoverState
    → Option OperatorId
    → Outcome × L × DomainSession D
    → Type 0
Follows to state o (outcome, link, s) =
    (outcome ≡ ok) × (s.state ≡ to.0) × (s.operator ≡ to.1)
    ⊎ (e : DomainError) × (outcome ≡ err e) × (s.state ≡ state) × (s.operator ≡ o)

-- The state and the operator after a call in order, by how it ended.
abbrev pub settled :
    Outcome
    → HandoverState × Option OperatorId
    → HandoverState × Option OperatorId
    → HandoverState × Option OperatorId
settled ok to from = to
settled (err e) to from = from

module _ {D S F L : Type 0} (domain : DomainTeleopInterface D S F) (link_ops : TeleopLink L) where
  -- One call: what it returns, the link and the session.
  unfoldable pub call : Call → L → DomainSession D → Outcome × L × DomainSession D
  call (requests reason) link s = request_assistance domain link_ops reason link s
  call cancels link s = let (r, s') = cancel_request domain s in (r, link, s')
  call (engages operator) link s = let (r, s') = engage domain operator s in (r, link, s')
  call disengages link s = let (r, s') = disengage domain s in (r, link, s')
  call completes link s = let (r, s') = complete_handover domain s in (r, link, s')
  call (commands cmd) link s = let (r, s') = command domain cmd s in (r, link, s')
  call stops link s = (ok, link, emergency_stop domain s)
  call acknowledges link s = let (r, s') = acknowledge_emergency_stop domain s in (r, link, s')
  call feeds link s = let (_, s') = sensor_feed domain s in (ok, link, s')

  unfoldable pub calls : List Call → L → DomainSession D → L × DomainSession D
  unfolding call
  calls [] link s = (link, s)
  calls (c ∷ cs) link s = let (_, link', s') = call c link s in calls cs link' s'

  -- What a call in order asks of the adapter or the link, once: the answer, and the two afterwards.
  unfoldable pub asked : Call → L → D → HandoverState → Outcome × L × D
  asked (requests reason) link a state =
      let (answer, link') = link_ops.request_teleop_assistance reason link in (answer, link', a)
  asked (engages operator) link a state =
      let (answer, a') = domain.on_teleop_engage operator a in (answer, link, a')
  asked disengages link a state =
      let (answer, a') = domain.on_teleop_disengage a in (answer, link, a')
  asked (commands cmd) link a state =
      let (answer, a') = domain.on_control_command cmd a in
      if is_stop (mode cmd) then (ok, link, domain.on_emergency_stop a) else (answer, link, a')
  asked stops link a HandoverState.emergency_stop = (ok, link, a)
  asked stops link a state = (ok, link, domain.on_emergency_stop a)
  asked feeds link a state = (ok, link, (domain.get_sensor_feed a).1)
  asked _ link a state = (ok, link, a)

  at_state : D → HandoverState → Option OperatorId → DomainSession D
  at_state a state o = record { adapter = a; state = state; operator = o }

  refused_at :
      (c : Call) (link : L) (a : D) (state : HandoverState) (o : Option OperatorId)
      → in_order c state ≡ false
      → (e : DomainError) × (call c link (at_state a state o) ≡ (err e, link, at_state a state o))
  unfolding call request_assistance cancel_request engage disengage complete_handover command
      acknowledge_emergency_stop check contains can_transition_to in_order at_state
  refused_at (requests reason) link a autonomous o e = absurd (ground arith)
  refused_at cancels link a requesting_teleop o e = absurd (ground arith)
  refused_at (engages operator) link a requesting_teleop o e = absurd (ground arith)
  refused_at (engages operator) link a returning_to_autonomy o e = absurd (ground arith)
  refused_at disengages link a teleop_active o e = absurd (ground arith)
  refused_at completes link a returning_to_autonomy o e = absurd (ground arith)
  refused_at (commands cmd) link a teleop_active o e = absurd (ground arith)
  refused_at stops link a state o e = absurd (ground arith)
  refused_at acknowledges link a HandoverState.emergency_stop o e = absurd (ground arith)
  refused_at feeds link a state o e = absurd (ground arith)
  refused_at _ link a _ o e = (_, refl)

  -- A call that is out of order for the session's state returns an error and reaches neither the
  -- adapter nor the link: nothing changes.
  pub out_of_order :
      (c : Call) (link : L) (s : DomainSession D)
      → in_order c s.state ≡ false
      → (e : DomainError) × (call c link s ≡ (err e, link, s))
  unfolding at_state
  out_of_order c link s e = refused_at c link s.adapter s.state s.operator e

  abbrev Answered : Call → L → D → HandoverState → Option OperatorId → Type 0
  Answered c link a state o =
      let (answer, link', a') = asked c link a state in
      let (state', o') = settled answer (next c state o) (state, o) in
      call c link (at_state a state o) ≡ (answer, link', at_state a' state' o')

  in_order_at :
      (c : Call) (link : L) (a : D) (state : HandoverState) (o : Option OperatorId)
      → in_order c state ≡ true
      → Answered c link a state o
  unfolding call request_assistance cancel_request engage disengage complete_handover command
      acknowledge_emergency_stop emergency_stop sensor_feed check contains can_transition_to
      in_order at_state next asked
  in_order_at (requests reason) link a autonomous o e =
      elim (outcome_cases (link_ops.request_teleop_assistance reason link).0) [
        | inl h ↦ rw h refl
        | inr (x, h) ↦ rw h refl
      ]
  in_order_at cancels link a requesting_teleop o e = refl
  in_order_at (engages operator) link a requesting_teleop o e =
      elim (outcome_cases (domain.on_teleop_engage operator a).0) [
        | inl h ↦ rw h refl
        | inr (x, h) ↦ rw h refl
      ]
  in_order_at (engages operator) link a returning_to_autonomy o e =
      elim (outcome_cases (domain.on_teleop_engage operator a).0) [
        | inl h ↦ rw h refl
        | inr (x, h) ↦ rw h refl
      ]
  in_order_at disengages link a teleop_active o e =
      elim (outcome_cases (domain.on_teleop_disengage a).0) [
        | inl h ↦ rw h refl
        | inr (x, h) ↦ rw h refl
      ]
  in_order_at completes link a returning_to_autonomy o e = refl
  in_order_at (commands cmd) link a teleop_active o e = elim (Bool-cases (is_stop (mode cmd))) [
    | inl stop ↦ rw stop refl
    | inr go ↦ elim (outcome_cases (domain.on_control_command cmd a).0) [
      | inl h ↦ rw (go, h) refl
      | inr (x, h) ↦ rw (go, h) refl
    ]
  ]
  in_order_at stops link a HandoverState.emergency_stop o e = refl
  in_order_at stops link a _ o e = refl
  in_order_at acknowledges link a HandoverState.emergency_stop o e = refl
  in_order_at feeds link a state o e = refl
  in_order_at _ link a _ o e = absurd (ground arith)

  -- A call that is in order asks the adapter or the link as `asked` says and returns the answer: when
  -- this is success, the session moves to the state and the operator of `next`, and otherwise it keeps
  -- both. So a call that asks no one, as to cancel or to complete, always succeeds.
  pub call-in_order :
      (c : Call) (link : L) (s : DomainSession D)
      → in_order c s.state ≡ true
      → let (answer, link', a') = asked c link s.adapter s.state in
        let (state', o') = settled answer (next c s.state s.operator) (s.state, s.operator) in
        call c link s ≡ (answer, link', record { adapter = a'; state = state'; operator = o' })
  unfolding at_state
  call-in_order c link s e = in_order_at c link s.adapter s.state s.operator e

  pub call-Follows :
      (c : Call) (link : L) (s : DomainSession D)
      → in_order c s.state ≡ true
      → Follows (next c s.state s.operator) s.state s.operator (call c link s)
  call-Follows c link s e = elim (outcome_cases (asked c link s.adapter s.state).0) [
    | inl h ↦ rw (call-in_order c link s e, h) (inl (refl, refl, refl))
    | inr (x, h) ↦ rw (call-in_order c link s e, h) (inr (x, refl, refl, refl))
  ]
