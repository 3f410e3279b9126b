-- ===== src/Core/Handover.antt =====
-- What the mode state machine promises over whole sequences of calls.
use tpt_teleop.Prelude.{
  ℕ, ◌≡◌, refl, arith, true, false, List, [], ◌∷◌, ◌++◌, subst, All, All-append, if◌then◌else◌,
  Bool-cases, inl, inr, ◌⊎◌, ◌∙◌,
}
use tpt_teleop.Core.Mode.{
  Mode, emergency_stop, as_u8, from_u8, Transition, disallowed, allows, spec_default,
}
use tpt_teleop.Core.Table.{Staged, spec_default_iff}
use tpt_teleop.Core.Machine.{
  StateMachine, ok, err, current, try_transition, force_emergency_stop, mode_of, is_stopped,
}

-- A mode that is stored reads back.
pub mode_of-as_u8 : (m : Mode) → mode_of (as_u8 m) ≡ m
unfolding mode_of from_u8
mode_of-as_u8 m = ground arith

-- A call on the machine, with the time that it reads.
pub data Call : Type 0 where
  request : Mode → ℕ → Call
  stop : ℕ → Call

unfoldable pub call : Call → StateMachine → StateMachine
call (request to now) sm = (try_transition to now sm).1
call (stop now) sm = (force_emergency_stop now sm).1

unfoldable pub calls : List Call → StateMachine → StateMachine
calls [] sm = sm
calls (c ∷ cs) sm = calls cs (call c sm)

-- A request is granted exactly when the table permits the edge from the current mode. Then the
-- mode is the requested one and the previous mode is returned; otherwise the machine is unchanged
-- and the error names the edge.
pub try_transition_lem :
    (to : Mode) (now : ℕ) (sm : StateMachine)
    → ((allows sm.rules (current sm) to ≡ true)
        × ((try_transition to now sm).0 ≡ ok (current sm))
        × (current (try_transition to now sm).1 ≡ to)
        × ((try_transition to now sm).1.rules ≡ sm.rules))
      ⊎ ((allows sm.rules (current sm) to ≡ false)
          × (try_transition to now sm ≡ (err (disallowed (current sm) to), sm)))
unfolding try_transition
try_transition_lem to now sm = elim (Bool-cases (allows sm.rules (current sm) to)) [
  | inl e ↦ inl (e, rw e refl, rw e (mode_of-as_u8 to), rw e refl)
  | inr e ↦ inr (e, rw e refl)
]

-- An emergency stop is never refused: it returns the mode that it interrupted and leaves the
-- machine stopped. A second one changes nothing.
pub force_emergency_stop_lem :
    (now again : ℕ) (sm : StateMachine)
    → ((force_emergency_stop now sm).0 ≡ current sm)
      × (current (force_emergency_stop now sm).1 ≡ emergency_stop)
      × ((force_emergency_stop again (force_emergency_stop now sm).1).1
          ≡ (force_emergency_stop now sm).1)
unfolding force_emergency_stop from_u8
force_emergency_stop_lem now again sm = ground arith

-- The transitions that a call commits.
unfoldable pub committed : Call → StateMachine → List Transition
committed (request to now) sm =
    if allows sm.rules (current sm) to
    then record { from = current sm; to = to; at_unix_ns = now } ∷ []
    else []
committed (stop now) sm =
    if is_stopped (current sm)
    then []
    else record { from = current sm; to = emergency_stop; at_unix_ns = now } ∷ []

-- All that a sequence of calls commits, oldest first.
unfoldable pub history : List Call → StateMachine → List Transition
history [] sm = []
history (c ∷ cs) sm = committed c sm ++ history cs (call c sm)

pub rules-call : (c : Call) (sm : StateMachine) → (call c sm).rules ≡ sm.rules
unfolding call try_transition force_emergency_stop
rules-call (request to now) sm = ground arith
rules-call (stop now) sm = ground arith

abbrev pub IsStaged : Transition → Type 0
IsStaged t = Staged t.from t.to

committed-IsStaged :
    (c : Call) (sm : StateMachine) → sm.rules ≡ spec_default → All IsStaged (committed c sm)
unfolding committed
committed-IsStaged (request to now) sm e = elim (Bool-cases (allows sm.rules (current sm) to)) [
  | inl y ↦
      rw y (
        (spec_default_iff (current sm) to).0 (subst (λ r. allows r (current sm) to ≡ true) e y),
        tt,
      )
  | inr n ↦ rw n tt
]
committed-IsStaged (stop now) sm e = elim (Bool-cases (is_stopped (current sm))) [
  | inl y ↦ rw y tt
  | inr n ↦ rw n (Staged.stop (current sm), tt)
]

-- Whatever calls are made under the default table, every transition committed is a staged
-- handover or an emergency stop.
pub history-IsStaged :
    (cs : List Call) (sm : StateMachine) → sm.rules ≡ spec_default → All IsStaged (history cs sm)
unfolding history
history-IsStaged [] sm e = tt
history-IsStaged (c ∷ cs) sm e =
    All-append IsStaged (committed c sm) (history cs (call c sm)) (committed-IsStaged c sm e)
      (history-IsStaged cs (call c sm) (rules-call c sm ∙ e))
