-- ===== src/Core/Latch.antt =====
-- How the modes of the state machine can follow one another over a sequence of calls.
use tpt_teleop.Prelude.{ℕ, ◌≡◌, ◌≢◌, refl, ◌∙◌, ap, subst, true, List, [], ◌∷◌, All, inl, inr, ◌⊎◌}
use tpt_teleop.Core.Mode.{Mode, auto, assist, emergency_stop, allows, spec_default}
use tpt_teleop.Core.Table.{
  Staged, engage, release, take_over, hand_back, acknowledge, spec_default_iff,
}
use tpt_teleop.Core.Machine.{StateMachine, current}
use tpt_teleop.Core.Handover.{
  Call, request, stop, call, calls, rules-call, try_transition_lem, force_emergency_stop_lem,
}

-- A call leaves the mode alone, or takes a staged edge that it asked for.
data Moves (sm : StateMachine) : Call → Type 0 where
  stays : {c : Call} → current (call c sm) ≡ current sm → Moves sm c
  goes :
      (to : Mode) (now : ℕ)
      → Staged (current sm) to
      → current (call (request to now) sm) ≡ to
      → Moves sm (request to now)
  stops : (now : ℕ) → current (call (stop now) sm) ≡ emergency_stop → Moves sm (stop now)

moves : (c : Call) (sm : StateMachine) → sm.rules ≡ spec_default → Moves sm c
unfolding call
moves (request to now) sm e = elim (try_transition_lem to now sm) [
  | inl (y, _, at, _) ↦
      goes to now
        ((spec_default_iff (current sm) to).0 (subst (λ r. allows r (current sm) to ≡ true) e y)) at
  | inr (n, same) ↦ stays (ap (λ p. current p.1) same)
]
moves (stop now) sm e = stops now (force_emergency_stop_lem now now sm).1

-- The call is no request for the assist mode, which is how an operator acknowledges a stop.
abbrev pub NotAssist : Call → Type 0
NotAssist (request to now) = to ≢ assist
NotAssist (stop now) = Unit

abbrev pub IsParked : Mode → Type 0
IsParked m = (m ≡ auto) ⊎ (m ≡ emergency_stop)

-- From a stopped machine only an assist request leads on.
stopped-call :
    (c : Call) (sm : StateMachine)
    → sm.rules ≡ spec_default
    → NotAssist c
    → current sm ≡ emergency_stop
    → current (call c sm) ≡ emergency_stop
stopped-call c sm e na h = go c (moves c sm e) na
  where
    leaves : (m to : Mode) → Staged m to → m ≡ emergency_stop → to ≢ assist → to ≡ emergency_stop
    leaves m to engage p q = cc
    leaves m to release p q = cc
    leaves m to take_over p q = cc
    leaves m to hand_back p q = cc
    leaves m to (Staged.stop m') p q = refl
    leaves m to acknowledge p q = absurd (q refl)

    go : (c : Call) → Moves sm c → NotAssist c → current (call c sm) ≡ emergency_stop
    go c (stays s) na = s ∙ h
    go c (goes to now st at) na = at ∙ leaves (current sm) to st h na
    go c (stops now at) na = at

-- A stopped machine stays stopped under any calls among which no one requests the assist mode.
pub emergency_stop_latches :
    (cs : List Call) (sm : StateMachine)
    → sm.rules ≡ spec_default
    → All NotAssist cs
    → current sm ≡ emergency_stop
    → current (calls cs sm) ≡ emergency_stop
unfolding calls
emergency_stop_latches [] sm e na h = h
emergency_stop_latches (c ∷ cs) sm e na h =
    emergency_stop_latches cs (call c sm) (rules-call c sm ∙ e) na.1 (stopped-call c sm e na.0 h)
