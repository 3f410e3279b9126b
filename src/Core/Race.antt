-- ===== src/Core/Race.antt =====
-- crates/tpt-t-core/src/machine.rs: a transition request that overlaps with an emergency stop. The
-- methods take `&self` and load the mode before they store it, so a stop of another thread can come
-- between the two accesses of a request.
use tpt_teleop.Prelude.{
  ℕ, ◌≡◌, ◌≢◌, ◌∙◌, refl, ap, subst, arith, true, inl, inr, Bool-cases, if◌then◌else◌,
}
use tpt_teleop.Core.Mode.{Mode, assist, emergency_stop, disallowed, allows, spec_default}
use tpt_teleop.Core.Table.{Staged, spec_default_iff}
use tpt_teleop.Core.Machine.{
  StateMachine, Outcome, ok, err, mode_of, current, commit, try_transition, force_emergency_stop,
}
use tpt_teleop.Core.Handover.{mode_of-as_u8, try_transition_lem, force_emergency_stop_lem}

-- The load and the test of `try_transition`: the mode to leave, or the error.
unfoldable pub load : Mode → StateMachine → Outcome
load to sm =
    let from = current sm in if allows sm.rules from to then ok from else err (disallowed from to)

-- The rest of `try_transition`, from what was loaded: its `commit`, if the test passed.
unfoldable pub store : Outcome → Mode → ℕ → StateMachine → Outcome × StateMachine
unfolding commit
store (ok from) to now sm = (ok from, commit from to now sm)
store (err e) to now sm = (err e, sm)

-- With nothing in between, the two are the method.
pub store-load :
    (to : Mode) (now : ℕ) (sm : StateMachine)
    → store (load to sm) to now sm ≡ try_transition to now sm
unfolding load store try_transition
store-load to now sm = elim (Bool-cases (allows sm.rules (current sm) to)) [
  | inl y ↦ rw y refl
  | inr n ↦ rw n refl
]

rules_kept : (at : ℕ) (sm : StateMachine) → (force_emergency_stop at sm).1.rules ≡ sm.rules
unfolding force_emergency_stop commit
rules_kept at sm = ground arith

stop_is_final :
    (from to : Mode)
    → from ≡ emergency_stop
    → Staged from to
    → to ≢ assist
    → to ≢ emergency_stop
    → ⊥
stop_is_final _ _ e Staged.engage a b = absurd (cc e)
stop_is_final _ _ e Staged.release a b = absurd (cc e)
stop_is_final _ _ e Staged.take_over a b = absurd (cc e)
stop_is_final _ _ e Staged.hand_back a b = absurd (cc e)
stop_is_final _ _ e (Staged.stop m) a b = b refl
stop_is_final _ _ e Staged.acknowledge a b = a refl

-- A stopped machine refuses such a request.
refused_after_stop :
    (to : Mode) (now : ℕ) (sm : StateMachine)
    → sm.rules ≡ spec_default
    → current sm ≡ emergency_stop
    → to ≢ assist
    → to ≢ emergency_stop
    → current (try_transition to now sm).1 ≡ emergency_stop
refused_after_stop to now sm rules at a b = elim (try_transition_lem to now sm) [
  | inl (permitted, _, _, _) ↦ absurd (
      stop_is_final (current sm) to at
        ((spec_default_iff (current sm) to).0
          (subst (λ r. allows r (current sm) to ≡ true) rules permitted))
        a b)
  | inr (_, same) ↦ ap (λ r. current r.1) same ∙ at
]

-- Under the default table, take a permitted request for a mode other than assist and the stop. In
-- either order of the two calls the machine ends stopped. But when the stop comes between the load and
-- the store of the request, the request is answered as granted and the machine ends in the requested
-- mode, with no acknowledgement: the stop is lost.
pub emergency_stop_lost :
    (to : Mode) (now at : ℕ) (sm : StateMachine)
    → sm.rules ≡ spec_default
    → allows sm.rules (current sm) to ≡ true
    → to ≢ assist
    → to ≢ emergency_stop
    → let stopped = (force_emergency_stop at sm).1 in
      (current (force_emergency_stop at (try_transition to now sm).1).1 ≡ emergency_stop)
      × (current (try_transition to now stopped).1 ≡ emergency_stop)
      × (store (load to sm) to now sm ≡ try_transition to now sm)
      × ((store (load to sm) to now stopped).0 ≡ ok (current sm))
      × (current (store (load to sm) to now stopped).1 ≡ to)
unfolding load store commit current mode_of
emergency_stop_lost to now at sm rules h a b =
    let stopped = (force_emergency_stop at sm).1 in
    let (_, stops, _) = force_emergency_stop_lem at at sm in
    let (_, later, _) = force_emergency_stop_lem at at (try_transition to now sm).1 in
    let kept : stopped.rules ≡ spec_default = rules_kept at sm ∙ rules in
    (
      later,
      refused_after_stop to now stopped kept stops a b,
      store-load to now sm,
      rw h refl,
      rw h (mode_of-as_u8 to),
    )
