-- ===== src/Safety/Loop/Calls.antt =====
-- The calls of the safety loop of crates/tpt-t-safety/src/loop_.rs, and what other threads do with its
-- rings and its machine.
use tpt_teleop.Prelude.{ℕ, Option, none, some, List, [], ◌∷◌, ◌++◌}
use tpt_teleop.Ring.Spsc.{Spsc, Popped, got, empty, uninit, drain}
use tpt_teleop.Ring.Spsc
use tpt_teleop.Core.Mode.{Mode}
use tpt_teleop.Core.Machine.{StateMachine}
use tpt_teleop.Core.Ser.{ControlCommand}
use tpt_teleop.Safety.Floats.{Floats}
use tpt_teleop.Safety.Geo.{Pose6D}
use tpt_teleop.Safety.Loop.{
  SafetyLoop, set_pose, set_autonomy_baseline, request_mode, emergency_stop, engage_ai_veto,
  disengage_ai_veto,
}
use tpt_teleop.Safety.Loop.Tick.{process_one}

-- The calls of the loop; the push at the far end of the input and the pop at that of the output; and
-- any change of the machine by its other owners.
pub data Call : Type 0 where
  poses : Pose6D → Call
  plans : ControlCommand → Call
  requests : ℕ → Mode → Call
  stops : ℕ → Call
  restricts : ℕ → Call
  releases : Call
  ticks : ℕ → ℕ → ℕ → Call
  arrives : ControlCommand → Call
  takes : Call
  moves : StateMachine → Call

-- What a pop gives to the consumer.
unfoldable pub taken_of : Popped ControlCommand → List ControlCommand
taken_of (got c) = c ∷ []
taken_of _ = []

module _ (fl : Floats) where
  -- What the consumer gets, and the loop afterwards; `none` is a panic.
  unfoldable pub call : Call → SafetyLoop → Option (List ControlCommand × SafetyLoop)
  unfolding set_pose set_autonomy_baseline request_mode emergency_stop engage_ai_veto
      disengage_ai_veto process_one taken_of
  call (poses p) s = some ([], set_pose fl p s)
  call (plans cmd) s = some ([], set_autonomy_baseline cmd s)
  call (requests clock mode) s = some ([], (request_mode fl clock mode s).1)
  call (stops clock) s = some ([], emergency_stop clock s)
  call (restricts norm) s = some ([], engage_ai_veto fl norm s)
  call releases s = some ([], disengage_ai_veto s)
  call (ticks now clock elapsed) s = elim (process_one fl now clock elapsed s) [
    | none ↦ none
    | some (_, s') ↦ some ([], s')
  ]
  call (arrives cmd) s = some ([], record s { input = (Spsc.push s.input cmd).1 })
  call takes s =
      let (res, output) = Spsc.pop s.output in some (taken_of res, record s { output = output })
  call (moves machine) s = some ([], record s { machine = machine })

  unfoldable pub run : List Call → SafetyLoop → Option (List ControlCommand × SafetyLoop)
  unfolding call
  run [] s = some ([], s)
  run (c ∷ cs) s = elim (call c s) [
    | none ↦ none
    | some (taken, s') ↦ elim (run cs s') [
      | none ↦ none
      | some (later, s'') ↦ some (taken ++ later, s'')
    ]
  ]
