-- ===== src/Core/Machine.antt =====
-- crates/tpt-t-core/src/machine.rs: the mode state machine. A call here runs to its end before the
-- next one begins; `Race` is about calls that overlap. `now` is what `unix_ns_now` read.
use tpt_teleop.Prelude.{ℕ, Bool, none, some, List, ◌++◌, length, ◌==◌, if◌then◌else◌}
use tpt_teleop.Core.Mode.{
  Mode, auto, emergency_stop, as_u8, from_u8, Transition, ModeError, disallowed, TransitionTable,
  allows, spec_default,
}
use tpt_teleop.Ring.Spsc
use tpt_teleop.Ring.Spsc.{Spsc, with_capacity, drain}

pub record StateMachine : Type 0 where
  pub current : ℕ
  pub rules : TransitionTable
  pub events : Spsc Transition

-- `Result<Mode, ModeError>`
pub data Outcome : Type 0 where
  ok : Mode → Outcome
  err : ModeError → Outcome

abbrev pub default_event_ring : ℕ
default_event_ring = 64

unfoldable pub with_event_ring : ℕ → StateMachine
with_event_ring event_capacity = record {
  current = as_u8 auto;
  rules = spec_default;
  events = with_capacity event_capacity;
}

unfoldable pub new : StateMachine
unfolding with_event_ring
new = with_event_ring default_event_ring

-- An unknown byte reads as an emergency stop.
unfoldable pub mode_of : ℕ → Mode
mode_of v = elim (from_u8 v) [ some m ↦ m | none ↦ emergency_stop ]

unfoldable pub current : StateMachine → Mode
unfolding mode_of
current sm = mode_of sm.current

-- The mode is stored first. The result of the push is dropped: events are best effort.
unfoldable pub commit : Mode → Mode → ℕ → StateMachine → StateMachine
commit from to now sm = record sm {
  current = as_u8 to;
  events = (Spsc.push sm.events (record { from = from; to = to; at_unix_ns = now })).1;
}

unfoldable pub try_transition : Mode → ℕ → StateMachine → Outcome × StateMachine
unfolding current commit
try_transition to now sm =
    let from = current sm in
    if allows sm.rules from to
    then (ok from, commit from to now sm)
    else (err (disallowed from to), sm)

unfoldable pub is_stopped : Mode → Bool
is_stopped m = as_u8 m == as_u8 emergency_stop

unfoldable pub force_emergency_stop : ℕ → StateMachine → Mode × StateMachine
unfolding current commit is_stopped
force_emergency_stop now sm =
    let from = current sm in
    if is_stopped from then (from, sm) else (from, commit from emergency_stop now sm)

-- The transitions appended to `out`, in order, and how many; `fuel` bounds the loop's rounds.
unfoldable pub take_transitions :
    ℕ → StateMachine → List Transition → List Transition × ℕ × StateMachine
take_transitions fuel sm out =
    let (ts, events, done) = drain fuel sm.events in
    (out ++ ts, length ts, record sm { events = events })
