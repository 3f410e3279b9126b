-- ===== src/Core/Tests.antt =====
-- Runs of the modes, the state machine and the bus of crates/tpt-t-core/src on small inputs.
use tpt_teleop.Prelude.{
  ℕ, ◌⊎◌, ◌^◌, ◌≡◌, refl, arith, none, some, List, [], ◌∷◌, length, take, map, All,
}
use tpt_teleop.Prelude.PowTwo.{log2_ceil}
use tpt_teleop.Ring.Spsc.{Spsc}
use tpt_teleop.Ring.Bounded.{enqueue}
use tpt_teleop.Ring.Refine.{Holds}
use tpt_teleop.Ring.Runs.{with_capacity_lem}
use tpt_teleop.Core.Mode.{auto, assist, full_teleop, emergency_stop, from_u8, allows, spec_default}
use tpt_teleop.Core.Table.{IsSquare, Staged}
use tpt_teleop.Core.Machine.{
  StateMachine, ok, with_event_ring, current, try_transition, force_emergency_stop,
  take_transitions,
}
use tpt_teleop.Core.Handover.{Call, request, stop, call, calls, committed, history, IsStaged}
use tpt_teleop.Core.Latch.{emergency_stop_latches}
use tpt_teleop.Core.Events.{take_transitions_lem, calls-IsStaged}
use tpt_teleop.Core.Race.{load, store, emergency_stop_lost}
use tpt_teleop.Core.Bus.{MessageBus, publish}
use tpt_teleop.Core.Fanout.{HoldsEach, nil, cons, room_in, publish_lem}

spec_default-IsSquare : IsSquare spec_default
unfolding spec_default
spec_default-IsSquare = record { rows = refl; columns = λ m. ground arith }

abbrev machine : StateMachine
machine = with_event_ring 2

machine_events-Holds : Holds (log2_ceil 2) machine.events []
unfolding with_event_ring
machine_events-Holds = (with_capacity_lem 2 (omega arith)).0

abbrev shift : List Call
shift = request full_teleop 10 ∷ request assist 20 ∷ request full_teleop 30 ∷ stop 40 ∷ stop 50 ∷ []

staged_shift :
    (current (calls shift machine) ≡ emergency_stop)
    × (history shift machine
        ≡ record { from = auto; to = assist; at_unix_ns = 20 }
          ∷ record { from = assist; to = full_teleop; at_unix_ns = 30 }
          ∷ record { from = full_teleop; to = emergency_stop; at_unix_ns = 40 }
          ∷ [])
unfolding history committed calls call try_transition force_emergency_stop with_event_ring allows
    spec_default from_u8
staged_shift = (refl, refl)

calls-IsStaged_example :
    let before = calls shift machine in
    ((current (call (request assist 60) before) ≡ current before)
      ⊎ Staged (current before) (current (call (request assist 60) before)))
    × All IsStaged (take_transitions 3 before []).0
unfolding with_event_ring
calls-IsStaged_example =
    calls-IsStaged (log2_ceil 2) shift (request assist 60) machine 3 refl machine_events-Holds
      (unfold log2_ceil in omega arith)

emergency_stop_latches_example :
    current (calls (request full_teleop 60 ∷ stop 70 ∷ request auto 80 ∷ []) (calls shift machine))
    ≡ emergency_stop
unfolding spec_default from_u8 allows
emergency_stop_latches_example =
    emergency_stop_latches (request full_teleop 60 ∷ stop 70 ∷ request auto 80 ∷ [])
      (calls shift machine)
      (unfold calls call try_transition force_emergency_stop with_event_ring in refl)
      ((λ e. cc), (tt, ((λ e. cc), tt))) staged_shift.0

-- The log has two slots, so the stop of this shift is not in it.
take_transitions_example :
    let first = take (2 ^ log2_ceil 2) (history shift machine) in
    let (drained, n, after) = take_transitions 3 (calls shift machine) [] in
    (drained ≡ first) × (n ≡ length first) × Holds (log2_ceil 2) after.events []
take_transitions_example =
    take_transitions_lem (log2_ceil 2) shift machine [] 3 machine_events-Holds
      (unfold log2_ceil in omega arith)

-- A machine in the assist mode: the request for full control is loaded, the stop comes, and the
-- request's store undoes it.
abbrev assisting : StateMachine
assisting = calls (request assist 20 ∷ []) machine

emergency_stop_lost_example :
    let stopped = (force_emergency_stop 40 assisting).1 in
    (current (force_emergency_stop 40 (try_transition full_teleop 30 assisting).1).1
      ≡ emergency_stop)
    × (current (try_transition full_teleop 30 stopped).1 ≡ emergency_stop)
    × (store (load full_teleop assisting) full_teleop 30 assisting
        ≡ try_transition full_teleop 30 assisting)
    × ((store (load full_teleop assisting) full_teleop 30 stopped).0 ≡ ok (current assisting))
    × (current (store (load full_teleop assisting) full_teleop 30 stopped).1 ≡ full_teleop)
emergency_stop_lost_example =
    emergency_stop_lost full_teleop 30 40 assisting
      (unfold calls call try_transition with_event_ring allows spec_default from_u8 in refl)
      (unfold calls call try_transition with_event_ring allows spec_default from_u8 in refl)
      (λ e. cc) (λ e. cc)

-- One subscriber has a free slot and the other has none.
abbrev roomy : Spsc ℕ
roomy = record { slots = some 5 ∷ none ∷ []; head = 0; tail = 1; cap = 2 }

abbrev crowded : Spsc ℕ
crowded = record { slots = some 7 ∷ some 6 ∷ []; head = 1; tail = 3; cap = 2 }

abbrev bus : MessageBus ℕ
bus = record { subscribers = roomy ∷ crowded ∷ []; per_subscriber_capacity = 2 }

abbrev queues : List (List ℕ)
queues = (5 ∷ []) ∷ (6 ∷ 7 ∷ []) ∷ []

roomy-Holds : Holds 1 roomy (5 ∷ [])
roomy-Holds = record {
  word = omega arith;
  cap = refl;
  slots = refl;
  head = omega arith;
  tail = refl;
  fits = omega arith;
  window = (refl, tt);
}

crowded-Holds : Holds 1 crowded (6 ∷ 7 ∷ [])
crowded-Holds = record {
  word = omega arith;
  cap = refl;
  slots = refl;
  head = omega arith;
  tail = refl;
  fits = omega arith;
  window = (refl, (refl, tt));
}

bus-HoldsEach : HoldsEach 1 bus.subscribers queues
bus-HoldsEach = cons roomy-Holds (cons crowded-Holds nil)

publish_example :
    ((publish 4 bus).0 ≡ room_in (2 ^ 1) queues)
    × HoldsEach 1 (publish 4 bus).1.subscribers (map (λ q. (enqueue (2 ^ 1) q 4).1) queues)
publish_example = publish_lem 1 4 bus queues bus-HoldsEach
