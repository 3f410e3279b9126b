-- ===== src/Safety/Tests.antt =====
-- The safety loop of crates/tpt-t-safety/src on concrete commands, with floating-point operations that
-- order the words as IEEE 754 does and keep the first argument of the arithmetic.
use tpt_teleop.Prelude.{
  ℕ, arith, ◌+◌, ◌-◌, ◌≡◌, refl, true, false, some, List, [], ◌∷◌, ltb, leb, ◌==◌, if◌then◌else◌,
}
use tpt_teleop.Ring.Spsc.{Spsc, with_capacity, drain}
use tpt_teleop.Ring.Spsc
use tpt_teleop.Ring.Refine.{Holds, push-Holds}
use tpt_teleop.Ring.Bounded.{enqueue}
use tpt_teleop.Ring.Runs.{with_capacity_lem}
use tpt_teleop.Prelude.PowTwo.{log2_ceil}
use tpt_teleop.Core.Mode.{full_teleop, assist}
use tpt_teleop.Core.Machine.{StateMachine, force_emergency_stop}
use tpt_teleop.Core.Machine
use tpt_teleop.Core.Ser.{ControlCommand, zeroed}
use tpt_teleop.Safety.Floats.{FloatOps, Floats, neg, sign_bit, one, half, hundredth}
use tpt_teleop.Safety.Geo.{Pose6D, hard_breach, evaluate}
use tpt_teleop.Safety.Loop.{SafetyConfig, SafetyLoop, new, set_pose, emergency_stop}
use tpt_teleop.Safety.Loop.Tick.{process_one, is_overshoot, descend_pin_throttle}
use tpt_teleop.Safety.Loop.Latch.{IsSafe, CanClamp}
use tpt_teleop.Safety.Loop.Calls.{Call, poses, requests, ticks, arrives, takes, run}
use tpt_teleop.Safety.Loop.Silence.{silent_run}
use tpt_teleop.Safety.Loop.Estop.{StaysSafe, safe_after_stop}
use tpt_teleop.Safety.Loop.Brake.{IsBelow, IsBound, throttle-IsBelow}
use tpt_teleop.Safety.Veto.{VetoGate, cap, apply}
use tpt_teleop.Safety.Veto.Restricts.{Restricted, OrderLaw, apply-Restricted}
use tpt_teleop.Safety.Loop.Intake.{process_one_breach}

-- Words by the order of their numbers.
abbrev key : ℕ → ℕ
key x = if ltb x sign_bit then x + sign_bit else sign_bit + sign_bit - x

abbrev toy_32 : FloatOps
toy_32 = record {
  add = λ a b. a;
  sub = λ a b. a;
  mul = λ a b. a;
  div = λ a b. a;
  lt = λ a b. ltb (key a) (key b);
  le = λ a b. leb (key a) (key b);
  eq = λ a b. a == b;
  of_u64 = λ n. n;
}

abbrev toy_64 : FloatOps
toy_64 = record toy_32 { lt = λ a b. ltb a b; le = λ a b. leb a b }

abbrev toy : Floats
toy = record { f32 = toy_32; f64 = toy_64; hypot = λ a b. a; widen = λ x. x; narrow = λ x. x }

abbrev config : SafetyConfig
config = record {
  fence = record {
    center_east_m = 0;
    center_north_m = 0;
    radius_m = 100;
    min_alt_m = 0;
    max_alt_m = 120;
  };
  limits = record {
    max_tilt_norm = half;
    max_yaw_norm = half;
    max_lateral_norm = one;
    max_axis_step = hundredth;
    max_throttle_step = hundredth;
  };
  transition_s = one;
  tick_period_us = 5000;
  max_latency_ns = 50000000;
}

abbrev fresh : SafetyLoop
fresh = new toy (with_capacity 2) (with_capacity 2) Machine.new config

abbrev full_stick : ControlCommand
full_stick = record (zeroed full_teleop) { seq = 7; axes = one ∷ one ∷ one ∷ one ∷ one ∷ one ∷ [] }

abbrev outside : Pose6D
outside = record { x = 500; y = 0; z = 200; yaw = 0; pitch = 0; roll = 0 }

-- A loop whose operator has sent two commands, with the vehicle outside the fence.
abbrev breached : SafetyLoop
breached =
    let s = set_pose toy outside fresh in
    record s { input = (Spsc.push (Spsc.push s.input full_stick).1 full_stick).1 }

can_clamp : CanClamp toy config.limits
unfolding CanClamp neg
can_clamp = (refl, refl, refl, refl, refl)

empty_ring-Holds : Holds (log2_ceil 2) (with_capacity {A = ControlCommand} 2) []
empty_ring-Holds = (with_capacity_lem 2 (omega arith)).0

one_command-Holds : Holds (log2_ceil 2) (Spsc.push (with_capacity 2) full_stick).1 (full_stick ∷ [])
unfolding enqueue log2_ceil
one_command-Holds = (push-Holds full_stick empty_ring-Holds).1

two_commands-Holds : Holds (log2_ceil 2) breached.input (full_stick ∷ full_stick ∷ [])
unfolding enqueue log2_ceil set_pose new
two_commands-Holds = (push-Holds full_stick one_command-Holds).1

-- Stopped, with a command of before in the output.
abbrev stopped : SafetyLoop
stopped = record (emergency_stop 1 fresh) { output = (Spsc.push (with_capacity 2) full_stick).1 }

abbrev after_stop : List Call
after_stop =
    arrives full_stick
    ∷ takes
    ∷ ticks 20 20 5
    ∷ requests 30 assist
    ∷ takes
    ∷ arrives full_stick
    ∷ ticks 40 40 5
    ∷ takes
    ∷ []

safe_after_stop_example :
    StaysSafe toy (log2_ceil 2) stopped (full_stick ∷ []) (run toy after_stop stopped)
unfolding emergency_stop new
safe_after_stop_example =
    safe_after_stop toy (log2_ceil 2) after_stop stopped (full_stick ∷ []) can_clamp refl
      one_command-Holds

past_fence : evaluate toy breached.cfg.fence breached.pose ≡ hard_breach
unfolding evaluate set_pose new
past_fence = refl

process_one_breach_example :
    (s' : SafetyLoop) × (process_one toy 20 20 5 breached
      ≡ some (record { drained = 2; intercepted_ns = 5 }, s'))
    × Holds (log2_ceil 2) s'.input []
    × (s'.estop_latched ≡ true)
    × IsSafe s'.last_out
    × (s'.output ≡ (Spsc.push breached.output s'.last_out).1)
    × (breached.estop_latched ≡ false → s'.machine ≡ (force_emergency_stop 20 breached.machine).1)
unfolding set_pose new
process_one_breach_example =
    process_one_breach toy (log2_ceil 2) 20 20 5 breached (full_stick ∷ []) full_stick can_clamp
      past_fence two_commands-Holds

pin-IsBound : IsBound toy descend_pin_throttle
unfolding IsBound
pin-IsBound = (refl, refl)

half-IsBound : IsBound toy half
unfolding IsBound
half-IsBound = (refl, refl)

throttle-IsBelow_example :
    (s' : SafetyLoop) × (process_one toy 20 20 5 breached
      ≡ some (record { drained = 2; intercepted_ns = 5 }, s'))
    × (s'.output ≡ (Spsc.push breached.output s'.last_out).1)
    × (s'.brake_latched ≡ true → IsBelow toy descend_pin_throttle s'.last_out)
    × (is_overshoot toy breached ≡ true → IsBelow toy half s'.last_out)
unfolding set_pose new
throttle-IsBelow_example =
    throttle-IsBelow toy (log2_ceil 2) 20 20 5 breached (full_stick ∷ []) full_stick can_clamp
      pin-IsBound half-IsBound two_commands-Holds

toy-OrderLaw : OrderLaw toy_32
unfolding OrderLaw
toy-OrderLaw a b e = (ground arith, ground arith)

abbrev vetoed : VetoGate
vetoed = record { active = true; cap_bits = descend_pin_throttle }

apply-Restricted_example :
    (r' : ℕ) × (p' : ℕ) × (x' : ℕ) × (w' : ℕ) × ((apply toy_32 vetoed full_stick).1
      ≡ record full_stick { axes = r' ∷ p' ∷ one ∷ one ∷ x' ∷ w' ∷ [] })
    × Restricted toy_32 (cap toy_32 vetoed) one r'
    × Restricted toy_32 (cap toy_32 vetoed) one p'
    × Restricted toy_32 (cap toy_32 vetoed) one x'
    × Restricted toy_32 (cap toy_32 vetoed) one w'
apply-Restricted_example =
    apply-Restricted toy_32 vetoed full_stick one one one one one one toy-OrderLaw refl refl

-- The vehicle leaves the fence while the operator is silent.
abbrev leaving : List Call
leaving = poses outside ∷ ticks 20 20 5 ∷ ticks 30 30 5 ∷ []

silent_run_example :
    (s' : SafetyLoop) × (run toy leaving fresh ≡ some ([], s'))
    × (s'.estop_latched ≡ false)
    × (s'.machine ≡ Machine.new)
    × (s'.output ≡ with_capacity 2)
    × (s'.pose ≡ outside)
unfolding new
silent_run_example =
    silent_run toy (log2_ceil 2) leaving fresh (tt, (tt, (tt, tt))) empty_ring-Holds
