-- ===== src/Safety/Loop.antt =====
-- crates/tpt-t-safety/src/loop_.rs: the safety loop, from the input ring to the output ring. `clock` is
-- what the machine's clock reads when a transition is made, `elapsed` how long the stages took.
use tpt_teleop.Prelude.{
  ℕ, suc, Bool, true, false, not, ◌&&◌, Option, none, some, List, [], ◌∷◌, get_or, set, length,
  if◌then◌else◌,
}
use tpt_teleop.Prelude.Words.{wrapping_add_64}
use tpt_teleop.Ring.Spsc.{Spsc, Pushed, accepted, refused, drain}
use tpt_teleop.Ring.Spsc
use tpt_teleop.Core.Mode.{Mode, auto, ModeError}
use tpt_teleop.Core.Machine.{
  StateMachine, Outcome, ok, err, current, try_transition, force_emergency_stop,
}
use tpt_teleop.Core.Ser.{ControlCommand, zeroed}
use tpt_teleop.Safety.Floats.{Floats, abs, one, half, millionth, million}
use tpt_teleop.Safety.Wide
use tpt_teleop.Safety.Veto.{VetoGate, default_gate}
use tpt_teleop.Safety.Veto
use tpt_teleop.Safety.Latency.{LatencyCompensator, new_latency, observe, compensate}
use tpt_teleop.Safety.Spline.{AuthorityBlend, authority_target, new_blend, advance}
use tpt_teleop.Safety.Geo.{
  Pose6D, default_pose, GeoFence, FenceVerdict, inside, soft_warn, hard_breach, evaluate, is_hard,
  clamp_command, throttle,
}
use tpt_teleop.Safety.Limits.{KinematicLimits, write_emergency_stop, apply_limits}
pub mod Tick
pub mod Latch
pub mod Calls
pub mod Estop
pub mod Intake
pub mod Brake
pub mod Silence

pub record SafetyConfig : Type 0 where
  pub fence : GeoFence
  pub limits : KinematicLimits
  pub transition_s : ℕ
  pub tick_period_us : ℕ
  pub max_latency_ns : ℕ

pub record InterceptStats : Type 0 where
  pub drained : ℕ
  pub intercepted_ns : ℕ

pub record SafetyLoop : Type 0 where
  pub input : Spsc ControlCommand
  pub output : Spsc ControlCommand
  pub machine : StateMachine
  pub cfg : SafetyConfig
  pub authority : ℕ
  pub blend : Option AuthorityBlend
  pub latency : LatencyCompensator
  pub baseline : ControlCommand
  pub last_out : ControlCommand
  pub pose : Pose6D
  pub estop_latched : Bool
  pub dropped_out : ℕ
  pub veto : VetoGate
  pub prev_z : ℕ
  pub have_prev_z : Bool
  pub vz_est : ℕ
  pub brake_latched : Bool

unfoldable pub set_autonomy_baseline : ControlCommand → SafetyLoop → SafetyLoop
set_autonomy_baseline cmd s = record s { baseline = cmd }

unfoldable pub emergency_stop : ℕ → SafetyLoop → SafetyLoop
emergency_stop clock s = record s {
  estop_latched = true;
  machine = (force_emergency_stop clock s.machine).1;
}

unfoldable pub disengage_ai_veto : SafetyLoop → SafetyLoop
unfolding Veto.disengage
disengage_ai_veto s = record s { veto = Veto.disengage s.veto }

module _ (fl : Floats) where
  unfoldable pub new :
      Spsc ControlCommand → Spsc ControlCommand → StateMachine → SafetyConfig → SafetyLoop
  unfolding current authority_target new_latency zeroed default_pose default_gate
  new input output machine cfg = record {
    input = input;
    output = output;
    machine = machine;
    cfg = cfg;
    authority = authority_target (current machine);
    blend = none;
    latency = new_latency fl Wide.fifth cfg.max_latency_ns;
    baseline = zeroed auto;
    last_out = zeroed (current machine);
    pose = default_pose;
    estop_latched = false;
    dropped_out = 0;
    veto = default_gate;
    prev_z = 0;
    have_prev_z = false;
    vz_est = 0;
    brake_latched = false;
  }

  unfoldable pub engage_ai_veto : ℕ → SafetyLoop → SafetyLoop
  unfolding Veto.engage
  engage_ai_veto norm s = record s { veto = Veto.engage fl.f32 norm s.veto }

  unfoldable pub set_pose : Pose6D → SafetyLoop → SafetyLoop
  set_pose pose s =
      let dt_s = fl.f64.div (fl.f64.of_u64 s.cfg.tick_period_us) Wide.million in
      record s {
        vz_est =
            if s.have_prev_z && fl.f64.lt 0 dt_s
            then fl.f64.div (fl.f64.sub pose.z s.prev_z) dt_s
            else s.vz_est;
        prev_z = pose.z;
        have_prev_z = true;
        pose = pose;
      }

  -- `Ok(())` gives the mode that was left, which the caller does not see.
  unfoldable pub request_mode : ℕ → Mode → SafetyLoop → Outcome × SafetyLoop
  unfolding try_transition authority_target new_blend abs
  request_mode clock mode s =
      let (res, machine) = try_transition mode clock s.machine in
      let to = authority_target mode in
      elim res [
        | err e ↦ (err e, record s { machine = machine })
        | ok from ↦ (
          ok from,
          record s {
            machine = machine;
            blend =
                if fl.f32.lt millionth (abs (fl.f32.sub to s.authority))
                then some (new_blend fl s.authority to s.cfg.transition_s)
                else s.blend;
          },
        )
      ]

  unfoldable pub advance_blend : SafetyLoop → SafetyLoop
  unfolding advance
  advance_blend s = elim s.blend [
    | none ↦ s
    | some b ↦
        let (authority, b') =
          advance fl (fl.f32.div (fl.f32.of_u64 s.cfg.tick_period_us) million) b in
        record s { authority = authority; blend = some b' }
  ]
