-- ===== src/Safety/Limits.antt =====
-- crates/tpt-t-safety/src/limits.rs: the kinematic limits and the safe state.
use tpt_teleop.Prelude.{ℕ, Bool, false, not, ◌||◌, Option, none, some, List, [], ◌∷◌, get_or, set}
use tpt_teleop.Core.Mode.{emergency_stop}
use tpt_teleop.Core.Ser.{ControlCommand, zeroed}
use tpt_teleop.Safety.Floats.{Floats, neg, clamp, clamp_checked, one}
use tpt_teleop.Safety.Geo.{throttle}

pub record KinematicLimits : Type 0 where
  pub max_tilt_norm : ℕ
  pub max_yaw_norm : ℕ
  pub max_lateral_norm : ℕ
  pub max_axis_step : ℕ
  pub max_throttle_step : ℕ

-- `cmd` is overwritten. The flag is raised in a byte that is zero.
unfoldable pub write_emergency_stop : ℕ → ℕ → ControlCommand → ControlCommand
unfolding zeroed
write_emergency_stop seq timestamp_ns cmd = record (zeroed emergency_stop) {
  seq = seq;
  timestamp_ns = timestamp_ns;
  flags = 1;
}

module _ (fl : Floats) where
  -- `none` is the panic of `clamp`.
  unfoldable pub clamp_abs : ℕ → ℕ → ControlCommand → Option (Bool × ControlCommand)
  unfolding clamp_checked neg
  clamp_abs ax limit cmd =
      let before = get_or cmd.axes ax 0 in
      elim (clamp_checked fl.f32 before (neg limit) limit) [
        | some v ↦ some (not (fl.f32.eq before v), record cmd { axes = set cmd.axes ax v })
        | none ↦ none
      ]

  unfoldable pub slew : ControlCommand → ℕ → ℕ → ControlCommand → Option (Bool × ControlCommand)
  unfolding clamp_checked neg
  slew prev ax max_step cmd =
      let target = get_or cmd.axes ax 0 in
      let last = get_or prev.axes ax 0 in
      elim (clamp_checked fl.f32 (fl.f32.sub target last) (neg max_step) max_step) [
        | some delta ↦
            let limited = fl.f32.add last delta in
            some (not (fl.f32.eq limited target), record cmd { axes = set cmd.axes ax limited })
        | none ↦ none
      ]

  -- The loops over the axes with their limits.
  unfoldable pub each_axis :
      (ℕ → ℕ → ControlCommand → Option (Bool × ControlCommand))
      → List (ℕ × ℕ)
      → Bool
      → ControlCommand
      → Option (Bool × ControlCommand)
  each_axis f [] touched cmd = some (touched, cmd)
  each_axis f ((ax, limit) ∷ rest) touched cmd = elim (f ax limit cmd) [
    | some (changed, cmd') ↦ each_axis f rest (touched || changed) cmd'
    | none ↦ none
  ]

  unfoldable pub clamped_axes : KinematicLimits → List (ℕ × ℕ)
  clamped_axes l =
      (0, l.max_tilt_norm)
      ∷ (1, l.max_tilt_norm)
      ∷ (2, l.max_yaw_norm)
      ∷ (4, l.max_lateral_norm)
      ∷ (5, l.max_lateral_norm)
      ∷ []

  unfoldable pub slewed_axes : KinematicLimits → List (ℕ × ℕ)
  slewed_axes l =
      (0, l.max_axis_step)
      ∷ (1, l.max_axis_step)
      ∷ (2, l.max_axis_step)
      ∷ (4, l.max_axis_step)
      ∷ (5, l.max_axis_step)
      ∷ (throttle, l.max_throttle_step)
      ∷ []

  unfoldable pub clamp_throttle : ControlCommand → ControlCommand
  unfolding clamp
  clamp_throttle cmd = record cmd {
    axes = set cmd.axes throttle (clamp fl.f32 (get_or cmd.axes throttle 0) 0 one);
  }

  unfoldable pub apply_limits :
      KinematicLimits → ControlCommand → ControlCommand → Option (Bool × ControlCommand)
  unfolding each_axis clamp_abs slew clamped_axes slewed_axes clamp_throttle
  apply_limits l prev cmd = elim (each_axis clamp_abs (clamped_axes l) false cmd) [
    | some (touched, cmd') ↦ each_axis (slew prev) (slewed_axes l) touched (clamp_throttle cmd')
    | none ↦ none
  ]
