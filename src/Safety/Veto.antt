-- ===== src/Safety/Veto.antt =====
-- crates/tpt-t-safety/src/veto.rs: the gate by which an AI may restrict the human's commands.
use tpt_teleop.Prelude.{ℕ, Bool, true, false, List, [], ◌∷◌, get_or, set, not, if◌then◌else◌}
use tpt_teleop.Core.Ser.{ControlCommand}
use tpt_teleop.Safety.Floats.{FloatOps, neg, fmax, clamp, one, hundredth}
pub mod Restricts

-- Roll, pitch, lateral x and y.
abbrev pub translational : List ℕ
translational = 0 ∷ 1 ∷ 4 ∷ 5 ∷ []

pub record VetoGate : Type 0 where
  pub active : Bool
  pub cap_bits : ℕ

-- `VetoGate::default`
unfoldable pub default_gate : VetoGate
default_gate = record { active = false; cap_bits = 0 }

unfoldable pub disengage : VetoGate → VetoGate
disengage g = record g { active = false }

module _ (f32 : FloatOps) where
  unfoldable pub engage : ℕ → VetoGate → VetoGate
  unfolding clamp
  engage max_translational_norm g = record {
    active = true;
    cap_bits = clamp f32 max_translational_norm hundredth one;
  }

  -- The cap that `apply` uses.
  unfoldable pub cap : VetoGate → ℕ
  unfolding fmax
  cap g = fmax f32 g.cap_bits hundredth

  -- The loop over the axes, and whether it changed any.
  unfoldable pub apply_axes : ℕ → List ℕ → ControlCommand → Bool → Bool × ControlCommand
  unfolding clamp neg
  apply_axes c [] cmd touched = (touched, cmd)
  apply_axes c (ax ∷ rest) cmd touched =
      let before = get_or cmd.axes ax 0 in
      let after = clamp f32 before (neg c) c in
      if not (f32.eq after before)
      then apply_axes c rest (record cmd { axes = set cmd.axes ax after }) true
      else apply_axes c rest cmd touched

  unfoldable pub apply : VetoGate → ControlCommand → Bool × ControlCommand
  unfolding apply_axes cap
  apply g cmd = if not g.active then (false, cmd) else apply_axes (cap g) translational cmd false
