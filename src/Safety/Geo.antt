-- ===== src/Safety/Geo.antt =====
-- crates/tpt-t-safety/src/geo.rs: the fence and what it takes from a command.
use tpt_teleop.Prelude.{ℕ, Bool, true, false, ◌||◌, ◌&&◌, List, [], ◌∷◌, get_or, set, if◌then◌else◌}
use tpt_teleop.Core.Ser.{ControlCommand}
use tpt_teleop.Safety.Floats.{Floats, clamp, half}
use tpt_teleop.Safety.Wide

abbrev pub throttle : ℕ
throttle = 3

-- `Pose6D`, whose reserved word nothing reads.
pub record Pose6D : Type 0 where
  pub x : ℕ
  pub y : ℕ
  pub z : ℕ
  pub yaw : ℕ
  pub pitch : ℕ
  pub roll : ℕ

unfoldable pub default_pose : Pose6D
default_pose = record { x = 0; y = 0; z = 0; yaw = 0; pitch = 0; roll = 0 }

pub record GeoFence : Type 0 where
  pub center_east_m : ℕ
  pub center_north_m : ℕ
  pub radius_m : ℕ
  pub min_alt_m : ℕ
  pub max_alt_m : ℕ

pub data FenceVerdict : Type 0 where
  inside soft_warn hard_breach : FenceVerdict

unfoldable pub is_hard : FenceVerdict → Bool
is_hard hard_breach = true
is_hard _ = false

module _ (fl : Floats) where
  unfoldable pub horizontal_dist : GeoFence → Pose6D → ℕ
  horizontal_dist g pose =
      fl.hypot (fl.f64.sub pose.x g.center_east_m) (fl.f64.sub pose.y g.center_north_m)

  unfoldable pub evaluate : GeoFence → Pose6D → FenceVerdict
  unfolding horizontal_dist
  evaluate g pose =
      let d = horizontal_dist g pose in
      let soft_r = fl.f64.mul g.radius_m Wide.most in
      let soft_hi = fl.f64.mul g.max_alt_m Wide.most in
      if fl.f64.lt g.radius_m d || (fl.f64.lt g.max_alt_m pose.z || fl.f64.lt pose.z g.min_alt_m)
      then hard_breach
      else if fl.f64.lt soft_r d || fl.f64.lt soft_hi pose.z
      then soft_warn
      else inside

  -- The loops over the lateral axes and over the attitude, one after the other.
  unfoldable pub suppress : ℕ → List (ℕ × ℕ) → ControlCommand → ControlCommand
  suppress severity [] cmd = cmd
  suppress severity ((ax, u) ∷ rest) cmd =
      let outward = fl.f64.mul (fl.widen (get_or cmd.axes ax 0)) u in
      let less =
        fl.f32.sub (get_or cmd.axes ax 0)
          (fl.narrow (fl.f64.mul (fl.f64.mul outward severity) u)) in
      if fl.f64.lt 0 outward
      then suppress severity rest (record cmd { axes = set cmd.axes ax less })
      else suppress severity rest cmd

  unfoldable pub severity_of : GeoFence → FenceVerdict → ℕ → ℕ
  unfolding clamp is_hard
  severity_of g verdict dist =
      if is_hard verdict
      then Wide.one
      else clamp fl.f64
          (fl.f64.div (fl.f64.sub dist (fl.f64.mul g.radius_m Wide.most))
            (fl.f64.mul g.radius_m Wide.twentieth))
          0 Wide.one

  -- The two tests on the altitude.
  unfoldable pub hold_altitude : GeoFence → Pose6D → ControlCommand → ControlCommand
  hold_altitude g pose cmd =
      let high =
        if fl.f64.le (fl.f64.mul g.max_alt_m Wide.most) pose.z
          && fl.f32.lt half (get_or cmd.axes throttle 0)
        then record cmd { axes = set cmd.axes throttle half }
        else cmd in
      if fl.f64.le pose.z g.min_alt_m && fl.f32.lt (get_or high.axes throttle 0) half
      then record high { axes = set high.axes throttle half }
      else high

  unfoldable pub clamp_command : GeoFence → Pose6D → FenceVerdict → ControlCommand → ControlCommand
  unfolding suppress severity_of hold_altitude
  clamp_command g pose verdict cmd =
      let dx = fl.f64.sub pose.x g.center_east_m in
      let dy = fl.f64.sub pose.y g.center_north_m in
      let dist = fl.hypot dx dy in
      let ux = fl.f64.div dx dist in
      let uy = fl.f64.div dy dist in
      let severity = severity_of g verdict dist in
      let held =
        if fl.f64.lt Wide.tiny dist && fl.f64.lt 0 severity
        then suppress severity ((4, ux) ∷ (5, uy) ∷ (0, ux) ∷ (1, uy) ∷ []) cmd
        else cmd in
      hold_altitude g pose held
