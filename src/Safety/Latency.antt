-- ===== src/Safety/Latency.antt =====
-- crates/tpt-t-safety/src/latency.rs: the estimate of the delay, and the commands scaled by it.
use tpt_teleop.Prelude.{ℕ, ◌-◌, max, List, [], ◌∷◌, get_or, set, ◌==◌, if◌then◌else◌}
use tpt_teleop.Prelude.Words.{wrapping_add_64}
use tpt_teleop.Core.Ser.{ControlCommand}
use tpt_teleop.Safety.Floats.{Floats, fmin, clamp, one}
use tpt_teleop.Safety.Wide
use tpt_teleop.Safety.Veto.{translational}

pub record LatencyCompensator : Type 0 where
  pub ewma_ns : ℕ
  pub alpha : ℕ
  pub max_ns : ℕ
  pub samples : ℕ

module _ (fl : Floats) where
  unfoldable pub new_latency : ℕ → ℕ → LatencyCompensator
  unfolding clamp
  new_latency alpha max_ns = record {
    ewma_ns = 0;
    alpha = clamp fl.f64 alpha Wide.hundredth Wide.one;
    max_ns = fl.f64.of_u64 (max max_ns 1);
    samples = 0;
  }

  unfoldable pub observe : ℕ → ℕ → LatencyCompensator → ℕ × LatencyCompensator
  observe now_ns stamp_ns lc =
      let delay = now_ns - stamp_ns in
      let d = fl.f64.of_u64 delay in
      let mixed =
        fl.f64.add (fl.f64.mul lc.ewma_ns (fl.f64.sub Wide.one lc.alpha)) (fl.f64.mul d lc.alpha) in
      (
        delay,
        record lc {
          ewma_ns = if lc.samples == 0 then d else mixed;
          samples = wrapping_add_64 lc.samples 1;
        },
      )

  unfoldable pub attenuation : LatencyCompensator → ℕ
  unfolding fmin
  attenuation lc =
      if fl.f64.le lc.ewma_ns 0
      then one
      else fl.narrow (
          fl.f64.sub Wide.one
            (fl.f64.mul (fmin fl.f64 (fl.f64.div lc.ewma_ns lc.max_ns) Wide.one) Wide.four_fifths))

  unfoldable pub scale_axes : ℕ → List ℕ → ControlCommand → ControlCommand
  scale_axes k [] cmd = cmd
  scale_axes k (ax ∷ rest) cmd =
      scale_axes k rest
        (record cmd { axes = set cmd.axes ax (fl.f32.mul (get_or cmd.axes ax 0) k) })

  unfoldable pub compensate : LatencyCompensator → ControlCommand → ControlCommand
  unfolding attenuation scale_axes
  compensate lc cmd =
      let k = attenuation lc in if fl.f32.lt k one then scale_axes k translational cmd else cmd
