-- ===== src/Safety/Loop/Latch.antt =====
-- What the latch of the safety loop of crates/tpt-t-safety/src/loop_.rs does in one tick.
use tpt_teleop.Prelude.{
  ℕ, ◌≡◌, inl, inr, refl, ◌∙◌, arith, Bool, true, false, ◌||◌, Option, some, List, [], ◌∷◌, All,
  replicate, Option-cases,
}
use tpt_teleop.Core.Mode.{Mode, as_u8}
use tpt_teleop.Core.Ser.{ControlCommand, zeroed}
use tpt_teleop.Safety.Floats.{Floats, neg, clamp_checked}
use tpt_teleop.Safety.Veto
use tpt_teleop.Safety.Latency.{observe, compensate}
use tpt_teleop.Safety.Limits.{
  KinematicLimits, write_emergency_stop, clamp_abs, slew, each_axis, clamped_axes, slewed_axes,
  apply_limits, clamp_throttle,
}
use tpt_teleop.Safety.Loop.{SafetyLoop, emergency_stop, advance_blend}
use tpt_teleop.Safety.Loop.Tick.{intercept, mix_command, shape, settle, fence_stage, brake_stage}

-- All axes neutral, the mode of the emergency stop, and the flag.
unfoldable pub IsSafe : ControlCommand → Type 0
IsSafe c = (c.axes ≡ replicate 6 0) × (c.mode ≡ as_u8 Mode.emergency_stop) × (c.flags ≡ 1)

module _ (fl : Floats) where
  -- The bounds that a limit gives to `clamp` are in order.
  unfoldable pub InOrder : ℕ × ℕ → Type 0
  InOrder (ax, limit) = fl.f32.le (neg limit) limit ≡ true

  -- No limit is negative or no number.
  unfoldable pub CanClamp : KinematicLimits → Type 0
  CanClamp l =
      (fl.f32.le (neg l.max_tilt_norm) l.max_tilt_norm ≡ true)
      × (fl.f32.le (neg l.max_yaw_norm) l.max_yaw_norm ≡ true)
      × (fl.f32.le (neg l.max_lateral_norm) l.max_lateral_norm ≡ true)
      × (fl.f32.le (neg l.max_axis_step) l.max_axis_step ≡ true)
      × (fl.f32.le (neg l.max_throttle_step) l.max_throttle_step ≡ true)

  each_axis_lem :
      (f : ℕ → ℕ → ControlCommand → Option (Bool × ControlCommand))
      → ((ax limit : ℕ) (cmd : ControlCommand)
          → InOrder (ax, limit)
          → (r : Bool × ControlCommand) × (f ax limit cmd ≡ some r))
      → (axes : List (ℕ × ℕ)) (touched : Bool) (cmd : ControlCommand) → All InOrder axes
      → (r : Bool × ControlCommand) × (each_axis fl f axes touched cmd ≡ some r)
  unfolding each_axis
  each_axis_lem f h [] touched cmd os = ((touched, cmd), refl)
  each_axis_lem f h ((ax, limit) ∷ rest) touched cmd (o, os) =
      let ((changed, cmd'), e) = h ax limit cmd o in
      rw (each_axis, e) (each_axis_lem f h rest (touched || changed) cmd' os)

  clamp_abs_lem :
      (ax limit : ℕ) (cmd : ControlCommand)
      → InOrder (ax, limit)
      → (r : Bool × ControlCommand) × (clamp_abs fl ax limit cmd ≡ some r)
  unfolding clamp_abs clamp_checked InOrder
  clamp_abs_lem ax limit cmd o = rw (clamp_abs, clamp_checked, o) (_, refl)

  slew_lem :
      (prev : ControlCommand) (ax limit : ℕ) (cmd : ControlCommand)
      → InOrder (ax, limit)
      → (r : Bool × ControlCommand) × (slew fl prev ax limit cmd ≡ some r)
  unfolding slew clamp_checked InOrder
  slew_lem prev ax limit cmd o = rw (slew, clamp_checked, o) (_, refl)

  pub apply_limits_lem :
      (l : KinematicLimits) (prev cmd : ControlCommand)
      → CanClamp l
      → (r : Bool × ControlCommand) × (apply_limits fl l prev cmd ≡ some r)
  unfolding apply_limits clamped_axes slewed_axes CanClamp InOrder
  apply_limits_lem l prev cmd (t, y, a, x, h) =
      let ((touched, cmd'), e) =
        each_axis_lem (clamp_abs fl) clamp_abs_lem (clamped_axes fl l) false cmd
          (t, (t, (y, (a, (a, tt))))) in
      rw (apply_limits, e)
        (each_axis_lem (slew fl prev) (slew_lem prev) (slewed_axes fl l) touched
          (clamp_throttle fl cmd') (x, (x, (x, (x, (x, (h, tt)))))))

  -- A latch that is set stays set, and the configuration and the output are as before.
  pub record Keeps (s s' : SafetyLoop) : Type 0 where
    pub cfg : s'.cfg ≡ s.cfg
    pub output : s'.output ≡ s.output
    pub latched : s.estop_latched ≡ true → s'.estop_latched ≡ true

  pub advance_blend-Keeps : (s : SafetyLoop) → Keeps s (advance_blend fl s)
  unfolding advance_blend
  advance_blend-Keeps s = elim (Option-cases s.blend) [
    | inl n ↦ rw (advance_blend, n) (record { cfg = refl; output = refl; latched = λ h. h })
    | inr (b, e) ↦ rw (advance_blend, e) (record { cfg = refl; output = refl; latched = λ h. h })
  ]

  fence_stage-Keeps :
      (clock : ℕ) (cmd : ControlCommand) (s : SafetyLoop) → Keeps s (fence_stage fl clock cmd s).1
  unfolding fence_stage emergency_stop
  fence_stage-Keeps clock cmd s = record {
    cfg = ground arith;
    output = ground arith;
    latched = λ h. ground (arith, h);
  }

  shape-Keeps :
      (now clock : ℕ) (cmd : ControlCommand) (s : SafetyLoop) → Keeps s (shape fl now clock cmd s).1
  unfolding shape
  shape-Keeps now clock cmd s =
      let s0 = record s { latency = (observe fl now cmd.timestamp_ns s.latency).1 } in
      let k = advance_blend-Keeps s0 in
      let cmd1 =
        mix_command fl (advance_blend fl s0).authority (advance_blend fl s0).baseline
          (compensate fl s0.latency cmd) in
      let k' =
        fence_stage-Keeps clock (Veto.apply fl.f32 (advance_blend fl s0).veto cmd1).1
          (advance_blend fl s0) in
      record {
        cfg = k'.cfg ∙ k.cfg;
        output = k'.output ∙ k.output;
        latched = λ h. k'.latched (k.latched h);
      }

  pub settle-IsSafe :
      (now : ℕ) (cmd : ControlCommand) (s : SafetyLoop)
      → s.estop_latched ≡ true
      → IsSafe (settle fl now cmd s).0
  unfolding settle brake_stage write_emergency_stop zeroed IsSafe
  settle-IsSafe now cmd s h = rw h (refl, refl, refl)

  -- What the consumer of the output may meet after a tick of a latched loop.
  pub intercept_lem :
      (now clock : ℕ) (cmd : ControlCommand) (s : SafetyLoop)
      → CanClamp s.cfg.limits
      → (out : ControlCommand) × (s' : SafetyLoop) × (intercept fl now clock cmd s ≡ some (out, s'))
        × Keeps s s'
        × (s'.estop_latched ≡ true → IsSafe out)
        × (s' ≡ record (shape fl now clock cmd s).1 { brake_latched = s'.brake_latched })
        × (cmd4 : ControlCommand) × ((out, s') ≡ settle fl now cmd4 (shape fl now clock cmd s).1)
  unfolding intercept settle brake_stage
  intercept_lem now clock cmd s can =
      let (cmd3, s3) = shape fl now clock cmd s in
      let k = shape-Keeps now clock cmd s in
      let ((touched, cmd4), e) =
        apply_limits_lem (shape fl now clock cmd s).1.cfg.limits
          (shape fl now clock cmd s).1.last_out (shape fl now clock cmd s).0 (rw k.cfg can) in
      (
        (settle fl now cmd4 s3).0,
        (settle fl now cmd4 s3).1,
        rw (intercept, e) refl,
        record { cfg = k.cfg; output = k.output; latched = k.latched },
        λ h. settle-IsSafe now cmd4 s3 h,
        refl,
        cmd4,
        refl,
      )
