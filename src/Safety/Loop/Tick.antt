-- ===== src/Safety/Loop/Tick.antt =====
-- One tick of the safety loop of crates/tpt-t-safety/src/loop_.rs: from the input ring through the stages
-- to the output ring.
use tpt_teleop.Prelude.{
  ℕ, suc, Bool, true, false, not, ◌&&◌, Option, none, some, List, [], ◌∷◌, get_or, set, length,
  if◌then◌else◌,
}
use tpt_teleop.Prelude.Words.{wrapping_add_64}
use tpt_teleop.Ring.Spsc.{Spsc, Pushed, accepted, refused, drain}
use tpt_teleop.Ring.Spsc
use tpt_teleop.Core.Ser.{ControlCommand}
use tpt_teleop.Safety.Floats.{Floats, one, half}
use tpt_teleop.Safety.Wide
use tpt_teleop.Safety.Veto.{VetoGate, default_gate}
use tpt_teleop.Safety.Veto
use tpt_teleop.Safety.Latency.{observe, compensate}
use tpt_teleop.Safety.Geo.{FenceVerdict, inside, evaluate, is_hard, clamp_command, throttle}
use tpt_teleop.Safety.Limits.{write_emergency_stop, apply_limits}
use tpt_teleop.Safety.Loop.{InterceptStats, SafetyLoop, emergency_stop, advance_blend}

-- 2 * 3.45, the lag of the motors, and the throttle of a powered descent.
abbrev pub twice_brake_a : ℕ
twice_brake_a = 4619454727784602010

abbrev pub esc_tau_s : ℕ
esc_tau_s = 4594572339843380019

abbrev pub descend_pin_throttle : ℕ
descend_pin_throttle = 1050253722

-- 0.9999
abbrev pub nearly_one : ℕ
nearly_one = 1065351538

-- The last of what was popped.
unfoldable pub newest : List ControlCommand → Option ControlCommand
newest [] = none
newest (c ∷ cs) = elim (newest cs) [ none ↦ some c | some d ↦ some d ]

unfoldable pub is_inside : FenceVerdict → Bool
is_inside inside = true
is_inside _ = false

-- The push at the end, with the count of what was dropped.
unfoldable pub hand_over : ControlCommand → SafetyLoop → SafetyLoop
hand_over cmd s =
    let (res, output) = Spsc.push s.output cmd in
    record s {
      output = output;
      last_out = cmd;
      dropped_out = elim res [
        | accepted ↦ s.dropped_out
        | refused _ ↦ wrapping_add_64 s.dropped_out 1
      ];
    }

module _ (fl : Floats) where
  unfoldable pub mix_axes : ℕ → List ℕ → List ℕ → List ℕ
  mix_axes w (b ∷ bs) (x ∷ xs) =
      fl.f32.add (fl.f32.mul b (fl.f32.sub one w)) (fl.f32.mul x w) ∷ mix_axes w bs xs
  mix_axes w _ xs = xs

  unfoldable pub mix_command : ℕ → ControlCommand → ControlCommand → ControlCommand
  unfolding mix_axes
  mix_command w baseline cmd =
      if fl.f32.lt w nearly_one
      then record cmd {
        axes = mix_axes w baseline.axes cmd.axes;
        mode = if fl.f32.le half w then cmd.mode else baseline.mode;
      }
      else cmd

  -- Stage 3, with the latch and the machine.
  unfoldable pub fence_stage : ℕ → ControlCommand → SafetyLoop → ControlCommand × SafetyLoop
  unfolding evaluate clamp_command is_inside is_hard emergency_stop
  fence_stage clock cmd s =
      let verdict = evaluate fl s.cfg.fence s.pose in
      if is_inside verdict then (cmd, s) else (
        clamp_command fl s.cfg.fence s.pose verdict cmd,
        if is_hard verdict && not s.estop_latched then emergency_stop clock s else s,
      )

  -- The climb that is left until the vehicle stands would pass the ceiling.
  unfoldable pub is_overshoot : SafetyLoop → Bool
  is_overshoot s =
      let v = s.vz_est in
      let stop_dist =
        fl.f64.add (fl.f64.div (fl.f64.mul v v) twice_brake_a) (fl.f64.mul v esc_tau_s) in
      fl.f64.le s.cfg.fence.max_alt_m (fl.f64.add s.pose.z stop_dist)

  unfoldable pub brake_after : SafetyLoop → Bool
  unfolding is_overshoot
  brake_after s =
      let latched = if is_overshoot s then true else s.brake_latched in
      if latched
        && (fl.f64.le s.vz_est Wide.half
            && fl.f64.le s.pose.z (fl.f64.mul s.cfg.fence.max_alt_m Wide.nine_tenths))
      then false
      else latched

  -- A throttle above a bound is set to that of a descent.
  unfoldable pub pin_above : ℕ → ControlCommand → ControlCommand
  pin_above bound cmd =
      if fl.f32.lt bound (get_or cmd.axes throttle 0)
      then record cmd { axes = set cmd.axes throttle descend_pin_throttle }
      else cmd

  -- Stage 4b.
  unfoldable pub brake_stage : ControlCommand → SafetyLoop → ControlCommand × SafetyLoop
  unfolding brake_after is_overshoot pin_above
  brake_stage cmd s =
      let latched = brake_after s in
      let cmd' = if latched then pin_above descend_pin_throttle cmd else cmd in
      (if is_overshoot s then pin_above half cmd' else cmd', record s { brake_latched = latched })

  -- Stages 1 to 3.
  unfoldable pub shape : ℕ → ℕ → ControlCommand → SafetyLoop → ControlCommand × SafetyLoop
  unfolding observe compensate advance_blend mix_command Veto.apply fence_stage
  shape now_ns clock cmd0 s0 =
      let (_, latency) = observe fl now_ns cmd0.timestamp_ns s0.latency in
      let s1 = advance_blend fl (record s0 { latency = latency }) in
      let cmd1 = mix_command s1.authority s1.baseline (compensate fl latency cmd0) in
      let (_, cmd2) = Veto.apply fl.f32 s1.veto cmd1 in fence_stage clock cmd2 s1

  -- Stage 5, behind the brake.
  unfoldable pub settle : ℕ → ControlCommand → SafetyLoop → ControlCommand × SafetyLoop
  unfolding brake_stage write_emergency_stop
  settle now_ns cmd4 s4 =
      let (cmd5, s5) = brake_stage cmd4 s4 in
      (if s5.estop_latched then write_emergency_stop cmd5.seq now_ns cmd5 else cmd5, s5)

  -- The stages 1 to 5 on one command.
  unfoldable pub intercept :
      ℕ → ℕ → ControlCommand → SafetyLoop → Option (ControlCommand × SafetyLoop)
  unfolding shape apply_limits settle
  intercept now_ns clock cmd s =
      let (cmd3, s3) = shape now_ns clock cmd s in
      elim (apply_limits fl s3.cfg.limits s3.last_out cmd3) [
        | none ↦ none
        | some (_, cmd4) ↦ some (settle now_ns cmd4 s3)
      ]

  -- One tick; `none` is a panic of `clamp`. The loop that empties the input has a round more than the
  -- ring has slots.
  unfoldable pub process_one : ℕ → ℕ → ℕ → SafetyLoop → Option (InterceptStats × SafetyLoop)
  unfolding advance_blend newest intercept hand_over
  process_one now_ns clock elapsed s0 =
      let s = advance_blend fl s0 in
      let (popped, input, _) = drain (suc s.input.cap) s.input in
      let s' = record s { input = input } in
      elim (newest popped) [
        | none ↦ some (record { drained = 0; intercepted_ns = elapsed }, s')
        | some cmd ↦ elim (intercept now_ns clock cmd s') [
          | none ↦ none
          | some (out, s'') ↦
              some (record { drained = length popped; intercepted_ns = elapsed }, hand_over out s'')
        ]
      ]
