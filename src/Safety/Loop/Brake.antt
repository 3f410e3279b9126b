-- ===== src/Safety/Loop/Brake.antt =====
-- The vertical brake in one tick of the safety loop of crates/tpt-t-safety/src/loop_.rs.
use tpt_teleop.Prelude.{
  ℕ, zero, suc, ◌≡◌, ◌⊎◌, inl, inr, refl, sym, ap, subst, ◌∙◌, arith, true, false, some, List, [],
  ◌∷◌, ◌++◌, length, get_or, set, Bool-cases, if◌then◌else◌,
}
use tpt_teleop.Ring.Spsc.{drain}
use tpt_teleop.Ring.Spsc
use tpt_teleop.Ring.Refine.{Holds}
use tpt_teleop.Core.Ser.{ControlCommand, zeroed}
use tpt_teleop.Safety.Floats.{Floats, half}
use tpt_teleop.Safety.Geo.{throttle}
use tpt_teleop.Safety.Veto
use tpt_teleop.Safety.Latency.{observe, compensate}
use tpt_teleop.Safety.Limits.{write_emergency_stop}
use tpt_teleop.Safety.Loop.{SafetyLoop, advance_blend, emergency_stop}
use tpt_teleop.Safety.Loop.Tick.{
  hand_over, is_overshoot, brake_after, pin_above, brake_stage, fence_stage, mix_command, shape,
  settle, process_one, descend_pin_throttle,
}
use tpt_teleop.Safety.Loop.Latch.{CanClamp, intercept_lem}
use tpt_teleop.Safety.Loop.Intake.{advance_blend_lem, process_one_busy}

set_cases : (xs : List ℕ) (i v : ℕ) → (get_or (set xs i v) i 0 ≡ v) ⊎ (get_or (set xs i v) i 0 ≡ 0)
set_cases [] i v = inr refl
set_cases (x ∷ xs) zero v = inl refl
set_cases (x ∷ xs) (suc i) v = set_cases xs i v

module _ (fl : Floats) where
  -- The throttle of a command is not above a bound.
  unfoldable pub IsBelow : ℕ → ControlCommand → Type 0
  IsBelow bound cmd = fl.f32.lt bound (get_or cmd.axes throttle 0) ≡ false

  -- Neither zero nor the throttle of a descent is above the bound.
  unfoldable pub IsBound : ℕ → Type 0
  IsBound bound = (fl.f32.lt bound descend_pin_throttle ≡ false) × (fl.f32.lt bound 0 ≡ false)

  pinned :
      (bound : ℕ) (cmd : ControlCommand)
      → IsBound bound
      → IsBelow bound (record cmd { axes = set cmd.axes throttle descend_pin_throttle })
  unfolding IsBound IsBelow
  pinned bound cmd (p, z) = elim (set_cases cmd.axes throttle descend_pin_throttle) [
    | inl e ↦ ap (fl.f32.lt bound) e ∙ p
    | inr e ↦ ap (fl.f32.lt bound) e ∙ z
  ]

  pin_above-own :
      (bound : ℕ) (cmd : ControlCommand) → IsBound bound → IsBelow bound (pin_above fl bound cmd)
  unfolding pin_above IsBelow
  pin_above-own bound cmd b = elim (Bool-cases (fl.f32.lt bound (get_or cmd.axes throttle 0))) [
    | inl y ↦ rw (pin_above, y) (pinned bound cmd b)
    | inr n ↦ rw (pin_above, n) n
  ]

  pin_above-other :
      (bound other : ℕ) (cmd : ControlCommand)
      → IsBound bound
      → IsBelow bound cmd
      → IsBelow bound (pin_above fl other cmd)
  unfolding pin_above
  pin_above-other bound other cmd b below =
      elim (Bool-cases (fl.f32.lt other (get_or cmd.axes throttle 0))) [
        | inl y ↦ rw (pin_above, y) (pinned bound cmd b)
        | inr n ↦ rw (pin_above, n) below
      ]

  brake_stage_lem :
      (cmd : ControlCommand) (s : SafetyLoop)
      → IsBound descend_pin_throttle
      → IsBound half
      → (brake_after fl s ≡ true → IsBelow descend_pin_throttle (brake_stage fl cmd s).0)
        × (is_overshoot fl s ≡ true → IsBelow half (brake_stage fl cmd s).0)
  unfolding brake_stage
  brake_stage_lem cmd s b h = (
    λ on. elim (Bool-cases (is_overshoot fl s)) [
      | inl o ↦
          rw (brake_stage, on, o)
            (pin_above-other descend_pin_throttle half (pin_above fl descend_pin_throttle cmd) b
              (pin_above-own descend_pin_throttle cmd b))
      | inr n ↦ rw (brake_stage, on, n) (pin_above-own descend_pin_throttle cmd b)
    ],
    λ o.
        let pinned_once = if brake_after fl s then pin_above fl descend_pin_throttle cmd else cmd in
        subst (IsBelow half)
          (sym (ap (λ v. if v then pin_above fl half pinned_once else pinned_once) o))
          (pin_above-own half pinned_once h),
  )

  settle_lem :
      (now : ℕ) (cmd : ControlCommand) (s : SafetyLoop)
      → IsBound descend_pin_throttle
      → IsBound half
      → let (out, s') = settle fl now cmd s in
        (s'.brake_latched ≡ true → IsBelow descend_pin_throttle out)
        × (is_overshoot fl s ≡ true → IsBelow half out)
  unfolding settle brake_stage write_emergency_stop zeroed IsBelow IsBound
  settle_lem now cmd s b h = elim (Bool-cases s.estop_latched) [
    | inl on ↦ (λ l. rw (settle, on) b.1, λ o. rw (settle, on) h.1)
    | inr off ↦
        let (x, y) = brake_stage_lem cmd s b h in
        (λ l. rw (settle, off) (x l), λ o. rw (settle, off) (y o))
  ]

  fence_stage-is_overshoot :
      (clock : ℕ) (cmd : ControlCommand) (s : SafetyLoop)
      → is_overshoot fl (fence_stage fl clock cmd s).1 ≡ is_overshoot fl s
  unfolding fence_stage emergency_stop is_overshoot
  fence_stage-is_overshoot clock cmd s = ground arith

  shape-is_overshoot :
      (now clock : ℕ) (cmd : ControlCommand) (s : SafetyLoop)
      → is_overshoot fl (shape fl now clock cmd s).1 ≡ is_overshoot fl s
  unfolding shape is_overshoot
  shape-is_overshoot now clock cmd s =
      let s0 : SafetyLoop = record s { latency = (observe fl now cmd.timestamp_ns s.latency).1 } in
      let s1 = advance_blend fl s0 in
      let cmd1 = mix_command fl s1.authority s1.baseline (compensate fl s0.latency cmd) in
      fence_stage-is_overshoot clock (Veto.apply fl.f32 s1.veto cmd1).1 s1
      ∙ ap (is_overshoot fl) (advance_blend_lem fl s0)

  -- A tick that finds commands pushes one into the output ring whose throttle is not above 0.30 when the brake is latched
  -- after it, and not above 0.5 when the climb that is left would pass the ceiling. No limit may be
  -- negative or no number, and neither 0 nor 0.30 is above 0.30 or 0.5.
  pub throttle-IsBelow :
      (k now clock elapsed : ℕ) (s : SafetyLoop) (cs : List ControlCommand) (cmd : ControlCommand)
      → CanClamp fl s.cfg.limits
      → IsBound descend_pin_throttle
      → IsBound half
      → Holds k s.input (cs ++ cmd ∷ [])
      → (s' : SafetyLoop) × (process_one fl now clock elapsed s
          ≡ some (record { drained = suc (length cs); intercepted_ns = elapsed }, s'))
        × (s'.output ≡ (Spsc.push s.output s'.last_out).1)
        × (s'.brake_latched ≡ true → IsBelow descend_pin_throttle s'.last_out)
        × (is_overshoot fl s ≡ true → IsBelow half s'.last_out)
  unfolding process_one hand_over
  throttle-IsBelow k now clock elapsed s cs cmd can b h holds =
      let s1 = advance_blend fl s in
      let same = advance_blend_lem fl s in
      let input = (drain (suc s1.input.cap) s1.input).1 in
      let s2 : SafetyLoop = record s1 { input = input } in
      let (out, s3, e', keeps, _, _, cmd4, settled) =
        intercept_lem fl now clock cmd s2 (subst (λ t. CanClamp fl t.cfg.limits) (sym same) can) in
      let (low, half_way) = settle_lem now cmd4 (shape fl now clock cmd s2).1 b h in
      let over : is_overshoot fl (shape fl now clock cmd s2).1 ≡ is_overshoot fl s =
        shape-is_overshoot now clock cmd s2 ∙ ap (is_overshoot fl) same in
      (
        hand_over out s3,
        process_one_busy fl k now clock elapsed s cs cmd holds out s3 e',
        ap (λ o. (Spsc.push o out).1) (keeps.output ∙ ap (λ t. t.output) same),
        λ l.
            subst (λ t. IsBelow descend_pin_throttle t.0) (sym settled)
              (low (ap (λ t. t.1.brake_latched) (sym settled) ∙ l)),
        λ o. subst (λ t. IsBelow half t.0) (sym settled) (half_way (over ∙ o)),
      )
