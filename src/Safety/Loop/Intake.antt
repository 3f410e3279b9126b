-- ===== src/Safety/Loop/Intake.antt =====
-- The input ring and the fence in one tick of the safety loop of crates/tpt-t-safety/src/loop_.rs.
use tpt_teleop.Prelude.{
  ℕ, suc, ◌≡◌, inl, inr, refl, sym, ap, subst, ◌∙◌, arith, true, false, some, List, [], ◌∷◌, ◌++◌,
  length, length-append, Option-cases,
}
use tpt_teleop.Ring.Spsc.{Spsc, drain}
use tpt_teleop.Ring.Spsc
use tpt_teleop.Ring.Refine.{Holds}
use tpt_teleop.Ring.Runs.{drain_lem}
use tpt_teleop.Core.Machine.{force_emergency_stop}
use tpt_teleop.Core.Ser.{ControlCommand}
use tpt_teleop.Safety.Floats.{Floats}
use tpt_teleop.Safety.Veto
use tpt_teleop.Safety.Latency.{observe, compensate}
use tpt_teleop.Safety.Geo.{evaluate, hard_breach, is_hard}
use tpt_teleop.Safety.Loop.{SafetyLoop, advance_blend, emergency_stop}
use tpt_teleop.Safety.Loop.Tick.{
  newest, hand_over, is_inside, mix_command, fence_stage, shape, intercept, process_one,
}
use tpt_teleop.Safety.Loop.Latch.{IsSafe, CanClamp, intercept_lem}

pub newest-append : (cs : List ControlCommand) (c : ControlCommand) → newest (cs ++ c ∷ []) ≡ some c
unfolding newest
newest-append [] c = refl
newest-append (d ∷ cs) c = rw (newest, newest-append cs c) refl

module _ (fl : Floats) where
  -- Only the weight of the operator and its animation move.
  pub advance_blend_lem :
      (s : SafetyLoop)
      → advance_blend fl s ≡ record s {
        authority = (advance_blend fl s).authority;
        blend = (advance_blend fl s).blend;
      }
  unfolding advance_blend
  advance_blend_lem s = elim (Option-cases s.blend) [
    | inl n ↦ rw (advance_blend, n) refl
    | inr (b, e) ↦ rw (advance_blend, e) refl
  ]

  -- What a tick finds in the input ring, and what it leaves there.
  pub drained_all :
      (k : ℕ) (s : SafetyLoop) (q : List ControlCommand)
      → Holds k s.input q
      → let (popped, input, _) =
          drain (suc (advance_blend fl s).input.cap) (advance_blend fl s).input in
        (popped ≡ q) × Holds k input []
  drained_all k s q h =
      let held : Holds k (advance_blend fl s).input q =
        subst (λ t. Holds k t.input q) (sym (advance_blend_lem s)) h in
      let (e, _, left) =
        drain_lem (suc (advance_blend fl s).input.cap) q (omega (arith, held.fits, held.cap))
          held in
      (e, left)

  -- A tick that finds no command moves the authority blend on and leaves everything else: the pose is
  -- not compared with the fence, nothing is latched, and nothing is put out.
  pub process_one_idle :
      (k now clock elapsed : ℕ) (s : SafetyLoop)
      → Holds k s.input []
      → (input : Spsc ControlCommand) × Holds k input []
        × (process_one fl now clock elapsed s
            ≡ some (
              record { drained = 0; intercepted_ns = elapsed },
              record s {
                input = input;
                authority = (advance_blend fl s).authority;
                blend = (advance_blend fl s).blend;
              },
            ))
  unfolding process_one newest
  process_one_idle k now clock elapsed s h =
      let (e, left) = drained_all k s [] h in
      (
        (drain (suc (advance_blend fl s).input.cap) (advance_blend fl s).input).1,
        left,
        rw (process_one, e)
            (ap
              (λ t. some (
                record { drained = 0; intercepted_ns = elapsed },
                record t {
                  input = (drain (suc (advance_blend fl s).input.cap) (advance_blend fl s).input).1;
                },
              ))
              (advance_blend_lem s)),
      )

  -- Past a bound the loop is latched, and the machine is told unless the loop was latched before.
  breach_stage :
      (clock : ℕ) (cmd : ControlCommand) (s : SafetyLoop)
      → evaluate fl s.cfg.fence s.pose ≡ hard_breach
      → let s' = (fence_stage fl clock cmd s).1 in
        (s'.estop_latched ≡ true)
        × (s.estop_latched ≡ false → s'.machine ≡ (force_emergency_stop clock s.machine).1)
  unfolding fence_stage emergency_stop is_inside is_hard
  breach_stage clock cmd s e = (ground (arith, e), λ l. ground (arith, e, l))

  fence_stage-input :
      (clock : ℕ) (cmd : ControlCommand) (s : SafetyLoop)
      → (fence_stage fl clock cmd s).1.input ≡ s.input
  unfolding fence_stage emergency_stop
  fence_stage-input clock cmd s = ground arith

  shape_breach :
      (now clock : ℕ) (cmd : ControlCommand) (s : SafetyLoop)
      → evaluate fl s.cfg.fence s.pose ≡ hard_breach
      → let s' = (shape fl now clock cmd s).1 in
        (s'.estop_latched ≡ true)
        × (s'.input ≡ s.input)
        × (s.estop_latched ≡ false → s'.machine ≡ (force_emergency_stop clock s.machine).1)
  unfolding shape
  shape_breach now clock cmd s e =
      let s0 : SafetyLoop = record s { latency = (observe fl now cmd.timestamp_ns s.latency).1 } in
      let s1 = advance_blend fl s0 in
      let same = advance_blend_lem s0 in
      let cmd1 = mix_command fl s1.authority s1.baseline (compensate fl s0.latency cmd) in
      let cmd2 = (Veto.apply fl.f32 s1.veto cmd1).1 in
      let (latched, told) =
        breach_stage clock cmd2 s1 (ap (λ t. evaluate fl t.cfg.fence t.pose) same ∙ e) in
      (
        latched,
        fence_stage-input clock cmd2 s1 ∙ ap (λ t. t.input) same,
        λ l.
            told (ap (λ t. t.estop_latched) same ∙ l)
            ∙ ap (λ t. (force_emergency_stop clock t.machine).1) same,
      )

  -- The newest command is the one that goes through the stages.
  pub process_one_busy :
      (k now clock elapsed : ℕ) (s : SafetyLoop) (cs : List ControlCommand) (cmd : ControlCommand)
      → Holds k s.input (cs ++ cmd ∷ [])
      → let s1 = advance_blend fl s in
        let s2 : SafetyLoop = record s1 { input = (drain (suc s1.input.cap) s1.input).1 } in
        (out : ControlCommand) (s3 : SafetyLoop)
        → intercept fl now clock cmd s2 ≡ some (out, s3)
        → process_one fl now clock elapsed s
          ≡ some (record { drained = suc (length cs); intercepted_ns = elapsed }, hand_over out s3)
  unfolding process_one
  process_one_busy k now clock elapsed s cs cmd h out s3 e' =
      let (e, _) = drained_all k s (cs ++ cmd ∷ []) h in
      rw (process_one, e, newest-append cs cmd, e')
        (ap (λ n. some (record { drained = n; intercepted_ns = elapsed }, hand_over out s3))
          (ap length e ∙ omega (arith, length-append cs (cmd ∷ []))))

  -- A tick that finds commands, with the vehicle past a bound of the fence, empties the input ring and
  -- counts what was there, latches the stop, and pushes a safe command into the output; the machine is
  -- stopped, if the loop was not latched before. No limit may be negative or no number.
  pub process_one_breach :
      (k now clock elapsed : ℕ) (s : SafetyLoop) (cs : List ControlCommand) (cmd : ControlCommand)
      → CanClamp fl s.cfg.limits
      → evaluate fl s.cfg.fence s.pose ≡ hard_breach
      → Holds k s.input (cs ++ cmd ∷ [])
      → (s' : SafetyLoop) × (process_one fl now clock elapsed s
          ≡ some (record { drained = suc (length cs); intercepted_ns = elapsed }, s'))
        × Holds k s'.input []
        × (s'.estop_latched ≡ true)
        × IsSafe s'.last_out
        × (s'.output ≡ (Spsc.push s.output s'.last_out).1)
        × (s.estop_latched ≡ false → s'.machine ≡ (force_emergency_stop clock s.machine).1)
  unfolding process_one hand_over
  process_one_breach k now clock elapsed s cs cmd can past h =
      let (_, left) = drained_all k s (cs ++ cmd ∷ []) h in
      let s1 = advance_blend fl s in
      let same = advance_blend_lem s in
      let input = (drain (suc s1.input.cap) s1.input).1 in
      let s2 : SafetyLoop = record s1 { input = input } in
      let (out, s3, e', keeps, ok, shaped, _, _) =
        intercept_lem fl now clock cmd s2 (subst (λ t. CanClamp fl t.cfg.limits) (sym same) can) in
      let (latched, kept, told) =
        shape_breach now clock cmd s2 (ap (λ t. evaluate fl t.cfg.fence t.pose) same ∙ past) in
      let on : s3.estop_latched ≡ true = ap (λ t. t.estop_latched) shaped ∙ latched in
      (
        hand_over out s3,
        process_one_busy k now clock elapsed s cs cmd h out s3 e',
        subst (λ r. Holds k r []) (sym (ap (λ t. t.input) shaped ∙ kept)) left,
        on,
        ok on,
        ap (λ o. (Spsc.push o out).1) (keeps.output ∙ ap (λ t. t.output) same),
        λ l.
            ap (λ t. t.machine) shaped
            ∙ told (ap (λ t. t.estop_latched) same ∙ l)
            ∙ ap (λ t. (force_emergency_stop clock t.machine).1) same,
      )
