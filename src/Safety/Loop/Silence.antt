-- ===== src/Safety/Loop/Silence.antt =====
-- Runs of the safety loop of crates/tpt-t-safety/src/loop_.rs in which no command arrives.
use tpt_teleop.Prelude.{ℕ, ◌≡◌, refl, ◌∙◌, ap, some, List, [], ◌∷◌, All}
use tpt_teleop.Ring.Refine.{Holds}
use tpt_teleop.Safety.Floats.{Floats}
use tpt_teleop.Safety.Geo.{Pose6D}
use tpt_teleop.Safety.Loop.{SafetyLoop, advance_blend, set_pose, set_autonomy_baseline}
use tpt_teleop.Safety.Loop.Calls.{Call, poses, plans, ticks, call, run}
use tpt_teleop.Safety.Loop.Intake.{process_one_idle}

-- The vehicle's side alone: its pose, the autonomy's plan, and the clock's ticks.
abbrev pub IsSilent : Call → Type 0
IsSilent (poses p) = Unit
IsSilent (plans c) = Unit
IsSilent (ticks now clock elapsed) = Unit
IsSilent _ = ⊥

abbrev pub pose_after : List Call → Pose6D → Pose6D
pose_after [] p = p
pose_after (poses p' ∷ cs) p = pose_after cs p'
pose_after (c ∷ cs) p = pose_after cs p

pose_after_cons :
    (c : Call) (cs : List Call) (p : Pose6D)
    → IsSilent c
    → pose_after cs (pose_after (c ∷ []) p) ≡ pose_after (c ∷ cs) p
pose_after_cons (poses p') cs p q = refl
pose_after_cons (plans c) cs p q = refl
pose_after_cons (ticks now clock elapsed) cs p q = refl
pose_after_cons _ cs p q = absurd q

module _ (fl : Floats) (k : ℕ) where
  -- Nothing but the pose, the estimate of the climb, the plan and the blend moves.
  record Unmoved (s s' : SafetyLoop) : Type 0 where
    pub waiting : Holds k s'.input []
    pub latched : s'.estop_latched ≡ s.estop_latched
    pub machine : s'.machine ≡ s.machine
    pub output : s'.output ≡ s.output

  silent_call :
      (c : Call) (s : SafetyLoop)
      → IsSilent c
      → Holds k s.input []
      → (s' : SafetyLoop) × (call fl c s ≡ some ([], s'))
        × Unmoved s s'
        × (s'.pose ≡ pose_after (c ∷ []) s.pose)
  unfolding call set_pose set_autonomy_baseline
  silent_call (poses p) s q h = (
    set_pose fl p s,
    refl,
    record { waiting = h; latched = refl; machine = refl; output = refl },
    refl,
  )
  silent_call (plans cmd) s q h = (
    set_autonomy_baseline cmd s,
    refl,
    record { waiting = h; latched = refl; machine = refl; output = refl },
    refl,
  )
  silent_call (ticks now clock elapsed) s q h =
      let (input, left, e) = process_one_idle fl k now clock elapsed s h in
      (
        record s {
          input = input;
          authority = (advance_blend fl s).authority;
          blend = (advance_blend fl s).blend;
        },
        rw (call, e) refl,
        record { waiting = left; latched = refl; machine = refl; output = refl },
        refl,
      )
  silent_call _ s q h = absurd q

  -- While no command arrives, nothing stops the vehicle: whatever poses the loop is given, as far
  -- outside the fence as may be, and however often it ticks, the stop is not latched, the machine is
  -- not told and nothing is put out. The loop has the last pose all the while.
  pub silent_run :
      (cs : List Call) (s : SafetyLoop)
      → All IsSilent cs
      → Holds k s.input []
      → (s' : SafetyLoop) × (run fl cs s ≡ some ([], s'))
        × (s'.estop_latched ≡ s.estop_latched)
        × (s'.machine ≡ s.machine)
        × (s'.output ≡ s.output)
        × (s'.pose ≡ pose_after cs s.pose)
  unfolding run
  silent_run [] s q h = (s, refl, refl, refl, refl, refl)
  silent_run (c ∷ cs) s (q, qs) h =
      let (s1, e, same, at) = silent_call c s q h in
      let (s', e', latched, machine, output, pose) = silent_run cs s1 qs same.waiting in
      (
        s',
        rw (run, e, e') refl,
        latched ∙ same.latched,
        machine ∙ same.machine,
        output ∙ same.output,
        pose ∙ ap (pose_after cs) at ∙ pose_after_cons c cs s.pose q,
      )
