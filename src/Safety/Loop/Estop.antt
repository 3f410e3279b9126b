-- ===== src/Safety/Loop/Estop.antt =====
-- The emergency stop of the safety loop of crates/tpt-t-safety/src/loop_.rs over any calls of it and of
-- the threads at the other ends of its rings.
use tpt_teleop.Prelude.{
  ℕ, suc, inl, inr, ◌^◌, ◌≡◌, refl, sym, ap, subst, ◌∙◌, arith, true, Option, some, List, [], ◌∷◌,
  ◌++◌, append-nil, append_assoc, All, All-append, length, ltb, Bool-cases, Option-cases,
}
use tpt_teleop.Ring.Spsc.{Spsc, Popped, got, empty, uninit, drain}
use tpt_teleop.Ring.Spsc
use tpt_teleop.Ring.Bounded.{enqueue}
use tpt_teleop.Ring.Refine.{Holds, push-Holds, pop_got, pop_empty, advanced-Holds}
use tpt_teleop.Core.Mode.{Mode}
use tpt_teleop.Core.Ser.{ControlCommand}
use tpt_teleop.Safety.Floats.{Floats}
use tpt_teleop.Safety.Loop.{
  SafetyLoop, set_pose, set_autonomy_baseline, request_mode, emergency_stop, engage_ai_veto,
  disengage_ai_veto, advance_blend,
}
use tpt_teleop.Safety.Loop.Tick.{newest, hand_over, process_one}
use tpt_teleop.Safety.Loop.Latch.{IsSafe, CanClamp, Keeps, advance_blend-Keeps, intercept_lem}
use tpt_teleop.Safety.Loop.Calls.{
  Call, poses, plans, requests, stops, restricts, releases, ticks, arrives, takes, moves, taken_of,
  call, run,
}

module _ (fl : Floats) where
  -- A run returns; the consumer gets what waited in the output and then safe commands, in order; and
  -- the loop is latched.
  pub record StaysSafe (k : ℕ) (s : SafetyLoop) (q : List ControlCommand)
      (r : Option (List ControlCommand × SafetyLoop)) : Type 0 where
    pub after : SafetyLoop
    pub taken : List ControlCommand
    pub waiting : List ControlCommand
    pub safe : List ControlCommand
    pub returns : r ≡ some (taken, after)
    pub in_order : taken ++ waiting ≡ q ++ safe
    pub is_safe : All IsSafe safe
    pub holds : Holds k after.output waiting
    pub latched : after.estop_latched ≡ true
    pub cfg : after.cfg ≡ s.cfg

  -- A call that gives nothing and leaves the output.
  quiet :
      (k : ℕ) (s s' : SafetyLoop) (q : List ControlCommand)
      → Keeps fl s s'
      → s.estop_latched ≡ true
      → Holds k s.output q
      → StaysSafe k s q (some ([], s'))
  quiet k s s' q keeps l h = record {
    after = s';
    taken = [];
    waiting = q;
    safe = [];
    returns = refl;
    in_order = sym (append-nil q);
    is_safe = tt;
    holds = rw keeps.output h;
    latched = keeps.latched l;
    cfg = keeps.cfg;
  }

  -- A safe command is pushed: it waits behind the others, or a full ring refuses it.
  handed :
      (k : ℕ) (s s' : SafetyLoop) (q : List ControlCommand) (out : ControlCommand)
      → Keeps fl s s'
      → s.estop_latched ≡ true
      → IsSafe out
      → Holds k s.output q
      → StaysSafe k s q (some ([], hand_over out s'))
  unfolding hand_over enqueue
  handed k s s' q out keeps l ok h =
      let held : Holds k s'.output q = rw keeps.output h in
      let pushed = (push-Holds out held).1 in
      elim (Bool-cases (ltb (length q) (2 ^ k))) [
        | inl room ↦ record {
          after = hand_over out s';
          taken = [];
          waiting = q ++ out ∷ [];
          safe = out ∷ [];
          returns = refl;
          in_order = refl;
          is_safe = (ok, tt);
          holds = subst (Holds k (hand_over out s').output) (ground (arith, room)) pushed;
          latched = keeps.latched l;
          cfg = keeps.cfg;
        }
        | inr full ↦ record {
          after = hand_over out s';
          taken = [];
          waiting = q;
          safe = [];
          returns = refl;
          in_order = sym (append-nil q);
          is_safe = tt;
          holds = subst (Holds k (hand_over out s').output) (ground (arith, full)) pushed;
          latched = keeps.latched l;
          cfg = keeps.cfg;
        }
      ]

  ticked :
      (k : ℕ) (now clock elapsed : ℕ) (s : SafetyLoop) (q : List ControlCommand)
      → CanClamp fl s.cfg.limits
      → s.estop_latched ≡ true
      → Holds k s.output q
      → StaysSafe k s q (call fl (ticks now clock elapsed) s)
  unfolding call process_one
  ticked k now clock elapsed s q can l h =
      let s1 = advance_blend fl s in
      let k1 = advance_blend-Keeps fl s in
      let (popped, input, _) = drain (suc s1.input.cap) s1.input in
      let s2 : SafetyLoop = record s1 { input = input } in
      elim (Option-cases (newest popped)) [
        | inl n ↦
            rw (call, process_one, n)
              (quiet k s s2 q (record { cfg = k1.cfg; output = k1.output; latched = k1.latched }) l
                h)
        | inr (cmd, e) ↦
            let (out, s3, e', k3, ok, _, _, _) =
              intercept_lem fl now clock cmd s2 (rw k1.cfg can) in
            let keeps : Keeps fl s s3 = record {
              cfg = k3.cfg ∙ k1.cfg;
              output = k3.output ∙ k1.output;
              latched = λ b. k3.latched (k1.latched b);
            } in
            rw (call, process_one, e, e') (handed k s s3 q out keeps l (ok (keeps.latched l)) h)
      ]

  -- The consumer takes the oldest command that waits.
  took :
      (k : ℕ) (s : SafetyLoop) (q : List ControlCommand)
      → s.estop_latched ≡ true
      → Holds k s.output q
      → StaysSafe k s q (call fl takes s)
  unfolding call taken_of
  took k s [] l h =
      rw (call, pop_empty h)
        (record {
          after = s;
          taken = [];
          waiting = [];
          safe = [];
          returns = refl;
          in_order = refl;
          is_safe = tt;
          holds = h;
          latched = l;
          cfg = refl;
        })
  took k s (c ∷ q) l h =
      rw (call, pop_got h)
        (record {
          after = record s { output = (Spsc.pop s.output).1 };
          taken = c ∷ [];
          waiting = q;
          safe = [];
          returns = rw (pop_got h) refl;
          in_order = sym (append-nil (c ∷ q));
          is_safe = tt;
          holds = rw (pop_got h) (advanced-Holds h);
          latched = l;
          cfg = refl;
        })

  request_mode-Keeps :
      (clock : ℕ) (mode : Mode) (s : SafetyLoop) → Keeps fl s (request_mode fl clock mode s).1
  unfolding request_mode
  request_mode-Keeps clock mode s = record {
    cfg = ground arith;
    output = ground arith;
    latched = λ h. ground (arith, h);
  }

  call_safe :
      (k : ℕ) (c : Call) (s : SafetyLoop) (q : List ControlCommand)
      → CanClamp fl s.cfg.limits
      → s.estop_latched ≡ true
      → Holds k s.output q
      → StaysSafe k s q (call fl c s)
  unfolding call set_pose set_autonomy_baseline emergency_stop engage_ai_veto disengage_ai_veto
  call_safe k (ticks now clock elapsed) s q can l h = ticked k now clock elapsed s q can l h
  call_safe k takes s q can l h = took k s q l h
  call_safe k (requests clock mode) s q can l h =
      quiet k s (request_mode fl clock mode s).1 q (request_mode-Keeps clock mode s) l h
  call_safe k (poses p) s q can l h =
      quiet k s (set_pose fl p s) q (record { cfg = refl; output = refl; latched = λ b. b }) l h
  call_safe k (plans cmd) s q can l h =
      quiet k s (set_autonomy_baseline cmd s) q
        (record { cfg = refl; output = refl; latched = λ b. b }) l h
  call_safe k (stops clock) s q can l h =
      quiet k s (emergency_stop clock s) q
        (record { cfg = refl; output = refl; latched = λ b. refl }) l h
  call_safe k (restricts norm) s q can l h =
      quiet k s (engage_ai_veto fl norm s) q
        (record { cfg = refl; output = refl; latched = λ b. b }) l h
  call_safe k releases s q can l h =
      quiet k s (disengage_ai_veto s) q (record { cfg = refl; output = refl; latched = λ b. b }) l h
  call_safe k (arrives cmd) s q can l h =
      quiet k s (record s { input = (Spsc.push s.input cmd).1 }) q
        (record { cfg = refl; output = refl; latched = λ b. b }) l h
  call_safe k (moves machine) s q can l h =
      quiet k s (record s { machine = machine }) q
        (record { cfg = refl; output = refl; latched = λ b. b }) l h

  -- From a latched stop on, whatever calls are made, by whichever thread, the loop goes on without a
  -- panic and stays latched, and the consumer gets what waited in the output ring and after it, in
  -- order, none but safe commands: all axes neutral, the mode of the emergency stop, the flag raised.
  -- No limit may be negative or no number.
  pub safe_after_stop :
      (k : ℕ) (cs : List Call) (s : SafetyLoop) (q : List ControlCommand)
      → CanClamp fl s.cfg.limits
      → s.estop_latched ≡ true
      → Holds k s.output q
      → StaysSafe k s q (run fl cs s)
  unfolding run
  safe_after_stop k [] s q can l h =
      quiet k s s q (record { cfg = refl; output = refl; latched = λ b. b }) l h
  safe_after_stop k (c ∷ cs) s q can l h =
      let one = call_safe k c s q can l h in
      let rest =
        safe_after_stop k cs one.after one.waiting (rw one.cfg can) one.latched one.holds in
      record {
        after = rest.after;
        taken = one.taken ++ rest.taken;
        waiting = rest.waiting;
        safe = one.safe ++ rest.safe;
        returns = rw (run, one.returns, rest.returns) refl;
        in_order =
            append_assoc one.taken rest.taken rest.waiting
            ∙ ap (λ t. one.taken ++ t) rest.in_order
            ∙ sym (append_assoc one.taken one.waiting rest.safe)
            ∙ ap (λ t. t ++ rest.safe) one.in_order
            ∙ append_assoc q one.safe rest.safe;
        is_safe = All-append IsSafe one.safe rest.safe one.is_safe rest.is_safe;
        holds = rest.holds;
        latched = rest.latched;
        cfg = rest.cfg ∙ one.cfg;
      }
