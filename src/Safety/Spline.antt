-- ===== src/Safety/Spline.antt =====
-- crates/tpt-t-safety/src/spline.rs: the weight of the operator, and its way from one mode to another.
use tpt_teleop.Prelude.{ℕ}
use tpt_teleop.Core.Mode.{Mode, auto, assist, full_teleop, emergency_stop}
use tpt_teleop.Safety.Floats.{Floats, fmax, fmin, clamp, one, half, thousandth}
use tpt_teleop.Safety.Wide

pub record AuthorityBlend : Type 0 where
  pub from_weight : ℕ
  pub to_weight : ℕ
  pub duration_s : ℕ
  pub elapsed_s : ℕ

unfoldable pub authority_target : Mode → ℕ
authority_target auto = 0
authority_target assist = half
authority_target full_teleop = one
authority_target emergency_stop = 0

module _ (fl : Floats) where
  unfoldable pub smootherstep : ℕ → ℕ
  unfolding clamp
  smootherstep x0 =
      let x = clamp fl.f64 x0 0 Wide.one in
      fl.f64.mul (fl.f64.mul (fl.f64.mul x x) x)
        (fl.f64.add (fl.f64.mul x (fl.f64.sub (fl.f64.mul x Wide.six) Wide.fifteen)) Wide.ten)

  unfoldable pub new_blend : ℕ → ℕ → ℕ → AuthorityBlend
  unfolding fmax
  new_blend from_weight to_weight duration_s = record {
    from_weight = from_weight;
    to_weight = to_weight;
    duration_s = fmax fl.f32 duration_s thousandth;
    elapsed_s = 0;
  }

  unfoldable pub weight : AuthorityBlend → ℕ
  unfolding smootherstep
  weight b =
      let s =
        fl.narrow (smootherstep (fl.f64.div (fl.widen b.elapsed_s) (fl.widen b.duration_s))) in
      fl.f32.add b.from_weight (fl.f32.mul (fl.f32.sub b.to_weight b.from_weight) s)

  unfoldable pub advance : ℕ → AuthorityBlend → ℕ × AuthorityBlend
  unfolding weight fmin
  advance dt_s b =
      let b' = record b { elapsed_s = fmin fl.f32 (fl.f32.add b.elapsed_s dt_s) b.duration_s } in
      (weight b', b')
