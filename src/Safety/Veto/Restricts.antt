-- ===== src/Safety/Veto/Restricts.antt =====
-- The veto of crates/tpt-t-safety/src/veto.rs takes from a command and adds nothing.
use tpt_teleop.Prelude.{
  ℕ, zero, suc, ◌≡◌, ◌⊎◌, inl, inr, refl, sym, ap, ◌∙◌, arith, Bool, true, false, not, List, [],
  ◌∷◌, get_or, set, Bool-cases, if◌then◌else◌,
}
use tpt_teleop.Core.Ser.{ControlCommand}
use tpt_teleop.Safety.Floats.{FloatOps, neg, clamp}
use tpt_teleop.Safety.Veto.{VetoGate, cap, translational, apply_axes, apply}

-- Writing back what was read.
set_own : (xs : List ℕ) (i : ℕ) → set xs i (get_or xs i 0) ≡ xs
set_own [] i = refl
set_own (x ∷ xs) zero = refl
set_own (x ∷ xs) (suc i) = ap (λ l. x ∷ l) (set_own xs i)

module _ (f32 : FloatOps) where
  -- A value within the cap is left; one outside goes to the nearer bound.
  unfoldable pub Restricted : ℕ → ℕ → ℕ → Type 0
  Restricted c before after =
      ((after ≡ before) × (f32.lt before (neg c) ≡ false) × (f32.lt c before ≡ false))
      ⊎ (((after ≡ neg c) × (f32.lt before (neg c) ≡ true))
          ⊎ ((after ≡ c) × (f32.lt c before ≡ true)))

  -- One axis after its turn in the loop.
  kept : ℕ → ℕ → ℕ
  unfolding clamp
  kept c v = if not (f32.eq (clamp f32 v (neg c) c) v) then clamp f32 v (neg c) c else v

  -- Floats that are equal are not apart, whichever of the two zeros they are.
  unfoldable pub OrderLaw : Type 0
  OrderLaw = (a b : ℕ) → f32.eq a b ≡ true → (f32.lt a b ≡ false) × (f32.lt b a ≡ false)

  kept_lem : (c v : ℕ) → OrderLaw → Restricted c v (kept c v)
  unfolding kept clamp Restricted OrderLaw
  kept_lem c v law = elim (Bool-cases (f32.lt v (neg c))) [
    | inl low ↦ elim (Bool-cases (f32.eq (neg c) v)) [
      | inl same ↦ absurd (ground (arith, low, (law (neg c) v same).1))
      | inr other ↦ inr (inl (ground (arith, low, other), low))
    ]
    | inr high ↦ elim (Bool-cases (f32.lt c v)) [
      | inl above ↦ elim (Bool-cases (f32.eq c v)) [
        | inl same ↦ absurd (ground (arith, above, (law c v same).0))
        | inr other ↦ inr (inr (ground (arith, high, above, other), above))
      ]
      | inr within ↦ inl (ground (arith, high, within), high, within)
    ]
  ]

  turn : ℕ → ℕ → List ℕ → List ℕ
  turn c ax xs = set xs ax (kept c (get_or xs ax 0))

  -- A round of the loop, whether the flag is raised or not.
  round_lem :
      (c ax : ℕ) (rest : List ℕ) (cmd : ControlCommand) (touched : Bool)
      → (touched' : Bool) × ((apply_axes f32 c (ax ∷ rest) cmd touched).1
          ≡ (apply_axes f32 c rest (record cmd { axes = turn c ax cmd.axes }) touched').1)
  unfolding apply_axes turn kept
  round_lem c ax rest cmd touched =
      let before = get_or cmd.axes ax 0 in
      elim (Bool-cases (not (f32.eq (clamp f32 before (neg c) c) before))) [
        | inl y ↦ (true, rw (apply_axes, turn, kept, y) refl)
        | inr n ↦ (
          touched,
          rw (apply_axes, turn, kept, n)
              (ap (λ xs. (apply_axes f32 c rest (record cmd { axes = xs }) touched).1)
                (sym (set_own cmd.axes ax))),
        )
      ]

  axes_lem :
      (c : ℕ) (cmd : ControlCommand) (touched : Bool) (r p y t x w : ℕ)
      → cmd.axes ≡ r ∷ p ∷ y ∷ t ∷ x ∷ w ∷ []
      → (apply_axes f32 c translational cmd touched).1
        ≡ record cmd { axes = kept c r ∷ kept c p ∷ y ∷ t ∷ kept c x ∷ kept c w ∷ [] }
  unfolding apply_axes turn
  axes_lem c cmd touched r p y t x w e =
      let (b0, e0) = round_lem c 0 (1 ∷ 4 ∷ 5 ∷ []) cmd touched in
      let cmd1 : ControlCommand = record cmd { axes = turn c 0 cmd.axes } in
      let (b1, e1) = round_lem c 1 (4 ∷ 5 ∷ []) cmd1 b0 in
      let cmd2 : ControlCommand = record cmd { axes = turn c 1 cmd1.axes } in
      let (b2, e2) = round_lem c 4 (5 ∷ []) cmd2 b1 in
      let cmd3 : ControlCommand = record cmd { axes = turn c 4 cmd2.axes } in
      let (b3, e3) = round_lem c 5 [] cmd3 b2 in
      e0
      ∙ e1
      ∙ e2
      ∙ e3
      ∙ ap (λ xs. record cmd { axes = turn c 5 (turn c 4 (turn c 1 (turn c 0 xs))) }) e

  -- An engaged veto changes no more than the four translational axes, and each of these only where it
  -- is outside the cap: then to the bound that it passed. (Floats that are equal are not apart.)
  pub apply-Restricted :
      (g : VetoGate) (cmd : ControlCommand) (r p y t x w : ℕ)
      → OrderLaw
      → g.active ≡ true
      → cmd.axes ≡ r ∷ p ∷ y ∷ t ∷ x ∷ w ∷ []
      → (r' : ℕ) × (p' : ℕ) × (x' : ℕ) × (w' : ℕ) × ((apply f32 g cmd).1
          ≡ record cmd { axes = r' ∷ p' ∷ y ∷ t ∷ x' ∷ w' ∷ [] })
        × Restricted (cap f32 g) r r'
        × Restricted (cap f32 g) p p'
        × Restricted (cap f32 g) x x'
        × Restricted (cap f32 g) w w'
  unfolding apply
  apply-Restricted g cmd r p y t x w law on e =
      let c = cap f32 g in
      (
        kept c r,
        kept c p,
        kept c x,
        kept c w,
        rw (apply, on) (axes_lem c cmd false r p y t x w e),
        kept_lem c r law,
        kept_lem c p law,
        kept_lem c x law,
        kept_lem c w law,
      )
