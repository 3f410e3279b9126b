-- ===== src/Ring/Window.antt =====
-- The slots from a cursor on, as the queue of the values that they hold.
use native.Mathlib.Nat.{add-zero, mod-lt, mod-add-mod}
use tpt_teleop.Prelude.{
  ℕ, suc, ◌+◌, ◌%◌, ◌<◌, ◌≡◌, sym, ◌∙◌, ap, subst, arith, Option, some, List, [], ◌∷◌, ◌++◌, length,
  get_elem?, set, get_elem?-set_self, get_elem?-set_ne,
}
use tpt_teleop.Prelude.PowTwo.{eq_of_mod_eq}

suc-mod : (c h h' : ℕ) → h % c ≡ h' % c → suc h % c ≡ suc h' % c
suc-mod c h h' e = step h ∙ ap (λ (t : ℕ). (t + 1) % c) e ∙ sym (step h')
  where
    step : (n : ℕ) → suc n % c ≡ (n % c + 1) % c
    step n = ap (λ (t : ℕ). t % c) (omega arith) ∙ sym (mod-add-mod n c 1)

module _ {ℓ} {A : Type ℓ} where
  -- From the index `h % c` on, going round at `c`, the slots hold the queue's values.
  abbrev pub Window : List (Option A) → ℕ → ℕ → List A → Type ℓ
  Window slots c h [] = Unit
  Window slots c h (x ∷ q) = (get_elem? slots (h % c) ≡ some (some x)) × Window slots c (suc h) q

  -- Only the place of the cursor modulo `c` matters.
  pub Window-congr :
      (slots : List (Option A)) (c h h' : ℕ) (q : List A)
      → h % c ≡ h' % c
      → Window slots c h q
      → Window slots c h' q
  Window-congr slots c h h' [] e w = tt
  Window-congr slots c h h' (x ∷ q) e (w, ws) =
      (rw (sym e) w, Window-congr slots c (suc h) (suc h') q (suc-mod c h h' e) ws)

  -- A write just past the window extends it by that value.
  pub Window-set :
      (slots : List (Option A)) (c h : ℕ) (q : List A) (v : A)
      → length slots ≡ c
      → length q < c
      → Window slots c h q
      → Window (set slots ((h + length q) % c) (some v)) c h (q ++ v ∷ [])
  Window-set slots c h [] v l f w =
      (rw (add-zero h) (get_elem?-set_self slots (h % c) (some v) (omega (arith, mod-lt h f))), tt)
  Window-set slots c h (x ∷ q) v l f (w, ws) = (
    get_elem?-set_ne slots (some v) (λ e. absurd (apart (sym e))) ∙ w,
    subst (λ (n : ℕ). Window (set slots (n % c) (some v)) c (suc h) (q ++ v ∷ [])) (omega arith)
        (Window-set slots c (suc h) q v l (omega arith) ws),
  )
    where
      apart : ¬ (h % c ≡ (h + suc (length q)) % c)
      apart e = omega (arith, eq_of_mod_eq c h (h + suc (length q)) e (omega arith) (omega arith))
