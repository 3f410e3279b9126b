-- ===== src/Link/Backpressure/Rate.antt =====
-- How much the token bucket lets through, and what its rounding withholds.
use tpt_teleop.Prelude.{
  ℕ, ◌+◌, ◌-◌, ◌*◌, ◌^◌, ◌<◌, ◌≤◌, ◌≡◌, ◌⊎◌, refl, ◌∙◌, ap, subst, arith, List, [], ◌∷◌, leb,
  if◌then◌else◌, Bool-cases, inl, inr, All,
}
use native.Mathlib.Nat.{mul-add}
use tpt_teleop.Link.Backpressure.Signal.{
  Backpressure, token_scale, gained, credit, refill, spend, admit, note_drop,
}

-- The bytes that a run of calls of `admit`, each with its size and its time, lets through, and the
-- signal after it.
unfoldable pub admit_all : List (ℕ × ℕ) → Backpressure → ℕ × Backpressure
admit_all [] bp = (0, bp)
admit_all ((bytes, now) ∷ calls) bp =
    let (admitted, bp') = admit bytes now bp in
    let (total, bp'') = admit_all calls bp' in ((if admitted then bytes else 0) + total, bp'')

-- `saturating_mul` of tokens is exact for a frame below 2^48 bytes.
abbrev pub IsFrameSize : ℕ × ℕ → Type 0
IsFrameSize call = call.0 < 2 ^ 48

-- Eight thousand million times the bytes that the tokens stand for, in units of one token.
gained_bound :
    (last now : ℕ) (bp : Backpressure)
    → gained last now bp * 8000000000 ≤ bp.capacity_bps * (now - last) * token_scale
unfolding gained
gained_bound last now bp = omega arith

-- A refill either finds no time passed or moves the clock to `now`.
refill_cases :
    (now : ℕ) (bp : Backpressure)
    → (refill now bp ≡ bp)
      ⊎ ((refill now bp).tokens ≤ bp.tokens + gained bp.last_refill_ns now bp)
        × ((refill now bp).last_refill_ns ≡ now)
        × (bp.last_refill_ns ≤ now)
        × ((refill now bp).capacity_bps ≡ bp.capacity_bps)
unfolding refill credit
refill_cases now bp = elim (Bool-cases (leb now bp.last_refill_ns)) [
  | inl early ↦ inl (rw early refl)
  | inr late ↦ inr (ground (arith, late))
]

refill_bound :
    (now : ℕ) (bp : Backpressure)
    → ((refill now bp).tokens * 8000000000
        ≤ bp.tokens * 8000000000
          + bp.capacity_bps * ((refill now bp).last_refill_ns - bp.last_refill_ns) * token_scale)
      × (bp.last_refill_ns ≤ (refill now bp).last_refill_ns)
      × ((refill now bp).capacity_bps ≡ bp.capacity_bps)
refill_bound now bp = elim (refill_cases now bp) [
  | inl e ↦ rw e (omega arith, omega arith, refl)
  | inr (more, at, before, bps) ↦
      rw at (omega (arith, more, gained_bound bp.last_refill_ns now bp), before, bps)
]

spend_bound :
    (bytes : ℕ) (bp : Backpressure)
    → bytes < 2 ^ 48
    → let (admitted, bp') = spend bytes bp in
      ((if admitted then bytes else 0) * token_scale + bp'.tokens ≡ bp.tokens)
      × (bp'.last_refill_ns ≡ bp.last_refill_ns)
      × (bp'.capacity_bps ≡ bp.capacity_bps)
unfolding spend note_drop
spend_bound bytes bp small = ground arith

admit_bound :
    (bytes now : ℕ) (bp : Backpressure)
    → bytes < 2 ^ 48
    → let (admitted, bp') = admit bytes now bp in
      (((if admitted then bytes else 0) * token_scale + bp'.tokens) * 8000000000
        ≤ bp.tokens * 8000000000
          + bp.capacity_bps * (bp'.last_refill_ns - bp.last_refill_ns) * token_scale)
      × (bp.last_refill_ns ≤ bp'.last_refill_ns)
      × (bp'.capacity_bps ≡ bp.capacity_bps)
unfolding admit
admit_bound bytes now bp small =
    let (spent, same, bps) = spend_bound bytes (refill now bp) small in
    let (more, later, bps') = refill_bound now bp in rw (spent, same) (more, later, bps ∙ bps')

-- What two stretches of time pay for, they pay for together.
two_calls :
    (x total t t' t'' bps bps' last last' last'' : ℕ)
    → last ≤ last'
    → last' ≤ last''
    → bps' ≡ bps
    → (x * token_scale + t') * 8000000000 ≤ t * 8000000000 + bps * (last' - last) * token_scale
    → (total * token_scale + t'') * 8000000000
      ≤ t' * 8000000000 + bps' * (last'' - last') * token_scale
    → ((x + total) * token_scale + t'') * 8000000000
      ≤ t * 8000000000 + bps * (last'' - last) * token_scale
two_calls x total t t' t'' bps bps' last last' last'' h h' same one rest =
    let whole : last'' - last ≡ (last' - last) + (last'' - last') = omega arith in
    let spread : bps * (last'' - last) ≡ bps * (last' - last) + bps * (last'' - last') =
      ap (λ n. bps * n) whole ∙ mul-add bps (last' - last) (last'' - last') in
    let rest' : (total * token_scale + t'') * 8000000000
        ≤ t' * 8000000000 + bps * (last'' - last') * token_scale =
      subst
        (λ c.
          (total * token_scale + t'') * 8000000000
          ≤ t' * 8000000000 + c * (last'' - last') * token_scale)
        same rest in
    omega (arith, spread, one, rest')

-- Whatever calls of `admit` are made, in whatever order of their times, the bytes let through are
-- paid for by the tokens there were and by the link's capacity over the time that passed: eight
-- bits to a byte and a thousand million nanoseconds to a second. (No frame has 2 ^ 48 bytes or more.)
pub admitted_within_capacity :
    (calls : List (ℕ × ℕ)) (bp : Backpressure)
    → All IsFrameSize calls
    → let (total, bp') = admit_all calls bp in
      ((total * token_scale + bp'.tokens) * 8000000000
        ≤ bp.tokens * 8000000000
          + bp.capacity_bps * (bp'.last_refill_ns - bp.last_refill_ns) * token_scale)
      × (bp.last_refill_ns ≤ bp'.last_refill_ns)
      × (bp'.capacity_bps ≡ bp.capacity_bps)
unfolding admit_all
admitted_within_capacity [] bp tt = (omega arith, omega arith, refl)
admitted_within_capacity ((bytes, now) ∷ calls) bp (small, smalls) =
    let (one, before, bps) = admit_bound bytes now bp small in
    let (rest, after, bps') = admitted_within_capacity calls (admit bytes now bp).1 smalls in
    (
      two_calls (if (admit bytes now bp).0 then bytes else 0) _ bp.tokens _ _ bp.capacity_bps _ _ _
          _ before after bps one rest,
      omega (arith, before, after),
      bps' ∙ bps,
    )

gained_nothing :
    (now : ℕ) (bp : Backpressure)
    → bp.capacity_bps * (now - bp.last_refill_ns) < 8000000000
    → gained bp.last_refill_ns now bp ≡ 0
unfolding gained
gained_nothing now bp soon = omega arith

-- A call of `refill` at each of these times, in turn.
unfoldable pub refill_all : List ℕ → Backpressure → Backpressure
refill_all [] bp = bp
refill_all (now ∷ times) bp = refill_all times (refill now bp)

-- Each time comes so soon after the one before it that the link carries less than one byte between
-- them.
unfoldable pub IsFrequent : ℕ → ℕ → List ℕ → Type 0
IsFrequent bps last [] = Unit
IsFrequent bps last (now ∷ times) =
    (last ≤ now) × (bps * (now - last) < 8000000000) × IsFrequent bps now times

refill_soon :
    (now : ℕ) (bp : Backpressure)
    → bp.last_refill_ns ≤ now
    → bp.capacity_bps * (now - bp.last_refill_ns) < 8000000000
    → ((refill now bp).tokens ≡ bp.tokens)
      × ((refill now bp).capacity_bps ≡ bp.capacity_bps)
      × ((refill now bp).last_refill_ns ≡ now)
unfolding refill credit
refill_soon now bp later soon =
    let nothing : gained bp.last_refill_ns now bp ≡ 0 = gained_nothing now bp soon in
    ground (arith, nothing)

-- A bucket that is refilled so often that less than one byte is due each time never gains a token,
-- however long that goes on.
pub frequent_refills_gain_nothing :
    (times : List ℕ) (bp : Backpressure)
    → IsFrequent bp.capacity_bps bp.last_refill_ns times
    → (refill_all times bp).tokens ≡ bp.tokens
unfolding refill_all IsFrequent
frequent_refills_gain_nothing [] bp tt = refl
frequent_refills_gain_nothing (now ∷ times) bp (later, soon, rest) =
    let (same, bps, at) = refill_soon now bp later soon in
    frequent_refills_gain_nothing times (refill now bp) (rw (bps, at) rest) ∙ same
