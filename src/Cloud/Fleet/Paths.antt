-- ===== src/Cloud/Fleet/Paths.antt =====
-- The staged paths of `Fleet::path_via` of crates/tpt-t-cloud/src/fleet.rs.
use tpt_teleop.Prelude.{
  ◌≡◌, refl, ap, subst, arith, ◌⊎◌, inl, inr, Bool, true, false, none, some, List, [], ◌∷◌, ◌&&◌,
  not, if◌then◌else◌,
}
use tpt_teleop.Core.Mode.{
  Mode, auto, assist, full_teleop, emergency_stop, TransitionTable, allows, spec_default,
  set_entries, set_allowed,
}
use tpt_teleop.Cloud.Fleet.{path_via, same_mode}

-- From one mode to another by allowed edges.
pub data Route (table : TransitionTable) : Mode → List Mode → Mode → Type 0 where
  here : {m : Mode} → Route table m [] m
  go :
      {a b c : Mode} {path : List Mode}
      → allows table a b ≡ true
      → Route table b path c
      → Route table a (b ∷ path) c

same_mode_lem : (a b : Mode) → same_mode a b ≡ true → a ≡ b
same_mode_lem auto auto e = refl
same_mode_lem auto assist e = absurd (ground (arith, e))
same_mode_lem auto full_teleop e = absurd (ground (arith, e))
same_mode_lem auto emergency_stop e = absurd (ground (arith, e))
same_mode_lem assist auto e = absurd (ground (arith, e))
same_mode_lem assist assist e = refl
same_mode_lem assist full_teleop e = absurd (ground (arith, e))
same_mode_lem assist emergency_stop e = absurd (ground (arith, e))
same_mode_lem full_teleop auto e = absurd (ground (arith, e))
same_mode_lem full_teleop assist e = absurd (ground (arith, e))
same_mode_lem full_teleop full_teleop e = refl
same_mode_lem full_teleop emergency_stop e = absurd (ground (arith, e))
same_mode_lem emergency_stop auto e = absurd (ground (arith, e))
same_mode_lem emergency_stop assist e = absurd (ground (arith, e))
same_mode_lem emergency_stop full_teleop e = absurd (ground (arith, e))
same_mode_lem emergency_stop emergency_stop e = refl

some_equal : (xs ys : List Mode) → some xs ≡ some ys → xs ≡ ys
some_equal xs ys e = ap (λ o. elim o [ none ↦ xs | some zs ↦ zs ]) e

-- Which branch gave a path.
chosen :
    (a b c : Bool) (p q r path : List Mode)
    → (if a then some p else if b then some q else if c then some r else none) ≡ some path
    → ((a ≡ true) × (p ≡ path)) ⊎ (((b ≡ true) × (q ≡ path)) ⊎ ((c ≡ true) × (r ≡ path)))
chosen true b c p q r path e = inl (refl, some_equal p path e)
chosen false true c p q r path e = inr (inl (refl, some_equal q path e))
chosen false false true p q r path e = inr (inr (refl, some_equal r path e))
chosen false false false p q r path e = absurd (ground (arith, e))

-- A path that is found goes from one mode to the other by edges that the table allows.
pub path_via-Route :
    (table : TransitionTable) (from to : Mode) (path : List Mode)
    → path_via table from to ≡ some path
    → Route table from path to
unfolding path_via
path_via-Route table from to path e =
    elim (chosen (same_mode from to) (allows table from to)
      (not (same_mode from assist)
        && not (same_mode to assist)
        && allows table from assist
        && allows table assist to)
      [] (to ∷ []) (assist ∷ to ∷ []) path e) [
        | inl (same, p) ↦
            subst (λ l. Route table from l to) p
              (subst (Route table from []) (same_mode_lem from to same) here)
        | inr (inl (direct, p)) ↦ subst (λ l. Route table from l to) p (go direct here)
        | inr (inr (staged, p)) ↦
            subst (λ l. Route table from l to) p
              (go (ground (arith, staged)) (go (ground (arith, staged)) here))
      ]

-- With the default table there is a path between any two modes, also out of the emergency stop.
pub path_via-spec_default :
    (from to : Mode) → (path : List Mode) × (path_via spec_default from to ≡ some path)
unfolding path_via spec_default allows set_entries set_allowed
path_via-spec_default auto auto = ([], refl)
path_via-spec_default auto assist = (assist ∷ [], refl)
path_via-spec_default auto full_teleop = (assist ∷ full_teleop ∷ [], refl)
path_via-spec_default auto emergency_stop = (emergency_stop ∷ [], refl)
path_via-spec_default assist auto = (auto ∷ [], refl)
path_via-spec_default assist assist = ([], refl)
path_via-spec_default assist full_teleop = (full_teleop ∷ [], refl)
path_via-spec_default assist emergency_stop = (emergency_stop ∷ [], refl)
path_via-spec_default full_teleop auto = (assist ∷ auto ∷ [], refl)
path_via-spec_default full_teleop assist = (assist ∷ [], refl)
path_via-spec_default full_teleop full_teleop = ([], refl)
path_via-spec_default full_teleop emergency_stop = (emergency_stop ∷ [], refl)
path_via-spec_default emergency_stop auto = (assist ∷ auto ∷ [], refl)
path_via-spec_default emergency_stop assist = (assist ∷ [], refl)
path_via-spec_default emergency_stop full_teleop = (assist ∷ full_teleop ∷ [], refl)
path_via-spec_default emergency_stop emergency_stop = ([], refl)
