-- ===== src/Core/Table.antt =====
-- What the transition table promises: the staged handover policy, and its reads after its writes.
use tpt_teleop.Prelude.{
  ℕ, ◌<◌, ◌≡◌, ◌↔◌, refl, arith, Bool, true, false, some, [], length, get_or, set, length-set,
  get_or-set, ◌∙◌, ◌==◌, if◌then◌else◌, ◌&&◌,
}
use tpt_teleop.Core.Mode.{
  Mode, auto, assist, full_teleop, emergency_stop, as_u8, from_u8, TransitionTable, allows,
  set_allowed, deny_entry, spec_default,
}

-- A byte decodes to a mode exactly when it is that mode's discriminant.
pub from_u8_iff : (v : ℕ) (m : Mode) → (from_u8 v ≡ some m) ↔ (v ≡ as_u8 m)
unfolding from_u8
from_u8_iff v m = ground arith

-- The policy of the module's documentation: stage through assist, and stop from anywhere.
pub data Staged : Mode → Mode → Type 0 where
  engage : Staged auto assist
  release : Staged assist auto
  take_over : Staged assist full_teleop
  hand_back : Staged full_teleop assist
  stop : (m : Mode) → Staged m emergency_stop
  acknowledge : Staged emergency_stop assist

Staged-allows : {from to : Mode} → Staged from to → allows spec_default from to ≡ true
unfolding allows spec_default
Staged-allows engage = refl
Staged-allows release = refl
Staged-allows take_over = refl
Staged-allows hand_back = refl
Staged-allows (stop auto) = refl
Staged-allows (stop assist) = refl
Staged-allows (stop full_teleop) = refl
Staged-allows (stop emergency_stop) = refl
Staged-allows acknowledge = refl

allows-Staged : (from to : Mode) → allows spec_default from to ≡ true → Staged from to
unfolding allows spec_default
allows-Staged auto assist e = engage
allows-Staged assist auto e = release
allows-Staged assist full_teleop e = take_over
allows-Staged full_teleop assist e = hand_back
allows-Staged m emergency_stop e = stop m
allows-Staged emergency_stop assist e = acknowledge
allows-Staged auto auto e = cc
allows-Staged auto full_teleop e = cc
allows-Staged assist assist e = cc
allows-Staged full_teleop auto e = cc
allows-Staged full_teleop full_teleop e = cc
allows-Staged emergency_stop auto e = cc
allows-Staged emergency_stop full_teleop e = cc

-- The default table permits exactly the staged handovers.
pub spec_default_iff : (from to : Mode) → (allows spec_default from to ≡ true) ↔ Staged from to
spec_default_iff from to = (allows-Staged from to, Staged-allows)

-- The table has four rows of four entries.
pub record IsSquare (t : TransitionTable) : Type 0 where
  pub rows : length t.allowed ≡ 4
  pub columns : (m : Mode) → length (get_or t.allowed (as_u8 m) []) ≡ 4

as_u8-lt : (m : Mode) → as_u8 m < 4
as_u8-lt m = ground arith

pub same : Mode → Mode → Bool
same a b = as_u8 a == as_u8 b

-- A read after a write gives what was written at that edge, and what was there at any other.
pub allows-set_allowed :
    (t : TransitionTable) (from to a b : Mode) (v : Bool)
    → IsSquare t
    → allows (set_allowed from to v t) a b ≡ (if same from a && same to b then v else allows t a b)
unfolding allows set_allowed same
allows-set_allowed t from to a b v sq = ground (
  arith,
  as_u8-lt from,
  as_u8-lt to,
  sq.rows,
  sq.columns from,
  get_or-set t.allowed (as_u8 from) (as_u8 a) (set (get_or t.allowed (as_u8 from) []) (as_u8 to) v)
      [],
  get_or-set (get_or t.allowed (as_u8 from) []) (as_u8 to) (as_u8 b) v false,
)

set_allowed-IsSquare :
    (t : TransitionTable) (from to : Mode) (v : Bool)
    → IsSquare t
    → IsSquare (set_allowed from to v t)
unfolding set_allowed
set_allowed-IsSquare t from to v sq = record {
  rows =
      length-set t.allowed (as_u8 from) (set (get_or t.allowed (as_u8 from) []) (as_u8 to) v)
      ∙ sq.rows;
  columns = λ m. ground (
    arith,
    as_u8-lt from,
    sq.rows,
    sq.columns m,
    sq.columns from,
    length-set (get_or t.allowed (as_u8 from) []) (as_u8 to) v,
    get_or-set t.allowed (as_u8 from) (as_u8 m)
        (set (get_or t.allowed (as_u8 from) []) (as_u8 to) v) [],
  );
}

-- After `deny_entry` no edge leads into that mode, and every other edge is as it was.
pub allows-deny_entry :
    (t : TransitionTable) (to a b : Mode)
    → IsSquare t
    → allows (deny_entry t to) a b ≡ (if same to b then false else allows t a b)
unfolding deny_entry same
allows-deny_entry t to a b sq =
    let t1 = set_allowed auto to false t in
    let s1 = set_allowed-IsSquare t auto to false sq in
    let t2 = set_allowed assist to false t1 in
    let s2 = set_allowed-IsSquare t1 assist to false s1 in
    let t3 = set_allowed full_teleop to false t2 in
    let s3 = set_allowed-IsSquare t2 full_teleop to false s2 in
    ground (
      arith,
      allows-set_allowed t auto to a b false sq,
      allows-set_allowed t1 assist to a b false s1,
      allows-set_allowed t2 full_teleop to a b false s2,
      allows-set_allowed t3 emergency_stop to a b false s3,
    )
