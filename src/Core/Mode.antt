-- ===== src/Core/Mode.antt =====
-- crates/tpt-t-core/src/mode.rs: the modes, and the table of legal transitions.
use tpt_teleop.Prelude.{
  ℕ, Bool, true, false, Option, none, some, List, [], ◌∷◌, get_or, set, replicate, ◌==◌,
  if◌then◌else◌,
}

pub data Mode : Type 0 where
  auto assist full_teleop emergency_stop : Mode

pub Mode-discrete : Discrete Mode
Mode-discrete = hlevel

-- `Mode::ALL`
abbrev pub all : List Mode
all = auto ∷ assist ∷ full_teleop ∷ emergency_stop ∷ []

abbrev pub as_u8 : Mode → ℕ
as_u8 auto = 0
as_u8 assist = 1
as_u8 full_teleop = 2
as_u8 emergency_stop = 3

unfoldable pub from_u8 : ℕ → Option Mode
from_u8 v =
    if v == 0
    then some auto
    else if v == 1
    then some assist
    else if v == 2
    then some full_teleop
    else if v == 3
    then some emergency_stop
    else none

pub record Transition : Type 0 where
  pub from : Mode
  pub to : Mode
  pub at_unix_ns : ℕ

pub data ModeError : Type 0 where
  disallowed : Mode → Mode → ModeError

-- `[[bool; 4]; 4]`, row by row.
pub record TransitionTable : Type 0 where
  pub allowed : List (List Bool)

-- Reads one edge. Both indices are below 4, so the defaults are never read in a 4 by 4 table.
unfoldable pub allows : TransitionTable → Mode → Mode → Bool
allows t from to = get_or (get_or t.allowed (as_u8 from) []) (as_u8 to) false

unfoldable pub set_allowed : Mode → Mode → Bool → TransitionTable → TransitionTable
set_allowed from to allowed t = record {
  allowed = set t.allowed (as_u8 from) (set (get_or t.allowed (as_u8 from) []) (as_u8 to) allowed);
}

-- `for m in Mode::ALL { t.set_allowed(m, to, allowed) }`
unfoldable pub set_entries : List Mode → Mode → Bool → TransitionTable → TransitionTable
set_entries [] to allowed t = t
set_entries (m ∷ ms) to allowed t = set_entries ms to allowed (set_allowed m to allowed t)

unfoldable pub deny_entry : TransitionTable → Mode → TransitionTable
unfolding set_entries
deny_entry t to = set_entries all to false t

unfoldable pub spec_default : TransitionTable
unfolding set_entries set_allowed
spec_default =
    let t0 : TransitionTable = record { allowed = replicate 4 (replicate 4 false) } in
    let t1 = set_allowed auto assist true t0 in
    let t2 = set_allowed assist auto true t1 in
    let t3 = set_allowed assist full_teleop true t2 in
    let t4 = set_allowed full_teleop assist true t3 in
    let t5 = set_entries all emergency_stop true t4 in set_allowed emergency_stop assist true t5
