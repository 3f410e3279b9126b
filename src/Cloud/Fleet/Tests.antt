-- ===== src/Cloud/Fleet/Tests.antt =====
-- The fleet of crates/tpt-t-cloud/src/fleet.rs with a transport that fails where it is told to.
use tpt_teleop.Prelude.{◌+◌, ℕ, ◌≡◌, refl, arith, Bool, true, false, none, some, List, [], ◌∷◌}
use tpt_teleop.Core.Mode.{
  Mode, assist, full_teleop, emergency_stop, spec_default, allows, set_entries, set_allowed,
}
use tpt_teleop.Cloud.Fleet.{
  UnitTransport, UnitState, Fleet, ok, transport_failed, path_via, set_mode, command_path,
  send_path,
}
use tpt_teleop.Cloud.Fleet.Paths.{Route, path_via-Route}
use tpt_teleop.Cloud.Fleet.Commands.{IsMoved, set_mode_lem}

abbrev next_answer : List Bool → Bool × List Bool
next_answer [] = (false, [])
next_answer (b ∷ bs) = (b, bs)

abbrev scripted : UnitTransport (List Bool)
scripted = record { send_command = λ addr cmd t. next_answer t }

abbrev stopped_unit : UnitState ℕ
stopped_unit = record {
  id = 7;
  addr = 5000;
  mode = emergency_stop;
  assigned_operator = none;
  last_seq = 0;
  cmd_seq = 3;
  created_ns = 0;
  last_seen_ns = 0;
  sfu = record { next = 1; subs = [] };
  recorder = 0;
}

-- A fleet whose transport sends the first command and fails at the second.
abbrev fleet : Fleet ℕ (List Bool)
fleet = record {
  units = λ id. some stopped_unit;
  transport = true ∷ false ∷ [];
  table = spec_default;
}

set_mode_example :
    (u' : UnitState ℕ) × (done : List Mode) × ((set_mode scripted
          (λ seq. seq + 9)
          7
          full_teleop
          fleet).1.units
        7
      ≡ some u')
    × IsMoved spec_default stopped_unit done u'
    × ((set_mode scripted (λ seq. seq + 9) 7 full_teleop fleet).0 ≡ ok → u'.mode ≡ full_teleop)
set_mode_example =
    set_mode_lem scripted (λ seq. seq + 9) 7 full_teleop stopped_unit fleet refl (omega arith)

half_way : (set_mode scripted (λ seq. seq + 9) 7 full_teleop fleet).0 ≡ transport_failed
unfolding set_mode command_path send_path path_via allows spec_default set_entries set_allowed
half_way = refl

out_of_the_stop : Route spec_default emergency_stop (assist ∷ full_teleop ∷ []) full_teleop
unfolding path_via allows spec_default set_entries set_allowed
out_of_the_stop =
    path_via-Route spec_default emergency_stop full_teleop (assist ∷ full_teleop ∷ []) refl
