-- ===== src/Cloud/Fleet.antt =====
-- crates/tpt-t-cloud/src/fleet.rs: the sessions of many units behind one orchestrator. The transport
-- and the recorders are parameters, as the traits make them, and so is the clock.
use tpt_teleop.Prelude.{
  ℕ, zero, suc, Bool, true, false, Option, none, some, List, [], ◌∷◌, ◌==◌, ◌&&◌, not,
  if◌then◌else◌,
}
use tpt_teleop.Prelude.Words.{wrapping_add_64}
use tpt_teleop.Core.Mode.{
  Mode, as_u8, auto, assist, full_teleop, emergency_stop, TransitionTable, allows, spec_default,
}
use tpt_teleop.Core.Ser.{ControlCommand, zeroed}
use tpt_teleop.Cloud.Sfu.{SfuFanout, frame, publish, subscribe, subscriber_count}
use tpt_teleop.Cloud.Sfu
pub mod Paths
pub mod Commands
mod Tests

-- `UnitTransport`: whether the command was sent, and the transport.
pub record UnitTransport (T : Type 0) : Type 0 where
  pub send_command : ℕ → ControlCommand → T → Bool × T

-- `Recorder`, and the recorder that `provision` makes for a unit.
pub record RecorderOps (R : Type 0) : Type 0 where
  pub record_frame : ℕ → ℕ → List ℕ → R → Bool × R
  pub create : ℕ → R

pub record UnitState (R : Type 0) : Type 0 where
  pub id : ℕ
  pub addr : ℕ
  pub mode : Mode
  pub assigned_operator : Option (List ℕ)
  pub last_seq : ℕ
  pub cmd_seq : ℕ
  pub created_ns : ℕ
  pub last_seen_ns : ℕ
  pub sfu : SfuFanout
  pub recorder : R

pub record Fleet (R T : Type 0) : Type 0 where
  pub units : ℕ → Option (UnitState R)
  pub transport : T
  pub table : TransitionTable

-- `Result<(), CloudError>`
pub data Outcome : Type 0 where
  ok : Outcome
  not_found : ℕ → Outcome
  already_exists : ℕ → Outcome
  mode_disallowed : Mode → Mode → Outcome
  transport_failed : Outcome
  recorder_failed : Outcome

-- `from == to`
abbrev pub same_mode : Mode → Mode → Bool
same_mode a b = as_u8 a == as_u8 b

unfoldable pub path_via : TransitionTable → Mode → Mode → Option (List Mode)
path_via table from to =
    if same_mode from to
    then some []
    else if allows table from to
    then some (to ∷ [])
    else if not (same_mode from assist)
        && not (same_mode to assist)
        && allows table from assist
        && allows table assist to
    then some (assist ∷ to ∷ [])
    else none

unfoldable pub make_command : ℕ → Mode → ℕ → ControlCommand
make_command now_ns mode seq = record (zeroed mode) { seq = seq; timestamp_ns = now_ns }

module _ {R : Type 0} where
  -- `insert` in the map of units.
  unfoldable pub put : ℕ → UnitState R → (ℕ → Option (UnitState R)) → ℕ → Option (UnitState R)
  put id u units other = if other == id then some u else units other

  unfoldable pub fresh_unit : ℕ → ℕ → ℕ → R → UnitState R
  fresh_unit id addr now_ns recorder = record {
    id = id;
    addr = addr;
    mode = assist;
    assigned_operator = none;
    last_seq = 0;
    cmd_seq = 0;
    created_ns = now_ns;
    last_seen_ns = now_ns;
    sfu = Sfu.new;
    recorder = recorder;
  }

  -- The unit after `provision`.
  unfoldable pub provisioned : RecorderOps R → ℕ → ℕ → ℕ → Option (UnitState R) → UnitState R
  provisioned ops now_ns id addr none = fresh_unit id addr now_ns (ops.create id)
  provisioned ops now_ns id addr (some u) = record u { addr = addr; last_seen_ns = now_ns }

module _ {R T : Type 0} where
  unfoldable pub new : T → Fleet R T
  new transport = record { units = λ id. none; transport = transport; table = spec_default }

  unfoldable pub register_unit : ℕ → ℕ → ℕ → R → Fleet R T → Outcome × Fleet R T
  unfolding put
  register_unit now_ns id addr recorder f = elim (f.units id) [
    | some u ↦ (already_exists id, f)
    | none ↦ (ok, record f { units = put id (fresh_unit id addr now_ns recorder) f.units })
  ]

  unfoldable pub assign : ℕ → List ℕ → Fleet R T → Outcome × Fleet R T
  unfolding put
  assign id operator f = elim (f.units id) [
    | none ↦ (not_found id, f)
    | some u ↦
        (ok, record f { units = put id (record u { assigned_operator = some operator }) f.units })
  ]

  -- The loop of `set_mode`: whether every command was sent, the unit and the transport. `clock` is the
  -- time that is read when the command of a number is made.
  unfoldable pub send_path :
      UnitTransport T → (ℕ → ℕ) → ℕ → List Mode → UnitState R → T → Bool × UnitState R × T
  unfolding make_command
  send_path ops clock addr [] u t = (true, u, t)
  send_path ops clock addr (next ∷ path) u t =
      let (sent, t') = ops.send_command addr (make_command (clock u.cmd_seq) next u.cmd_seq) t in
      let rest =
        send_path ops clock addr path
          (record u { mode = next; cmd_seq = wrapping_add_64 u.cmd_seq 1 }) t' in
      if sent then rest else (false, u, t')

  -- `set_mode` for a unit that is there, with its path.
  unfoldable pub command_path :
      UnitTransport T
      → (ℕ → ℕ)
      → ℕ
      → Mode
      → UnitState R
      → Option (List Mode)
      → Fleet R T
      → Outcome × Fleet R T
  unfolding send_path put
  command_path ops clock id target u none f = (mode_disallowed u.mode target, f)
  command_path ops clock id target u (some path) f =
      let (all, u', t) = send_path ops clock u.addr path u f.transport in
      (
        (if all then ok else transport_failed),
        record f { units = put id u' f.units; transport = t },
      )

  unfoldable pub set_mode : UnitTransport T → (ℕ → ℕ) → ℕ → Mode → Fleet R T → Outcome × Fleet R T
  unfolding command_path path_via
  set_mode ops clock id target f = elim (f.units id) [
    | none ↦ (not_found id, f)
    | some u ↦ command_path ops clock id target u (path_via f.table u.mode target) f
  ]

  unfoldable pub engage_autonomy : UnitTransport T → (ℕ → ℕ) → ℕ → Fleet R T → Outcome × Fleet R T
  unfolding set_mode
  engage_autonomy ops clock id f = set_mode ops clock id auto f

  unfoldable pub take_manual_control :
      UnitTransport T → (ℕ → ℕ) → ℕ → Fleet R T → Outcome × Fleet R T
  unfolding set_mode
  take_manual_control ops clock id f = set_mode ops clock id full_teleop f

  unfoldable pub ingest :
      RecorderOps R → ℕ → ℕ → ℕ → ℕ → ℕ → List ℕ → Fleet R T → Outcome × Fleet R T
  unfolding provisioned put
  ingest ops now_ns id addr channel seq payload f =
      let u = record (provisioned ops now_ns id addr (f.units id)) {
        last_seq = seq;
        last_seen_ns = now_ns;
      } in
      let (kept, recorder) = ops.record_frame channel seq payload u.recorder in
      let u' : UnitState R = record u { recorder = recorder } in
      let u'' : UnitState R = record u' { sfu = (publish (frame channel seq payload) u'.sfu).1 } in
      if kept
      then (ok, record f { units = put id u'' f.units })
      else (recorder_failed, record f { units = put id u' f.units })

  -- The subscriber's id, where the unit is there.
  unfoldable pub attach_subscriber : ℕ → ℕ → Fleet R T → Option ℕ × Fleet R T
  unfolding put
  attach_subscriber id capacity f = elim (f.units id) [
    | none ↦ (none, f)
    | some u ↦
        let (sub, sfu) = subscribe capacity u.sfu in
        (some sub, record f { units = put id (record u { sfu = sfu }) f.units })
  ]

  unfoldable pub unit_subscribers : ℕ → Fleet R T → Option ℕ
  unit_subscribers id f = elim (f.units id) [ none ↦ none | some u ↦ some (subscriber_count u.sfu) ]
