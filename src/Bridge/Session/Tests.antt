-- ===== src/Bridge/Session/Tests.antt =====
-- Runs of a session of crates/tpt-t-domain-bridge/src/session.rs, with an adapter that counts what
-- reaches it.
use tpt_teleop.Prelude.{ℕ, suc, ◌≡◌, refl, none, some, List, [], ◌∷◌, replicate}
use tpt_teleop.Bridge.Lifecycle.{HandoverState, requesting_teleop, teleop_active}
use tpt_teleop.Bridge.Session.{
  OperatorId, degraded, DomainError, adapter_error, ok, err, ControlCommand, DomainTeleopInterface,
  TeleopLink, DomainSession, new, emergency_stop,
}
use tpt_teleop.Bridge.Session.Calls.{
  Call, requests, engages, disengages, commands, stops, in_order, asked, call, calls, out_of_order,
  call-in_order,
}
use tpt_teleop.Bridge.Session.Lifecycle.{IsHeld, operator_while_active, emergency_stop_holds}

-- An adapter that counts the calls that reach it, and refuses to be disengaged.
abbrev counter : DomainTeleopInterface ℕ ℕ Unit
counter = record {
  on_teleop_engage = λ operator n. (ok, suc n);
  on_teleop_disengage = λ n. (err (adapter_error []), suc n);
  on_control_command = λ cmd n. (ok, suc n);
  get_domain_state = λ n. n;
  get_sensor_feed = λ n. (tt, n);
  on_emergency_stop = λ n. suc n;
}

-- A link that counts the requests.
abbrev requests_link : TeleopLink ℕ
requests_link = record { request_teleop_assistance = λ reason n. (ok, suc n) }

abbrev pilot : OperatorId
pilot = replicate 16 7

abbrev command_in : ℕ → ControlCommand
command_in mode_byte = record {
  magic = 0;
  version = 1;
  seq = 5;
  timestamp_ns = 0;
  mode_byte = mode_byte;
  flags = 0;
  axis_count = 6;
  axes = replicate 6 0;
  crc = 0;
}

abbrev active : DomainSession ℕ
active = record { adapter = 3; state = teleop_active; operator = some pilot }

abbrev waiting : DomainSession ℕ
waiting = record { adapter = 3; state = requesting_teleop; operator = none }

-- An emergency stop in the command stream, before the operator is engaged.
out_of_order_example :
    (e : DomainError) × (call counter requests_link (commands (command_in 3)) 0 waiting
      ≡ (err e, 0, waiting))
unfolding in_order
out_of_order_example = out_of_order counter requests_link (commands (command_in 3)) 0 waiting refl

-- The adapter refuses, so that the operator stays engaged.
call-in_order_example : call counter requests_link disengages 0 active ≡ (
  err (adapter_error []),
  0,
  record { adapter = 4; state = teleop_active; operator = some pilot },
)
unfolding in_order asked
call-in_order_example = call-in_order counter requests_link disengages 0 active refl

abbrev handover : List Call
handover = requests degraded ∷ engages pilot ∷ commands (command_in 2) ∷ []

operator_while_active_example :
    let (_, s) = calls counter requests_link handover 0 (new 0) in IsHeld s.state s.operator
operator_while_active_example = operator_while_active counter requests_link handover 0 0

emergency_stop_holds_example :
    ((emergency_stop counter active).state ≡ HandoverState.emergency_stop)
    × (calls counter requests_link
          (engages pilot ∷ commands (command_in 2) ∷ stops ∷ [])
          0
          (emergency_stop counter active)
        ≡ (0, emergency_stop counter active))
emergency_stop_holds_example =
    emergency_stop_holds counter requests_link
      (engages pilot ∷ commands (command_in 2) ∷ stops ∷ []) 0 active (tt, (tt, (tt, tt)))
