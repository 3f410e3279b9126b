-- ===== src/Bridge/Session.antt =====
-- `DomainSession` of crates/tpt-t-domain-bridge/src/session.rs, with the adapter of dti.rs and the link
-- as the operations of a state of their own.
use tpt_teleop.Prelude.{
  ℕ, Bool, true, false, Option, none, some, List, [], ◌∷◌, ◌&&◌, ◌||◌, not, if◌then◌else◌,
}
use tpt_teleop.Core.Mode.{Mode, from_u8}
use tpt_teleop.Bridge.Lifecycle.{
  HandoverState, autonomous, requesting_teleop, teleop_active, returning_to_autonomy, same_state,
  can_transition_to, to_mode,
}
pub mod Calls
pub mod Lifecycle
mod Tests

-- The sixteen bytes of the identifier.
abbrev pub OperatorId : Type 0
OperatorId = List ℕ

pub data AssistanceReason : Type 0 where
  sensor_fault actuator_fault geofence_violation degraded other : AssistanceReason

-- The message of an adapter's error stands as its bytes.
pub data DomainError : Type 0 where
  illegal_transition : HandoverState → HandoverState → DomainError
  not_engaged : HandoverState → DomainError
  adapter_error : List ℕ → DomainError

pub data Outcome : Type 0 where
  ok : Outcome
  err : DomainError → Outcome

-- `ControlCommand`, each axis as the bits of its float.
pub record ControlCommand : Type 0 where
  pub magic : ℕ
  pub version : ℕ
  pub seq : ℕ
  pub timestamp_ns : ℕ
  pub mode_byte : ℕ
  pub flags : ℕ
  pub axis_count : ℕ
  pub axes : List ℕ
  pub crc : ℕ

unfoldable pub mode : ControlCommand → Option Mode
unfolding from_u8
mode cmd = from_u8 cmd.mode_byte

-- The trait `DomainTeleopInterface`, for an adapter with the state `D`. What a display is shown is of
-- the types `S` and `F`.
pub record DomainTeleopInterface (D S F : Type 0) : Type 0 where
  pub on_teleop_engage : OperatorId → D → Outcome × D
  pub on_teleop_disengage : D → Outcome × D
  pub on_control_command : ControlCommand → D → Outcome × D
  pub get_domain_state : D → S
  pub get_sensor_feed : D → F × D
  pub on_emergency_stop : D → D

-- The trait `TeleopLink`, for a link with the state `L`.
pub record TeleopLink (L : Type 0) : Type 0 where
  pub request_teleop_assistance : AssistanceReason → L → Outcome × L

pub record DomainSession (D : Type 0) : Type 0 where
  pub adapter : D
  pub state : HandoverState
  pub operator : Option OperatorId

unfoldable pub new : {D : Type 0} → D → DomainSession D
new adapter = record { adapter = adapter; state = autonomous; operator = none }

-- `from.contains(&self.state)`
unfoldable pub contains : List HandoverState → HandoverState → Bool
contains [] state = false
contains (s ∷ ss) state = same_state s state || contains ss state

unfoldable pub check : List HandoverState → HandoverState → HandoverState → Outcome
unfolding contains can_transition_to
check from to state =
    if contains from state && can_transition_to state to
    then ok
    else err (illegal_transition state to)

-- `cmd.mode() == Some(Mode::EmergencyStop)`
abbrev pub is_stop : Option Mode → Bool
is_stop (some Mode.emergency_stop) = true
is_stop _ = false

module _ {D S F : Type 0} (domain : DomainTeleopInterface D S F) where
  unfoldable pub cancel_request : DomainSession D → Outcome × DomainSession D
  unfolding check
  cancel_request s = elim (check (requesting_teleop ∷ []) autonomous s.state) [
    | ok ↦ (ok, record s { state = autonomous })
    | err e ↦ (err e, s)
  ]

  unfoldable pub engage : OperatorId → DomainSession D → Outcome × DomainSession D
  unfolding check
  engage operator s =
      elim (check (requesting_teleop ∷ returning_to_autonomy ∷ []) teleop_active s.state) [
        | err e ↦ (err e, s)
        | ok ↦
            let (outcome, adapter) = domain.on_teleop_engage operator s.adapter in
            elim outcome [
              | err e ↦ (err e, record s { adapter = adapter })
              | ok ↦ (
                ok,
                record { adapter = adapter; state = teleop_active; operator = some operator },
              )
            ]
      ]

  unfoldable pub disengage : DomainSession D → Outcome × DomainSession D
  unfolding check
  disengage s = elim (check (teleop_active ∷ []) returning_to_autonomy s.state) [
    | err e ↦ (err e, s)
    | ok ↦
        let (outcome, adapter) = domain.on_teleop_disengage s.adapter in
        elim outcome [
          | err e ↦ (err e, record s { adapter = adapter })
          | ok ↦ (ok, record { adapter = adapter; state = returning_to_autonomy; operator = none })
        ]
  ]

  unfoldable pub complete_handover : DomainSession D → Outcome × DomainSession D
  unfolding check
  complete_handover s = elim (check (returning_to_autonomy ∷ []) autonomous s.state) [
    | ok ↦ (ok, record s { state = autonomous })
    | err e ↦ (err e, s)
  ]

  unfoldable pub emergency_stop : DomainSession D → DomainSession D
  emergency_stop s = if same_state s.state HandoverState.emergency_stop then s else record {
    adapter = domain.on_emergency_stop s.adapter;
    state = HandoverState.emergency_stop;
    operator = none;
  }

  unfoldable pub command : ControlCommand → DomainSession D → Outcome × DomainSession D
  unfolding emergency_stop mode
  command cmd s =
      let forwarded = domain.on_control_command cmd s.adapter in
      if not (same_state s.state teleop_active)
      then (err (not_engaged s.state), s)
      else if is_stop (mode cmd)
      then (ok, emergency_stop s)
      else (forwarded.0, record s { adapter = forwarded.1 })

  unfoldable pub acknowledge_emergency_stop : DomainSession D → Outcome × DomainSession D
  unfolding check
  acknowledge_emergency_stop s =
      elim (check (HandoverState.emergency_stop ∷ []) returning_to_autonomy s.state) [
        | ok ↦ (ok, record s { state = returning_to_autonomy })
        | err e ↦ (err e, s)
      ]

  unfoldable pub domain_state : DomainSession D → S
  domain_state s = domain.get_domain_state s.adapter

  unfoldable pub sensor_feed : DomainSession D → F × DomainSession D
  sensor_feed s =
      let (feed, adapter) = domain.get_sensor_feed s.adapter in
      (feed, record s { adapter = adapter })

  module _ {L : Type 0} (link_ops : TeleopLink L) where
    unfoldable pub request_assistance :
        AssistanceReason → L → DomainSession D → Outcome × L × DomainSession D
    unfolding check
    request_assistance reason link s = elim (check (autonomous ∷ []) requesting_teleop s.state) [
      | err e ↦ (err e, link, s)
      | ok ↦
          let (outcome, link') = link_ops.request_teleop_assistance reason link in
          elim outcome [
            | err e ↦ (err e, link', s)
            | ok ↦ (ok, link', record s { state = requesting_teleop })
          ]
    ]
