-- ===== src/Bridge/Lifecycle.antt =====
-- crates/tpt-t-domain-bridge/src/lifecycle.rs: the states of a handover and the edges between them.
use tpt_teleop.Prelude.{ℕ, ◌≡◌, refl, arith, Bool, true, false, ◌⊎◌, ◌==◌, inl, inr}
use tpt_teleop.Core.Mode.{Mode, auto, assist, full_teleop, allows, set_allowed, spec_default}

pub data HandoverState : Type 0 where
  autonomous requesting_teleop teleop_active returning_to_autonomy emergency_stop : HandoverState

-- The discriminant, `#[repr(u8)]`.
abbrev pub discriminant : HandoverState → ℕ
discriminant autonomous = 0
discriminant requesting_teleop = 1
discriminant teleop_active = 2
discriminant returning_to_autonomy = 3
discriminant HandoverState.emergency_stop = 4

-- The derived `==`, which compares the discriminants.
abbrev pub same_state : HandoverState → HandoverState → Bool
same_state a b = discriminant a == discriminant b

unfoldable pub can_transition_to : HandoverState → HandoverState → Bool
can_transition_to from HandoverState.emergency_stop = true
can_transition_to autonomous requesting_teleop = true
can_transition_to requesting_teleop autonomous = true
can_transition_to requesting_teleop teleop_active = true
can_transition_to teleop_active returning_to_autonomy = true
can_transition_to returning_to_autonomy teleop_active = true
can_transition_to returning_to_autonomy autonomous = true
can_transition_to HandoverState.emergency_stop returning_to_autonomy = true
can_transition_to _ _ = false

unfoldable pub to_mode : HandoverState → Mode
to_mode autonomous = auto
to_mode requesting_teleop = auto
to_mode returning_to_autonomy = assist
to_mode teleop_active = full_teleop
to_mode HandoverState.emergency_stop = Mode.emergency_stop

any_to_stop : (from : HandoverState) → allows spec_default (to_mode from) Mode.emergency_stop ≡ true
unfolding to_mode spec_default allows set_allowed
any_to_stop autonomous = refl
any_to_stop requesting_teleop = refl
any_to_stop teleop_active = refl
any_to_stop returning_to_autonomy = refl
any_to_stop HandoverState.emergency_stop = refl

-- Every edge of the handover keeps the core's mode, is an edge of the core's default table, or is
-- the engagement of a request: that one goes from `auto` to `full_teleop`, which the table refuses.
pub edges_as_modes :
    (from to : HandoverState)
    → can_transition_to from to ≡ true
    → (to_mode from ≡ to_mode to)
      ⊎ (allows spec_default (to_mode from) (to_mode to) ≡ true)
      ⊎ (from ≡ requesting_teleop)
        × (to ≡ teleop_active)
        × (allows spec_default (to_mode from) (to_mode to) ≡ false)
unfolding can_transition_to to_mode spec_default allows set_allowed
edges_as_modes autonomous autonomous e = inl refl
edges_as_modes autonomous requesting_teleop e = inl refl
edges_as_modes requesting_teleop autonomous e = inl refl
edges_as_modes requesting_teleop teleop_active e = inr (inr (refl, refl, refl))
edges_as_modes teleop_active returning_to_autonomy e = inr (inl refl)
edges_as_modes returning_to_autonomy teleop_active e = inr (inl refl)
edges_as_modes returning_to_autonomy autonomous e = inr (inl refl)
edges_as_modes HandoverState.emergency_stop returning_to_autonomy e = inr (inl refl)
edges_as_modes from HandoverState.emergency_stop e = inr (inl (any_to_stop from))
edges_as_modes _ _ e = absurd (ground arith)
