-- ===== src/Sec/ZeroTrust.antt =====
-- crates/tpt-t-sec/src/zerotrust.rs: the trust store and the broker.
use tpt_teleop.Prelude.{ℕ, Bool, true, Option, none, some, List, [], ◌∷◌, ◌==◌, if◌then◌else◌}
use tpt_teleop.Sec.Rbac.{
  Role, guest, Permission, Policy, default, Principal, authorize, authorize_dispatch, same_bytes,
}
use tpt_teleop.Sec.Identity.{unknown_unit, attestation_failed, Result, ok, err, Attestation, verify}

-- The two maps, each from a unit's number.
pub record TrustStore : Type 0 where
  pub keys : ℕ → Option (List ℕ)
  pub roles : ℕ → Option Role

unfoldable pub new : TrustStore
new = record { keys = λ u. none; roles = λ u. none }

unfoldable pub enroll : ℕ → List ℕ → Role → TrustStore → TrustStore
enroll unit_id signing_pub role store = record {
  keys = λ u. if u == unit_id then some signing_pub else store.keys u;
  roles = λ u. if u == unit_id then some role else store.roles u;
}

-- `unwrap_or(Role::Guest)`
abbrev pub or_guest : Option Role → Role
or_guest none = guest
or_guest (some role) = role

pub record ZeroTrustBroker : Type 0 where
  pub trust : TrustStore
  pub policy : Policy

unfoldable pub with_trust : TrustStore → ZeroTrustBroker
unfolding default
with_trust trust = record { trust = trust; policy = default }

module _ (verifies : List ℕ → List ℕ → List ℕ → Bool) where
  unfoldable pub verify_in : TrustStore → Attestation → Result Role
  unfolding verify same_bytes
  verify_in store att = elim (store.keys att.unit_id) [
    | none ↦ err unknown_unit
    | some enrolled ↦
        if same_bytes enrolled att.signing_pub
        then if verify verifies att
          then ok (or_guest (store.roles att.unit_id))
          else err attestation_failed
        else err attestation_failed
  ]

  module _ (unit_name : ℕ → List ℕ) where
    -- `unit_name` is the text that `format!("unit-{}", ..)` gives.
    unfoldable pub authenticate : ZeroTrustBroker → Attestation → Result Principal
    unfolding verify_in
    authenticate broker att = elim (verify_in broker.trust att) [
      | err e ↦ err e
      | ok role ↦ ok (record {
        id = unit_name att.unit_id;
        roles = role ∷ [];
        device_id = att.unit_id;
        authenticated = true;
      })
    ]

unfoldable pub broker_authorize : ZeroTrustBroker → Principal → Permission → Bool
unfolding authorize
broker_authorize broker p perm = authorize broker.policy p perm

unfoldable pub broker_authorize_dispatch : ZeroTrustBroker → Principal → List ℕ → Bool
unfolding authorize_dispatch
broker_authorize_dispatch broker p tool = authorize_dispatch broker.policy p tool
