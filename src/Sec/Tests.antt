-- ===== src/Sec/Tests.antt =====
-- Runs of the policy and the broker of crates/tpt-t-sec/src on small inputs.
use tpt_teleop.Prelude.{
  ℕ, ◌≡◌, refl, arith, Bool, true, none, some, List, [], ◌∷◌, ◌==◌, replicate, if◌then◌else◌,
}
use tpt_teleop.Sec.Rbac.{
  observer, operator, Permission, send_control, audit_log, contains, default, grant, role_has,
  Principal, authorize, dispatch_permission, send_control_name, same_bytes, any_role_has,
  authorize_dispatch,
}
use tpt_teleop.Sec.Identity.{Attestation, ok, verify}
use tpt_teleop.Sec.Wire.{IsSized}
use tpt_teleop.Sec.ZeroTrust.{
  TrustStore, new, enroll, or_guest, ZeroTrustBroker, verify_in, authenticate,
  broker_authorize_dispatch,
}
use tpt_teleop.Sec.Admission.{admitted_tool}

-- The permission that an observer had is still there.
grant_keeps : role_has (grant observer (send_control ∷ []) default) observer audit_log ≡ true
unfolding role_has contains default grant
grant_keeps = refl

abbrev pilot : Principal
pilot = record {
  id = 112 ∷ [];
  roles = observer ∷ operator ∷ [];
  device_id = 7;
  authenticated = true;
}

-- A scheme in which the signature is the key's first bytes again.
abbrev echoes : List ℕ → List ℕ → List ℕ → Bool
echoes key message sig = same_bytes key sig

abbrev signed : Attestation
signed = record {
  unit_id = 7;
  role = operator;
  signing_pub = replicate 32 9;
  eph_pub = replicate 32 4;
  sig = replicate 32 9;
}

abbrev wired : Attestation
wired = record signed { sig = replicate 64 9 }

wired-IsSized : IsSized wired
wired-IsSized = record { unit_id = omega arith; signing_pub = refl; eph_pub = refl; sig = refl }

abbrev store : TrustStore
store = record {
  keys = λ u. if u == 7 then some (replicate 32 9) else none;
  roles = λ u. if u == 7 then some operator else none;
}

-- The store is what enrolling the unit makes.
enrolled : enroll 7 (replicate 32 9) operator new ≡ store
unfolding enroll new
enrolled = refl

abbrev broker : ZeroTrustBroker
broker = record { trust = store; policy = default }

abbrev unit_seven : Principal
unit_seven = record { id = 7 ∷ []; roles = operator ∷ []; device_id = 7; authenticated = true }

authenticates : authenticate echoes (λ u. u ∷ []) broker signed ≡ ok unit_seven
unfolding authenticate verify_in same_bytes verify
authenticates = refl

dispatches : broker_authorize_dispatch broker unit_seven send_control_name ≡ true
unfolding broker_authorize_dispatch authorize_dispatch authorize any_role_has dispatch_permission
    role_has contains default same_bytes
dispatches = refl

admitted_tool_example :
    (perm : Permission) × (dispatch_permission send_control_name ≡ some perm)
    × (role_has broker.policy (or_guest (broker.trust.roles 7)) perm ≡ true)
    × (broker.trust.keys 7 ≡ some (replicate 32 9))
    × (verify echoes signed ≡ true)
    × (◌≡◌ {A = ℕ} 7 7)
admitted_tool_example =
    admitted_tool echoes (λ u. u ∷ []) broker signed unit_seven send_control_name authenticates
      dispatches
