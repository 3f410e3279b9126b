-- ===== src/Sec/Admission.antt =====
-- What the broker of crates/tpt-t-sec/src/zerotrust.rs admits.
use tpt_teleop.Prelude.{
  ℕ, ◌≡◌, ◌↔◌, ◌⊎◌, inl, inr, refl, sym, ◌∙◌, ap, subst, arith, Bool, true, none, some, List, [],
  ◌∷◌, if◌then◌else◌, Bool-cases, Option-cases,
}
use tpt_teleop.Sec.Rbac.{
  Role, Permission, Principal, role_has, any_role_has, authorize, dispatch_permission,
  authorize_dispatch, same_bytes,
}
use tpt_teleop.Sec.Identity.{
  SecError, unknown_unit, attestation_failed, Result, ok, err, Attestation, verify,
}
use tpt_teleop.Sec.ZeroTrust.{
  TrustStore, or_guest, ZeroTrustBroker, verify_in, authenticate, broker_authorize_dispatch,
}

same_bytes_to : (xs ys : List ℕ) → same_bytes xs ys ≡ true → xs ≡ ys
unfolding same_bytes
same_bytes_to [] [] e = refl
same_bytes_to [] (y ∷ ys) e = absurd (ground arith)
same_bytes_to (x ∷ xs) [] e = absurd (ground arith)
same_bytes_to (x ∷ xs) (y ∷ ys) e =
    let rest = same_bytes_to xs ys (ground (arith, e)) in
    let head : x ≡ y = ground (arith, e) in ap (λ l. x ∷ l) rest ∙ ap (λ z. z ∷ ys) head

same_bytes_refl : (xs : List ℕ) → same_bytes xs xs ≡ true
unfolding same_bytes
same_bytes_refl [] = refl
same_bytes_refl (x ∷ xs) = ground (arith, same_bytes_refl xs)

result_cases : (r : Result Role) → ((role : Role) × (r ≡ ok role)) ⊎ ((x : SecError) × (r ≡ err x))
result_cases (ok role) = inl (role, refl)
result_cases (err x) = inr (x, refl)

-- What a result holds, or `p` where it is an error.
abbrev ok_or : Principal → Result Principal → Principal
ok_or p (ok q) = q
ok_or p (err x) = p

module _ (verifies : List ℕ → List ℕ → List ℕ → Bool) where
  -- What verification comes to for a unit whose key is enrolled.
  abbrev enrolled_result : TrustStore → Attestation → List ℕ → Result Role
  enrolled_result store att enrolled =
      if same_bytes enrolled att.signing_pub
      then if verify verifies att
        then ok (or_guest (store.roles att.unit_id))
        else err attestation_failed
      else err attestation_failed

  verify_enrolled :
      (store : TrustStore) (att : Attestation) (enrolled : List ℕ)
      → store.keys att.unit_id ≡ some enrolled
      → verify_in verifies store att ≡ enrolled_result store att enrolled
  unfolding verify_in
  verify_enrolled store att enrolled e = rw (e, verify_in) refl

  verify_unknown :
      (store : TrustStore) (att : Attestation)
      → store.keys att.unit_id ≡ none
      → verify_in verifies store att ≡ err unknown_unit
  unfolding verify_in
  verify_unknown store att e = rw (e, verify_in) refl

  accepted :
      (store : TrustStore) (att : Attestation) (enrolled : List ℕ) (role : Role)
      → enrolled_result store att enrolled ≡ ok role
      → (enrolled ≡ att.signing_pub)
        × (verify verifies att ≡ true)
        × (or_guest (store.roles att.unit_id) ≡ role)
  accepted store att enrolled role e = elim (Bool-cases (same_bytes enrolled att.signing_pub)) [
    | inr other ↦ absurd (ground (arith, other, e))
    | inl same ↦ elim (Bool-cases (verify verifies att)) [
      | inr bad ↦ absurd (ground (arith, same, bad, e))
      | inl good ↦
          (same_bytes_to enrolled att.signing_pub same, good, ground (arith, same, good, e))
    ]
  ]

  -- The store accepts an attestation with a role just when the unit's enrolled key is the one that
  -- the attestation names, the signature verifies, and the role is the enrolled one.
  pub verify_in_iff :
      (store : TrustStore) (att : Attestation) (role : Role)
      → (verify_in verifies store att ≡ ok role) ↔ (
          (store.keys att.unit_id ≡ some att.signing_pub)
          × (verify verifies att ≡ true)
          × (or_guest (store.roles att.unit_id) ≡ role))
  verify_in_iff store att role = (
    λ e. elim (Option-cases (store.keys att.unit_id)) [
      | inl none_there ↦ absurd (ground (arith, verify_unknown store att none_there, e))
      | inr (enrolled, k) ↦
          let (same, good, is) =
            accepted store att enrolled role (sym (verify_enrolled store att enrolled k) ∙ e) in
          (k ∙ ap some same, good, is)
    ],
    λ (k, good, is).
        verify_enrolled store att att.signing_pub k
        ∙ rw (same_bytes_refl att.signing_pub, good) (ap ok is),
  )

  module _ (unit_name : ℕ → List ℕ) where
    abbrev principal_of : Attestation → Role → Principal
    principal_of att role = record {
      id = unit_name att.unit_id;
      roles = role ∷ [];
      device_id = att.unit_id;
      authenticated = true;
    }

    authenticate_ok :
        (broker : ZeroTrustBroker) (att : Attestation) (role : Role)
        → verify_in verifies broker.trust att ≡ ok role
        → authenticate verifies unit_name broker att ≡ ok (principal_of att role)
    unfolding authenticate
    authenticate_ok broker att role e = rw (e, authenticate) refl

    authenticate_err :
        (broker : ZeroTrustBroker) (att : Attestation) (x : SecError)
        → verify_in verifies broker.trust att ≡ err x
        → authenticate verifies unit_name broker att ≡ err x
    unfolding authenticate
    authenticate_err broker att x e = rw (e, authenticate) refl

    authenticated :
        (broker : ZeroTrustBroker) (att : Attestation) (p : Principal)
        → authenticate verifies unit_name broker att ≡ ok p
        → (role : Role) × (verify_in verifies broker.trust att ≡ ok role)
          × (principal_of att role ≡ p)
    authenticated broker att p e = elim (result_cases (verify_in verifies broker.trust att)) [
      | inl (role, v) ↦ (role, v, ap (ok_or p) (sym (authenticate_ok broker att role v) ∙ e))
      | inr (x, v) ↦ absurd (ground (arith, authenticate_err broker att x v, e))
    ]

    dispatched :
        (broker : ZeroTrustBroker) (att : Attestation) (role : Role) (tool : List ℕ)
        → broker_authorize_dispatch broker (principal_of att role) tool ≡ true
        → (perm : Permission) × (dispatch_permission tool ≡ some perm)
          × (role_has broker.policy role perm ≡ true)
    unfolding broker_authorize_dispatch authorize_dispatch authorize any_role_has
    dispatched broker att role tool h = elim (Option-cases (dispatch_permission tool)) [
      | inl unknown ↦ absurd (ground (arith, unknown, h))
      | inr (perm, known) ↦ (perm, known, ground (arith, known, h))
    ]

    -- A tool that a fleet caller may use with what its attestation gave it is a known tool whose
    -- permission the policy gives to the role enrolled for the attestation's unit, under the key
    -- enrolled for that unit and with a signature that verifies.
    pub admitted_tool :
        (broker : ZeroTrustBroker) (att : Attestation) (p : Principal) (tool : List ℕ)
        → authenticate verifies unit_name broker att ≡ ok p
        → broker_authorize_dispatch broker p tool ≡ true
        → (perm : Permission) × (dispatch_permission tool ≡ some perm)
          × (role_has broker.policy (or_guest (broker.trust.roles att.unit_id)) perm ≡ true)
          × (broker.trust.keys att.unit_id ≡ some att.signing_pub)
          × (verify verifies att ≡ true)
          × (p.device_id ≡ att.unit_id)
    admitted_tool broker att p tool e h =
        let (role, v, same) = authenticated broker att p e in
        let (key, good, is) = (verify_in_iff broker.trust att role).0 v in
        let (perm, known, has) =
          dispatched broker att role tool
            (subst (λ q. broker_authorize_dispatch broker q tool ≡ true) (sym same) h) in
        (
          perm,
          known,
          subst (λ r. role_has broker.policy r perm ≡ true) (sym is) has,
          key,
          good,
          ap (λ q. q.device_id) (sym same),
        )
