-- ===== src/Sec/Grants.antt =====
-- What the policy of crates/tpt-t-sec/src/rbac.rs lets through.
use tpt_teleop.Prelude.{
  ◌≡◌, ◌↔◌, inl, inr, refl, arith, true, List, [], ◌∷◌, ◌||◌, if◌then◌else◌, Bool-cases,
}
use tpt_teleop.Sec.Rbac.{
  Role, observer, operator, admin, ai_agent, same_role, Permission, view_telemetry, send_control,
  engage_autonomy, take_manual_control, manage_fleet, audit_log, contains, Policy, default, extend,
  grant, or_default, role_has, Principal, any_role_has, authorize,
}

-- The permissions that a new policy gives.
pub data Granted : Role → Permission → Type 0 where
  by_admin : (perm : Permission) → Granted admin perm
  observes : Granted observer view_telemetry
  audits : Granted observer audit_log
  views : Granted operator view_telemetry
  controls : Granted operator send_control
  engages : Granted operator engage_autonomy
  takes_over : Granted operator take_manual_control
  agent_views : Granted ai_agent view_telemetry
  agent_controls : Granted ai_agent send_control
  agent_engages : Granted ai_agent engage_autonomy

Granted-role_has :
    {role : Role} {perm : Permission} → Granted role perm → role_has default role perm ≡ true
unfolding role_has contains default
Granted-role_has (by_admin view_telemetry) = refl
Granted-role_has (by_admin send_control) = refl
Granted-role_has (by_admin engage_autonomy) = refl
Granted-role_has (by_admin take_manual_control) = refl
Granted-role_has (by_admin manage_fleet) = refl
Granted-role_has (by_admin audit_log) = refl
Granted-role_has observes = refl
Granted-role_has audits = refl
Granted-role_has views = refl
Granted-role_has controls = refl
Granted-role_has engages = refl
Granted-role_has takes_over = refl
Granted-role_has agent_views = refl
Granted-role_has agent_controls = refl
Granted-role_has agent_engages = refl

role_has-Granted :
    (role : Role) (perm : Permission) → role_has default role perm ≡ true → Granted role perm
unfolding role_has contains default
role_has-Granted admin perm e = by_admin perm
role_has-Granted observer view_telemetry e = observes
role_has-Granted observer audit_log e = audits
role_has-Granted operator view_telemetry e = views
role_has-Granted operator send_control e = controls
role_has-Granted operator engage_autonomy e = engages
role_has-Granted operator take_manual_control e = takes_over
role_has-Granted ai_agent view_telemetry e = agent_views
role_has-Granted ai_agent send_control e = agent_controls
role_has-Granted ai_agent engage_autonomy e = agent_engages
role_has-Granted _ _ e = absurd (ground arith)

-- A new policy gives a role a permission just where the table of grants says so: everything to the
-- administrator, nothing to a guest, and manual control to no agent.
pub default_iff :
    (role : Role) (perm : Permission) → (role_has default role perm ≡ true) ↔ Granted role perm
default_iff role perm = (role_has-Granted role perm, Granted-role_has)

contains-extend :
    (set perms : List Permission) (q : Permission)
    → contains (extend set perms) q ≡ (contains perms q || contains set q)
unfolding contains extend
contains-extend set [] q = refl
contains-extend set (p ∷ ps) q = ground (arith, contains-extend set ps q)

-- Granting permissions to a role adds them to those it has, which it keeps, and leaves the other
-- roles as they were.
pub role_has-grant :
    (role r : Role) (perms : List Permission) (policy : Policy) (q : Permission)
    → role_has (grant role perms policy) r q ≡ (
        if same_role r role
        then contains perms q || role_has policy role q
        else role_has policy r q)
unfolding grant role_has
role_has-grant role r perms policy q =
    ground (arith, contains-extend (or_default (policy.grants role)) perms q)

-- That one of these roles has the permission.
pub data AnyHas (policy : Policy) (perm : Permission) : List Role → Type 0 where
  here : {r : Role} {rs : List Role} → role_has policy r perm ≡ true → AnyHas policy perm (r ∷ rs)
  there : {r : Role} {rs : List Role} → AnyHas policy perm rs → AnyHas policy perm (r ∷ rs)

any_role_has_to :
    (policy : Policy) (rs : List Role) (perm : Permission)
    → any_role_has policy rs perm ≡ true
    → AnyHas policy perm rs
unfolding any_role_has
any_role_has_to policy [] perm e = absurd (ground arith)
any_role_has_to policy (r ∷ rs) perm e = elim (Bool-cases (role_has policy r perm)) [
  | inl h ↦ here h
  | inr h ↦ there (any_role_has_to policy rs perm (ground (arith, h, e)))
]

any_role_has_from :
    (policy : Policy) (perm : Permission) {rs : List Role}
    → AnyHas policy perm rs
    → any_role_has policy rs perm ≡ true
unfolding any_role_has
any_role_has_from policy perm (here h) = ground (arith, h)
any_role_has_from policy perm (there h) = ground (arith, any_role_has_from policy perm h)

-- A principal is authorized for a permission just when it is authenticated and one of its roles has
-- the permission.
pub authorize_iff :
    (policy : Policy) (p : Principal) (perm : Permission)
    → (authorize policy p perm ≡ true) ↔ ((p.authenticated ≡ true) × AnyHas policy perm p.roles)
unfolding authorize
authorize_iff policy p perm = elim (Bool-cases p.authenticated) [
  | inl a ↦ rw a (
    λ e. (refl, any_role_has_to policy p.roles perm e),
    λ (_, h). any_role_has_from policy perm h,
  )
  | inr a ↦ rw a (λ e. absurd (ground (arith, e)), λ (e, _). absurd (ground (arith, e)))
]
