-- ===== src/Sec/Rbac.antt =====
-- crates/tpt-t-sec/src/rbac.rs: roles, permissions and the policy. A string is its bytes.
use tpt_teleop.Prelude.{
  ℕ, Bool, true, false, Option, none, some, List, [], ◌∷◌, ◌==◌, ◌&&◌, ◌||◌, if◌then◌else◌,
}

pub data Role : Type 0 where
  guest observer operator admin ai_agent : Role

pub data Permission : Type 0 where
  view_telemetry send_control engage_autonomy take_manual_control manage_fleet audit_log :
      Permission

-- `Role::all`
abbrev pub all_roles : List Role
all_roles = guest ∷ observer ∷ operator ∷ admin ∷ ai_agent ∷ []

-- The derived `==`, on the places of the constructors.
abbrev pub role_index : Role → ℕ
role_index guest = 0
role_index observer = 1
role_index operator = 2
role_index admin = 3
role_index ai_agent = 4

abbrev pub same_role : Role → Role → Bool
same_role a b = role_index a == role_index b

abbrev pub permission_index : Permission → ℕ
permission_index view_telemetry = 0
permission_index send_control = 1
permission_index engage_autonomy = 2
permission_index take_manual_control = 3
permission_index manage_fleet = 4
permission_index audit_log = 5

abbrev pub same_permission : Permission → Permission → Bool
same_permission a b = permission_index a == permission_index b

-- A set of permissions, as the list of what was put in.
unfoldable pub contains : List Permission → Permission → Bool
contains [] perm = false
contains (p ∷ ps) perm = same_permission p perm || contains ps perm

-- The map from roles to sets.
pub record Policy : Type 0 where
  pub grants : Role → Option (List Permission)

-- `HashMap::insert`
abbrev pub insert : Role → Option (List Permission) → Policy → Policy
insert role perms policy = record {
  grants = λ r. if same_role r role then perms else policy.grants r;
}

unfoldable pub default : Policy
default =
    insert admin
      (some (
        view_telemetry ∷ send_control ∷ engage_autonomy ∷ take_manual_control ∷ manage_fleet
        ∷ audit_log ∷ []))
      (insert ai_agent (some (view_telemetry ∷ send_control ∷ engage_autonomy ∷ [])) (
        insert operator
          (some (view_telemetry ∷ send_control ∷ engage_autonomy ∷ take_manual_control ∷ []))
          (insert observer (some (view_telemetry ∷ audit_log ∷ []))
            (insert guest (some []) (record { grants = λ r. none })))))

-- What `entry(role).or_default()` is.
abbrev pub or_default : Option (List Permission) → List Permission
or_default none = []
or_default (some set) = set

unfoldable pub extend : List Permission → List Permission → List Permission
extend set [] = set
extend set (p ∷ ps) = p ∷ extend set ps

unfoldable pub grant : Role → List Permission → Policy → Policy
unfolding extend
grant role perms policy = insert role (some (extend (or_default (policy.grants role)) perms)) policy

-- What `set.clear()` leaves, where there is a set.
abbrev pub cleared : Option (List Permission) → Option (List Permission)
cleared none = none
cleared (some set) = some []

unfoldable pub revoke_all : Role → Policy → Policy
revoke_all role policy = insert role (cleared (policy.grants role)) policy

unfoldable pub role_has : Policy → Role → Permission → Bool
unfolding contains
role_has policy role perm = contains (or_default (policy.grants role)) perm

pub record Principal : Type 0 where
  pub id : List ℕ
  pub roles : List Role
  pub device_id : ℕ
  pub authenticated : Bool

-- `Principal::guest`
unfoldable pub guest_principal : List ℕ → Principal
guest_principal id = record { id = id; roles = []; device_id = 0; authenticated = false }

unfoldable pub has_role : List Role → Role → Bool
has_role [] role = false
has_role (r ∷ rs) role = same_role r role || has_role rs role

unfoldable pub any_role_has : Policy → List Role → Permission → Bool
unfolding role_has
any_role_has policy [] perm = false
any_role_has policy (r ∷ rs) perm = role_has policy r perm || any_role_has policy rs perm

unfoldable pub authorize : Policy → Principal → Permission → Bool
unfolding any_role_has
authorize policy p perm = if p.authenticated then any_role_has policy p.roles perm else false

unfoldable pub same_bytes : List ℕ → List ℕ → Bool
same_bytes [] [] = true
same_bytes (x ∷ xs) (y ∷ ys) = (x == y) && same_bytes xs ys
same_bytes _ _ = false

-- The names of the tools, in ASCII.
abbrev pub list_units_name : List ℕ
list_units_name = 108 ∷ 105 ∷ 115 ∷ 116 ∷ 95 ∷ 117 ∷ 110 ∷ 105 ∷ 116 ∷ 115 ∷ []

abbrev pub get_telemetry_name : List ℕ
get_telemetry_name = 103 ∷ 101 ∷ 116 ∷ 95 ∷ 116 ∷ 101 ∷ 108 ∷ 101 ∷ 109 ∷ 101 ∷ 116 ∷ 114 ∷ 121 ∷ []

abbrev pub assign_unit_name : List ℕ
assign_unit_name = 97 ∷ 115 ∷ 115 ∷ 105 ∷ 103 ∷ 110 ∷ 95 ∷ 117 ∷ 110 ∷ 105 ∷ 116 ∷ []

abbrev pub engage_autonomy_name : List ℕ
engage_autonomy_name =
    101 ∷ 110 ∷ 103 ∷ 97 ∷ 103 ∷ 101 ∷ 95 ∷ 97 ∷ 117 ∷ 116 ∷ 111 ∷ 110 ∷ 111 ∷ 109 ∷ 121 ∷ []

abbrev pub take_manual_control_name : List ℕ
take_manual_control_name =
    116 ∷ 97 ∷ 107 ∷ 101 ∷ 95 ∷ 109 ∷ 97 ∷ 110 ∷ 117 ∷ 97 ∷ 108 ∷ 95 ∷ 99 ∷ 111 ∷ 110 ∷ 116 ∷ 114
    ∷ 111 ∷ 108 ∷ []

abbrev pub send_control_name : List ℕ
send_control_name = 115 ∷ 101 ∷ 110 ∷ 100 ∷ 95 ∷ 99 ∷ 111 ∷ 110 ∷ 116 ∷ 114 ∷ 111 ∷ 108 ∷ []

abbrev pub manage_fleet_name : List ℕ
manage_fleet_name = 109 ∷ 97 ∷ 110 ∷ 97 ∷ 103 ∷ 101 ∷ 95 ∷ 102 ∷ 108 ∷ 101 ∷ 101 ∷ 116 ∷ []

abbrev pub read_audit_name : List ℕ
read_audit_name = 114 ∷ 101 ∷ 97 ∷ 100 ∷ 95 ∷ 97 ∷ 117 ∷ 100 ∷ 105 ∷ 116 ∷ []

unfoldable pub dispatch_permission : List ℕ → Option Permission
unfolding same_bytes
dispatch_permission tool =
    if same_bytes tool list_units_name
    then some view_telemetry
    else if same_bytes tool get_telemetry_name
    then some view_telemetry
    else if same_bytes tool assign_unit_name
    then some manage_fleet
    else if same_bytes tool engage_autonomy_name
    then some engage_autonomy
    else if same_bytes tool take_manual_control_name
    then some take_manual_control
    else if same_bytes tool send_control_name
    then some send_control
    else if same_bytes tool manage_fleet_name
    then some manage_fleet
    else if same_bytes tool read_audit_name
    then some audit_log
    else none

unfoldable pub authorize_dispatch : Policy → Principal → List ℕ → Bool
unfolding dispatch_permission authorize
authorize_dispatch policy p tool = elim (dispatch_permission tool) [
  | some perm ↦ authorize policy p perm
  | none ↦ false
]
