-- ===== src/Access/Identity.antt =====
-- app/identity.py and app/authorization.py: roles, permissions, and the permission that a risk tier needs.
use enterprise_agentops.Base.{
  ℕ, ◌≤◌, ◌≡◌, ◌≢◌, refl, String, ◌<>◌, str_eq, eq_iff, Bool, true, false, Bool-cases, inl, inr,
  ◌||◌, if◌then◌else◌, arith,
}
use enterprise_agentops.Base.{Option, none, some}

pub data Role : Type 0 where
  viewer operator approver admin : Role

pub data Permission : Type 0 where
  view_runs view_audit view_tools view_approvals : Permission
  run_agent approve_write approve_dangerous reconcile_runs administer : Permission

-- `Role.value`
unfoldable pub role_value : Role → String
role_value Role.viewer = "VIEWER"
role_value Role.operator = "OPERATOR"
role_value Role.approver = "APPROVER"
role_value Role.admin = "ADMIN"

-- `Permission.value`
unfoldable pub permission_value : Permission → String
permission_value Permission.view_runs = "VIEW_RUNS"
permission_value Permission.view_audit = "VIEW_AUDIT"
permission_value Permission.view_tools = "VIEW_TOOLS"
permission_value Permission.view_approvals = "VIEW_APPROVALS"
permission_value Permission.run_agent = "RUN_AGENT"
permission_value Permission.approve_write = "APPROVE_WRITE"
permission_value Permission.approve_dangerous = "APPROVE_DANGEROUS"
permission_value Permission.reconcile_runs = "RECONCILE_RUNS"
permission_value Permission.administer = "ADMINISTER"

-- `permission in READ_ONLY`; a frozenset is the test of its members
unfoldable pub read_only : Permission → Bool
read_only Permission.view_runs = true
read_only Permission.view_audit = true
read_only Permission.view_tools = true
read_only Permission.view_approvals = true
read_only _ = false

abbrev pub is_run_agent : Permission → Bool
is_run_agent Permission.run_agent = true
is_run_agent _ = false

abbrev pub is_approve_write : Permission → Bool
is_approve_write Permission.approve_write = true
is_approve_write _ = false

-- `ROLE_PERMISSIONS`, and `has_permission`
unfoldable pub has_permission : Role → Permission → Bool
unfolding read_only
has_permission Role.viewer p = read_only p
has_permission Role.operator p = read_only p || is_run_agent p
has_permission Role.approver p = read_only p || (is_run_agent p || is_approve_write p)
has_permission Role.admin p = true

pub record User : Type 0 where
  pub user_id : String
  pub email : String
  pub display_name : String
  pub role : Role
  pub active : Bool
  pub created_at : ℕ

-- `user.can(permission)`
abbrev pub can : User → Permission → Bool
can user permission = has_permission user.role permission

-- `PermissionDenied`: its permission and its text
pub record PermissionDenied : Type 0 where
  pub permission : Permission
  pub detail : String

-- What is raised, if anything is
unfoldable pub require_permission : User → Permission → Option PermissionDenied
require_permission user permission =
    if can user permission
    then none
    else some (record {
      permission = permission;
      detail = "This action requires the " <> (permission_value permission <> " permission.");
    })

-- `permission_for_risk`: a risk that is not known needs the strictest permission
unfoldable pub permission_for_risk : String → Permission
permission_for_risk risk =
    if str_eq risk "WRITE" then Permission.approve_write else Permission.approve_dangerous

unfoldable pub ensure_can_resolve_approval : User → String → Option PermissionDenied
unfolding permission_for_risk
ensure_can_resolve_approval user risk =
    let permission = permission_for_risk risk in
    if can user permission
    then none
    else some (record {
      permission = permission;
      detail =
          "Resolving a "
          <> (risk
              <> (" approval requires the " <> (permission_value permission <> " permission.")));
    })

-- The roles in the order of what they may do
unfoldable pub rank : Role → ℕ
rank Role.viewer = 0
rank Role.operator = 1
rank Role.approver = 2
rank Role.admin = 3

-- What a role may do, every higher role may do.
pub has_permission-rank :
    (low high : Role) (p : Permission)
    → rank low ≤ rank high
    → has_permission low p ≡ true
    → has_permission high p ≡ true
unfolding rank has_permission
has_permission-rank low Role.admin p le h = refl
has_permission-rank Role.viewer Role.viewer p le h = h
has_permission-rank Role.viewer Role.operator p le h = ground arith
has_permission-rank Role.viewer Role.approver p le h = ground arith
has_permission-rank Role.operator Role.viewer p le h = absurd (omega arith)
has_permission-rank Role.operator Role.operator p le h = h
has_permission-rank Role.operator Role.approver p le h = ground arith
has_permission-rank Role.approver Role.viewer p le h = absurd (omega arith)
has_permission-rank Role.approver Role.operator p le h = absurd (omega arith)
has_permission-rank Role.approver Role.approver p le h = h
has_permission-rank Role.admin Role.viewer p le h = absurd (omega arith)
has_permission-rank Role.admin Role.operator p le h = absurd (omega arith)
has_permission-rank Role.admin Role.approver p le h = absurd (omega arith)

dangerous-admin : (r : Role) → has_permission r Permission.approve_dangerous ≡ true → r ≡ Role.admin
unfolding has_permission
dangerous-admin Role.admin h = refl
dangerous-admin Role.viewer h = cc
dangerous-admin Role.operator h = cc
dangerous-admin Role.approver h = cc

-- A risk tier other than WRITE, one that is not known included, is for the ADMIN alone.
pub risk_needs_admin :
    (risk : String) (u : User)
    → risk ≢ "WRITE"
    → can u (permission_for_risk risk) ≡ true
    → u.role ≡ Role.admin
unfolding permission_for_risk
risk_needs_admin risk u ne h = elim (Bool-cases (str_eq risk "WRITE")) [
  | inl e ↦ absurd (ne ((eq_iff risk "WRITE").0 e))
  | inr e ↦ dangerous-admin u.role (rw e at h)
]
