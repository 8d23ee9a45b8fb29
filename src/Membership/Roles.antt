-- ===== src/Membership/Roles.antt =====
-- backend/permissions.py: the ranks, the permission table and the enforcement point, over the
-- membership and user rows. A request's outcome is a value or the error it raises.
use trust_chain.Prelude.{
  ℕ, Bool, true, false, not, ◌&&◌, Option, none, some, List, [], ◌∷◌, String, str_eq, if◌then◌else◌,
  select, ltb, ◌==◌,
}

abbrev pub viewer : String
viewer = "viewer"

abbrev pub member : String
member = "member"

abbrev pub admin : String
admin = "admin"

abbrev pub owner : String
owner = "owner"

-- `ROLE_RANK.get(role)`
abbrev pub role_rank : String → Option ℕ
role_rank role =
    if str_eq role viewer
    then some 10
    else if str_eq role member
    then some 20
    else if str_eq role admin
    then some 30
    else if str_eq role owner
    then some 40
    else none

pub data Permission : Type 0 where
  org_read org_update org_delete org_transfer_ownership : Permission
  project_read project_create project_update project_delete : Permission
  member_read member_invite member_role_change member_remove : Permission
  apikey_read apikey_create apikey_revoke : Permission
  run_read run_create : Permission
  agent_read agent_register agent_revoke : Permission
  step_write : Permission
  alert_read alert_acknowledge alert_resolve : Permission
  audit_read : Permission
  notification_prefs_manage : Permission

abbrev pub min_role_for : Permission → String
min_role_for org_read = viewer
min_role_for org_update = admin
min_role_for org_delete = owner
min_role_for org_transfer_ownership = owner
min_role_for project_read = viewer
min_role_for project_create = admin
min_role_for project_update = admin
min_role_for project_delete = owner
min_role_for member_read = viewer
min_role_for member_invite = admin
min_role_for member_role_change = admin
min_role_for member_remove = admin
min_role_for apikey_read = admin
min_role_for apikey_create = admin
min_role_for apikey_revoke = admin
min_role_for run_read = viewer
min_role_for run_create = member
min_role_for agent_read = viewer
min_role_for agent_register = member
min_role_for agent_revoke = admin
min_role_for step_write = member
min_role_for alert_read = viewer
min_role_for alert_acknowledge = admin
min_role_for alert_resolve = admin
min_role_for audit_read = admin
min_role_for notification_prefs_manage = viewer

-- Membership of a permission in REQUIRES_VERIFIED_EMAIL.
abbrev pub requires_verified_email : Permission → Bool
requires_verified_email member_invite = true
requires_verified_email apikey_create = true
requires_verified_email _ = false

pub record Membership : Type 0 where
  pub user_id : ℕ
  pub org_id : ℕ
  pub role : String
  pub created_at : ℕ
  pub invited_by : Option ℕ
  pub updated_at : Option ℕ

pub record User : Type 0 where
  pub id : ℕ
  pub email_verified : Bool

-- What the endpoints do besides the rows: cache invalidation, metrics, the audit log and alerts.
pub data Effect : Type 0 where
  invalidated : (user_id org_id : ℕ) → Effect
  counted : (action : String) → Effect
  audited :
      (actor org_id : ℕ) (action : String) (target : Option ℕ) (new_role : Option String) → Effect
  alert_raised : (org_id : ℕ) (alert_type severity : String) (target : ℕ) → Effect

pub record OrgDb : Type 0 where
  pub memberships : List Membership
  pub users : List User
  pub effects : List Effect

pub data ApiError : Type 0 where
  insufficient_role email_not_verified invalid_role cannot_modify_own_role : ApiError
  member_not_found cannot_remove_last_owner value_error : ApiError

pub data Outcome {ℓ} (A : Type ℓ) : Type ℓ where
  ok : A → Outcome A
  raised : ApiError → Outcome A

-- The primary key of a membership.
abbrev pub has_key : (user org : ℕ) → Membership → Bool
has_key user org m = (m.user_id == user) && (m.org_id == org)

abbrev pub first_row {ℓ} : {A : Type ℓ} → List A → Option A
first_row [] = none
first_row (x ∷ _) = some x

-- `session.get(Membership, ...)`, which is also what `get_membership` returns.
unfoldable pub get_membership : (user org : ℕ) → List Membership → Option Membership
get_membership user org rows = first_row (select (has_key user org) rows)

unfoldable pub get_role : (user org : ℕ) → List Membership → Option String
get_role user org rows = elim (get_membership user org rows) [ none ↦ none | some m ↦ some m.role ]

-- `ROLE_RANK.get(role, -1) < ROLE_RANK[needed]`: an unknown role stands below every other.
abbrev pub rank_below : (held needed : Option ℕ) → Bool
rank_below none needed = true
rank_below (some h) none = true
rank_below (some h) (some n) = ltb h n

-- `db.email_verification.is_verified`
unfoldable pub is_verified : (user : ℕ) → List User → Bool
is_verified user rows = elim (first_row (select (λ (u : User). u.id == user) rows)) [
  | none ↦ false
  | some u ↦ u.email_verified
]

-- The two refusals of `require_permission` for a member, in their order.
abbrev pub gate : (rank_too_low email_unverified : Bool) (role : String) → Outcome String
gate rank_too_low email_unverified role =
    if rank_too_low
    then raised insufficient_role
    else if email_unverified
    then raised email_not_verified
    else ok role

-- What is left of `require_permission` once the role is read.
abbrev pub check_permission : (held : Option String) (verified : Bool) → Permission → Outcome String
check_permission none verified p = raised insufficient_role
check_permission (some role) verified p =
    gate (rank_below (role_rank role) (role_rank (min_role_for p)))
      (requires_verified_email p && not verified) role

unfoldable pub require_permission : (user org : ℕ) → Permission → OrgDb → Outcome String
require_permission user org p db =
    check_permission (get_role user org db.memberships) (is_verified user db.users) p

-- ValueError on a role that is not one of the four.
abbrev pub rank_of : String → Outcome ℕ
rank_of role = elim (role_rank role) [ none ↦ raised value_error | some r ↦ ok r ]
