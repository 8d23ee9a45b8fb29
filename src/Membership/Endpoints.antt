-- ===== src/Membership/Endpoints.antt =====
-- The membership operations of backend/db/orgs.py and the endpoints of backend/main.py that change
-- memberships. The database runs each operation in a transaction of its own; an endpoint returns
-- the rows and effects afterwards with its outcome.
use trust_chain.Prelude.{
  ℕ, Bool, true, false, not, ◌&&◌, ◌||◌, Option, none, some, List, [], ◌∷◌, String, str_eq,
  if◌then◌else◌, select, update_where, length, leb, ltb, is_none, ◌==◌, ◌++◌,
}
use trust_chain.Membership.Roles.{
  OrgDb, Membership, Effect, ApiError, Outcome, ok, raised, insufficient_role, invalid_role,
  cannot_modify_own_role, member_not_found, cannot_remove_last_owner, invalidated, counted, audited,
  alert_raised, org_transfer_ownership, member_role_change, member_remove, has_key, get_membership,
  owner, require_permission, admin, role_rank, rank_of,
}

abbrev pub is_owner_of : (org : ℕ) → Membership → Bool
is_owner_of org m = (m.org_id == org) && str_eq m.role owner

unfoldable pub count_owners : (org : ℕ) → List Membership → ℕ
count_owners org rows = length (select (is_owner_of org) rows)

abbrev pub with_role : (new_role : String) (now : ℕ) → Membership → Membership
with_role new_role now m = record m { role = new_role; updated_at = some now }

-- The rows after the UPDATE; the caller ignores the row count.
unfoldable pub change_role :
    (user org : ℕ) (new_role : String) (now : ℕ) → List Membership → List Membership
change_role user org new_role now = update_where (has_key user org) (with_role new_role now)

unfoldable pub remove_member : (user org : ℕ) → List Membership → List Membership
remove_member user org = select (λ m. not (has_key user org m))

-- The session keeps one object for a key, so a transfer from a user to the same user sets the role
-- of that one row twice.
unfoldable pub transfer_ownership :
    (from to org now : ℕ) → List Membership → Option (List Membership)
transfer_ownership from to org now rows =
    if is_none (get_membership to org rows) || is_none (get_membership from org rows)
    then none
    else some (change_role from org admin now (change_role to org owner now rows))

unfoldable pub is_last_owner : String → (owner_count : ℕ) → Bool
is_last_owner role owner_count = str_eq role owner && leb owner_count 1

unfoldable pub rank_allows_target_modification :
    (actor_rank target_current_rank requested_rank : ℕ) → Bool
rank_allows_target_modification actor_rank target_current_rank requested_rank =
    ltb target_current_rank actor_rank && ltb requested_rank actor_rank

abbrev pub with_effects : List Effect → OrgDb → OrgDb
with_effects es db = record db { effects = es ++ db.effects }

-- An endpoint that raises leaves the rows as they were.
abbrev pub Response : Type 0
Response = OrgDb × Outcome Unit

-- What follows a call that may raise.
unfoldable pub and_then {ℓ} : {A : Type ℓ} → OrgDb → Outcome A → (A → Response) → Response
and_then db (raised e) next = (db, raised e)
and_then db (ok a) next = next a

unfoldable pub refuse_if : OrgDb → Bool → ApiError → Response → Response
refuse_if db true e next = (db, raised e)
refuse_if db false e next = next

abbrev pub or_not_found {ℓ} : {A : Type ℓ} → Option A → Outcome A
or_not_found none = raised member_not_found
or_not_found (some a) = ok a

unfoldable pub transfer_ownership_endpoint : (actor target org now : ℕ) → OrgDb → Response
transfer_ownership_endpoint actor target org now db =
    and_then db (require_permission actor org org_transfer_ownership db) (λ _.
      and_then db (or_not_found (transfer_ownership actor target org now db.memberships)) (λ rows. (
        with_effects
            (invalidated actor org
              ∷ invalidated target org
              ∷ audited actor org "org.ownership_transferred" (some target) none
              ∷ alert_raised org "ownership_transferred" "critical" target
              ∷ [])
            (record db { memberships = rows }),
        ok tt,
      )))

abbrev pub granted_alert : (org target : ℕ) (new_role : String) → List Effect
granted_alert org target new_role =
    if str_eq new_role admin || str_eq new_role owner
    then alert_raised org "admin_role_granted" "warning" target ∷ []
    else []

unfoldable pub change_role_endpoint :
    (actor target org : ℕ) (new_role : String) (now : ℕ) → OrgDb → Response
change_role_endpoint actor target org new_role now db =
    and_then db (require_permission actor org member_role_change db) (λ actor_role.
      refuse_if db (is_none (role_rank new_role) || str_eq new_role owner) invalid_role (
        refuse_if db (target == actor) cannot_modify_own_role (
          and_then db (or_not_found (get_membership target org db.memberships)) (λ row.
            and_then db (rank_of actor_role) (λ actor_rank.
              and_then db (rank_of row.role) (λ target_rank.
                and_then db (rank_of new_role) (λ requested_rank.
                  refuse_if db
                    (not (rank_allows_target_modification actor_rank target_rank requested_rank))
                    insufficient_role
                    (refuse_if db (str_eq row.role owner && leb (count_owners org db.memberships) 1)
                      cannot_remove_last_owner
                      (
                        with_effects
                            (invalidated target org
                              ∷ counted "role_changed"
                              ∷ audited actor org "member.role_changed" (some target)
                                  (some new_role)
                              ∷ granted_alert org target new_role)
                            (record db {
                              memberships = change_role target org new_role now db.memberships;
                            }),
                        ok tt,
                      )))))))))

unfoldable pub leave_org_endpoint : (actor org : ℕ) → OrgDb → Response
leave_org_endpoint actor org db =
    and_then db (or_not_found (get_membership actor org db.memberships)) (λ row.
      refuse_if db (str_eq row.role owner && leb (count_owners org db.memberships) 1)
        cannot_remove_last_owner
        (
          with_effects
              (invalidated actor org
                ∷ counted "removed"
                ∷ audited actor org "member.left" none none
                ∷ [])
              (record db { memberships = remove_member actor org db.memberships }),
          ok tt,
        ))

unfoldable pub remove_member_endpoint : (actor target org : ℕ) → OrgDb → Response
remove_member_endpoint actor target org db =
    and_then db (require_permission actor org member_remove db) (λ actor_role.
      and_then db (or_not_found (get_membership target org db.memberships)) (λ row.
        and_then db (rank_of row.role) (λ target_rank.
          and_then db (rank_of actor_role) (λ actor_rank.
            refuse_if db (leb actor_rank target_rank) insufficient_role (
              refuse_if db (str_eq row.role owner && leb (count_owners org db.memberships) 1)
                cannot_remove_last_owner
                (
                  with_effects
                      (invalidated target org
                        ∷ counted "removed"
                        ∷ audited actor org "member.removed" (some target) none
                        ∷ [])
                      (record db { memberships = remove_member target org db.memberships }),
                  ok tt,
                ))))))
