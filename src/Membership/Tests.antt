-- ===== src/Membership/Tests.antt =====
-- An organization with one owner, an admin and a viewer.
use trust_chain.Membership.Transfer.{transfer_to_self-loses_owner}
use trust_chain.Membership.Endpoints.{
  count_owners, transfer_ownership, change_role_endpoint, and_then, refuse_if,
  rank_allows_target_modification, remove_member_endpoint,
}
use trust_chain.Membership.Counting.{IsKeyed}
use trust_chain.Prelude.{
  ℕ, refl, [], none, some, true, false, List, ◌∷◌, String, arith, ◌≡◌, ◌<◌, ◌==◌,
}
use trust_chain.Membership.Roles.{
  Membership, OrgDb, viewer, member, admin, owner, ok, raised, member_invite, require_permission,
  get_role, get_membership, is_verified, email_not_verified, role_rank,
}
use trust_chain.Membership.Guards.{require_permission-grants, IsGranted}
use trust_chain.Membership.Owners.{
  owner_remains, IsOwned, handle_all, change, leave, remove, transfer, Request,
}
use trust_chain.Membership.Ranks.{granted-Outranks, Outranks}

abbrev row : (user : ℕ) (role : String) → Membership
row user role = record {
  user_id = user;
  org_id = 5;
  role = role;
  created_at = 0;
  invited_by = none;
  updated_at = none;
}

abbrev rows : List Membership
rows = row 1 owner ∷ row 2 admin ∷ row 3 viewer ∷ []

abbrev organization : OrgDb
organization = record {
  memberships = rows;
  users = record { id = 1; email_verified = true } ∷ record { id = 2; email_verified = false } ∷ [];
  effects = [];
}

abbrev requests : List Request
requests = leave 1 5 ∷ transfer 1 2 5 9 ∷ change 1 3 5 member 10 ∷ leave 1 5 ∷ remove 2 3 5 ∷ []

require_permission-grants_example :
    (require_permission 1 5 member_invite organization ≡ ok owner
      → (get_role 1 5 rows ≡ some owner)
        × IsGranted owner (is_verified 1 organization.users) member_invite)
    × (get_role 1 5 rows ≡ some owner
        → IsGranted owner (is_verified 1 organization.users) member_invite
        → require_permission 1 5 member_invite organization ≡ ok owner)
require_permission-grants_example = require_permission-grants 1 5 member_invite organization owner

told_to_verify : require_permission 2 5 member_invite organization ≡ raised email_not_verified
unfolding require_permission get_role get_membership is_verified
told_to_verify = refl

-- At most one row has the key, since no two rows have the same user.
rows-IsKeyed : IsKeyed rows
rows-IsKeyed user org = ground arith

organization-IsOwned : IsOwned 5 organization
unfolding count_owners
organization-IsOwned = (rows-IsKeyed, omega arith)

owner_remains_example : IsOwned 5 (handle_all requests organization)
owner_remains_example =
    owner_remains 5 requests organization (tt, (omega arith, (tt, (tt, (tt, tt)))))
      organization-IsOwned

the_owner : get_membership 1 5 rows ≡ some (row 1 owner)
unfolding get_membership
the_owner = refl

one_owner : count_owners 5 rows ≡ 1
unfolding count_owners
one_owner = refl

transfer_to_self-loses_owner_example :
    (after : List Membership) × (transfer_ownership 1 1 5 9 rows ≡ some after)
    × (count_owners 5 after ≡ 0)
transfer_to_self-loses_owner_example =
    transfer_to_self-loses_owner 1 5 9 rows (row 1 owner) the_owner refl one_owner

granted-Outranks_example :
    ((change_role_endpoint 2 3 5 member 9 organization).1 ≡ ok tt
      → (a : ℕ) × (q : ℕ) × Outranks 2 3 5 a rows
        × (role_rank member ≡ some q)
        × (q < a)
        × ((3 == 2) ≡ false))
    × ((remove_member_endpoint 2 3 5 organization).1 ≡ ok tt → (a : ℕ) × Outranks 2 3 5 a rows)
granted-Outranks_example = granted-Outranks 2 3 5 member 9 organization

admin_promotes : (change_role_endpoint 2 3 5 member 9 organization).1 ≡ ok tt
unfolding change_role_endpoint require_permission get_role get_membership is_verified and_then
    refuse_if rank_allows_target_modification count_owners
admin_promotes = refl
