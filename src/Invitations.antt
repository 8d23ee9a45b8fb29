-- ===== src/Invitations.antt =====
-- backend/db/invitations.py: invitations into an organization. An acceptance reads the invitation
-- first and updates it later; in between other transactions commit, so the tables that it has seen
-- and those that it updates are two arguments. The hash of a token and the lower case of an email
-- address are parameters.
pub mod Pending
pub mod Expiry
pub mod Races
mod Tests
use trust_chain.Prelude.{
  ℕ, ◌+◌, String, str_eq, Bool, true, false, not, ◌&&◌, ◌||◌, Option, none, some, List, [], ◌∷◌,
  ◌++◌, ◌==◌, leb, ltb, is_some, is_none, if◌then◌else◌, update_where, select, length,
}
use trust_chain.Membership.{Membership}

pub record Invitation : Type 0 where
  pub id : ℕ
  pub org_id : ℕ
  pub email : String
  pub role : String
  pub token_hash : String
  pub invited_by : ℕ
  pub created_at : ℕ
  pub expires_at : ℕ
  pub accepted_at : Option ℕ
  pub accepted_by : Option ℕ
  pub revoked_at : Option ℕ
  pub revoked_by : Option ℕ

pub record InviteDb : Type 0 where
  pub invitations : List Invitation
  pub memberships : List Membership

-- The condition of the partial unique index, for one organization and address.
abbrev pub blocks : (org_id : ℕ) (email : String) → Invitation → Bool
blocks org_id email i =
    i.org_id == org_id && str_eq i.email email && is_none i.accepted_at && is_none i.revoked_at

abbrev pub any_blocks : (org_id : ℕ) (email : String) → List Invitation → Bool
any_blocks org_id email [] = false
any_blocks org_id email (i ∷ rows) = blocks org_id email i || any_blocks org_id email rows

abbrev pub find_invitation : String → List Invitation → Option Invitation
find_invitation h [] = none
find_invitation h (i ∷ rows) =
    let rest = find_invitation h rows in if str_eq i.token_hash h then some i else rest

-- `_load_valid`.
unfoldable pub load_valid : (token_hash : String) (now : ℕ) → List Invitation → Option Invitation
load_valid token_hash now rows = elim (find_invitation token_hash rows) [
  | none ↦ none
  | some i ↦
      if is_some i.accepted_at || is_some i.revoked_at || leb i.expires_at now then none else some i
]

-- `id = :id AND accepted_at IS NULL`.
abbrev pub unaccepted : ℕ → Invitation → Bool
unaccepted id i = i.id == id && is_none i.accepted_at

abbrev pub any_unaccepted : ℕ → List Invitation → Bool
any_unaccepted id [] = false
any_unaccepted id (i ∷ rows) = unaccepted id i || any_unaccepted id rows

abbrev pub set_accepted : (now user id : ℕ) → List Invitation → List Invitation
set_accepted now user id =
    update_where (unaccepted id) (λ i. record i { accepted_at = some now; accepted_by = some user })

unfoldable pub mark_accepted : (now user id : ℕ) → InviteDb → InviteDb × Bool
mark_accepted now user id db = (
  record db { invitations = set_accepted now user id db.invitations },
  any_unaccepted id db.invitations,
)

-- `session.get(Membership, {...})`.
abbrev pub has_membership : (user org_id : ℕ) → List Membership → Bool
has_membership user org_id [] = false
has_membership user org_id (m ∷ rows) =
    (m.user_id == user && m.org_id == org_id) || has_membership user org_id rows

-- The errors of `accept_for_existing_user`, and the IntegrityError of a second membership.
pub data AcceptError : Type 0 where
  not_found email_mismatch already_member already_accepted integrity_error : AcceptError

pub data Accepted : Type 0 where
  joined : (org_id : ℕ) (role : String) → Accepted
  not_joined : AcceptError → Accepted

module _ (hash lower : String → String) where
  -- `none` is the ValueError on a pending invitation.
  unfoldable pub create_invitation :
      (id org_id : ℕ) (email role raw_token : String) (invited_by now ttl_seconds : ℕ)
      → List Invitation
      → Option (List Invitation)
  create_invitation id org_id email role raw_token invited_by now ttl_seconds rows =
      if any_blocks org_id (lower email) rows
      then none
      else some (
          rows
          ++ record {
            id = id;
            org_id = org_id;
            email = lower email;
            role = role;
            token_hash = hash raw_token;
            invited_by = invited_by;
            created_at = now;
            expires_at = now + ttl_seconds;
            accepted_at = none;
            accepted_by = none;
            revoked_at = none;
            revoked_by = none;
          }
            ∷ [])

  -- With the membership of `join_org_via_invitation`; its organization has a project.
  unfoldable pub accept_for_existing_user :
      (raw_token : String) (user : ℕ) (user_email : String) (now : ℕ) (seen db : InviteDb)
      → InviteDb × Accepted
  unfolding load_valid
  accept_for_existing_user raw_token user user_email now seen db =
      elim (load_valid (hash raw_token) now seen.invitations) [
        | none ↦ (db, not_joined not_found)
        | some i ↦
            if not (str_eq (lower i.email) (lower user_email))
            then (db, not_joined email_mismatch)
            else if has_membership user i.org_id seen.memberships
            then (db, not_joined already_member)
            else if has_membership user i.org_id db.memberships
            then (db, not_joined integrity_error)
            else if any_unaccepted i.id db.invitations
            then (
              record {
                invitations = set_accepted now user i.id db.invitations;
                memberships =
                    db.memberships
                    ++ record {
                      user_id = user;
                      org_id = i.org_id;
                      role = i.role;
                      created_at = now;
                      invited_by = some i.invited_by;
                      updated_at = some now;
                    }
                      ∷ [];
              },
              joined i.org_id i.role,
            )
            else (db, not_joined already_accepted)
      ]

-- `id`, `org_id`, and neither accepted nor revoked.
abbrev pub revocable : (id org_id : ℕ) → Invitation → Bool
revocable id org_id i =
    i.id == id && i.org_id == org_id && is_none i.accepted_at && is_none i.revoked_at

unfoldable pub revoke_invitation : (id org_id revoked_by now : ℕ) → InviteDb → InviteDb
revoke_invitation id org_id revoked_by now db = record db {
  invitations =
      update_where (revocable id org_id)
        (λ i. record i { revoked_at = some now; revoked_by = some revoked_by }) db.invitations;
}

pub data InvitationStatus : Type 0 where
  revoked_status accepted_status expired_status pending_status : InvitationStatus

unfoldable pub derived_status : (now : ℕ) → Invitation → InvitationStatus
derived_status now i =
    if is_some i.revoked_at
    then revoked_status
    else if is_some i.accepted_at
    then accepted_status
    else if leb i.expires_at now
    then expired_status
    else pending_status

abbrev pub is_pending_for : (org_id now : ℕ) → Invitation → Bool
is_pending_for org_id now i =
    i.org_id == org_id && is_none i.accepted_at && is_none i.revoked_at && ltb now i.expires_at

unfoldable pub count_pending : (org_id now : ℕ) → List Invitation → ℕ
count_pending org_id now rows = length (select (is_pending_for org_id now) rows)
