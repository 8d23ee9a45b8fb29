-- ===== src/Invitations/Tests.antt =====
-- Invitations on which the theorems about them are applied.
use trust_chain.Prelude.{◌≡◌, refl, none, some, false, [], ◌∷◌, arith, String}
use trust_chain.Invitations.{
  Invitation, InviteDb, load_valid, accept_for_existing_user, revoke_invitation, joined,
  create_invitation, derived_status, expired_status, is_pending_for,
}
use trust_chain.Invitations.Races.{accept-misses_revocation}
use trust_chain.Invitations.Expiry.{Stands, no_commit, then_commit, revokes, expired-locks_address}

abbrev invitation : Invitation
invitation = record {
  id = 4;
  org_id = 6;
  email = "b@x";
  role = "admin";
  token_hash = "h";
  invited_by = 1;
  created_at = 10;
  expires_at = 110;
  accepted_at = none;
  accepted_by = none;
  revoked_at = none;
  revoked_by = none;
}

abbrev invited : InviteDb
invited = record { invitations = invitation ∷ []; memberships = [] }

accept-misses_revocation_example :
    (accept_for_existing_user
      (λ t. t)
      (λ e. e)
      "h"
      9
      "b@x"
      50
      invited
      (revoke_invitation 4 6 1 49 invited)).1
    ≡ joined 6 "admin"
unfolding load_valid
accept-misses_revocation_example =
    accept-misses_revocation (λ t. t) (λ e. e) "h" 9 "b@x" 50 1 49 invited invitation refl refl refl

abbrev uninvited : InviteDb
uninvited = record { invitations = []; memberships = [] }

abbrev text : String → String
text t = t

created : create_invitation text text 4 6 "b@x" "admin" "h" 1 10 100 [] ≡ some (invitation ∷ [])
unfolding create_invitation
created = refl

expired-locks_address_example :
    (i : Invitation) × Stands i (revoke_invitation 5 6 1 20 invited).invitations
    × (i.id ≡ 4)
    × (derived_status 200 i ≡ expired_status)
    × (is_pending_for 6 200 i ≡ false)
    × (create_invitation text text 7 6 "b@x" "member" "fresh" 1 200 100
          (revoke_invitation 5 6 1 20 invited).invitations
        ≡ none)
expired-locks_address_example =
    expired-locks_address text text 4 7 6 "b@x" "b@x" "admin" "member" "h" "fresh" 1 1 10 200 100
      100 (invitation ∷ []) uninvited (revoke_invitation 5 6 1 20 invited) created
      (then_commit no_commit (revokes 5 6 1 20 (λ e. absurd (omega (arith, e))) refl)) (omega arith)
      refl
