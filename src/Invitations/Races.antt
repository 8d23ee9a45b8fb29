-- ===== src/Invitations/Races.antt =====
-- backend/db/invitations.py: an acceptance against what is committed between its read and its update.
use trust_chain.Prelude.{
  ℕ, ◌≡◌, refl, ap, ◌∙◌, String, str_eq, true, false, none, some, List, [], ◌∷◌, ◌||◌, inl, inr,
  Bool-cases, Option-cases, is_some, leb, update_where, arith, some-injective, none-ne-some,
}
use trust_chain.Invitations.{
  Invitation, InviteDb, find_invitation, load_valid, any_unaccepted, has_membership, joined,
  accept_for_existing_user, revocable, revoke_invitation,
}

-- A revocation changes no row's id and no acceptance.
revoke-unaccepted :
    (id org_id by now j : ℕ) (rows : List Invitation)
    → any_unaccepted j (
        update_where
          (revocable id org_id)
          (λ i. record i { revoked_at = some now; revoked_by = some by })
          rows)
      ≡ any_unaccepted j rows
revoke-unaccepted id org_id by now j [] = refl
revoke-unaccepted id org_id by now j (i ∷ rows) = elim (Bool-cases (revocable id org_id i)) [
  | inl hit ↦ rw (update_where, hit, any_unaccepted, revoke-unaccepted id org_id by now j rows) refl
  | inr miss ↦
      rw (update_where, miss, any_unaccepted, revoke-unaccepted id org_id by now j rows) refl
]

found-unaccepted :
    (h : String) (rows : List Invitation) (i : Invitation)
    → find_invitation h rows ≡ some i
    → i.accepted_at ≡ none
    → any_unaccepted i.id rows ≡ true
found-unaccepted h [] i f e = cc
found-unaccepted h (j ∷ rows) i f e = elim (Bool-cases (str_eq j.token_hash h)) [
  | inl hit ↦
      let same : j ≡ i = some-injective _ _ (rw (find_invitation, hit) at f) in
      ground
        (arith, ap (λ (t : Invitation). t.id) same, ap (λ (t : Invitation). t.accepted_at) same, e)
  | inr other ↦ ground (arith, found-unaccepted h rows i (rw (find_invitation, other) at f) e)
]

-- What `load_valid` returns stands in the table and is not accepted.
load_valid-found :
    (h : String) (now : ℕ) (rows : List Invitation) (i : Invitation)
    → load_valid h now rows ≡ some i
    → (find_invitation h rows ≡ some i) × (i.accepted_at ≡ none)
unfolding load_valid
load_valid-found h now rows i v = elim (Option-cases (find_invitation h rows)) [
  | inl unknown ↦ absurd (none-ne-some _ (rw (load_valid, unknown) at v))
  | inr (j, f) ↦
      elim (Bool-cases (is_some j.accepted_at || is_some j.revoked_at || leb j.expires_at now)) [
        | inl dead ↦ absurd (none-ne-some _ (rw (load_valid, f, dead) at v))
        | inr live ↦
            let same : j ≡ i = some-injective _ _ (rw (load_valid, f, live) at v) in
            (f ∙ ap some same, rw same at (not_accepted j live))
      ]
]
  where
    not_accepted :
        (j : Invitation)
        → (is_some j.accepted_at || is_some j.revoked_at || leb j.expires_at now) ≡ false
        → j.accepted_at ≡ none
    not_accepted j live = ground arith

-- A revocation in between is not noticed. If the invitation was valid for the user when the
-- acceptance read it and was revoked after that, before the acceptance's update, then the
-- acceptance succeeds all the same: the user joins the organization with the invitation's role.
pub accept-misses_revocation :
    (hash lower : String → String) (raw_token : String) (user : ℕ) (user_email : String)
    (now by at : ℕ) (db : InviteDb) (i : Invitation)
    → load_valid (hash raw_token) now db.invitations ≡ some i
    → str_eq (lower i.email) (lower user_email) ≡ true
    → has_membership user i.org_id db.memberships ≡ false
    → (accept_for_existing_user hash lower raw_token user user_email now db
        (revoke_invitation i.id i.org_id by at db)).1
      ≡ joined i.org_id i.role
unfolding accept_for_existing_user revoke_invitation
accept-misses_revocation hash lower raw_token user user_email now by at db i valid addressed
      outside =
    let (found, open_row) = load_valid-found (hash raw_token) now db.invitations i valid in
    let still : any_unaccepted i.id (revoke_invitation i.id i.org_id by at db).invitations ≡ true =
      revoke-unaccepted i.id i.org_id by at i.id db.invitations
      ∙ found-unaccepted (hash raw_token) db.invitations i found open_row in
    rw (accept_for_existing_user, valid, addressed, outside, still) refl
