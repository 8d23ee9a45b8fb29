-- ===== src/Invitations/Expiry.antt =====
-- backend/db/invitations.py: an invitation that has expired and the unique index on invitations that
-- are neither accepted nor revoked.
use trust_chain.Prelude.{
  ℕ, ◌+◌, ◌≤◌, ◌≡◌, ◌≢◌, refl, sym, subst, arith, String, str_eq, eq_iff, Bool, not, leb, ltb,
  le→leb, true, false, none, some, List, [], ◌∷◌, ◌++◌, ◌==◌, Any, here, there, Any-append,
  Any-last, inl, inr, Bool-cases, Option-cases, some-injective, none-ne-some, update_where,
}
use trust_chain.Invitations.{
  Invitation, InviteDb, blocks, any_blocks, create_invitation, accept_for_existing_user, load_valid,
  revocable, revoke_invitation, unaccepted, derived_status, expired_status, is_pending_for,
  has_membership, any_unaccepted,
}

-- The row that `create_invitation` adds.
abbrev created_row :
    (hash lower : String → String) (id org_id : ℕ) (email role raw_token : String)
    (invited_by now ttl : ℕ)
    → Invitation
created_row hash lower id org_id email role raw_token invited_by now ttl = record {
  id = id;
  org_id = org_id;
  email = lower email;
  role = role;
  token_hash = hash raw_token;
  invited_by = invited_by;
  created_at = now;
  expires_at = now + ttl;
  accepted_at = none;
  accepted_by = none;
  revoked_at = none;
  revoked_by = none;
}

-- The transactions on invitations, except a revocation or an acceptance of the one with the id
-- `kept`. An acceptance has seen the tables at any time.
pub data Commit (hash lower : String → String) (kept : ℕ) (db db' : InviteDb) : Type 0 where
  creates :
      (id org_id : ℕ) (email role raw_token : String) (invited_by now ttl : ℕ)
      (rows : List Invitation)
      → create_invitation hash lower id org_id email role raw_token invited_by now ttl
          db.invitations
        ≡ some rows
      → db' ≡ record db { invitations = rows }
      → Commit hash lower kept db db'
  revokes :
      (id org_id by now : ℕ)
      → id ≢ kept
      → db' ≡ revoke_invitation id org_id by now db
      → Commit hash lower kept db db'
  accepts :
      (raw_token : String) (user : ℕ) (user_email : String) (now : ℕ) (seen : InviteDb)
      → ((i : Invitation) → load_valid (hash raw_token) now seen.invitations ≡ some i → i.id ≢ kept)
      → db' ≡ (accept_for_existing_user hash lower raw_token user user_email now seen db).0
      → Commit hash lower kept db db'

pub data Commits (hash lower : String → String) (kept : ℕ) (db : InviteDb) : InviteDb → Type 0 where
  no_commit : Commits hash lower kept db db
  then_commit :
      {db' db'' : InviteDb}
      → Commits hash lower kept db db'
      → Commit hash lower kept db' db''
      → Commits hash lower kept db db''

same_id : (i : ℕ) → (i == i) ≡ true
same_id i = ground arith

-- The row stands in the table.
abbrev pub Stands : Invitation → List Invitation → Type 0
Stands i rows = Any (λ j. j ≡ i) rows

update_where-Stands :
    (i : Invitation) (p : Invitation → Bool) (f : Invitation → Invitation) (rows : List Invitation)
    → p i ≡ false
    → Stands i rows
    → Stands i (update_where p f rows)
update_where-Stands i p f [] miss m = elim m [ ]
update_where-Stands i p f (j ∷ rows) miss (here e) =
    let other : p j ≡ false = rw e miss in here (rw other e)
update_where-Stands i p f (j ∷ rows) miss (there m) = there (update_where-Stands i p f rows miss m)

Stands-any_blocks :
    (org_id : ℕ) (email : String) (i : Invitation) (rows : List Invitation)
    → blocks org_id email i ≡ true
    → Stands i rows
    → any_blocks org_id email rows ≡ true
Stands-any_blocks org_id email i [] b m = elim m [ ]
Stands-any_blocks org_id email i (j ∷ rows) b (here e) =
    let hit : blocks org_id email j ≡ true = rw e b in rw (any_blocks, hit) refl
Stands-any_blocks org_id email i (j ∷ rows) b (there m) =
    ground (arith, Stands-any_blocks org_id email i rows b m)

module _ (hash lower : String → String) where
  create-Stands :
      (i : Invitation) (id org_id : ℕ) (email role raw_token : String) (invited_by now ttl : ℕ)
      (rows rows' : List Invitation)
      → create_invitation hash lower id org_id email role raw_token invited_by now ttl rows
        ≡ some rows'
      → (Stands i rows → Stands i rows')
        × Stands (created_row hash lower id org_id email role raw_token invited_by now ttl) rows'
  unfolding create_invitation
  create-Stands i id org_id email role raw_token invited_by now ttl rows rows' e =
      let new = created_row hash lower id org_id email role raw_token invited_by now ttl in
      elim (Bool-cases (any_blocks org_id (lower email) rows)) [
        | inl taken ↦ absurd (none-ne-some _ (rw (create_invitation, taken) at e))
        | inr vacant ↦
            let same : rows ++ new ∷ [] ≡ rows' =
              some-injective _ _ (rw (create_invitation, vacant) at e) in
            (
              λ m. subst (Stands i) same (Any-append rows (new ∷ []) m),
              subst (Stands new) same (Any-last rows new refl),
            )
      ]

  accept-Stands :
      (i : Invitation) (raw_token : String) (user : ℕ) (user_email : String) (now : ℕ)
      (seen db : InviteDb)
      → ((j : Invitation) → load_valid (hash raw_token) now seen.invitations ≡ some j → j.id ≢ i.id)
      → Stands i db.invitations
      → Stands i
          (accept_for_existing_user hash lower raw_token user user_email now seen db).0.invitations
  unfolding accept_for_existing_user
  accept-Stands i raw_token user user_email now seen db other m =
      elim (Option-cases (load_valid (hash raw_token) now seen.invitations)) [
        | inl unknown ↦ rw (accept_for_existing_user, unknown) m
        | inr (j, valid) ↦
            let miss : unaccepted j.id i ≡ false = ground (arith, other j valid) in
            let kept = update_where-Stands i (unaccepted j.id) _ db.invitations miss m in
            elim (Bool-cases (not (str_eq (lower j.email) (lower user_email)))) [
              | inl elsewhere ↦ rw (accept_for_existing_user, valid, elsewhere) m
              | inr addressed ↦ elim (Bool-cases (has_membership user j.org_id seen.memberships)) [
                | inl member ↦ rw (accept_for_existing_user, valid, addressed, member) m
                | inr outside ↦ elim (Bool-cases (has_membership user j.org_id db.memberships)) [
                  | inl raced ↦ rw (accept_for_existing_user, valid, addressed, outside, raced) m
                  | inr alone ↦ elim (Bool-cases (any_unaccepted j.id db.invitations)) [
                    | inl hit ↦
                        rw (accept_for_existing_user, valid, addressed, outside, alone, hit) kept
                    | inr used ↦
                        rw (accept_for_existing_user, valid, addressed, outside, alone, used) m
                  ]
                ]
              ]
            ]
      ]

  Commits-Stand :
      (i : Invitation) (db db' : InviteDb)
      → Commits hash lower i.id db db'
      → Stands i db.invitations
      → Stands i db'.invitations
  unfolding revoke_invitation
  Commits-Stand i db db' no_commit m = m
  Commits-Stand i db db'
        (then_commit {db' = mid} before
          (creates id org_id email role raw_token invited_by now ttl rows made e))
        m =
      rw e (
        (create-Stands i id org_id email role raw_token invited_by now ttl mid.invitations rows
            made).0
          (Commits-Stand i db mid before m))
  Commits-Stand i db db' (then_commit {db' = mid} before (revokes id org_id by now apart e)) m =
      let miss : revocable id org_id i ≡ false = ground (arith, apart) in
      rw e (
        update_where-Stands i (revocable id org_id)
          (λ i. record i { revoked_at = some now; revoked_by = some by }) mid.invitations miss
          (Commits-Stand i db mid before m))
  Commits-Stand i db db'
        (then_commit {db' = mid} before (accepts raw_token user user_email now seen other e)) m =
      rw e (
        accept-Stands i raw_token user user_email now seen mid other
          (Commits-Stand i db mid before m))

  -- An invitation that expires locks its address. After one was created, and any transactions on
  -- invitations other than its own revocation or acceptance, from the time it expires on its row
  -- still stands in the table, its status is that of an expired invitation and it does not count as
  -- pending, but a new invitation of the organization to the address, in whatever case it is
  -- written, is refused as a duplicate of a pending one.
  pub expired-locks_address :
      (id id' org_id : ℕ) (email email' role role' raw raw' : String)
      (by by' now later ttl ttl' : ℕ) (rows : List Invitation) (db db' : InviteDb)
      → create_invitation hash lower id org_id email role raw by now ttl db.invitations ≡ some rows
      → Commits hash lower id (record db { invitations = rows }) db'
      → now + ttl ≤ later
      → lower email' ≡ lower email
      → (i : Invitation) × Stands i db'.invitations
        × (i.id ≡ id)
        × (derived_status later i ≡ expired_status)
        × (is_pending_for org_id later i ≡ false)
        × (create_invitation hash lower id' org_id email' role' raw' by' later ttl' db'.invitations
            ≡ none)
  unfolding create_invitation derived_status
  expired-locks_address id id' org_id email email' role role' raw raw' by by' now later ttl ttl'
        rows db db' made commits expired same =
      let i = created_row hash lower id org_id email role raw by now ttl in
      let stands =
        Commits-Stand i (record db { invitations = rows }) db' commits
          (create-Stands i id org_id email role raw by now ttl db.invitations rows made).1 in
      let over : leb i.expires_at later ≡ true = le→leb _ _ expired in
      let late : ltb later i.expires_at ≡ false = ground (arith, expired) in
      let taken : any_blocks org_id (lower email') db'.invitations ≡ true =
        Stands-any_blocks org_id (lower email') i db'.invitations
          (rw (blocks, same_id org_id, (eq_iff (lower email) (lower email')).1 (sym same)) refl)
          stands in
      (
        i,
        stands,
        refl,
        rw (derived_status, over) refl,
        rw (is_pending_for, same_id org_id, late) refl,
        rw (create_invitation, taken) refl,
      )
