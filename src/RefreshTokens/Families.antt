-- ===== src/RefreshTokens/Families.antt =====
-- Reuse detection, and families of which every token is revoked.
use trust_chain.Prelude.{
  ℕ, Bool, true, false, none, some, List, [], ◌∷◌, String, str_eq, refl, arith, inl, inr, All, ◌≡◌,
  update_where, is_some, Bool-cases, ◌<◌, Option-cases, All-update_where, subst, false≢true, leb,
  sym, ap, ◌∙◌, ◌≢◌, All-append, if◌then◌else◌, ◌==◌,
}
use trust_chain.RefreshTokens.{
  RefreshToken, RefreshError, reuse_detected, family_revoked, rotated, refused, unknown_token,
  revoke_family, find_token, rotate_refresh_token, issue_token_pair, live_in_family, revoke,
  revoke_family_for_token, revoke_all_for_user, check_token, expired, Rotation, rotate_row,
  live_of_user, account_gone, use_token,
}

-- The row can no longer mint a token, if it is of the family.
abbrev pub IsRevokedIn : String → RefreshToken → Type 0
IsRevokedIn family t = str_eq t.family_id family ≡ true → is_some t.revoked_at ≡ true

-- Every row of the family is revoked.
abbrev pub IsDead : String → List RefreshToken → Type 0
IsDead family rows = All (IsRevokedIn family) rows

pub revoke_family-IsDead :
    (now : ℕ) (family : String) (rows : List RefreshToken)
    → IsDead family (revoke_family now family rows)
unfolding revoke_family
revoke_family-IsDead now family [] = tt
revoke_family-IsDead now family (t ∷ rows) = (first, revoke_family-IsDead now family rows)
  where
    first : IsRevokedIn family (elim (live_in_family family t) [ true ↦ revoke now t | false ↦ t ])
    first = elim (Bool-cases (live_in_family family t)) [
      | inl live ↦ rw live (λ _. refl)
      | inr other ↦ rw other (λ h. ground (arith, other, h))
    ]

revoke-keeps :
    (family : String) (now : ℕ) (p : RefreshToken → Bool) (rows : List RefreshToken)
    → IsDead family rows
    → IsDead family (update_where p (revoke now) rows)
revoke-keeps family now p rows dead = All-update_where p (revoke now) (λ t _ h _. refl) rows dead

found-IsRevokedIn :
    (family token_hash : String) (rows : List RefreshToken) (token : RefreshToken)
    → IsDead family rows
    → find_token token_hash rows ≡ some token
    → IsRevokedIn family token
unfolding find_token
found-IsRevokedIn family token_hash [] token dead found = ground arith
found-IsRevokedIn family token_hash (t ∷ rows) token (h, dead) found =
    elim (Bool-cases (str_eq t.token_hash token_hash)) [
      | inl hit ↦
          let same : t ≡ token = ground (arith, hit, found) in subst (IsRevokedIn family) same h
      | inr miss ↦ found-IsRevokedIn family token_hash rows token dead (ground (arith, miss, found))
    ]

check_token-all :
    {A : Type 0} (P : A → Type 0) (is_revoked is_expired is_used : Bool) (refuse : RefreshError → A)
    (replay next : A)
    → ((e : RefreshError) → P (refuse e))
    → P replay
    → (is_revoked ≡ false → P next)
    → P (check_token is_revoked is_expired is_used refuse replay next)
check_token-all P true b c refuse replay next hr hp hn = hr family_revoked
check_token-all P false true c refuse replay next hr hp hn = hr expired
check_token-all P false false true refuse replay next hr hp hn = hp
check_token-all P false false false refuse replay next hr hp hn = hn refl

replayed :
    {A : Type 0} (refuse : RefreshError → A) (replay next : A)
    (is_revoked is_expired is_used : Bool)
    → is_revoked ≡ false
    → is_expired ≡ false
    → is_used ≡ true
    → check_token is_revoked is_expired is_used refuse replay next ≡ replay
replayed refuse replay next is_revoked is_expired is_used h k l = rw (h, k, l) refl

not_rotated : (e : RefreshError) (raw : String) → refused e ≢ rotated raw
not_rotated e raw h = ground arith

-- A family is not dead while a row of it is live.
lives_elsewhere :
    (family : String) (token : RefreshToken)
    → IsRevokedIn family token
    → is_some token.revoked_at ≡ false
    → str_eq token.family_id family ≡ false
lives_elsewhere family token h live = elim (Bool-cases (str_eq token.family_id family)) [
  | inl same ↦ absurd (false≢true (sym live ∙ h same))
  | inr other ↦ other
]

module _ (hash : String → String) where
  rotate-found :
      (now id : ℕ) (new_raw : String) (has_account : ℕ → Bool) (raw : String)
      (seen rows : List RefreshToken) (token : RefreshToken)
      → find_token (hash raw) seen ≡ some token
      → rotate_refresh_token hash now id new_raw has_account raw seen rows
        ≡ check_token
            (is_some token.revoked_at)
            (leb token.expires_at now)
            (is_some token.used_at)
            (λ e. (rows, refused e))
            (revoke_family now token.family_id rows, refused reuse_detected)
            (
              rotate_row hash now id new_raw token rows,
              if has_account token.user_id then rotated new_raw else refused account_gone,
            )
  unfolding rotate_refresh_token revoke_family rotate_row
  rotate-found now id new_raw has_account raw seen rows token found =
      rw (rotate_refresh_token, found) refl

  rotate-absent :
      (now id : ℕ) (new_raw : String) (has_account : ℕ → Bool) (raw : String)
      (seen rows : List RefreshToken)
      → find_token (hash raw) seen ≡ none
      → rotate_refresh_token hash now id new_raw has_account raw seen rows
        ≡ (rows, refused unknown_token)
  unfolding rotate_refresh_token
  rotate-absent now id new_raw has_account raw seen rows absent =
      rw (rotate_refresh_token, absent) refl

  -- Presenting a token that was used, and is neither revoked nor expired, when its row is read is
  -- refused as reuse and revokes every row of the token's family, also rows that were committed
  -- after the row was read.
  pub rotate-reuse_kills_family :
      (now id : ℕ) (new_raw : String) (has_account : ℕ → Bool) (raw : String)
      (seen rows : List RefreshToken) (token : RefreshToken)
      → find_token (hash raw) seen ≡ some token
      → token.revoked_at ≡ none
      → now < token.expires_at
      → is_some token.used_at ≡ true
      → let (after, answer) = rotate_refresh_token hash now id new_raw has_account raw seen rows in
        (answer ≡ refused reuse_detected) × IsDead token.family_id after
  rotate-reuse_kills_family now id new_raw has_account raw seen rows token found live fresh used =
      let outcome =
        rotate-found now id new_raw has_account raw seen rows token found
        ∙ replayed (λ e. (rows, refused e)) _
            (
              rotate_row hash now id new_raw token rows,
              if has_account token.user_id then rotated new_raw else refused account_gone,
            )
            (is_some token.revoked_at) (leb token.expires_at now) (is_some token.used_at)
            (ground (arith, live)) (ground (arith, fresh)) used in
      (
        ap (λ (r : List RefreshToken × Rotation). r.1) outcome,
        subst (IsDead token.family_id)
            (sym (ap (λ (r : List RefreshToken × Rotation). r.0) outcome))
            (revoke_family-IsDead now token.family_id rows),
      )

  -- The family is dead afterwards, and a rotation that is granted is one of another family.
  abbrev Kept : String → String → List RefreshToken → List RefreshToken × Rotation → Type 0
  Kept family raw seen r =
      IsDead family r.0
      × ((raw' : String)
          → r.1 ≡ rotated raw'
          → (token : RefreshToken) × (find_token (hash raw) seen ≡ some token)
            × (str_eq token.family_id family ≡ false))

  rotate_row-IsDead :
      (family : String) (now id : ℕ) (new_raw : String) (token : RefreshToken)
      (rows : List RefreshToken)
      → str_eq token.family_id family ≡ false
      → IsDead family rows
      → IsDead family (rotate_row hash now id new_raw token rows)
  unfolding rotate_row
  rotate_row-IsDead family now id new_raw token rows elsewhere dead =
      All-append (IsRevokedIn family) (update_where (λ t. t.id == token.id) (use_token now) rows) _
        (All-update_where (λ t. t.id == token.id) (use_token now) (λ t _ h. h) rows dead)
        ((λ same. absurd (false≢true (sym elsewhere ∙ same))), tt)

  rotate-Kept :
      (family : String) (now id : ℕ) (new_raw : String) (has_account : ℕ → Bool) (raw : String)
      (seen rows : List RefreshToken)
      → IsDead family seen
      → IsDead family rows
      → Kept family raw seen (rotate_refresh_token hash now id new_raw has_account raw seen rows)
  unfolding revoke_family
  rotate-Kept family now id new_raw has_account raw seen rows dead_seen dead =
      elim (Option-cases (find_token (hash raw) seen)) [
        | inl absent ↦
            subst (Kept family raw seen)
              (sym (rotate-absent now id new_raw has_account raw seen rows absent))
              (dead, λ raw' h. absurd (not_rotated unknown_token raw' h))
        | inr (token, found) ↦
            let elsewhere = λ (live : is_some token.revoked_at ≡ false).
              lives_elsewhere family token
                (found-IsRevokedIn family (hash raw) seen token dead_seen found) live in
            subst (Kept family raw seen)
              (sym (rotate-found now id new_raw has_account raw seen rows token found))
              (check_token-all (Kept family raw seen) (is_some token.revoked_at)
                (leb token.expires_at now) (is_some token.used_at) _ _ _
                (λ e. (dead, λ raw' h. absurd (not_rotated e raw' h)))
                (
                  revoke-keeps family now (live_in_family token.family_id) rows dead,
                  λ raw' h. absurd (not_rotated reuse_detected raw' h),
                )
                (λ live. (
                  rotate_row-IsDead family now id new_raw token rows (elsewhere live) dead,
                  λ raw' h. (token, found, elsewhere live),
                )))
      ]

  -- The tables that transactions on refresh tokens lead to from `rows`, if each of them reads after
  -- `rows` was committed: what a rotation or a logout has seen is such a table too, not
  -- necessarily the latest. A new login takes a family id other than `family`.
  pub data Since (family : String) (rows : List RefreshToken) : List RefreshToken → Type 0 where
    start : Since family rows rows
    issues :
        {db db' : List RefreshToken} (now id user_id : ℕ) (family_id raw : String)
        → Since family rows db
        → str_eq family_id family ≡ false
        → db' ≡ (issue_token_pair hash now id user_id family_id raw db).0
        → Since family rows db'
    rotates :
        {seen db db' : List RefreshToken} (now id : ℕ) (new_raw : String) (has_account : ℕ → Bool)
        (raw : String)
        → Since family rows seen
        → Since family rows db
        → db' ≡ (rotate_refresh_token hash now id new_raw has_account raw seen db).0
        → Since family rows db'
    logs_out :
        {seen db db' : List RefreshToken} (now : ℕ) (raw : String)
        → Since family rows seen
        → Since family rows db
        → db' ≡ revoke_family_for_token hash now raw seen db
        → Since family rows db'
    resets :
        {db db' : List RefreshToken} (now user_id : ℕ)
        → Since family rows db
        → db' ≡ revoke_all_for_user now user_id db
        → Since family rows db'

  logout-IsDead :
      (family : String) (now : ℕ) (raw : String) (seen rows : List RefreshToken)
      → IsDead family rows
      → IsDead family (revoke_family_for_token hash now raw seen rows)
  unfolding revoke_family_for_token revoke_family
  logout-IsDead family now raw seen rows dead = elim (Option-cases (find_token (hash raw) seen)) [
    | inl absent ↦ rw (revoke_family_for_token, absent) dead
    | inr (token, found) ↦
        rw (revoke_family_for_token, found)
          (revoke-keeps family now (live_in_family token.family_id) rows dead)
  ]

  Since-IsDead :
      (family : String) (rows db : List RefreshToken)
      → IsDead family rows
      → Since family rows db
      → IsDead family db
  unfolding issue_token_pair revoke_all_for_user
  Since-IsDead family rows db dead start = dead
  Since-IsDead family rows db dead (issues {db = before} now id user_id family_id raw s other e) =
      rw e (
        All-append (IsRevokedIn family) before _ (Since-IsDead family rows before dead s)
          ((λ same. absurd (false≢true (sym other ∙ same))), tt))
  Since-IsDead family rows db dead
        (rotates {seen = seen} {db = before} now id new_raw has_account raw s s' e) =
      rw e
        (rotate-Kept family now id new_raw has_account raw seen before
          (Since-IsDead family rows seen dead s) (Since-IsDead family rows before dead s')).0
  Since-IsDead family rows db dead (logs_out {seen = seen} {db = before} now raw s s' e) =
      rw e (logout-IsDead family now raw seen before (Since-IsDead family rows before dead s'))
  Since-IsDead family rows db dead (resets {db = before} now user_id s e) = rw e (
      revoke-keeps family now (live_of_user user_id) before
        (Since-IsDead family rows before dead s))

  -- A revoked family stays revoked for whoever reads after the revocation. If every row of a family
  -- is revoked, then after any transactions that read the table as it was then or later, however
  -- they interleave, and in which no new login takes that family id, every row of it is still
  -- revoked, and no rotation of a token of the family that reads then or later is granted: a
  -- granted one is of a row of another family.
  pub revocation_final :
      (family : String) (rows seen db : List RefreshToken)
      → IsDead family rows
      → Since family rows seen
      → Since family rows db
      → IsDead family db
        × ((now id : ℕ) (new_raw : String) (has_account : ℕ → Bool) (raw raw' : String)
            → (rotate_refresh_token hash now id new_raw has_account raw seen db).1 ≡ rotated raw'
            → (token : RefreshToken) × (find_token (hash raw) seen ≡ some token)
              × (str_eq token.family_id family ≡ false))
  revocation_final family rows seen db dead s s' =
      let dead_seen = Since-IsDead family rows seen dead s in
      let after = Since-IsDead family rows db dead s' in
      (
        after,
        λ now id new_raw has_account raw raw' h.
            (rotate-Kept family now id new_raw has_account raw seen db dead_seen after).1 raw' h,
      )
