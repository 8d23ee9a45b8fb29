-- ===== src/RefreshTokens/Races.antt =====
-- backend/refresh.py: a rotation against what is committed between its read and its writes.
use trust_chain.Prelude.{
  ℕ, ◌+◌, ◌<◌, ◌≡◌, refl, arith, String, str_eq, eq_iff, Bool, true, false, none, some, List, [],
  ◌∷◌, ◌++◌, inl, inr, Bool-cases, leb, update_where, select, none-ne-some, ◌==◌, sym,
}
use trust_chain.RefreshTokens.{
  RefreshToken, rotated, new_token, refresh_ttl_seconds, find_token, rotate_row,
  rotate_refresh_token, revoke_family_for_token, revoke_family, use_token, revoke, live_in_family,
}
use trust_chain.RefreshTokens.Families.{IsDead, revoke_family-IsDead}

absent_cons :
    (h : String) (t : RefreshToken) (rows : List RefreshToken)
    → find_token h (t ∷ rows) ≡ none
    → (str_eq t.token_hash h ≡ false) × (find_token h rows ≡ none)
unfolding find_token
absent_cons h t rows absent = elim (Bool-cases (str_eq t.token_hash h)) [
  | inl hit ↦ absurd (none-ne-some _ (sym (rw (find_token, select, hit) at absent)))
  | inr miss ↦ (miss, rw (find_token, select, miss) at absent)
]

-- An UPDATE that keeps the hashes does not make a hash appear.
still_absent :
    (h : String) (p : RefreshToken → Bool) (f : RefreshToken → RefreshToken)
    → ((t : RefreshToken) → (f t).token_hash ≡ t.token_hash)
    → (rows : List RefreshToken) → find_token h rows ≡ none
    → find_token h (update_where p f rows) ≡ none
unfolding find_token
still_absent h p f same [] absent = refl
still_absent h p f same (t ∷ rows) absent =
    let (miss, none_left) = absent_cons h t rows absent in
    let rest = still_absent h p f same rows none_left in
    let miss' : str_eq (f t).token_hash h ≡ false = rw (same t) miss in
    elim (Bool-cases (p t)) [
      | inl hit ↦ rw (find_token, update_where, hit, select, miss') rest
      | inr other ↦ rw (find_token, update_where, other, select, miss) rest
    ]

found_last :
    (h : String) (t : RefreshToken) (rows : List RefreshToken)
    → str_eq t.token_hash h ≡ true
    → find_token h rows ≡ none
    → find_token h (rows ++ t ∷ []) ≡ some t
unfolding find_token
found_last h t [] hit absent = rw (find_token, select, hit) refl
found_last h t (r ∷ rows) hit absent =
    let (miss, none_left) = absent_cons h r rows absent in
    rw (find_token, select, miss) (found_last h t rows hit none_left)

absent_last :
    (h : String) (t : RefreshToken) (rows : List RefreshToken)
    → str_eq t.token_hash h ≡ false
    → find_token h rows ≡ none
    → find_token h (rows ++ t ∷ []) ≡ none
unfolding find_token
absent_last h t [] miss absent = rw (find_token, select, miss) refl
absent_last h t (r ∷ rows) miss absent =
    let (other, none_left) = absent_cons h r rows absent in
    rw (find_token, select, other) (absent_last h t rows miss none_left)

module _ (hash : String → String) where
  -- A token that was seen live is rotated, whatever the table holds by then.
  granted :
      (now id : ℕ) (new_raw : String) (has_account : ℕ → Bool) (raw : String)
      (seen rows : List RefreshToken) (token : RefreshToken)
      → find_token (hash raw) seen ≡ some token
      → token.revoked_at ≡ none
      → now < token.expires_at
      → token.used_at ≡ none
      → has_account token.user_id ≡ true
      → rotate_refresh_token hash now id new_raw has_account raw seen rows
        ≡ (rotate_row hash now id new_raw token rows, rotated new_raw)
  unfolding rotate_refresh_token
  granted now id new_raw has_account raw seen rows token found live fresh unused account =
      let in_time : leb token.expires_at now ≡ false = ground (arith, fresh) in
      rw (rotate_refresh_token, found, live, in_time, unused, account) refl

  successor_found :
      (now id : ℕ) (new_raw : String) (token : RefreshToken) (rows : List RefreshToken)
      → find_token (hash new_raw) rows ≡ none
      → find_token (hash new_raw) (rotate_row hash now id new_raw token rows)
        ≡ some (new_token id token.user_id token.family_id (hash new_raw) now)
  unfolding rotate_row
  successor_found now id new_raw token rows absent =
      found_last (hash new_raw) (new_token id token.user_id token.family_id (hash new_raw) now)
        (update_where (λ t. t.id == token.id) (use_token now) rows)
        ((eq_iff (hash new_raw) (hash new_raw)).1 refl)
        (still_absent (hash new_raw) (λ t. t.id == token.id) (use_token now) (λ t. refl) rows
          absent)

  -- A logout in between is not noticed. If a token is neither revoked, expired nor used when a
  -- rotation reads it, its user has an account, the new token is not in the table, and the token is
  -- logged out after that, before the rotation writes, then the logout has revoked every row of the
  -- family, the rotation is granted all the same, and its new token can be rotated afterwards until
  -- it expires.
  pub rotate-misses_logout :
      (now at later id id' : ℕ) (new_raw newer : String) (has_account : ℕ → Bool) (raw : String)
      (seen : List RefreshToken) (token : RefreshToken)
      → find_token (hash raw) seen ≡ some token
      → token.revoked_at ≡ none
      → now < token.expires_at
      → token.used_at ≡ none
      → has_account token.user_id ≡ true
      → find_token (hash new_raw) seen ≡ none
      → later < now + refresh_ttl_seconds
      → let out = revoke_family_for_token hash at raw seen seen in
        let (after, answer) = rotate_refresh_token hash now id new_raw has_account raw seen out in
        IsDead token.family_id out
        × (answer ≡ rotated new_raw)
        × ((rotate_refresh_token hash later id' newer has_account new_raw after after).1
            ≡ rotated newer)
  unfolding revoke_family_for_token revoke_family
  rotate-misses_logout now at later id id' new_raw newer has_account raw seen token found live fresh
        unused account absent in_time =
      let out = revoke_family at token.family_id seen in
      let absent_out =
        still_absent (hash new_raw) (live_in_family token.family_id) (revoke at) (λ t. refl) seen
          absent in
      let after = rotate_row hash now id new_raw token out in
      let once =
        granted now id new_raw has_account raw seen out token found live fresh unused account in
      let again =
        granted later id' newer has_account new_raw after after
          (new_token id token.user_id token.family_id (hash new_raw) now)
          (successor_found now id new_raw token out absent_out) refl in_time refl account in
      let logged_out : revoke_family_for_token hash at raw seen seen ≡ out =
        rw (revoke_family_for_token, found) refl in
      rw (logged_out, once, again) (revoke_family-IsDead at token.family_id seen, refl, refl)

  -- Two rotations of one token that both read it before either writes are both granted, and reuse
  -- detection does not notice: the second new token can be rotated afterwards until it expires. The
  -- token is neither revoked, expired nor used when it is read, its user has an account, and the second
  -- new token is not in the table and has another hash than the first.
  pub rotate-misses_reuse :
      (now now' later id id' next : ℕ) (first second newer : String) (has_account : ℕ → Bool)
      (raw : String) (seen : List RefreshToken) (token : RefreshToken)
      → find_token (hash raw) seen ≡ some token
      → token.revoked_at ≡ none
      → now < token.expires_at
      → now' < token.expires_at
      → token.used_at ≡ none
      → has_account token.user_id ≡ true
      → find_token (hash second) seen ≡ none
      → str_eq (hash first) (hash second) ≡ false
      → later < now' + refresh_ttl_seconds
      → let (once, answer) = rotate_refresh_token hash now id first has_account raw seen seen in
        let (twice, answer') =
          rotate_refresh_token hash now' id' second has_account raw seen once in
        (answer ≡ rotated first)
        × (answer' ≡ rotated second)
        × ((rotate_refresh_token hash later next newer has_account second twice twice).1
            ≡ rotated newer)
  unfolding rotate_row
  rotate-misses_reuse now now' later id id' next first second newer has_account raw seen token found
        live fresh fresh' unused account absent apart in_time =
      let after = rotate_row hash now id first token seen in
      let twice = rotate_row hash now' id' second token after in
      let absent_once =
        absent_last (hash second) (new_token id token.user_id token.family_id (hash first) now)
          (update_where (λ t. t.id == token.id) (use_token now) seen) apart
          (still_absent (hash second) (λ t. t.id == token.id) (use_token now) (λ t. refl) seen
            absent) in
      let one =
        granted now id first has_account raw seen seen token found live fresh unused account in
      let two =
        granted now' id' second has_account raw seen after token found live fresh' unused account in
      let three =
        granted later next newer has_account second twice twice
          (new_token id' token.user_id token.family_id (hash second) now')
          (successor_found now' id' second token after absent_once) refl in_time refl account in
      rw (one, two, three) (refl, refl, refl)
