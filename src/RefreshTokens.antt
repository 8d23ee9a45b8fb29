-- ===== src/RefreshTokens.antt =====
-- backend/refresh.py: refresh-token families, their rotation and their revocation, over the
-- `refresh_tokens` rows of backend/db/models.py. The hash is a parameter; fresh random values, the
-- ids the database gives and the time are arguments. A rotation reads the token's row first, without
-- a lock, and writes later; in between other transactions commit, so the rows that it has seen and
-- those that it writes to are two arguments. Cookies and the signed access token are left out.
pub mod Families
pub mod Races
mod Tests
use trust_chain.Prelude.{
  ℕ, ◌+◌, Bool, true, false, ◌&&◌, Option, none, some, List, [], ◌∷◌, ◌++◌, String, str_eq,
  if◌then◌else◌, select, update_where, is_none, is_some, leb, ◌==◌,
}

pub record RefreshToken : Type 0 where
  pub id : ℕ
  pub user_id : ℕ
  pub family_id : String
  pub token_hash : String
  pub created_at : ℕ
  pub expires_at : ℕ
  pub used_at : Option ℕ
  pub revoked_at : Option ℕ

-- 30 days.
abbrev pub refresh_ttl_seconds : ℕ
refresh_ttl_seconds = 2592000

-- The messages of RefreshError.
pub data RefreshError : Type 0 where
  unknown_token family_revoked expired reuse_detected account_gone : RefreshError

-- What the caller gets: the raw refresh token of the new pair, or the error.
pub data Rotation : Type 0 where
  rotated : (refresh_token : String) → Rotation
  refused : RefreshError → Rotation

abbrev pub new_token : (id user_id : ℕ) (family_id token_hash : String) (now : ℕ) → RefreshToken
new_token id user_id family_id token_hash now = record {
  id = id;
  user_id = user_id;
  family_id = family_id;
  token_hash = token_hash;
  created_at = now;
  expires_at = now + refresh_ttl_seconds;
  used_at = none;
  revoked_at = none;
}

abbrev pub revoke : (now : ℕ) → RefreshToken → RefreshToken
revoke now t = record t { revoked_at = some now }

abbrev pub live_in_family : String → RefreshToken → Bool
live_in_family family t = str_eq t.family_id family && is_none t.revoked_at

abbrev pub live_of_user : ℕ → RefreshToken → Bool
live_of_user user t = (t.user_id == user) && is_none t.revoked_at

unfoldable pub revoke_family : (now : ℕ) (family : String) → List RefreshToken → List RefreshToken
revoke_family now family = update_where (live_in_family family) (revoke now)

abbrev pub first_token : List RefreshToken → Option RefreshToken
first_token [] = none
first_token (t ∷ _) = some t

-- The row with the hash; the column is unique.
unfoldable pub find_token : (token_hash : String) → List RefreshToken → Option RefreshToken
find_token token_hash rows = first_token (select (λ t. str_eq t.token_hash token_hash) rows)

abbrev pub use_token : (now : ℕ) → RefreshToken → RefreshToken
use_token now t = record t { used_at = some now }

-- The checks on the token's row, in their order; a replay is answered by `replay`.
abbrev pub check_token {ℓ} :
    {A : Type ℓ} (is_revoked is_expired is_used : Bool) (refuse : RefreshError → A)
    (replay next : A)
    → A
check_token is_revoked is_expired is_used refuse replay next =
    if is_revoked
    then refuse family_revoked
    else if is_expired
    then refuse expired
    else if is_used
    then replay
    else next

module _ (hash : String → String) where
  unfoldable pub issue_token_pair :
      (now id user_id : ℕ) (family_id raw_refresh : String)
      → List RefreshToken
      → List RefreshToken × String
  issue_token_pair now id user_id family_id raw_refresh rows =
      (rows ++ new_token id user_id family_id (hash raw_refresh) now ∷ [], raw_refresh)

  -- The rows after the token is marked used and its successor is added.
  unfoldable pub rotate_row :
      (now id : ℕ) (new_raw : String) → RefreshToken → List RefreshToken → List RefreshToken
  rotate_row now id new_raw token rows =
      update_where (λ t. t.id == token.id) (use_token now) rows
      ++ new_token id token.user_id token.family_id (hash new_raw) now ∷ []

  -- `has_account` says whether the token's user and that user's project are found afterwards: the
  -- rotation is committed before they are looked up.
  unfoldable pub rotate_refresh_token :
      (now id : ℕ) (new_raw : String) (has_account : ℕ → Bool) (raw_refresh_token : String)
      (seen rows : List RefreshToken)
      → List RefreshToken × Rotation
  rotate_refresh_token now id new_raw has_account raw_refresh_token seen rows =
      elim (find_token (hash raw_refresh_token) seen) [
        | none ↦ (rows, refused unknown_token)
        | some token ↦
            check_token (is_some token.revoked_at) (leb token.expires_at now)
              (is_some token.used_at) (λ e. (rows, refused e))
              (revoke_family now token.family_id rows, refused reuse_detected)
              (
                rotate_row now id new_raw token rows,
                if has_account token.user_id then rotated new_raw else refused account_gone,
              )
      ]

  -- The family is read in a statement of its own, from `seen`; a token's family never changes.
  unfoldable pub revoke_family_for_token :
      (now : ℕ) (raw_refresh_token : String) (seen rows : List RefreshToken) → List RefreshToken
  revoke_family_for_token now raw_refresh_token seen rows =
      elim (find_token (hash raw_refresh_token) seen) [
        | none ↦ rows
        | some token ↦ revoke_family now token.family_id rows
      ]

unfoldable pub revoke_all_for_user : (now user_id : ℕ) → List RefreshToken → List RefreshToken
revoke_all_for_user now user_id = update_where (live_of_user user_id) (revoke now)
