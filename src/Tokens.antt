-- ===== src/Tokens.antt =====
-- backend/db/email_verification.py and backend/db/password_reset.py: tokens that are sent by email
-- and used once. A redemption reads the token's row first and updates it later; in between other
-- transactions commit, so the tables that it has seen and those that it updates are two arguments.
-- The hash of a token and of a password are parameters; the rows hold the columns that are used.
pub mod SingleUse
pub mod RoundTrip
mod Tests
use trust_chain.Prelude.{
  ℕ, ◌+◌, String, str_eq, Bool, true, false, ◌&&◌, ◌||◌, Option, none, some, List, [], ◌∷◌, ◌++◌,
  ◌==◌, leb, is_some, is_none, if◌then◌else◌, update_where,
}

-- A row of `email_verification_tokens` or of `password_reset_tokens`.
pub record Token : Type 0 where
  pub id : ℕ
  pub user_id : ℕ
  pub token_hash : String
  pub created_at : ℕ
  pub expires_at : ℕ
  pub used_at : Option ℕ

-- The columns of `users` that a redemption writes or a request reads.
pub record Account : Type 0 where
  pub id : ℕ
  pub email : String
  pub password_hash : String
  pub email_verified : Bool

pub record TokenDb : Type 0 where
  pub tokens : List Token
  pub accounts : List Account

abbrev pub find_hash : String → List Token → Option Token
find_hash h [] = none
find_hash h (t ∷ tokens) =
    let rest = find_hash h tokens in if str_eq t.token_hash h then some t else rest

abbrev pub find_account : ℕ → List Account → Option Account
find_account i [] = none
find_account i (a ∷ accounts) =
    let rest = find_account i accounts in if a.id == i then some a else rest

abbrev pub find_email : String → List Account → Option Account
find_email e [] = none
find_email e (a ∷ accounts) =
    let rest = find_email e accounts in if str_eq a.email e then some a else rest

-- `id = :id AND used_at IS NULL`.
abbrev pub unused : ℕ → Token → Bool
unused i t = t.id == i && is_none t.used_at

-- `rowcount > 0` of an UPDATE with that condition.
abbrev pub any_unused : ℕ → List Token → Bool
any_unused i [] = false
any_unused i (t ∷ tokens) = unused i t || any_unused i tokens

abbrev pub use_token : (now id : ℕ) → List Token → List Token
use_token now i = update_where (unused i) (λ t. record t { used_at = some now })

-- What `consume_token` and `reset_password` share; they differ in the columns they write. `none`
-- is also the result where the transaction is rolled back.
unfoldable pub redeem :
    (now : ℕ) (token_hash : String) (change : Account → Account) (seen db : TokenDb)
    → TokenDb × Option ℕ
redeem now token_hash change seen db = elim (find_hash token_hash seen.tokens) [
  | none ↦ (db, none)
  | some row ↦
      if is_some row.used_at || leb row.expires_at now
      then (db, none)
      else if any_unused row.id db.tokens
      then (elim (find_account row.user_id db.accounts) [
        | none ↦ (db, none)
        | some user ↦ (
          record {
            tokens = use_token now row.id db.tokens;
            accounts = update_where (λ (a : Account). a.id == user.id) change db.accounts;
          },
          some user.id,
        )
      ])
      else (db, none)
]

module _ (hash : String → String) where
  unfoldable pub consume_token :
      (raw_token : String) (now : ℕ) (seen db : TokenDb) → TokenDb × Option ℕ
  unfolding redeem
  consume_token raw_token now seen db =
      redeem now (hash raw_token) (λ a. record a { email_verified = true }) seen db

  unfoldable pub reset_password :
      (hash_password : String → String) (raw_token new_password : String) (now : ℕ)
      (seen db : TokenDb)
      → TokenDb × Option ℕ
  unfolding redeem
  reset_password hash_password raw_token new_password now seen db =
      redeem now (hash raw_token) (λ a. record a { password_hash = hash_password new_password })
        seen db

  abbrev pub new_row : (id user_id : ℕ) (raw_token : String) (now ttl_seconds : ℕ) → Token
  new_row id user_id raw_token now ttl_seconds = record {
    id = id;
    user_id = user_id;
    token_hash = hash raw_token;
    created_at = now;
    expires_at = now + ttl_seconds;
    used_at = none;
  }

  unfoldable pub create_verification_token :
      (id user_id : ℕ) (raw_token : String) (now ttl_seconds : ℕ) → TokenDb → TokenDb
  create_verification_token id user_id raw_token now ttl_seconds db = record db {
    tokens = db.tokens ++ new_row id user_id raw_token now ttl_seconds ∷ [];
  }

  -- The id of the account, where there is one with the address.
  unfoldable pub create_reset_token_if_exists :
      (id : ℕ) (raw_token email : String) (now ttl_seconds : ℕ) → TokenDb → TokenDb × Option ℕ
  create_reset_token_if_exists id raw_token email now ttl_seconds db =
      elim (find_email email db.accounts) [
        | none ↦ (db, none)
        | some user ↦ (
          record db { tokens = db.tokens ++ new_row id user.id raw_token now ttl_seconds ∷ [] },
          some user.id,
        )
      ]
