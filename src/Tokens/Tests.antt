-- ===== src/Tokens/Tests.antt =====
-- Accounts and tokens on which the theorems about redemptions are applied.
use trust_chain.Prelude.{◌≡◌, refl, true, false, none, some, [], ◌∷◌, arith}
use trust_chain.Tokens.{
  Token, Account, TokenDb, find_account, redeem, consume_token, create_verification_token,
}
use trust_chain.Tokens.SingleUse.{no_commit, redeem-single_use}
use trust_chain.Tokens.RoundTrip.{consume_token-create}

abbrev ann : Account
ann = record { id = 3; email = "a@x"; password_hash = "p"; email_verified = false }

abbrev sent_token : Token
sent_token = record {
  id = 1;
  user_id = 3;
  token_hash = "h";
  created_at = 10;
  expires_at = 110;
  used_at = none;
}

abbrev fresh_db : TokenDb
fresh_db = record { tokens = sent_token ∷ []; accounts = ann ∷ [] }

abbrev verify : Account → Account
verify a = record a { email_verified = true }

-- The second redemption has seen the tables as they were before the first.
redeem-single_use_example :
    redeem 30 "h" verify fresh_db (redeem 20 "h" verify fresh_db fresh_db).0
    ≡ ((redeem 20 "h" verify fresh_db fresh_db).0, none)
unfolding redeem
redeem-single_use_example =
    redeem-single_use (λ t. t) 20 30 "h" "h" verify verify fresh_db fresh_db fresh_db
      (redeem 20 "h" verify fresh_db fresh_db).0 sent_token sent_token 3 refl refl no_commit refl
      refl

abbrev no_tokens : TokenDb
no_tokens = record { tokens = []; accounts = ann ∷ [] }

consume_token-create_example :
    let issued = create_verification_token (λ t. t) 1 3 "raw" 10 100 no_tokens in
    ((consume_token (λ t. t) "raw" 50 issued issued).1 ≡ some 3)
    × (find_account 3 (consume_token (λ t. t) "raw" 50 issued issued).0.accounts
        ≡ some (record ann { email_verified = true }))
consume_token-create_example =
    consume_token-create (λ t. t) 1 3 "raw" 10 100 50 no_tokens ann refl refl (omega arith)
