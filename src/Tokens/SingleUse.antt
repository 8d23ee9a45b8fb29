-- ===== src/Tokens/SingleUse.antt =====
-- backend/db/email_verification.py and backend/db/password_reset.py: a token is used once, however
-- the transactions of its redemptions interleave.
use trust_chain.Prelude.{
  ℕ, ◌≡◌, ◌≢◌, refl, String, true, false, List, [], ◌∷◌, ◌==◌, All, inl, inr, Bool-cases, is_some,
  is_none, update_where, arith, ==→eq, Option, All-append, none, some, Option-cases, none-ne-some,
  some-injective, ◌||◌, sym, leb, ◌∙◌, subst, ap, false≢true,
}
use trust_chain.Tokens.{
  Token, Account, TokenDb, unused, any_unused, use_token, redeem, create_verification_token,
  create_reset_token_if_exists, find_hash, new_row, find_email, find_account,
}

-- Every row with the id is used, and the id is not given again.
abbrev Spent : ℕ → List Token → Type 0
Spent i tokens = All (λ t. t.id ≡ i → is_some t.used_at ≡ true) tokens

-- What other transactions commit: redemptions, by whatever they have seen, and new tokens with
-- ids other than `spent`, which the sequence has given before.
pub data Commit (hash : String → String) (spent : ℕ) (db db' : TokenDb) : Type 0 where
  redeems :
      (now : ℕ) (token_hash : String) (change : Account → Account) (seen : TokenDb)
      → db' ≡ (redeem now token_hash change seen db).0
      → Commit hash spent db db'
  verifies :
      (id user_id : ℕ) (raw_token : String) (now ttl : ℕ)
      → id ≢ spent
      → db' ≡ create_verification_token hash id user_id raw_token now ttl db
      → Commit hash spent db db'
  requests :
      (id : ℕ) (raw_token email : String) (now ttl : ℕ)
      → id ≢ spent
      → db' ≡ (create_reset_token_if_exists hash id raw_token email now ttl db).0
      → Commit hash spent db db'

pub data Commits (hash : String → String) (spent : ℕ) (db : TokenDb) : TokenDb → Type 0 where
  no_commit : Commits hash spent db db
  then_commit :
      {db' db'' : TokenDb}
      → Commits hash spent db db'
      → Commit hash spent db' db''
      → Commits hash spent db db''

Spent-none_left : (i : ℕ) (tokens : List Token) → Spent i tokens → any_unused i tokens ≡ false
Spent-none_left i [] s = refl
Spent-none_left i (t ∷ tokens) (st, s) = elim (Bool-cases (t.id == i)) [
  | inl hit ↦
      let used = st (==→eq t.id i hit) in
      let unused_no : is_none t.used_at ≡ false = ground (arith, used) in
      rw (any_unused, hit, unused_no) (Spent-none_left i tokens s)
  | inr other ↦ rw (any_unused, other) (Spent-none_left i tokens s)
]

use_token-Spent : (now i : ℕ) (tokens : List Token) → Spent i (use_token now i tokens)
use_token-Spent now i [] = tt
use_token-Spent now i (t ∷ tokens) = elim (Bool-cases (unused i t)) [
  | inl hit ↦ rw (update_where, hit) (λ e. refl, use_token-Spent now i tokens)
  | inr miss ↦ rw (update_where, miss) (λ e. ground (arith, miss, e), use_token-Spent now i tokens)
]

use_token-keeps_Spent :
    (now i j : ℕ) (tokens : List Token) → Spent i tokens → Spent i (use_token now j tokens)
use_token-keeps_Spent now i j [] s = tt
use_token-keeps_Spent now i j (t ∷ tokens) (st, s) = elim (Bool-cases (unused j t)) [
  | inl hit ↦ rw (update_where, hit) (λ e. refl, use_token-keeps_Spent now i j tokens s)
  | inr miss ↦ rw (update_where, miss) (st, use_token-keeps_Spent now i j tokens s)
]

-- A redemption leaves everything as it was, or uses the row that it has seen.
redeem_cases :
    (now : ℕ) (token_hash : String) (change : Account → Account) (seen db : TokenDb)
    (P : TokenDb × Option ℕ → Type 0)
    → P (db, none)
    → ((row : Token) (user : Account)
        → find_hash token_hash seen.tokens ≡ some row
        → any_unused row.id db.tokens ≡ true
        → P (
          record {
            tokens = use_token now row.id db.tokens;
            accounts = update_where (λ (a : Account). a.id == user.id) change db.accounts;
          },
          some user.id,
        ))
    → P (redeem now token_hash change seen db)
unfolding redeem
redeem_cases now token_hash change seen db P same uses =
    elim (Option-cases (find_hash token_hash seen.tokens)) [
      | inl unknown ↦ rw (redeem, unknown) same
      | inr (row, found) ↦ elim (Bool-cases (is_some row.used_at || leb row.expires_at now)) [
        | inl dead ↦ rw (redeem, found, dead) same
        | inr live ↦ elim (Bool-cases (any_unused row.id db.tokens)) [
          | inr raced ↦ rw (redeem, found, live, raced) same
          | inl hit ↦ elim (Option-cases (find_account row.user_id db.accounts)) [
            | inl no_account ↦ rw (redeem, found, live, hit, no_account) same
            | inr (user, e) ↦ rw (redeem, found, live, hit, e) (uses row user found hit)
          ]
        ]
      ]
    ]

Commit-keeps_Spent :
    (hash : String → String) (i : ℕ) (db db' : TokenDb)
    → Commit hash i db db'
    → Spent i db.tokens
    → Spent i db'.tokens
unfolding create_verification_token create_reset_token_if_exists
Commit-keeps_Spent hash i db db' (redeems now token_hash change seen e) s = rw e (
    redeem_cases now token_hash change seen db (λ r. Spent i r.0.tokens) s
      (λ row user found hit. use_token-keeps_Spent now i row.id db.tokens s))
Commit-keeps_Spent hash i db db' (verifies id user_id raw_token now ttl fresh e) s = rw e (
    All-append (λ t. t.id ≡ i → is_some t.used_at ≡ true) db.tokens
      (new_row hash id user_id raw_token now ttl ∷ []) s (λ same. absurd (fresh same), tt))
Commit-keeps_Spent hash i db db' (requests id raw_token email now ttl fresh e) s =
    elim (Option-cases (find_email email db.accounts)) [
      | inl unknown ↦ rw (e, create_reset_token_if_exists, unknown) s
      | inr (user, found) ↦
          rw (e, create_reset_token_if_exists, found)
            (All-append (λ t. t.id ≡ i → is_some t.used_at ≡ true) db.tokens
              (new_row hash id user.id raw_token now ttl ∷ []) s (λ same. absurd (fresh same), tt))
    ]

Commits-keep_Spent :
    (hash : String → String) (i : ℕ) (db db' : TokenDb)
    → Commits hash i db db'
    → Spent i db.tokens
    → Spent i db'.tokens
Commits-keep_Spent hash i db db' no_commit s = s
Commits-keep_Spent hash i db db' (then_commit before last) s =
    Commit-keeps_Spent hash i _ db' last (Commits-keep_Spent hash i db _ before s)

redeem-Spent :
    (now : ℕ) (token_hash : String) (change : Account → Account) (seen db : TokenDb) (row : Token)
    (user : ℕ)
    → find_hash token_hash seen.tokens ≡ some row
    → (redeem now token_hash change seen db).1 ≡ some user
    → Spent row.id (redeem now token_hash change seen db).0.tokens
redeem-Spent now token_hash change seen db row user found =
    redeem_cases now token_hash change seen db (λ r. r.1 ≡ some user → Spent row.id r.0.tokens)
      (λ e. absurd (none-ne-some _ e))
      (λ row' user' found' hit e.
        let same : row' ≡ row = some-injective _ _ (sym found' ∙ found) in
        subst (λ (t : Token). Spent t.id (use_token now row'.id db.tokens)) same
          (use_token-Spent now row'.id db.tokens))

-- A token works once. After a redemption of a row that returned an account, and any number of
-- commits that give no new token the row's id, every redemption of a row with that id is refused
-- and changes nothing, also one that has seen the tables as they were before the first, and
-- whatever it would write.
pub redeem-single_use :
    (hash : String → String) (now later : ℕ) (token_hash again : String)
    (change change' : Account → Account) (seen seen' db db' : TokenDb) (row row' : Token) (user : ℕ)
    → find_hash token_hash seen.tokens ≡ some row
    → (redeem now token_hash change seen db).1 ≡ some user
    → Commits hash row.id (redeem now token_hash change seen db).0 db'
    → find_hash again seen'.tokens ≡ some row'
    → row'.id ≡ row.id
    → redeem later again change' seen' db' ≡ (db', none)
redeem-single_use hash now later token_hash again change change' seen seen' db db' row row' user
      found used between found' same =
    let spent =
      Commits-keep_Spent hash row.id _ db' between
        (redeem-Spent now token_hash change seen db row user found used) in
    redeem_cases later again change' seen' db' (λ r. r ≡ (db', none)) refl
      (λ row'' user'' found'' hit.
        let one : row'' ≡ row' = some-injective _ _ (sym found'' ∙ found') in
        let id_same : row''.id ≡ row.id = ap (λ (t : Token). t.id) one ∙ same in
        absurd (false≢true (sym (Spent-none_left row.id db'.tokens spent) ∙ rw id_same at hit)))
