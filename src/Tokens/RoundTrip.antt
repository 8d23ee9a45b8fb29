-- ===== src/Tokens/RoundTrip.antt =====
-- backend/db/email_verification.py and backend/db/password_reset.py: a token that was issued can be
-- redeemed until it expires.
use trust_chain.Prelude.{
  ℕ, ◌+◌, ◌<◌, ◌≡◌, refl, sym, ap, String, str_eq, eq_iff, true, false, none, some, List, [], ◌∷◌,
  ◌++◌, ◌==◌, leb, inl, inr, Bool-cases, update_where, arith, some-injective, none-ne-some, ==→eq,
  subst,
}
use trust_chain.Tokens.{
  Token, Account, TokenDb, find_hash, find_account, any_unused, redeem, new_row,
  create_verification_token, consume_token,
}

find_hash-append :
    (h : String) (tokens : List Token) (t : Token)
    → find_hash h tokens ≡ none
    → str_eq t.token_hash h ≡ true
    → find_hash h (tokens ++ t ∷ []) ≡ some t
find_hash-append h [] t absent e = rw (find_hash, e) refl
find_hash-append h (u ∷ tokens) t absent e = elim (Bool-cases (str_eq u.token_hash h)) [
  | inl hit ↦ absurd (none-ne-some _ (sym (rw (find_hash, hit) at absent)))
  | inr other ↦
      rw (find_hash, other) (find_hash-append h tokens t (rw (find_hash, other) at absent) e)
]

any_unused-append :
    (tokens : List Token) (t : Token) → t.used_at ≡ none → any_unused t.id (tokens ++ t ∷ []) ≡ true
any_unused-append [] t e = ground (arith, e)
any_unused-append (u ∷ tokens) t e = ground (arith, any_unused-append tokens t e)

find_account-id :
    (i : ℕ) (accounts : List Account) (a : Account) → find_account i accounts ≡ some a → a.id ≡ i
find_account-id i [] a h = cc
find_account-id i (b ∷ accounts) a h = elim (Bool-cases (b.id == i)) [
  | inl hit ↦ rw (some-injective _ _ (rw (find_account, hit) at h)) at (==→eq b.id i hit)
  | inr other ↦ find_account-id i accounts a (rw (find_account, other) at h)
]

find_account-change :
    (i : ℕ) (accounts : List Account) (a : Account) (change : Account → Account)
    → ((b : Account) → (change b).id ≡ b.id)
    → find_account i accounts ≡ some a
    → find_account i (update_where (λ (b : Account). b.id == i) change accounts) ≡ some (change a)
find_account-change i [] a change same h = cc
find_account-change i (b ∷ accounts) a change same h = elim (Bool-cases (b.id == i)) [
  | inl hit ↦
      let e : b ≡ a = some-injective _ _ (rw (find_account, hit) at h) in
      let kept : ((change b).id == i) ≡ true = rw (same b) hit in
      rw (update_where, hit, find_account, kept) (ap (λ x. some (change x)) e)
  | inr other ↦
      rw (update_where, other, find_account, other)
        (find_account-change i accounts a change same (rw (find_account, other) at h))
]

-- A row that was just added is redeemed until it expires.
redeem-new :
    (hash : String → String) (id user_id : ℕ) (raw_token : String) (now ttl later : ℕ)
    (change : Account → Account) (db : TokenDb) (a : Account)
    → ((b : Account) → (change b).id ≡ b.id)
    → find_hash (hash raw_token) db.tokens ≡ none
    → find_account user_id db.accounts ≡ some a
    → later < now + ttl
    → let issued : TokenDb = record db {
      tokens = db.tokens ++ new_row hash id user_id raw_token now ttl ∷ [];
    } in
      ((redeem later (hash raw_token) change issued issued).1 ≡ some user_id)
      × (find_account user_id (redeem later (hash raw_token) change issued issued).0.accounts
          ≡ some (change a))
unfolding redeem
redeem-new hash id user_id raw_token now ttl later change db a same absent owner l =
    let row = new_row hash id user_id raw_token now ttl in
    let found =
      find_hash-append (hash raw_token) db.tokens row absent
        ((eq_iff (hash raw_token) (hash raw_token)).1 refl) in
    let live : leb (now + ttl) later ≡ false = ground arith in
    let hit = any_unused-append db.tokens row refl in
    let id_same = find_account-id user_id db.accounts a owner in
    rw (redeem, found, live, hit, owner)
      (
        ap some id_same,
        subst
            (λ i.
              find_account user_id (update_where (λ (b : Account). b.id == i) change db.accounts)
              ≡ some (change a))
            (sym id_same) (find_account-change user_id db.accounts a change same owner),
      )

-- An issued verification token works: if no other token has its hash and the user exists, then
-- consuming it before it expires returns the user and leaves that user's address verified, the
-- rest of the account as it was.
pub consume_token-create :
    (hash : String → String) (id user_id : ℕ) (raw_token : String) (now ttl later : ℕ)
    (db : TokenDb) (a : Account)
    → find_hash (hash raw_token) db.tokens ≡ none
    → find_account user_id db.accounts ≡ some a
    → later < now + ttl
    → let issued = create_verification_token hash id user_id raw_token now ttl db in
      ((consume_token hash raw_token later issued issued).1 ≡ some user_id)
      × (find_account user_id (consume_token hash raw_token later issued issued).0.accounts
          ≡ some (record a { email_verified = true }))
unfolding create_verification_token consume_token
consume_token-create hash id user_id raw_token now ttl later db a absent owner l =
    redeem-new hash id user_id raw_token now ttl later (λ b. record b { email_verified = true }) db
      a (λ b. refl) absent owner l
