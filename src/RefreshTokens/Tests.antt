-- ===== src/RefreshTokens/Tests.antt =====
-- A family of two tokens: the first was rotated away.
use trust_chain.Prelude.{
  ℕ, refl, [], none, some, true, false, List, ◌∷◌, String, Option, Bool, ◌≡◌, arith, str_eq,
}
use trust_chain.RefreshTokens.{
  RefreshToken, issue_token_pair, refused, reuse_detected, rotated, find_token,
  rotate_refresh_token,
}
use trust_chain.RefreshTokens.Families.{
  rotate-reuse_kills_family, revocation_final, IsDead, Since, start, issues, rotates,
}

abbrev same_text : String → String
same_text s = s

abbrev token : (id : ℕ) (text : String) (used_at revoked_at : Option ℕ) → RefreshToken
token id text used_at revoked_at = record {
  id = id;
  user_id = 4;
  family_id = "f";
  token_hash = text;
  created_at = 10;
  expires_at = 1000;
  used_at = used_at;
  revoked_at = revoked_at;
}

abbrev known : ℕ → Bool
known _ = true

abbrev rotated_once : List RefreshToken
rotated_once = token 1 "a" (some 20) none ∷ token 2 "b" none none ∷ []

abbrev logged_out : List RefreshToken
logged_out = token 1 "a" (some 20) (some 30) ∷ token 2 "b" none (some 30) ∷ []

replay_found : find_token "a" rotated_once ≡ some (token 1 "a" (some 20) none)
unfolding find_token
replay_found = refl

rotate-reuse_kills_family_example :
    let (after, answer) =
      rotate_refresh_token same_text 50 3 "c" known "a" rotated_once rotated_once in
    (answer ≡ refused reuse_detected) × IsDead "f" after
rotate-reuse_kills_family_example =
    rotate-reuse_kills_family same_text 50 3 "c" known "a" rotated_once rotated_once
      (token 1 "a" (some 20) none) replay_found refl (omega arith) refl

-- The table after a rotation that has read it, which is refused, and a new login.
abbrev after_login : List RefreshToken
after_login =
    (issue_token_pair same_text 41 4 4 "g" "d"
      (rotate_refresh_token same_text 40 3 "c" known "b" logged_out logged_out).0).0

after_login-Since : Since same_text "f" logged_out after_login
after_login-Since = issues 41 4 4 "g" "d" (rotates 40 3 "c" known "b" start start refl) refl refl

revocation_final_example :
    IsDead "f" after_login
    × ((now id : ℕ) (new_raw : String) (has_account : ℕ → Bool) (raw raw' : String)
        → (rotate_refresh_token same_text now id new_raw has_account raw logged_out after_login).1
          ≡ rotated raw'
        → (t : RefreshToken) × (find_token raw logged_out ≡ some t)
          × (str_eq t.family_id "f" ≡ false))
revocation_final_example =
    revocation_final same_text "f" logged_out logged_out after_login
      ((λ _. refl), ((λ _. refl), tt)) start after_login-Since
