-- ===== src/Idempotency/Tests.antt =====
-- One project, one key, and a purge.
use trust_chain.Prelude.{refl, [], false, zero, List, ◌∷◌, String, ◌≡◌, str_eq}
use trust_chain.Merkle.{Bytes}
use trust_chain.Idempotency.{
  IdempotencyKey, Request, unseen, replayed, conflict, get_cached_response, store_response, get_key,
  fingerprint,
}
use trust_chain.Idempotency.Replay.{first_response_wins, Store, store_all}

-- In the place of SHA-256: whether the bytes start with a zero.
abbrev toy_sha256 : Bytes → String
toy_sha256 (zero ∷ _) = "zero"
toy_sha256 _ = "other"

abbrev run_request : Request
run_request = record { method = 0 ∷ []; path = 1 ∷ []; body = [] }

abbrev other_request : Request
other_request = record { method = 8 ∷ []; path = 1 ∷ []; body = [] }

abbrev old_rows : List IdempotencyKey
old_rows =
    record {
      project_id = 1;
      key = "old";
      request_fingerprint = "x";
      response_json = "{}";
      status_code = 200;
      created_at = 10;
    }
    ∷ []

abbrev stores : List (Store toy_sha256)
stores =
    record {
      project = 1;
      key = "k";
      request = other_request;
      status_code = 500;
      response_body = "late";
      now = 60;
    }
    ∷ []

unused : get_cached_response toy_sha256 1 "k" run_request old_rows ≡ unseen
unfolding get_cached_response get_key
unused = refl

first_response_wins_example :
    let after =
      store_all toy_sha256 stores
        (store_response toy_sha256 1 "k" run_request 200 "ok" 50 old_rows) in
    (get_cached_response toy_sha256 1 "k" run_request after ≡ replayed 200 "ok")
    × (str_eq (fingerprint toy_sha256 run_request) (fingerprint toy_sha256 other_request) ≡ false
        → get_cached_response toy_sha256 1 "k" other_request after ≡ conflict)
first_response_wins_example =
    first_response_wins toy_sha256 1 "k" run_request other_request 200 "ok" 50 stores old_rows
      unused
