-- ===== src/Idempotency.antt =====
-- backend/db/idempotency.py: replay protection by Idempotency-Key, over the `idempotency_keys` rows of
-- backend/db/models.py. SHA-256 is a parameter; a response body is its JSON text.
pub mod Replay
mod Tests
use trust_chain.Prelude.{
  ℕ, ◌+◌, Bool, true, false, not, ◌&&◌, Option, none, some, List, [], ◌∷◌, ◌++◌, String, str_eq,
  if◌then◌else◌, select, leb, map, ◌==◌,
}
use trust_chain.Merkle.{Bytes}

pub record IdempotencyKey : Type 0 where
  pub project_id : ℕ
  pub key : String
  pub request_fingerprint : String
  pub response_json : String
  pub status_code : ℕ
  pub created_at : ℕ

-- Method and path in UTF-8.
pub record Request : Type 0 where
  pub method : Bytes
  pub path : Bytes
  pub body : Bytes

-- `|` is byte 124.
abbrev pub fingerprint : (sha256 : Bytes → String) → Request → String
fingerprint sha256 r = sha256 (r.method ++ 124 ∷ r.path ++ 124 ∷ r.body)

-- None, the stored response, or IdempotencyConflict.
pub data Cached : Type 0 where
  unseen : Cached
  replayed : (status_code : ℕ) (body : String) → Cached
  conflict : Cached

-- The composite primary key.
abbrev pub is_key : (project : ℕ) (key : String) → IdempotencyKey → Bool
is_key project key row = (row.project_id == project) && str_eq row.key key

abbrev pub first_key : List IdempotencyKey → Option IdempotencyKey
first_key [] = none
first_key (row ∷ _) = some row

unfoldable pub get_key : (project : ℕ) (key : String) → List IdempotencyKey → Option IdempotencyKey
get_key project key rows = first_key (select (is_key project key) rows)

module _ (sha256 : Bytes → String) where
  -- What a lookup makes of the row that it finds.
  abbrev pub cached : Request → Option IdempotencyKey → Cached
  cached r none = unseen
  cached r (some row) =
      if str_eq row.request_fingerprint (fingerprint sha256 r)
      then replayed row.status_code row.response_json
      else conflict

  unfoldable pub get_cached_response :
      (project : ℕ) (key : String) → Request → List IdempotencyKey → Cached
  get_cached_response project key r rows = cached r (get_key project key rows)

  -- INSERT ... ON CONFLICT DO NOTHING.
  unfoldable pub store_response :
      (project : ℕ) (key : String)
      → Request
      → (status_code : ℕ) (response_body : String) (now : ℕ) → List IdempotencyKey
      → List IdempotencyKey
  store_response project key r status_code response_body now rows =
      elim (get_key project key rows) [
        | some _ ↦ rows
        | none ↦
            rows
            ++ record {
              project_id = project;
              key = key;
              request_fingerprint = fingerprint sha256 r;
              response_json = response_body;
              status_code = status_code;
              created_at = now;
            }
              ∷ []
      ]

-- `created_at <= now - retention_seconds`
abbrev pub is_expired : (now retention_seconds : ℕ) → IdempotencyKey → Bool
is_expired now retention_seconds row = leb (row.created_at + retention_seconds) now

-- The rows that are left, and the keys that were deleted.
unfoldable pub purge_expired :
    (now retention_seconds : ℕ) → List IdempotencyKey → List IdempotencyKey × List (ℕ × String)
purge_expired now retention_seconds rows = (
  select (λ row. not (is_expired now retention_seconds row)) rows,
  map (λ (row : IdempotencyKey). (row.project_id, row.key))
      (select (is_expired now retention_seconds) rows),
)
