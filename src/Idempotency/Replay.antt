-- ===== src/Idempotency/Replay.antt =====
-- What a retry gets after a response was stored under its key, and what a purge leaves.
use trust_chain.Merkle.{Bytes}
use trust_chain.Prelude.{
  refl, [], none, some, true, false, suc, inl, inr, ℕ, String, List, ◌≢◌, ◌∷◌, ◌++◌, ◌≡◌,
  Option-cases, sym, str_eq, arith, ◌∙◌, Bool-cases, ap, Option, eq_iff, none-ne-some, Among, ◌<◌,
  ◌+◌, length, map, Bool, select-Among, select, not, Among-select,
}
use trust_chain.Idempotency.{
  IdempotencyKey, Request, unseen, replayed, conflict, get_key, store_response, get_cached_response,
  is_key, fingerprint, purge_expired, cached, is_expired,
}

get_key-append :
    (project : ℕ) (key : String) (row : IdempotencyKey) (rows : List IdempotencyKey)
    → (get_key project key rows ≢ none
        → get_key project key (rows ++ row ∷ []) ≡ get_key project key rows)
      × (get_key project key rows ≡ none
          → is_key project key row ≡ true
          → get_key project key (rows ++ row ∷ []) ≡ some row)
unfolding get_key
get_key-append project key row [] = (λ h. absurd (h refl), λ _ hit. ground (arith, hit))
get_key-append project key row (x ∷ rows) =
    let (kept, added) = get_key-append project key row rows in
    elim (Bool-cases (is_key project key x)) [
      | inl hit ↦ (λ h. ground (arith, hit), λ h _. ground (arith, hit, h))
      | inr miss ↦ (
        λ h. ground (arith, miss, kept (λ e. h (ground (arith, miss, e)))),
        λ h hit. ground (arith, miss, added (ground (arith, miss, h)) hit),
      )
    ]

module _ (sha256 : Bytes → String) where
  -- What is stored of one call of `store_response`.
  pub record Store : Type 0 where
    pub project : ℕ
    pub key : String
    pub request : Request
    pub status_code : ℕ
    pub response_body : String
    pub now : ℕ

  abbrev pub store_all : List Store → List IdempotencyKey → List IdempotencyKey
  store_all [] rows = rows
  store_all (s ∷ stores) rows =
      store_all stores
        (store_response sha256 s.project s.key s.request s.status_code s.response_body s.now rows)

  abbrev new_row :
      (project : ℕ) (key : String)
      → Request
      → (status_code : ℕ) (response_body : String) (now : ℕ) → IdempotencyKey
  new_row project key r status_code response_body now = record {
    project_id = project;
    key = key;
    request_fingerprint = fingerprint sha256 r;
    response_json = response_body;
    status_code = status_code;
    created_at = now;
  }

  store-unseen :
      (project : ℕ) (key : String) (r : Request) (status_code : ℕ) (response_body : String)
      (now : ℕ) (rows : List IdempotencyKey)
      → get_key project key rows ≡ none
      → store_response sha256 project key r status_code response_body now rows
        ≡ rows ++ new_row project key r status_code response_body now ∷ []
  unfolding store_response
  store-unseen project key r status_code response_body now rows absent =
      rw (store_response, absent) refl

  store-seen :
      (project : ℕ) (key : String) (r : Request) (status_code : ℕ) (response_body : String)
      (now : ℕ) (rows : List IdempotencyKey) (row : IdempotencyKey)
      → get_key project key rows ≡ some row
      → store_response sha256 project key r status_code response_body now rows ≡ rows
  unfolding store_response
  store-seen project key r status_code response_body now rows row found =
      rw (store_response, found) refl

  store-get_key :
      (project : ℕ) (key : String) (s : Store) (rows : List IdempotencyKey)
      → get_key project key rows ≢ none
      → get_key project key
          (store_response sha256 s.project s.key s.request s.status_code s.response_body s.now rows)
        ≡ get_key project key rows
  store-get_key project key s rows seen = elim (Option-cases (get_key s.project s.key rows)) [
    | inr (row, found) ↦
        ap (get_key project key)
          (store-seen s.project s.key s.request s.status_code s.response_body s.now rows row found)
    | inl absent ↦
        ap (get_key project key)
          (store-unseen s.project s.key s.request s.status_code s.response_body s.now rows absent)
        ∙ (get_key-append project key
              (new_row s.project s.key s.request s.status_code s.response_body s.now) rows).0
            seen
  ]

  store_all-get_key :
      (project : ℕ) (key : String) (stores : List Store) (rows : List IdempotencyKey)
      → get_key project key rows ≢ none
      → get_key project key (store_all stores rows) ≡ get_key project key rows
  store_all-get_key project key [] rows seen = refl
  store_all-get_key project key (s ∷ stores) rows seen =
      let same = store-get_key project key s rows seen in
      store_all-get_key project key stores _ (λ e. seen (sym same ∙ e)) ∙ same

  unseen-none : (r : Request) (o : Option IdempotencyKey) → cached sha256 r o ≡ unseen → o ≡ none
  unseen-none r none h = refl
  unseen-none r (some row) h =
      elim (Bool-cases (str_eq row.request_fingerprint (fingerprint sha256 r))) [
        | inl same ↦ ground (arith, same, h)
        | inr differs ↦ ground (arith, differs, h)
      ]

  -- A response stored under a key that the project has not used is final: after any further stores,
  -- by any project and under any key, a retry of the same request gets that response, and a request
  -- with another fingerprint under the key is a conflict.
  pub first_response_wins :
      (project : ℕ) (key : String) (r other : Request) (status_code : ℕ) (response_body : String)
      (now : ℕ) (stores : List Store) (rows : List IdempotencyKey)
      → get_cached_response sha256 project key r rows ≡ unseen
      → let after =
          store_all stores
            (store_response sha256 project key r status_code response_body now rows) in
        (get_cached_response sha256 project key r after ≡ replayed status_code response_body)
        × (str_eq (fingerprint sha256 r) (fingerprint sha256 other) ≡ false
            → get_cached_response sha256 project key other after ≡ conflict)
  unfolding get_cached_response
  first_response_wins project key r other status_code response_body now stores rows fresh = (
    ap (cached sha256 r) stays ∙ same_request (fingerprint sha256 r) refl,
    λ differ. ap (cached sha256 other) stays ∙ other_request differ,
  )
    where
      row : IdempotencyKey
      row = new_row project key r status_code response_body now

      absent : get_key project key rows ≡ none
      absent = unseen-none r (get_key project key rows) fresh

      own_key : is_key project key row ≡ true
      own_key = let same : str_eq key key ≡ true = (eq_iff key key).1 refl in ground (arith, same)

      found :
          get_key project key
            (store_response sha256 project key r status_code response_body now rows)
          ≡ some row
      found =
          ap (get_key project key)
            (store-unseen project key r status_code response_body now rows absent)
          ∙ (get_key-append project key row rows).1 absent own_key

      stays :
          get_key project key (
            store_all stores
              (store_response sha256 project key r status_code response_body now rows))
          ≡ some row
      stays = store_all-get_key project key stores _ (λ e. none-ne-some row (sym e ∙ found)) ∙ found

      same_request :
          (f : String)
          → f ≡ fingerprint sha256 r
          → cached sha256 r (some row) ≡ replayed status_code response_body
      same_request f e =
          let same : str_eq (fingerprint sha256 r) (fingerprint sha256 r) ≡ true =
            (eq_iff (fingerprint sha256 r) (fingerprint sha256 r)).1 refl in
          rw same refl

      other_request :
          str_eq (fingerprint sha256 r) (fingerprint sha256 other) ≡ false
          → cached sha256 other (some row) ≡ conflict
      other_request differ = rw differ refl

abbrev key_of : IdempotencyKey → ℕ × String
key_of row = (row.project_id, row.key)

length-map_key : (rows : List IdempotencyKey) → length (map key_of rows) ≡ length rows
length-map_key [] = refl
length-map_key (r ∷ rows) = ap suc (length-map_key rows)

length-parted :
    (p : IdempotencyKey → Bool) (rows : List IdempotencyKey)
    → length (select (λ r. not (p r)) rows) + length (select p rows) ≡ length rows
length-parted p [] = refl
length-parted p (r ∷ rows) = let rec = length-parted p rows in ground arith

-- A purge deletes exactly the rows that are at least `retention_seconds` old and returns as many
-- keys as it deletes: a row is in the table afterwards if and only if it was before and is younger.
pub purge_expired-keeps_young :
    (now retention_seconds : ℕ) (rows : List IdempotencyKey)
    → let (left, deleted) = purge_expired now retention_seconds rows in
      ((row : IdempotencyKey)
        → Among row rows
        → now < row.created_at + retention_seconds
        → Among row left)
      × ((row : IdempotencyKey)
          → Among row left
          → Among row rows × (now < row.created_at + retention_seconds))
      × (length left + length deleted ≡ length rows)
unfolding purge_expired
purge_expired-keeps_young now retention_seconds rows = (
  λ row m young.
      select-Among (λ r. not (is_expired now retention_seconds r)) row rows m
        (ground (arith, young)),
  λ row m.
      let (among, kept) = Among-select (λ r. not (is_expired now retention_seconds r)) row rows m in
      (among, ground (arith, kept)),
  omega (
    arith,
    length-parted (is_expired now retention_seconds) rows,
    length-map_key (select (is_expired now retention_seconds) rows),
  ),
)
