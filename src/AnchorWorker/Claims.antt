-- ===== src/AnchorWorker/Claims.antt =====
-- The rows that a claim takes, and their ids.
use trust_chain.AnchorWorker.Invariant.{IsValid, claim_rows-IsValid}
use trust_chain.AnchorWorker.Outbox.{
  claim_batch, any_of, claimed_ids, claimed_rows, has_id, claimable, claim_row,
}
use trust_chain.Prelude.{
  ℕ, List, Bool, ◌∷◌, Among, String, map, ◌≡◌, false, true, length, Bool-cases, here, Among-select,
  ◌≤◌, ◌==◌, arith, sym, sort_by-Among, inl, ap, ◌∙◌, select, ==→eq, there, Among-take, ◌⊎◌, inr,
  sort_by, false≢true, length-map, Among-sort_by, update_where, length-take, select-Among,
  Among-update_where, update_where-Among, Ordered-take, sort_by-Ordered, [], refl, All-Among,
}
use trust_chain.AnchorWorker.Tables.{AnchorOutbox, Db, pending}

-- Ids are the primary key.
abbrev pub Unique : List ℕ → Type 0
Unique [] = Unit
Unique (i ∷ ids) = (any_of i ids ≡ false) × Unique ids

abbrev pub ids_of : List AnchorOutbox → List ℕ
ids_of = map (λ (s : AnchorOutbox). s.id)

abbrev pub UniqueIds : List AnchorOutbox → Type 0
UniqueIds rows = Unique (ids_of rows)

pub any_of-Among :
    (i : ℕ) (rows : List AnchorOutbox)
    → any_of i (map (λ (s : AnchorOutbox). s.id) rows) ≡ true
    → (r : AnchorOutbox) × Among r rows × (r.id ≡ i)
any_of-Among i [] h = cc
any_of-Among i (r ∷ rows) h = elim (Bool-cases (i == r.id)) [
  | inl same ↦ (r, here refl, sym (==→eq i r.id same))
  | inr other ↦ let (s, m, e) = any_of-Among i rows (rw other at h) in (s, there m, e)
]

pub Among-any_of :
    (r : AnchorOutbox) (rows : List AnchorOutbox)
    → Among r rows
    → any_of r.id (map (λ (s : AnchorOutbox). s.id) rows) ≡ true
Among-any_of r [] m = elim m [ ]
Among-any_of r (s ∷ rows) (here e) = ground (arith, ap (λ (t : AnchorOutbox). t.id) e)
Among-any_of r (s ∷ rows) (there m) = ground (arith, Among-any_of r rows m)

unique_row :
    (r s : AnchorOutbox) (rows : List AnchorOutbox)
    → UniqueIds rows
    → Among r rows
    → Among s rows
    → r.id ≡ s.id
    → r ≡ s
unique_row r s [] u mr ms e = elim mr [ ]
unique_row r s (t ∷ rows) u (here er) (here es) e = sym er ∙ es
unique_row r s (t ∷ rows) (fresh, u) (here er) (there ms) e =
    absurd (false≢true (cc (fresh, er, e, Among-any_of s rows ms)))
unique_row r s (t ∷ rows) (fresh, u) (there mr) (here es) e =
    absurd (false≢true (cc (fresh, es, e, Among-any_of r rows mr)))
unique_row r s (t ∷ rows) (fresh, u) (there mr) (there ms) e = unique_row r s rows u mr ms e

module _ (now : ℕ) (locked : ℕ → Bool) (batch_size : ℕ) where
  claimed_row-claimable :
      (r : AnchorOutbox) (rows : List AnchorOutbox)
      → Among r (claimed_rows now locked batch_size rows)
      → Among r rows × (claimable now locked r ≡ true)
  claimed_row-claimable r rows m = Among-select (claimable now locked) r rows (
      sort_by-Among (λ (r : AnchorOutbox). r.created_at) r (select (claimable now locked) rows)
        (Among-take batch_size r
          (sort_by (λ (r : AnchorOutbox). r.created_at) (select (claimable now locked) rows)) m))

  -- With ids unique, a row whose id is claimed was claimable itself.
  pub claimed_id-claimable :
      (r : AnchorOutbox) (rows : List AnchorOutbox)
      → UniqueIds rows
      → Among r rows
      → has_id (claimed_ids now locked batch_size rows) r ≡ true
      → claimable now locked r ≡ true
  unfolding claimed_ids
  claimed_id-claimable r rows u m h =
      let (s, ms, e) = any_of-Among r.id (claimed_rows now locked batch_size rows) h in
      let (ms', c) = claimed_row-claimable s rows ms in rw (unique_row s r rows u ms' m e) at c

  length-claimed_ids :
      (rows : List AnchorOutbox) → length (claimed_ids now locked batch_size rows) ≤ batch_size
  unfolding claimed_ids
  length-claimed_ids rows = omega (
    arith,
    length-map (λ (r : AnchorOutbox). r.id) (claimed_rows now locked batch_size rows),
    length-take batch_size
        (sort_by (λ (r : AnchorOutbox). r.created_at) (select (claimable now locked) rows)),
  )

  claimable_parts :
      (r : AnchorOutbox)
      → claimable now locked r ≡ true
      → (r.status ≡ pending) × (r.next_attempt_at ≤ now) × (locked r.id ≡ false)
  claimable_parts r c = ground arith

  claimed-le_left :
      (r s : AnchorOutbox) (rows : List AnchorOutbox)
      → UniqueIds rows
      → Among r rows
      → Among s rows
      → has_id (claimed_ids now locked batch_size rows) r ≡ true
      → has_id (claimed_ids now locked batch_size rows) s ≡ false
      → claimable now locked s ≡ true
      → r.created_at ≤ s.created_at
  unfolding claimed_ids
  claimed-le_left r s rows u mr ms hr hs cs =
      let (q, mq, e) = any_of-Among r.id (claimed_rows now locked batch_size rows) hr in
      let (mq', _) = claimed_row-claimable q rows mq in
      let same : q ≡ r = unique_row q r rows u mq' mr e in
      let in_order =
        sort_by (λ (r : AnchorOutbox). r.created_at) (select (claimable now locked) rows) in
      let ms' : Among s in_order =
        Among-sort_by (λ (r : AnchorOutbox). r.created_at) s (select (claimable now locked) rows)
          (select-Among (claimable now locked) s rows ms cs) in
      elim (Ordered-take (λ (r : AnchorOutbox). r.created_at) batch_size r s in_order
        (sort_by-Ordered (λ (r : AnchorOutbox). r.created_at) (select (claimable now locked) rows))
        (rw same at mq) ms') [
          | inl kept ↦
              absurd (
                false≢true (cc (hs, Among-any_of s (claimed_rows now locked batch_size rows) kept)))
          | inr le ↦ le
        ]

-- Of a table with unique ids, a claim takes at most `batch_size` ids; every row whose id it takes
-- was pending, due and not locked, and comes back claimed by this worker with one more attempt,
-- every other row comes back as it was; and no row that was left although it could have been
-- claimed is older than a row that was taken.
pub claim_batch-oldest_first :
    (now : ℕ) (worker_id : String) (locked : ℕ → Bool) (batch_size : ℕ) (db : Db)
    → UniqueIds db.outbox
    → let ids = claimed_ids now locked batch_size db.outbox in
      let after = (claim_batch now worker_id locked batch_size db).0.outbox in
      (length ids ≤ batch_size)
      × ((r : AnchorOutbox)
          → Among r db.outbox
          → (has_id ids r ≡ true)
              × (r.status ≡ pending)
              × (r.next_attempt_at ≤ now)
              × (locked r.id ≡ false)
              × Among (claim_row now worker_id r) after
            ⊎ (has_id ids r ≡ false) × Among r after)
      × ((r s : AnchorOutbox)
          → Among r db.outbox
          → Among s db.outbox
          → has_id ids r ≡ true
          → has_id ids s ≡ false
          → claimable now locked s ≡ true
          → r.created_at ≤ s.created_at)
unfolding claim_batch
claim_batch-oldest_first now worker_id locked batch_size db u = (
  omega (arith, length-claimed_ids now locked batch_size db.outbox),
  λ r m. after_claim r m (Bool-cases (has_id ids r)),
  λ r s mr ms hr hs cs. claimed-le_left now locked batch_size r s db.outbox u mr ms hr hs cs,
)
  where
    ids : List ℕ
    ids = claimed_ids now locked batch_size db.outbox

    after_claim :
        (r : AnchorOutbox)
        → Among r db.outbox
        → (has_id ids r ≡ true) ⊎ (has_id ids r ≡ false)
        → (has_id ids r ≡ true)
            × (r.status ≡ pending)
            × (r.next_attempt_at ≤ now)
            × (locked r.id ≡ false)
            × Among
                (claim_row now worker_id r)
                (update_where (has_id ids) (claim_row now worker_id) db.outbox)
          ⊎ (has_id ids r ≡ false)
            × Among r (update_where (has_id ids) (claim_row now worker_id) db.outbox)
    after_claim r m (inl hit) =
        let (p, d, l) =
          claimable_parts now locked batch_size r
            (claimed_id-claimable now locked batch_size r db.outbox u m hit) in
        inl (
          hit,
          p,
          d,
          l,
          rw hit at (Among-update_where (has_id ids) (claim_row now worker_id) r db.outbox m),
        )
    after_claim r m (inr miss) =
        inr (
          miss,
          rw miss at (Among-update_where (has_id ids) (claim_row now worker_id) r db.outbox m),
        )

-- A row of the updated table whose id was claimed is not claimable.
not_pending :
    (x s : AnchorOutbox) (i : ℕ) (first : List ℕ) (now' now : ℕ) (locked' : ℕ → Bool)
    (worker_id : String)
    → any_of i first ≡ true
    → s.id ≡ i
    → claimable now' locked' s ≡ true
    → elim (has_id first x) [ true ↦ claim_row now worker_id x | false ↦ x ] ≡ s
    → ⊥
not_pending x s i first now' now locked' worker_id h e c o = elim (Bool-cases (has_id first x)) [
  | inl hit ↦
      let o' : claim_row now worker_id x ≡ s = rw hit at o in
      absurd (false≢true (ap (claimable now' locked') o' ∙ c))
  | inr miss ↦
      let o' : x ≡ s = rw miss at o in
      absurd (false≢true (sym miss ∙ ap (has_id first) o' ∙ ap (λ (j : ℕ). any_of j first) e ∙ h))
]

-- Two claims, one after the other, with any clocks, workers, locks and sizes, have no id in
-- common: the rows of the first are claimed, and a claim takes pending rows only.
pub claims_disjoint :
    (now now' : ℕ) (worker_id : String) (locked locked' : ℕ → Bool) (size size' : ℕ) (db : Db)
    (i : ℕ)
    → any_of i (claimed_ids now locked size db.outbox) ≡ true
    → any_of i (claimed_ids now' locked' size' (claim_batch now worker_id locked size db).0.outbox)
      ≡ false
unfolding claim_batch claimed_ids
claims_disjoint now now' worker_id locked locked' size size' db i h =
    elim (Bool-cases (any_of i second)) [ inl both ↦ absurd (clash both) | inr apart ↦ apart ]
  where
    first : List ℕ
    first = claimed_ids now locked size db.outbox

    after : List AnchorOutbox
    after = update_where (has_id first) (claim_row now worker_id) db.outbox

    second : List ℕ
    second = claimed_ids now' locked' size' after

    clash : any_of i second ≡ true → ⊥
    clash both =
        let (s, ms, e) = any_of-Among i (claimed_rows now' locked' size' after) both in
        let (ms', c) = claimed_row-claimable now' locked' size' s after ms in
        let (x, _, o) =
          update_where-Among (has_id first) (claim_row now worker_id) s db.outbox ms' in
        not_pending x s i first now' now locked' worker_id h e c o

-- A claim keeps the outbox invariant.
pub claim_batch-IsValid :
    (m now : ℕ) (worker_id : String) (locked : ℕ → Bool) (batch_size : ℕ) (db : Db)
    → UniqueIds db.outbox
    → IsValid m db
    → IsValid m (claim_batch now worker_id locked batch_size db).0
unfolding claim_batch
claim_batch-IsValid m now worker_id locked batch_size db u v =
    claim_rows-IsValid m now worker_id (claimed_ids now locked batch_size db.outbox) db.outbox
      (All-Among db.outbox (λ r mr hit.
        (claimable_parts now locked batch_size r
          (claimed_id-claimable now locked batch_size r db.outbox u mr hit)).0))
      v
