-- ===== src/Alerts/Dedupe.antt =====
-- backend/db/alerts.py: a problem that persists stays one open alert.
use trust_chain.Alerts.Counting.{count_open, at_most_one, select-append, select-update_where}
use trust_chain.Prelude.{
  none, String, ℕ, List, ◌==◌, select, ◌≡◌, true, Option, All, ◌∷◌, arith, ◌≤◌, ◌+◌, some, [], ◌∙◌,
  length, ◌++◌, inl, refl, if◌then◌else◌, map, eq_iff, inr, subst, false, ap, update_where, sym,
}
use mathlib.Core.List.{append-nil}
use trust_chain.Alerts.{
  AlertDb, recipients_for, Alert, raise_with_key, Finding, raise_alert, compute_dedupe_key,
  open_with, Raised, new_alert, new_delivery, bump,
}

-- The occurrences of the open alert with the key, 0 where there is none.
abbrev pub occurrences : (key : String) → List Alert → ℕ
occurrences key rows = elim (select (open_with key) rows) [ [] ↦ 0 | a ∷ _ ↦ a.occurrence_count ]

-- What `raise_with_key` leaves behind.
pub record Counted (id : ℕ) (key : String) (f : Finding) (now : ℕ) (db db' : AlertDb) (r : Raised)
    : Type 0 where
  pub opened : Alert
  pub alone : select (open_with key) db'.alerts ≡ opened ∷ []
  pub named : opened.id ≡ r.alert_id
  pub latest : (opened.last_seen_at ≡ now) × (opened.evidence_json ≡ f.evidence)
  pub counts : opened.occurrence_count ≡ r.occurrence_count
  pub adds : r.occurrence_count ≡ occurrences key db.alerts + 1
  pub new : r.is_new ≡ (count_open key db.alerts == 0)
  pub mails :
      db'.deliveries
      ≡ db.deliveries
        ++ (if r.is_new
            then map
                (new_delivery id now)
                (recipients_for f.org_id f.severity db.preferences db.contacts db.memberships)
            else [])

same_id : (i : ℕ) → (i == i) ≡ true
same_id i = ground arith

pub raise_with_key-Counted :
    (id : ℕ) (key : String) (f : Finding) (now : ℕ) (db : AlertDb)
    → count_open key db.alerts ≤ 1
    → (db' : AlertDb) × (r : Raised) × (raise_with_key id key f now db ≡ some (db', r))
      × Counted id key f now db db' r
unfolding raise_with_key
raise_with_key-Counted id key f now db one =
    elim (at_most_one (select (open_with key) db.alerts) one) [
      | inl e ↦ (
        record db {
          alerts = db.alerts ++ new_alert id key f now ∷ [];
          deliveries =
              db.deliveries
              ++ map (new_delivery id now)
                  (recipients_for f.org_id f.severity db.preferences db.contacts db.memberships);
        },
        record { alert_id = id; is_new = true; occurrence_count = 1 },
        rw (raise_with_key, e) refl,
        record {
          opened = new_alert id key f now;
          alone =
              select-append key db.alerts (new_alert id key f now ∷ [])
              ∙ rw (e, select, open_with, (eq_iff key key).1 refl) refl;
          named = refl;
          latest = (refl, refl);
          counts = refl;
          adds = rw (occurrences, e) refl;
          new = rw (count_open, e) refl;
          mails = refl;
        },
      )
      | inr (a, e) ↦ (
        record db {
          alerts = update_where (λ (b : Alert). b.id == a.id) (bump now f.evidence) db.alerts;
        },
        record { alert_id = a.id; is_new = false; occurrence_count = a.occurrence_count + 1 },
        rw (raise_with_key, e) refl,
        record {
          opened = bump now f.evidence a;
          alone =
              select-update_where key (λ (b : Alert). b.id == a.id) (bump now f.evidence)
                (λ b. refl) db.alerts
              ∙ rw (e, update_where, same_id a.id) refl;
          named = refl;
          latest = (refl, refl);
          counts = refl;
          adds = rw (occurrences, e) refl;
          new = rw (count_open, e) refl;
          mails = sym (append-nil db.deliveries);
        },
      )
    ]

raised_one :
    (id : ℕ) (key : String) (f : Finding) (now : ℕ) (db db' : AlertDb) (r : Raised)
    → Counted id key f now db db' r
    → (count_open key db'.alerts ≡ 1) × (occurrences key db'.alerts ≡ occurrences key db.alerts + 1)
raised_one id key f now db db' r c = (
  rw (count_open, c.alone) refl,
  subst (λ n. occurrences key db'.alerts ≡ n) c.adds (rw (occurrences, c.alone) c.counts),
)

first_mails :
    (id : ℕ) (key : String) (f : Finding) (now : ℕ) (db db' : AlertDb) (r : Raised)
    → Counted id key f now db db' r
    → count_open key db.alerts ≡ 0
    → db'.deliveries
      ≡ db.deliveries
        ++ map
            (new_delivery id now)
            (recipients_for f.org_id f.severity db.preferences db.contacts db.memberships)
first_mails id key f now db db' r c closed =
    let fresh : r.is_new ≡ true = c.new ∙ ground (arith, closed) in rw fresh at c.mails

again_silent :
    (id : ℕ) (key : String) (f : Finding) (now : ℕ) (db db' : AlertDb) (r : Raised)
    → Counted id key f now db db' r
    → count_open key db.alerts ≡ 1
    → db'.deliveries ≡ db.deliveries
again_silent id key f now db db' r c one =
    let stale : r.is_new ≡ false = c.new ∙ ground (arith, one) in
    (rw stale at c.mails) ∙ append-nil db.deliveries

no_occurrences :
    (key : String) (rows : List Alert) → count_open key rows ≡ 0 → occurrences key rows ≡ 0
no_occurrences key rows closed =
    elim (at_most_one (select (open_with key) rows) (omega (arith, closed))) [
      | inl e ↦ rw (occurrences, e) refl
      | inr (a, e) ↦ absurd (omega (arith, rw (count_open, e) at closed))
    ]

module _ (sha256 : String → String) (show : ℕ → String) where
  abbrev pub key_of : Finding → String
  key_of f = compute_dedupe_key sha256 show f.alert_type f.project_id f.org_id f.subject

  -- Findings raised one after the other, each with the id for a new row and its time.
  abbrev pub raise_all : List (ℕ × Finding × ℕ) → AlertDb → Option AlertDb
  raise_all [] db = some db
  raise_all ((id, f, now) ∷ rs) db = elim (raise_alert sha256 show id f now db) [
    | none ↦ none
    | some (db', r) ↦ raise_all rs db'
  ]

  keyed :
      (key : String) (id : ℕ) (f : Finding) (now : ℕ) (db : AlertDb)
      → key_of f ≡ key
      → raise_alert sha256 show id f now db ≡ raise_with_key id key f now db
  unfolding raise_alert
  keyed key id f now db same = ap (λ k. raise_with_key id k f now db) same

  raise_all-open :
      (key : String) (rs : List (ℕ × Finding × ℕ)) (db : AlertDb)
      → All (λ x. key_of x.1 ≡ key) rs
      → count_open key db.alerts ≡ 1
      → (db' : AlertDb) × (raise_all rs db ≡ some db')
        × (count_open key db'.alerts ≡ 1)
        × (occurrences key db'.alerts ≡ occurrences key db.alerts + length rs)
        × (db'.deliveries ≡ db.deliveries)
  raise_all-open key [] db same one = (db, refl, one, omega arith, refl)
  raise_all-open key ((id, f, now) ∷ rs) db (same, more) one =
      let raised = raise_with_key-Counted id key f now db (omega (arith, one)) in
      let counted = raised_one id key f now db raised.0 raised.1 raised.3 in
      let rest = raise_all-open key rs raised.0 more counted.0 in
      (
        rest.0,
        rw (raise_all, keyed key id f now db same, raised.2) rest.1,
        rest.2,
        omega (arith, rest.3, counted.1),
        rest.4 ∙ again_silent id key f now db raised.0 raised.1 raised.3 one,
      )

  -- A problem that persists is one open alert, and deliveries are queued for its first occurrence
  -- alone: findings with the same deduplication key, raised one after the other where no alert with
  -- the key is open, all succeed and leave one open alert that counts them all, and the delivery
  -- rows that they add are those of the first finding, one for each of its recipients.
  pub raise_all-queues_once :
      (id : ℕ) (f : Finding) (now : ℕ) (rs : List (ℕ × Finding × ℕ)) (db : AlertDb)
      → All (λ x. key_of x.1 ≡ key_of f) rs
      → count_open (key_of f) db.alerts ≡ 0
      → (db' : AlertDb) × (raise_all ((id, f, now) ∷ rs) db ≡ some db')
        × (count_open (key_of f) db'.alerts ≡ 1)
        × (occurrences (key_of f) db'.alerts ≡ 1 + length rs)
        × (db'.deliveries
            ≡ db.deliveries
              ++ map
                  (new_delivery id now)
                  (recipients_for f.org_id f.severity db.preferences db.contacts db.memberships))
  raise_all-queues_once id f now rs db same closed =
      let key = key_of f in
      let raised = raise_with_key-Counted id key f now db (omega (arith, closed)) in
      let counted = raised_one id key f now db raised.0 raised.1 raised.3 in
      let rest = raise_all-open key rs raised.0 same counted.0 in
      (
        rest.0,
        rw (raise_all, keyed key id f now db refl, raised.2) rest.1,
        rest.2,
        omega (arith, rest.3, counted.1, no_occurrences key db.alerts closed),
        rest.4 ∙ first_mails id key f now db raised.0 raised.1 raised.3 closed,
      )
