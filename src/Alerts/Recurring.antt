-- ===== src/Alerts/Recurring.antt =====
-- backend/db/alerts.py: an alert that was resolved and whose problem has come back cannot be opened
-- again.
use trust_chain.Alerts.Dedupe.{key_of, raise_with_key-Counted}
use trust_chain.Alerts.Counting.{
  one_open→OneOpen, open_with-own_key, count_open, OneOpen, at_most_one,
}
use trust_chain.Prelude.{
  Any-append, ◌==◌, false≢true, ap, sym, ◌∙◌, none, some, ℕ, String, Bool, List, ◌≡◌, Any, ◌≤◌,
  true, update_where, ◌+◌, select, Bool-cases, ◌∷◌, arith, inr, here, inl, [], there, subst, refl,
  some-injective, false,
}
use trust_chain.Alerts.{
  new_alert, AlertStatus, is_open, acknowledged, resolved, open_status, resolved_status, Alert,
  AlertDb, Finding, Raised, raise_with_key, raise_alert, reopen_alert, reopens, one_open, bump,
  reopened, open_with,
}

-- A resolved alert of the organization with the id and the key.
abbrev pub ResolvedWith : (alert_id org_id : ℕ) (key : String) → Alert → Type 0
ResolvedWith alert_id org_id key a = (reopens alert_id org_id a ≡ true) × (a.dedupe_key ≡ key)

Any-kept :
    (i o : ℕ) (key : String) (p : Alert → Bool) (now : ℕ) (evidence : String) (rows : List Alert)
    → Any (ResolvedWith i o key) rows
    → Any (ResolvedWith i o key) (update_where p (bump now evidence) rows)
Any-kept i o key p now evidence [] m = elim m [ ]
Any-kept i o key p now evidence (a ∷ rows) (here e) = elim (Bool-cases (p a)) [
  | inl hit ↦ here (rw hit e)
  | inr miss ↦ here (rw miss e)
]
Any-kept i o key p now evidence (a ∷ rows) (there m) =
    there (Any-kept i o key p now evidence rows m)

raised_keeps :
    (i o id : ℕ) (key : String) (f : Finding) (now : ℕ) (db db' : AlertDb) (r : Raised)
    → count_open key db.alerts ≤ 1
    → raise_with_key id key f now db ≡ some (db', r)
    → Any (ResolvedWith i o key) db.alerts
    → Any (ResolvedWith i o key) db'.alerts
unfolding raise_with_key
raised_keeps i o id key f now db db' r one e m =
    elim (at_most_one (select (open_with key) db.alerts) one) [
      | inl vacant ↦
          subst (λ (x : AlertDb × Raised). Any (ResolvedWith i o key) x.0.alerts)
            (some-injective _ _ (rw (raise_with_key, vacant) at e))
            (Any-append db.alerts (new_alert id key f now ∷ []) m)
      | inr (a, found) ↦
          subst (λ (x : AlertDb × Raised). Any (ResolvedWith i o key) x.0.alerts)
            (some-injective _ _ (rw (raise_with_key, found) at e))
            (Any-kept i o key (λ (b : Alert). b.id == a.id) now f.evidence db.alerts m)
    ]

resolved_shut : (s : AlertStatus) → resolved_status s ≡ true → open_status s ≡ false
resolved_shut resolved e = refl
resolved_shut is_open e = absurd (false≢true e)
resolved_shut acknowledged e = absurd (false≢true e)

reopens-shut : (i o : ℕ) (key : String) (a : Alert) → reopens i o a ≡ true → open_with key a ≡ false
reopens-shut i o key a hit =
    let shut = resolved_shut a.status (ground (arith, hit)) in ground (arith, shut)

-- An UPDATE that reopens closes nothing: the first row adds at least as much after it as before.
reopening_cons :
    (i o later n : ℕ) (key : String) (a : Alert) (rows : List Alert)
    → count_open key rows + n ≤ count_open key (update_where (reopens i o) (reopened later) rows)
    → count_open key (a ∷ rows) + n
      ≤ count_open key (update_where (reopens i o) (reopened later) (a ∷ rows))
reopening_cons i o later n key a rows rest = elim (Bool-cases (reopens i o a)) [
  | inl hit ↦ elim (Bool-cases (open_with key (reopened later a))) [
    | inl up ↦
        rw (count_open, select, reopens-shut i o key a hit, update_where, hit, up)
          (omega (arith, rest))
    | inr shut ↦ rw (count_open, select, reopens-shut i o key a hit, update_where, hit, shut) rest
  ]
  | inr miss ↦ elim (Bool-cases (open_with key a)) [
    | inl up ↦ rw (count_open, select, update_where, miss, up) (omega (arith, rest))
    | inr shut ↦ rw (count_open, select, update_where, miss, shut) rest
  ]
]

reopening_more :
    (i o later : ℕ) (key : String) (rows : List Alert)
    → count_open key rows + 0 ≤ count_open key (update_where (reopens i o) (reopened later) rows)
reopening_more i o later key [] = omega arith
reopening_more i o later key (a ∷ rows) =
    reopening_cons i o later 0 key a rows (reopening_more i o later key rows)

reopening_one_more :
    (i o later : ℕ) (key : String) (rows : List Alert)
    → Any (ResolvedWith i o key) rows
    → count_open key rows + 1 ≤ count_open key (update_where (reopens i o) (reopened later) rows)
reopening_one_more i o later key [] m = elim m [ ]
reopening_one_more i o later key (a ∷ rows) (here (e, same)) =
    let rest = reopening_more i o later key rows in
    let up : open_with key (reopened later a) ≡ true =
      subst (λ k. open_with k (reopened later a) ≡ true) same
        (open_with-own_key (reopened later a) refl) in
    rw (count_open, select, reopens-shut i o key a e, update_where, e, up) (omega (arith, rest))
reopening_one_more i o later key (a ∷ rows) (there m) =
    reopening_cons i o later 1 key a rows (reopening_one_more i o later key rows m)

-- A problem that comes back locks its old alert: where at most one alert is open for each
-- deduplication key and an alert of an organization is resolved, then after a finding with its key
-- is raised, an attempt to reopen the alert ends in the IntegrityError of the unique index.
pub reopen_alert-conflicts :
    (sha256 : String → String) (show : ℕ → String) (alert_id org_id id : ℕ) (f : Finding)
    (now later : ℕ) (db db' : AlertDb) (r : Raised)
    → OneOpen db.alerts
    → Any (ResolvedWith alert_id org_id (key_of sha256 show f)) db.alerts
    → raise_alert sha256 show id f now db ≡ some (db', r)
    → reopen_alert alert_id org_id later db' ≡ none
unfolding raise_alert reopen_alert
reopen_alert-conflicts sha256 show i o id f now later db db' r one m e =
    elim (Bool-cases (one_open (update_where (reopens i o) (reopened later) db'.alerts))) [
      | inr broken ↦ rw (reopen_alert, broken) refl
      | inl holds ↦
          let key = key_of sha256 show f in
          let raised = raise_with_key-Counted id key f now db (one key) in
          let same : raised.0 ≡ db' =
            ap (λ (x : AlertDb × Raised). x.0) (some-injective _ _ (sym raised.2 ∙ e)) in
          let lone : count_open key db'.alerts ≡ 1 =
            subst (λ (d : AlertDb). count_open key d.alerts ≡ 1) same
              (rw (count_open, raised.3.alone) refl) in
          let more =
            reopening_one_more i o later key db'.alerts
              (raised_keeps i o id key f now db db' r (one key) e m) in
          absurd (
            omega (
              arith,
              more,
              lone,
              one_open→OneOpen (update_where (reopens i o) (reopened later) db'.alerts) holds key,
            ))
    ]
