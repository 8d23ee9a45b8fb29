-- ===== src/Alerts/Reopening.antt =====
-- backend/db/alerts.py: what the partial unique index on open alerts holds to, and when it stops an
-- alert from being opened again.
use trust_chain.Alerts.Dedupe.{key_of, raise_with_key-Counted}
use trust_chain.Alerts.Counting.{
  select-append, one_open→OneOpen, OneOpen, at_most_one, count_open-update_where, open_with-parts,
  count_open,
}
use mathlib.Core.List.{append-nil}
use trust_chain.Prelude.{
  ◌∷◌, [], ◌++◌, eq_iff, Bool-cases, refl, some, String, ℕ, Bool, ◌≡◌, List, false, update_where,
  select, false≢true, inl, sym, some-injective, ◌∙◌, ap, inr, arith, subst, ◌==◌, none-ne-some, ◌≤◌,
}
use trust_chain.Alerts.{
  set_acknowledged, set_resolved, acknowledges, resolves, Alert, new_alert, bump, reopens, reopened,
  open_status, AlertDb, Finding, Raised, raise_with_key, raise_alert, acknowledge_alert, one_open,
  resolve_alert, reopen_alert, open_with,
}

-- The transactions on alerts that commit.
pub data AlertCommit (sha256 : String → String) (show : ℕ → String) (db db' : AlertDb)
    : Type 0 where
  raises :
      (id : ℕ) (f : Finding) (now : ℕ) (r : Raised)
      → raise_alert sha256 show id f now db ≡ some (db', r)
      → AlertCommit sha256 show db db'
  acknowledges_one :
      (alert_id org_id user_id now : ℕ)
      → db' ≡ (acknowledge_alert alert_id org_id user_id now db).0
      → AlertCommit sha256 show db db'
  resolves_one :
      (alert_id org_id user_id now : ℕ) (note : String)
      → db' ≡ (resolve_alert alert_id org_id user_id now note db).0
      → AlertCommit sha256 show db db'
  reopens_one :
      (alert_id org_id now : ℕ) (done : Bool)
      → reopen_alert alert_id org_id now db ≡ some (db', done)
      → AlertCommit sha256 show db db'

pub data AlertCommits (sha256 : String → String) (show : ℕ → String) (db : AlertDb)
    : AlertDb → Type 0 where
  no_commit : AlertCommits sha256 show db db
  then_commit :
      {db' db'' : AlertDb}
      → AlertCommits sha256 show db db'
      → AlertCommit sha256 show db' db''
      → AlertCommits sha256 show db db''

closing :
    (p : Alert → Bool) (f : Alert → Alert) (rows : List Alert)
    → ((a : Alert) → open_status (f a).status ≡ false)
    → OneOpen rows
    → OneOpen (update_where p f rows)
closing p f rows shuts one key =
    let fewer =
      count_open-update_where key p f
        (λ a hit now. absurd (false≢true (sym (shuts a) ∙ (open_with-parts key (f a) now).1)))
        rows in
    omega (arith, fewer, one key)

adding :
    (id : ℕ) (key : String) (f : Finding) (now : ℕ) (rows : List Alert)
    → select (open_with key) rows ≡ []
    → OneOpen rows
    → OneOpen (rows ++ new_alert id key f now ∷ [])
adding id key f now rows vacant one other =
    let added = new_alert id key f now in
    elim (Bool-cases (open_with other added)) [
      | inl hit ↦
          subst (λ k. count_open k (rows ++ added ∷ []) ≤ 1) (open_with-parts other added hit).0
            (rw
              (
                count_open,
                select-append key rows (added ∷ []),
                vacant,
                select,
                open_with,
                (eq_iff key key).1 refl,
              )
              (omega arith))
      | inr miss ↦
          let unseen : select (open_with other) (added ∷ []) ≡ [] = rw (select, miss) refl in
          rw
            (
              count_open,
              select-append other rows (added ∷ []),
              unseen,
              append-nil (select (open_with other) rows),
            )
            (one other)
    ]

bumping :
    (i now : ℕ) (evidence : String) (rows : List Alert)
    → OneOpen rows
    → OneOpen (update_where (λ (b : Alert). b.id == i) (bump now evidence) rows)
bumping i now evidence rows one key =
    let fewer =
      count_open-update_where key (λ (b : Alert). b.id == i) (bump now evidence) (λ a hit up. up)
        rows in
    omega (arith, fewer, one key)

raise_with_key-OneOpen :
    (id : ℕ) (key : String) (f : Finding) (now : ℕ) (db db' : AlertDb) (r : Raised)
    → OneOpen db.alerts
    → raise_with_key id key f now db ≡ some (db', r)
    → OneOpen db'.alerts
unfolding raise_with_key
raise_with_key-OneOpen id key f now db db' r one e =
    elim (at_most_one (select (open_with key) db.alerts) (one key)) [
      | inl vacant ↦
          subst (λ (x : AlertDb × Raised). OneOpen x.0.alerts)
            (some-injective _ _ (rw (raise_with_key, vacant) at e))
            (adding id key f now db.alerts vacant one)
      | inr (a, found) ↦
          subst (λ (x : AlertDb × Raised). OneOpen x.0.alerts)
            (some-injective _ _ (rw (raise_with_key, found) at e))
            (bumping a.id now f.evidence db.alerts one)
    ]

AlertCommit-keeps_OneOpen :
    (sha256 : String → String) (show : ℕ → String) (db db' : AlertDb)
    → AlertCommit sha256 show db db'
    → OneOpen db.alerts
    → OneOpen db'.alerts
unfolding raise_alert acknowledge_alert resolve_alert reopen_alert
AlertCommit-keeps_OneOpen sha256 show db db' (raises id f now r e) one =
    raise_with_key-OneOpen id (key_of sha256 show f) f now db db' r one e
AlertCommit-keeps_OneOpen sha256 show db db' (acknowledges_one i o u now e) one =
    subst OneOpen (ap (λ (x : AlertDb). x.alerts) (sym e))
      (closing (acknowledges i o) (set_acknowledged u now) db.alerts (λ a. refl) one)
AlertCommit-keeps_OneOpen sha256 show db db' (resolves_one i o u now note e) one =
    subst OneOpen (ap (λ (x : AlertDb). x.alerts) (sym e))
      (closing (resolves i o) (set_resolved u now note) db.alerts (λ a. refl) one)
AlertCommit-keeps_OneOpen sha256 show db db' (reopens_one i o now done e) one =
    elim (Bool-cases (one_open (update_where (reopens i o) (reopened now) db.alerts))) [
      | inl holds ↦
          subst (λ (x : AlertDb × Bool). OneOpen x.0.alerts)
            (some-injective _ _ (rw (reopen_alert, holds) at e)) (one_open→OneOpen _ holds)
      | inr broken ↦ absurd (none-ne-some _ (rw (reopen_alert, broken) at e))
    ]

AlertCommits-keep_OneOpen :
    (sha256 : String → String) (show : ℕ → String) (db db' : AlertDb)
    → AlertCommits sha256 show db db'
    → OneOpen db.alerts
    → OneOpen db'.alerts
AlertCommits-keep_OneOpen sha256 show db db' no_commit one = one
AlertCommits-keep_OneOpen sha256 show db db' (then_commit before last) one =
    AlertCommit-keeps_OneOpen sha256 show _ db' last
      (AlertCommits-keep_OneOpen sha256 show db _ before one)

-- The index is never violated: if at most one alert is open for each deduplication key, that
-- remains so after any sequence of raises, acknowledgements, resolutions and reopenings that
-- commit, and a raise after them succeeds.
pub OneOpen-remains :
    (sha256 : String → String) (show : ℕ → String) (id : ℕ) (f : Finding) (now : ℕ)
    (db db' : AlertDb)
    → AlertCommits sha256 show db db'
    → OneOpen db.alerts
    → OneOpen db'.alerts
      × ((after : AlertDb × Raised) × (raise_alert sha256 show id f now db' ≡ some after))
unfolding raise_alert
OneOpen-remains sha256 show id f now db db' commits one =
    let kept = AlertCommits-keep_OneOpen sha256 show db db' commits one in
    let raised = raise_with_key-Counted id (key_of sha256 show f) f now db' (kept _) in
    (kept, ((raised.0, raised.1), raised.2))
