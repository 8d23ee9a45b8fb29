-- ===== src/Alerts.antt =====
-- backend/db/alerts.py: alerts, their deduplication and their deliveries. Each operation is one
-- transaction, and transactions are taken one after the other; an operation that raises is rolled
-- back. The SHA-256 of a key and the decimal form of a number are parameters; the live push, the
-- metrics and the autoincremented id of a delivery are left out.
mod Rows
pub mod Counting
pub mod Dedupe
pub mod Reopening
pub mod Recurring
mod Tests
unfoldable pub use Rows.*
use trust_chain.Prelude.{
  ℕ, ◌+◌, String, str_eq, Bool, true, false, not, ◌&&◌, ◌||◌, Option, none, some, List, [], ◌∷◌,
  ◌++◌, ◌==◌, leb, is_none, if◌then◌else◌, update_where, select, map, length,
}
use trust_chain.Membership.{Membership}
use Prim.Native.String.{◌++◌ as concat}

module _ (sha256 : String → String) (show : ℕ → String) where
  unfoldable pub compute_dedupe_key :
      (alert_type : String) (project_id : Option ℕ) (org_id : ℕ) (subject : String) → String
  compute_dedupe_key alert_type project_id org_id subject =
      let scope : String = elim project_id [
        | none ↦ concat "org:" (show org_id)
        | some project ↦ concat "project:" (show project)
      ] in
      sha256 (concat alert_type (concat ":" (concat scope (concat ":" subject))))

-- The arguments of `raise_alert`, the evidence as its JSON text.
pub record Finding : Type 0 where
  pub org_id : ℕ
  pub alert_type : String
  pub severity : Severity
  pub title : String
  pub summary : String
  pub subject : String
  pub evidence : String
  pub project_id : Option ℕ
  pub detector : Option String

pub record Raised : Type 0 where
  pub alert_id : ℕ
  pub is_new : Bool
  pub occurrence_count : ℕ

-- The condition of the query, and of the partial unique index `uq_alerts_open_dedupe`.
abbrev pub open_with : (key : String) → Alert → Bool
open_with key a = str_eq a.dedupe_key key && open_status a.status

abbrev pub new_alert : (id : ℕ) (key : String) → Finding → (now : ℕ) → Alert
new_alert id key f now = record {
  id = id;
  org_id = f.org_id;
  project_id = f.project_id;
  alert_type = f.alert_type;
  severity = f.severity;
  status = is_open;
  title = f.title;
  summary = f.summary;
  subject = f.subject;
  dedupe_key = key;
  evidence_json = f.evidence;
  detector = f.detector;
  occurrence_count = 1;
  first_seen_at = now;
  last_seen_at = now;
  acknowledged_at = none;
  acknowledged_by = none;
  resolved_at = none;
  resolved_by = none;
  resolution_note = none;
  last_emailed_at = none;
  created_at = now;
}

abbrev pub new_delivery : (alert_id now : ℕ) → Contact → AlertDelivery
new_delivery alert_id now c = record {
  alert_id = alert_id;
  channel = "email";
  recipient = c.email;
  user_id = c.id;
  status = "pending";
  attempts = 0;
  next_attempt_at = now;
  created_at = now;
}

abbrev pub bump : (now : ℕ) (evidence : String) → Alert → Alert
bump now evidence a = record a {
  occurrence_count = a.occurrence_count + 1;
  last_seen_at = now;
  evidence_json = evidence;
}

-- `none` where `scalar_one_or_none` finds several rows and raises. `id` is the id that the
-- sequence gives to a new row.
unfoldable pub raise_with_key :
    (id : ℕ) (key : String) → Finding → (now : ℕ) → AlertDb → Option (AlertDb × Raised)
raise_with_key id key f now db = elim (select (open_with key) db.alerts) [
  | [] ↦ some (
    record db {
      alerts = db.alerts ++ new_alert id key f now ∷ [];
      deliveries =
          db.deliveries
          ++ map (new_delivery id now)
              (recipients_for f.org_id f.severity db.preferences db.contacts db.memberships);
    },
    record { alert_id = id; is_new = true; occurrence_count = 1 },
  )
  | existing ∷ more ↦ elim more [
    | [] ↦ some (
      record db {
        alerts = update_where (λ (a : Alert). a.id == existing.id) (bump now f.evidence) db.alerts;
      },
      record {
        alert_id = existing.id;
        is_new = false;
        occurrence_count = existing.occurrence_count + 1;
      },
    )
    | _ ∷ _ ↦ none
  ]
]

module _ (sha256 : String → String) (show : ℕ → String) where
  unfoldable pub raise_alert : (id : ℕ) → Finding → (now : ℕ) → AlertDb → Option (AlertDb × Raised)
  unfolding raise_with_key compute_dedupe_key
  raise_alert id f now db =
      raise_with_key id
        (compute_dedupe_key sha256 show f.alert_type f.project_id f.org_id f.subject) f now db

-- An UPDATE: the result is the new rows and `rowcount > 0`.
abbrev pub set_alerts : (Alert → Bool) → (Alert → Alert) → AlertDb → AlertDb × Bool
set_alerts p change db =
    (record db { alerts = update_where p change db.alerts }, leb 1 (length (select p db.alerts)))

abbrev pub acknowledges : (alert_id org_id : ℕ) → Alert → Bool
acknowledges alert_id org_id a = a.id == alert_id && a.org_id == org_id && open_status a.status

abbrev pub set_acknowledged : (user_id now : ℕ) → Alert → Alert
set_acknowledged user_id now a = record a {
  status = acknowledged;
  acknowledged_at = some now;
  acknowledged_by = some user_id;
}

unfoldable pub acknowledge_alert : (alert_id org_id user_id now : ℕ) → AlertDb → AlertDb × Bool
acknowledge_alert alert_id org_id user_id now =
    set_alerts (acknowledges alert_id org_id) (set_acknowledged user_id now)

abbrev pub resolves : (alert_id org_id : ℕ) → Alert → Bool
resolves alert_id org_id a =
    a.id == alert_id && a.org_id == org_id && not (resolved_status a.status)

abbrev pub set_resolved : (user_id now : ℕ) (note : String) → Alert → Alert
set_resolved user_id now note a = record a {
  status = resolved;
  resolved_at = some now;
  resolved_by = some user_id;
  resolution_note = some note;
}

unfoldable pub resolve_alert :
    (alert_id org_id user_id now : ℕ) (note : String) → AlertDb → AlertDb × Bool
resolve_alert alert_id org_id user_id now note =
    set_alerts (resolves alert_id org_id) (set_resolved user_id now note)

-- The partial unique index: no two open rows have the same key.
abbrev pub one_open : List Alert → Bool
one_open [] = true
one_open (a ∷ rows) =
    (not (open_status a.status) || leb (length (select (open_with a.dedupe_key) rows)) 0)
    && one_open rows

-- The condition of the UPDATE in `reopen_alert`.
abbrev pub reopens : (alert_id org_id : ℕ) → Alert → Bool
reopens alert_id org_id a = a.id == alert_id && a.org_id == org_id && resolved_status a.status

abbrev pub reopened : (now : ℕ) → Alert → Alert
reopened now a = record a {
  status = is_open;
  last_seen_at = now;
  resolved_at = none;
  resolved_by = none;
  resolution_note = none;
}

-- `none` where the index refuses the rows: an IntegrityError that no caller catches.
unfoldable pub reopen_alert : (alert_id org_id now : ℕ) → AlertDb → Option (AlertDb × Bool)
reopen_alert alert_id org_id now db =
    let result : AlertDb × Bool = set_alerts (reopens alert_id org_id) (reopened now) db in
    if one_open result.0.alerts then some result else none
