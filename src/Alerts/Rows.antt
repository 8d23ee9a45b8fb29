-- ===== src/Alerts/Rows.antt =====
-- backend/db/alerts.py and backend/db/models.py: the rows of alerts, deliveries and preferences, and
-- who is told about an alert at once.
use trust_chain.Prelude.{
  ℕ, String, str_eq, Bool, true, false, not, ◌&&◌, ◌||◌, Option, none, some, List, [], ◌∷◌, ◌==◌,
  if◌then◌else◌,
}
use trust_chain.Membership.{Membership}

pub data Severity : Type 0 where
  critical warning info : Severity

pub data AlertStatus : Type 0 where
  is_open acknowledged resolved : AlertStatus

abbrev pub open_status : AlertStatus → Bool
open_status is_open = true
open_status _ = false

abbrev pub resolved_status : AlertStatus → Bool
resolved_status resolved = true
resolved_status _ = false

pub record Alert : Type 0 where
  pub id : ℕ
  pub org_id : ℕ
  pub project_id : Option ℕ
  pub alert_type : String
  pub severity : Severity
  pub status : AlertStatus
  pub title : String
  pub summary : String
  pub subject : String
  pub dedupe_key : String
  pub evidence_json : String
  pub detector : Option String
  pub occurrence_count : ℕ
  pub first_seen_at : ℕ
  pub last_seen_at : ℕ
  pub acknowledged_at : Option ℕ
  pub acknowledged_by : Option ℕ
  pub resolved_at : Option ℕ
  pub resolved_by : Option ℕ
  pub resolution_note : Option String
  pub last_emailed_at : Option ℕ
  pub created_at : ℕ

pub record AlertDelivery : Type 0 where
  pub alert_id : ℕ
  pub channel : String
  pub recipient : String
  pub user_id : ℕ
  pub status : String
  pub attempts : ℕ
  pub next_attempt_at : ℕ
  pub created_at : ℕ

pub record NotificationPreference : Type 0 where
  pub user_id : ℕ
  pub org_id : ℕ
  pub email_critical : Bool
  pub email_warning : Bool
  pub email_info : Bool
  pub email_digest_only : Bool
  pub updated_at : ℕ
  pub last_digest_sent_at : Option ℕ

-- The columns of `users` that are read here.
pub record Contact : Type 0 where
  pub id : ℕ
  pub email : String
  pub email_verified : Bool

pub record AlertDb : Type 0 where
  pub alerts : List Alert
  pub deliveries : List AlertDelivery
  pub preferences : List NotificationPreference
  pub memberships : List Membership
  pub contacts : List Contact

abbrev pub find_contact : ℕ → List Contact → Option Contact
find_contact i [] = none
find_contact i (c ∷ contacts) =
    let rest = find_contact i contacts in if c.id == i then some c else rest

-- `session.get(NotificationPreference, {...})`.
abbrev pub find_preference :
    (user_id org_id : ℕ) → List NotificationPreference → Option NotificationPreference
find_preference user org [] = none
find_preference user org (p ∷ rows) =
    let rest = find_preference user org rows in
    if p.user_id == user && p.org_id == org then some p else rest

abbrev pub opted_in : Severity → NotificationPreference → Bool
opted_in critical p = p.email_critical
opted_in warning p = p.email_warning
opted_in info p = p.email_info

-- Whether a member with a verified address gets an email at once.
unfoldable pub mails_now : Severity → Option NotificationPreference → Bool
mails_now info none = false
mails_now _ none = true
mails_now critical (some p) = opted_in critical p
mails_now warning (some p) = opted_in warning p && not p.email_digest_only
mails_now info (some p) = opted_in info p && not p.email_digest_only

abbrev pub is_admin : String → Bool
is_admin role = str_eq role "owner" || str_eq role "admin"

-- Over the join of the memberships with the users, in the order of the memberships.
unfoldable pub recipients_for :
    (org_id : ℕ)
    → Severity
    → List NotificationPreference
    → List Contact
    → List Membership
    → List Contact
unfolding mails_now
recipients_for org_id severity preferences contacts [] = []
recipients_for org_id severity preferences contacts (m ∷ rows) =
    let rest = recipients_for org_id severity preferences contacts rows in
    elim (find_contact m.user_id contacts) [
      | none ↦ rest
      | some c ↦
          if m.org_id == org_id
            && is_admin m.role
            && c.email_verified
            && mails_now severity (find_preference c.id org_id preferences)
          then c ∷ rest
          else rest
    ]
