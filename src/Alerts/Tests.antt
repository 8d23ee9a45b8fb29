-- ===== src/Alerts/Tests.antt =====
-- An alert of an organization with two members, on which the theorems about alerts are applied.
use trust_chain.Alerts.Reopening.{OneOpen-remains, then_commit, no_commit, acknowledges_one}
use trust_chain.Alerts.Recurring.{reopen_alert-conflicts}
use trust_chain.Alerts.Dedupe.{key_of, raise_all, occurrences, raise_all-queues_once}
use trust_chain.Alerts.Counting.{one_open→OneOpen, OneOpen, count_open}
use trust_chain.Prelude.{◌≡◌, refl, true, none, some, [], ◌∷◌, arith, String, ℕ, here}
use trust_chain.Alerts.{
  recipients_for, mails_now, AlertDb, Finding, Raised, warning, raise_alert, raise_with_key,
  new_alert, set_resolved, reopen_alert, acknowledge_alert, new_delivery, compute_dedupe_key,
}

abbrev digest : String → String
digest s = s

abbrev decimal : ℕ → String
decimal n = "7"

abbrev drift : Finding
drift = record {
  org_id = 6;
  alert_type = "drift";
  severity = warning;
  title = "t";
  summary = "s";
  subject = "step:1";
  evidence = "{}";
  project_id = none;
  detector = none;
}

abbrev quiet : AlertDb
quiet = record {
  alerts = [];
  deliveries = [];
  preferences = [];
  memberships =
      record {
        user_id = 3;
        org_id = 6;
        role = "owner";
        created_at = 1;
        invited_by = none;
        updated_at = none;
      }
      ∷ record {
        user_id = 4;
        org_id = 6;
        role = "viewer";
        created_at = 1;
        invited_by = none;
        updated_at = none;
      }
      ∷ [];
  contacts =
      record { id = 3; email = "a@x"; email_verified = true }
      ∷ record { id = 4; email = "b@x"; email_verified = true }
      ∷ [];
}

-- One delivery, to the owner, for three findings.
raise_all-queues_once_example :
    (db' : AlertDb) × (raise_all digest decimal
        ((1, drift, 10) ∷ (2, drift, 20) ∷ (3, drift, 30) ∷ [])
        quiet
      ≡ some db')
    × (count_open (key_of digest decimal drift) db'.alerts ≡ 1)
    × (occurrences (key_of digest decimal drift) db'.alerts ≡ 3)
    × (db'.deliveries
        ≡ new_delivery 1 10 (record { id = 3; email = "a@x"; email_verified = true }) ∷ [])
unfolding recipients_for mails_now
raise_all-queues_once_example =
    raise_all-queues_once digest decimal 1 drift 10 ((2, drift, 20) ∷ (3, drift, 30) ∷ []) quiet
      (refl, (refl, tt)) refl

quiet-OneOpen : OneOpen quiet.alerts
quiet-OneOpen key = omega arith

OneOpen-remains_example :
    OneOpen (acknowledge_alert 1 6 3 20 quiet).0.alerts
    × ((after : AlertDb × Raised) × (raise_alert digest decimal 1 drift 30
            (acknowledge_alert 1 6 3 20 quiet).0
          ≡ some after))
OneOpen-remains_example =
    OneOpen-remains digest decimal 1 drift 30 quiet (acknowledge_alert 1 6 3 20 quiet).0
      (then_commit no_commit (acknowledges_one 1 6 3 20 refl)) quiet-OneOpen

-- The alert of `drift`, resolved at 20.
abbrev settled : AlertDb
settled = record quiet {
  alerts = set_resolved 3 20 "fixed" (new_alert 1 (key_of digest decimal drift) drift 10) ∷ [];
}

abbrev recurred : AlertDb
recurred = record settled {
  alerts =
      set_resolved 3 20 "fixed" (new_alert 1 (key_of digest decimal drift) drift 10)
      ∷ new_alert 2 (key_of digest decimal drift) drift 30
      ∷ [];
  deliveries = new_delivery 2 30 (record { id = 3; email = "a@x"; email_verified = true }) ∷ [];
}

settled-OneOpen : OneOpen settled.alerts
settled-OneOpen = one_open→OneOpen settled.alerts refl

raise_recurred :
    raise_alert digest decimal 2 drift 30 settled
    ≡ some (recurred, record { alert_id = 2; is_new = true; occurrence_count = 1 })
unfolding raise_alert raise_with_key recipients_for mails_now compute_dedupe_key
raise_recurred = refl

reopen_alert-conflicts_example : reopen_alert 1 6 40 recurred ≡ none
reopen_alert-conflicts_example =
    reopen_alert-conflicts digest decimal 1 6 2 drift 30 40 settled recurred
      (record { alert_id = 2; is_new = true; occurrence_count = 1 }) settled-OneOpen
      (here (refl, refl)) raise_recurred
