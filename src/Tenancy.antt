-- ===== src/Tenancy.antt =====
-- backend/db/tenancy.py: the gas and token budgets of organizations, and the organization of a run.
-- The rows hold the columns that these functions read (backend/db/models.py).
pub mod Budgets
use trust_chain.Prelude.{
  ℕ, ◌+◌, String, str_eq, Bool, true, false, Option, none, some, List, [], ◌∷◌, ◌==◌, leb,
  if◌then◌else◌, update_where,
}

pub record Organization : Type 0 where
  pub id : ℕ
  pub gas_budget_wei : Option ℕ
  pub gas_spent_wei : ℕ
  pub token_budget : Option ℕ
  pub tokens_spent : ℕ

pub record Project : Type 0 where
  pub id : ℕ
  pub org_id : ℕ

pub record Run : Type 0 where
  pub run_id : String
  pub project_id : ℕ

pub record Tenants : Type 0 where
  pub orgs : List Organization
  pub projects : List Project
  pub runs : List Run

-- `session.get(Organization, org_id)`.
abbrev pub find_org : ℕ → List Organization → Option Organization
find_org i [] = none
find_org i (o ∷ orgs) = let rest = find_org i orgs in if o.id == i then some o else rest

abbrev pub find_project : ℕ → List Project → Option Project
find_project i [] = none
find_project i (p ∷ projects) =
    let rest = find_project i projects in if p.id == i then some p else rest

abbrev pub find_run : String → List Run → Option Run
find_run run_id [] = none
find_run run_id (r ∷ runs) =
    let rest = find_run run_id runs in if str_eq r.run_id run_id then some r else rest

-- The join of the run with its project.
unfoldable pub get_org_id_for_run : String → Tenants → Option ℕ
get_org_id_for_run run_id t = elim (find_run run_id t.runs) [
  | none ↦ none
  | some run ↦ elim (find_project run.project_id t.projects) [
    | none ↦ none
    | some project ↦ some project.org_id
  ]
]

pub record BudgetStatus : Type 0 where
  pub budget : Option ℕ
  pub spent : ℕ
  pub breached : Bool

-- `budget is not None and spent >= budget`.
abbrev pub status_of : (budget : Option ℕ) (spent : ℕ) → BudgetStatus
status_of budget spent = record {
  budget = budget;
  spent = spent;
  breached = elim budget [ none ↦ false | some ceiling ↦ leb ceiling spent ];
}

unfoldable pub get_org_gas_budget_status : ℕ → List Organization → BudgetStatus
get_org_gas_budget_status org_id orgs = elim (find_org org_id orgs) [
  | none ↦ status_of none 0
  | some org ↦ status_of org.gas_budget_wei org.gas_spent_wei
]

unfoldable pub get_org_token_budget_status : ℕ → List Organization → BudgetStatus
get_org_token_budget_status org_id orgs = elim (find_org org_id orgs) [
  | none ↦ status_of none 0
  | some org ↦ status_of org.token_budget org.tokens_spent
]

unfoldable pub record_gas_spend : (org_id wei_spent : ℕ) → List Organization → List Organization
record_gas_spend org_id wei_spent =
    update_where (λ (o : Organization). o.id == org_id)
      (λ o. record o { gas_spent_wei = o.gas_spent_wei + wei_spent })

unfoldable pub record_token_spend : (org_id tokens : ℕ) → List Organization → List Organization
record_token_spend org_id tokens =
    update_where (λ (o : Organization). o.id == org_id)
      (λ o. record o { tokens_spent = o.tokens_spent + tokens })
