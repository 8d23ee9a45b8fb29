-- ===== src/Invitations/Pending.antt =====
-- backend/db/invitations.py: which invitations count as pending, and which stand in the way of a
-- new one.
use trust_chain.Prelude.{
  ℕ, ◌≡◌, refl, ap, Bool, true, false, List, [], ◌∷◌, ◌==◌, ◌&&◌, arith, length, select, Bool-cases,
  inl, inr,
}
use trust_chain.Invitations.{
  Invitation, pending_status, derived_status, is_pending_for, count_pending,
}

-- The rows of the organization that are listed as pending.
abbrev listed_pending : (org_id now : ℕ) → Invitation → Bool
listed_pending org_id now i =
    i.org_id == org_id && elim (derived_status now i) [ pending_status ↦ true | _ ↦ false ]

same_test :
    (org_id now : ℕ) (i : Invitation) → is_pending_for org_id now i ≡ listed_pending org_id now i
unfolding derived_status
same_test org_id now i = ground arith

select-same :
    (p q : Invitation → Bool) (rows : List Invitation)
    → ((i : Invitation) → p i ≡ q i)
    → select p rows ≡ select q rows
select-same p q [] e = refl
select-same p q (i ∷ rows) e = elim (Bool-cases (q i)) [
  | inl hit ↦ rw (select, e i, hit, select-same p q rows e) refl
  | inr miss ↦ rw (select, e i, miss, select-same p q rows e) refl
]

-- The count of pending invitations is the number of the organization's invitations whose derived
-- status is pending.
pub count_pending-lists :
    (org_id now : ℕ) (rows : List Invitation)
    → count_pending org_id now rows ≡ length (select (listed_pending org_id now) rows)
unfolding count_pending
count_pending-lists org_id now rows = ap length (
    select-same (is_pending_for org_id now) (listed_pending org_id now) rows (same_test org_id now))
