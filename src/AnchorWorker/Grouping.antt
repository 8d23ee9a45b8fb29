-- ===== src/AnchorWorker/Grouping.antt =====
-- anchor_worker/batch.py: the claimed steps in their groups by run.
use trust_chain.AnchorWorker.Outbox.{ClaimedStep}
use trust_chain.Prelude.{
  ℕ, refl, [], String, List, ◌≤◌, All, ◌≡◌, length, arith, ◌+◌, ◌∷◌, ◌++◌, Bool-cases, inl, inr,
  str_eq, length-append, All-append, sym, eq_iff,
}
use trust_chain.AnchorWorker.Batch.{Groups, add_to_run, group_by_run}

-- A group is not empty, and its steps are of its run.
abbrev pub IsGroup : String × List ClaimedStep → Type 0
IsGroup (run, steps) = (1 ≤ length steps) × All (λ s. s.step.run_id ≡ run) steps

abbrev pub total : Groups → ℕ
total [] = 0
total ((_, steps) ∷ groups) = length steps + total groups

add_to_run-IsGroup :
    (s : ClaimedStep) (groups : Groups) → All IsGroup groups → All IsGroup (add_to_run s groups)
unfolding add_to_run
add_to_run-IsGroup s [] h = ((omega arith, (refl, tt)), tt)
add_to_run-IsGroup s ((run, steps) ∷ groups) ((n, r), h) =
    elim (Bool-cases (str_eq run s.step.run_id)) [
      | inl same ↦
          rw (same, add_to_run)
            (
              (
                omega (arith, length-append {0} steps (s ∷ [])),
                All-append (λ (t : ClaimedStep). t.step.run_id ≡ run) steps (s ∷ []) r
                    (sym ((eq_iff run s.step.run_id).0 same), tt),
              ),
              h,
            )
      | inr other ↦ rw (other, add_to_run) ((n, r), add_to_run-IsGroup s groups h)
    ]

total-add_to_run :
    (s : ClaimedStep) (groups : Groups) → total (add_to_run s groups) ≡ total groups + 1
unfolding add_to_run
total-add_to_run s [] = refl
total-add_to_run s ((run, steps) ∷ groups) = elim (Bool-cases (str_eq run s.step.run_id)) [
  | inl same ↦ rw (same, add_to_run) (omega (arith, length-append {0} steps (s ∷ [])))
  | inr other ↦ rw (other, add_to_run) (omega (arith, total-add_to_run s groups))
]

-- The claimed steps are parted by run: every group has a step, all its steps are of its run, and
-- the groups have as many steps together as were claimed.
pub group_by_run-parts :
    (steps : List ClaimedStep) (groups : Groups)
    → All IsGroup groups
    → All IsGroup (group_by_run groups steps)
      × (total (group_by_run groups steps) ≡ total groups + length steps)
unfolding group_by_run
group_by_run-parts [] groups h = (h, omega arith)
group_by_run-parts (s ∷ steps) groups h =
    let (h', n) = group_by_run-parts steps (add_to_run s groups) (add_to_run-IsGroup s groups h) in
    (h', omega (arith, n, total-add_to_run s groups))

-- Every step of every group has the property.
abbrev pub AllSteps : (ClaimedStep → Type 0) → Groups → Type 0
AllSteps P groups = All (λ g. All P g.1) groups

All-append_parts :
    (P : ClaimedStep → Type 0) (xs : List ClaimedStep) (s : ClaimedStep)
    → All P (xs ++ s ∷ [])
    → All P xs × P s
All-append_parts P [] s (h, _) = (tt, h)
All-append_parts P (x ∷ xs) s (hx, h) =
    let (hs, last) = All-append_parts P xs s h in ((hx, hs), last)

add_to_run-AllSteps :
    (P : ClaimedStep → Type 0) (s : ClaimedStep) (groups : Groups)
    → (P s → AllSteps P groups → AllSteps P (add_to_run s groups))
      × (AllSteps P (add_to_run s groups) → P s × AllSteps P groups)
unfolding add_to_run
add_to_run-AllSteps P s [] = (λ p _. ((p, tt), tt), λ h. (h.0.0, tt))
add_to_run-AllSteps P s ((run, steps) ∷ groups) = elim (Bool-cases (str_eq run s.step.run_id)) [
  | inl same ↦
      rw (add_to_run, same)
        (
          λ p h. (All-append P steps (s ∷ []) h.0 (p, tt), h.1),
          λ h. let parts = All-append_parts P steps s h.0 in (parts.1, (parts.0, h.1)),
        )
  | inr other ↦
      let rest = add_to_run-AllSteps P s groups in
      rw (add_to_run, other)
        (λ p h. (h.0, rest.0 p h.1), λ h. let parts = rest.1 h.1 in (parts.0, (h.0, parts.1)))
]

-- The steps in the groups are the claimed ones, as far as a property of steps can tell.
pub group_by_run-AllSteps :
    (P : ClaimedStep → Type 0) (steps : List ClaimedStep) (groups : Groups)
    → (All P steps → AllSteps P groups → AllSteps P (group_by_run groups steps))
      × (AllSteps P (group_by_run groups steps) → All P steps × AllSteps P groups)
unfolding group_by_run
group_by_run-AllSteps P [] groups = (λ _ h. h, λ h. (tt, h))
group_by_run-AllSteps P (s ∷ steps) groups =
    let rest = group_by_run-AllSteps P steps (add_to_run s groups) in
    let first = add_to_run-AllSteps P s groups in
    (
      λ h g. rest.0 h.1 (first.0 h.0 g),
      λ h. let (hs, g) = rest.1 h in let (p, g') = first.1 g in ((p, hs), g'),
    )
