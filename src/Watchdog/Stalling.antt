-- ===== src/Watchdog/Stalling.antt =====
-- backend/integrity_watchdog/detectors/liveness.py: when the outbox counts as stalled.
use trust_chain.Prelude.{
  ℕ, ◌+◌, ◌≤◌, ◌≡◌, refl, true, some, List, [], ◌∷◌, leb, ltb, Any, here, there, inl, inr,
  Bool-cases, Option-cases, select, length, arith, leb→le, some-injective, false≢true, le→leb,
}
use trust_chain.AnchorWorker.{AnchorOutbox}
use trust_chain.Watchdog.{unfinished, oldest_of, check_stalled}

-- A row that is pending or claimed and was created at least `threshold` seconds ago.
abbrev pub Overdue : (now threshold : ℕ) → AnchorOutbox → Type 0
Overdue now threshold r = (unfinished r ≡ true) × (r.created_at + threshold ≤ now)

abbrev Late : (now threshold : ℕ) → AnchorOutbox → Type 0
Late now threshold r = r.created_at + threshold ≤ now

oldest-Late :
    (now threshold : ℕ) (rows : List AnchorOutbox) (r : AnchorOutbox)
    → oldest_of rows ≡ some r
    → Late now threshold r
    → Any (Late now threshold) rows
oldest-Late now threshold [] r h late = cc
oldest-Late now threshold (s ∷ rows) r h late = elim (Option-cases (oldest_of rows)) [
  | inl e ↦ here (rw (some-injective _ _ (rw e at h)) late)
  | inr (t, e) ↦ elim (Bool-cases (leb s.created_at t.created_at)) [
    | inl older ↦ here (rw (some-injective _ _ (rw (e, older) at h)) late)
    | inr younger ↦
        there
          (oldest-Late now threshold rows t e (rw (some-injective _ _ (rw (e, younger) at h)) late))
  ]
]

-- The oldest row is late if any is.
Late-oldest :
    (now threshold : ℕ) (rows : List AnchorOutbox)
    → Any (Late now threshold) rows
    → (r : AnchorOutbox) × (oldest_of rows ≡ some r) × Late now threshold r
Late-oldest now threshold [] m = elim m [ ]
Late-oldest now threshold (s ∷ rows) (here late) = elim (Option-cases (oldest_of rows)) [
  | inl e ↦ (s, rw e refl, late)
  | inr (t, e) ↦ elim (Bool-cases (leb s.created_at t.created_at)) [
    | inl older ↦ (s, rw (e, older) refl, late)
    | inr younger ↦ (t, rw (e, younger) refl, ground (arith, late, younger))
  ]
]
Late-oldest now threshold (s ∷ rows) (there m) =
    let (t, e, late) = Late-oldest now threshold rows m in
    elim (Bool-cases (leb s.created_at t.created_at)) [
      | inl older ↦ (s, rw (e, older) refl, ground (arith, late, older))
      | inr younger ↦ (t, rw (e, younger) refl, late)
    ]

Overdue-cons :
    (now threshold : ℕ) (r : AnchorOutbox) (rows : List AnchorOutbox)
    → unfinished r ≡ true
    → Any (Late now threshold) (r ∷ select unfinished rows)
    → (Any (Late now threshold) (select unfinished rows) → Any (Overdue now threshold) rows)
    → Any (Overdue now threshold) (r ∷ rows)
Overdue-cons now threshold r rows waits (here late) rest = here (waits, late)
Overdue-cons now threshold r rows waits (there m) rest = there (rest m)

select-Overdue :
    (now threshold : ℕ) (rows : List AnchorOutbox)
    → Any (Late now threshold) (select unfinished rows)
    → Any (Overdue now threshold) rows
select-Overdue now threshold [] m = elim m [ ]
select-Overdue now threshold (r ∷ rows) m = elim (Bool-cases (unfinished r)) [
  | inl waits ↦
      Overdue-cons now threshold r rows waits (rw (select, waits) at m)
        (select-Overdue now threshold rows)
  | inr done ↦ there (select-Overdue now threshold rows (rw (select, done) at m))
]

Overdue-select :
    (now threshold : ℕ) (rows : List AnchorOutbox)
    → Any (Overdue now threshold) rows
    → Any (Late now threshold) (select unfinished rows)
Overdue-select now threshold [] m = elim m [ ]
Overdue-select now threshold (r ∷ rows) (here (waits, late)) = rw (select, waits) (here late)
Overdue-select now threshold (r ∷ rows) (there m) = elim (Bool-cases (unfinished r)) [
  | inl waits ↦ rw (select, waits) (there (Overdue-select now threshold rows m))
  | inr done ↦ rw (select, done) (Overdue-select now threshold rows m)
]

oldest-nonempty :
    (rows : List AnchorOutbox) (r : AnchorOutbox)
    → oldest_of rows ≡ some r
    → ltb 0 (length rows) ≡ true
oldest-nonempty [] r h = cc
oldest-nonempty (s ∷ rows) r h = ground arith

-- The outbox is reported as stalled exactly when some row that is pending or claimed was created
-- at least the threshold ago.
pub check_stalled-exact :
    (now threshold : ℕ) (outbox : List AnchorOutbox)
    → ((check_stalled now threshold outbox).stalled ≡ true → Any (Overdue now threshold) outbox)
      × (Any (Overdue now threshold) outbox → (check_stalled now threshold outbox).stalled ≡ true)
unfolding check_stalled
check_stalled-exact now threshold outbox = (
  λ h. elim (Option-cases (oldest_of (select unfinished outbox))) [
    | inl e ↦ absurd (false≢true (rw (check_stalled, e) at h))
    | inr (r, e) ↦ select-Overdue now threshold outbox (
        oldest-Late now threshold (select unfinished outbox) r e
          (leb→le _ _ (rw (check_stalled, e, oldest-nonempty (select unfinished outbox) r e) at h)))
  ],
  λ m.
      let (r, e, late) =
        Late-oldest now threshold (select unfinished outbox)
          (Overdue-select now threshold outbox m) in
      rw (check_stalled, e, oldest-nonempty (select unfinished outbox) r e) (le→leb _ _ late),
)
