-- ===== src/Alerts/Counting.antt =====
-- backend/db/alerts.py: the number of open alerts with a key, and what an UPDATE does to it.
use trust_chain.Alerts.Rows.{open_status}
use trust_chain.Prelude.{
  String, List, ℕ, ◌≤◌, ◌≡◌, Bool, select, length, true, update_where, ◌++◌, [], eq_iff, Bool-cases,
  arith, ◌∷◌, ◌⊎◌, refl, str_eq, inr, inl, false≢true, leb→le, le→leb, subst,
}
use trust_chain.Alerts.{Alert, open_with, one_open}

-- The number of open alerts with a key.
abbrev pub count_open : (key : String) → List Alert → ℕ
count_open key rows = length (select (open_with key) rows)

-- What the partial unique index promises.
abbrev pub OneOpen : List Alert → Type 0
OneOpen rows = (key : String) → count_open key rows ≤ 1

pub open_with-own_key : (a : Alert) → open_status a.status ≡ true → open_with a.dedupe_key a ≡ true
open_with-own_key a h = rw (open_with, (eq_iff a.dedupe_key a.dedupe_key).1 refl, h) refl

pub open_with-parts :
    (key : String) (a : Alert)
    → open_with key a ≡ true
    → (a.dedupe_key ≡ key) × (open_status a.status ≡ true)
open_with-parts key a h = elim (Bool-cases (str_eq a.dedupe_key key)) [
  | inl same ↦ ((eq_iff a.dedupe_key key).0 same, rw same at h)
  | inr other ↦ absurd (false≢true (rw other at h))
]

pub one_open→OneOpen : (rows : List Alert) → one_open rows ≡ true → OneOpen rows
one_open→OneOpen [] h key = omega arith
one_open→OneOpen (a ∷ rows) h key =
    let rest : one_open rows ≡ true = ground (arith, h) in
    let below = one_open→OneOpen rows rest key in
    elim (Bool-cases (open_with key a)) [
      | inr never ↦ rw (count_open, select, never) below
      | inl was ↦
          let parts = open_with-parts key a was in
          let none_left : count_open a.dedupe_key rows ≤ 0 =
            leb→le _ _ (ground (arith, h, parts.1)) in
          let none_here : count_open key rows ≤ 0 =
            subst (λ k. count_open k rows ≤ 0) parts.0 none_left in
          rw (count_open, select, was) (omega (arith, none_here))
    ]

pub OneOpen→one_open : (rows : List Alert) → OneOpen rows → one_open rows ≡ true
OneOpen→one_open [] h = refl
OneOpen→one_open (a ∷ rows) h =
    let below : OneOpen rows = λ key. elim (Bool-cases (open_with key a)) [
      | inl was ↦ omega (arith, rw (count_open, select, was) at (h key))
      | inr never ↦ rw (count_open, select, never) at (h key)
    ] in
    elim (Bool-cases (open_status a.status)) [
      | inr shut ↦ rw (one_open, shut) (OneOpen→one_open rows below)
      | inl up ↦
          let alone = rw (count_open, select, open_with-own_key a up) at (h a.dedupe_key) in
          rw (one_open, up, le→leb (count_open a.dedupe_key rows) 0 (omega (arith, alone)))
            (OneOpen→one_open rows below)
    ]

-- An UPDATE that opens no alert.
pub count_open-update_where :
    (key : String) (p : Alert → Bool) (f : Alert → Alert)
    → ((a : Alert) → p a ≡ true → open_with key (f a) ≡ true → open_with key a ≡ true)
    → (rows : List Alert) → count_open key (update_where p f rows) ≤ count_open key rows
count_open-update_where key p f keeps [] = omega arith
count_open-update_where key p f keeps (a ∷ rows) =
    let rest = count_open-update_where key p f keeps rows in
    elim (Bool-cases (p a)) [
      | inl hit ↦ elim (Bool-cases (open_with key (f a))) [
        | inl now ↦
            rw (update_where, hit, select, now, keeps a hit now, length) (omega (arith, rest))
        | inr shut ↦ elim (Bool-cases (open_with key a)) [
          | inl was ↦ rw (update_where, hit, select, shut, was, length) (omega (arith, rest))
          | inr never ↦ rw (update_where, hit, select, shut, never) rest
        ]
      ]
      | inr miss ↦ elim (Bool-cases (open_with key a)) [
        | inl was ↦ rw (update_where, miss, select, was, length) (omega (arith, rest))
        | inr never ↦ rw (update_where, miss, select, never) rest
      ]
    ]

-- An UPDATE that opens and closes no alert.
pub select-update_where :
    (key : String) (p : Alert → Bool) (f : Alert → Alert)
    → ((a : Alert) → open_with key (f a) ≡ open_with key a)
    → (rows : List Alert)
    → select (open_with key) (update_where p f rows)
      ≡ update_where p f (select (open_with key) rows)
select-update_where key p f same [] = refl
select-update_where key p f same (a ∷ rows) =
    let rest = select-update_where key p f same rows in
    elim (Bool-cases (p a)) [
      | inl hit ↦ elim (Bool-cases (open_with key a)) [
        | inl was ↦ rw (update_where, hit, select, same a, was, rest) refl
        | inr never ↦ rw (update_where, hit, select, same a, never, rest) refl
      ]
      | inr miss ↦ elim (Bool-cases (open_with key a)) [
        | inl was ↦ rw (update_where, miss, select, was, rest) refl
        | inr never ↦ rw (update_where, miss, select, never, rest) refl
      ]
    ]

pub select-append :
    (key : String) (rows more : List Alert)
    → select (open_with key) (rows ++ more)
      ≡ select (open_with key) rows ++ select (open_with key) more
select-append key [] more = refl
select-append key (a ∷ rows) more = elim (Bool-cases (open_with key a)) [
  | inl was ↦ rw (select, was, select-append key rows more) refl
  | inr never ↦ rw (select, never, select-append key rows more) refl
]

pub at_most_one :
    (rows : List Alert) → length rows ≤ 1 → (rows ≡ []) ⊎ ((a : Alert) × (rows ≡ a ∷ []))
at_most_one [] h = inl refl
at_most_one (a ∷ []) h = inr (a, refl)
at_most_one (a ∷ b ∷ rows) h = absurd (omega (arith, h))
