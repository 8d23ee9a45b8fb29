-- ===== src/Watchdog/Rolling.antt =====
-- backend/integrity_watchdog/main.py and cursor.py: the rolling tier, cycle after cycle.
use trust_chain.Prelude.{
  ℕ, zero, suc, ◌+◌, ◌*◌, ◌≤◌, ◌<◌, ◌≡◌, refl, sym, ap, ◌∙◌, Bool, false, some, List, [], ◌∷◌, ◌++◌,
  length, All, ltb, lt→ltb, ltb→lt, leb, Bool-cases, select, take, get_last?, some-injective, arith,
  inl, inr, ◌⊎◌,
}
use mathlib.Core.List.{append_assoc}
use trust_chain.Watchdog.{rolling_cycle, rolling_cycles}

-- Primary keys in the order of the query.
abbrev pub Ascending : List ℕ → Type 0
Ascending [] = Unit
Ascending (i ∷ ids) = All (λ j. i < j) ids × Ascending ids

abbrev drop : ℕ → List ℕ → List ℕ
drop zero l = l
drop (suc n) [] = []
drop (suc n) (x ∷ l) = drop n l

take-drop : (n : ℕ) (l : List ℕ) → take n l ++ drop n l ≡ l
take-drop zero l = refl
take-drop (suc n) [] = refl
take-drop (suc n) (x ∷ l) = ap (λ (t : List ℕ). x ∷ t) (take-drop n l)

length-drop : (n : ℕ) (l : List ℕ) → 1 ≤ length l → suc (length (drop (suc n) l)) ≤ length l
length-drop n [] h = absurd (omega arith)
length-drop zero (x ∷ l) h = omega arith
length-drop (suc n) (x ∷ []) h = omega arith
length-drop (suc n) (x ∷ y ∷ l) h = omega (arith, length-drop n (y ∷ l) (omega arith))

select-above : (v : ℕ) (l : List ℕ) → All (λ j. v < j) l → select (ltb v) l ≡ l
select-above v [] h = refl
select-above v (x ∷ l) (hx, h) =
    rw (select, lt→ltb v x hx) (ap (λ (t : List ℕ). x ∷ t) (select-above v l h))

select-All : (P : ℕ → Type 0) (p : ℕ → Bool) (l : List ℕ) → All P l → All P (select p l)
select-All P p [] h = tt
select-All P p (x ∷ l) (hx, h) = elim (Bool-cases (p x)) [
  | inl hit ↦ rw (select, hit) (hx, select-All P p l h)
  | inr miss ↦ rw (select, miss) (select-All P p l h)
]

select-Ascending : (p : ℕ → Bool) (l : List ℕ) → Ascending l → Ascending (select p l)
select-Ascending p [] h = tt
select-Ascending p (x ∷ l) (hx, h) = elim (Bool-cases (p x)) [
  | inl hit ↦ rw (select, hit) (select-All (λ j. x < j) p l hx, select-Ascending p l h)
  | inr miss ↦ rw (select, miss) (select-Ascending p l h)
]

select-select :
    (last v : ℕ) (l : List ℕ) → last ≤ v → select (ltb v) (select (ltb last) l) ≡ select (ltb v) l
select-select last v [] h = refl
select-select last v (x ∷ l) h = elim (Bool-cases (ltb last x)) [
  | inl hit ↦ elim (Bool-cases (ltb v x)) [
    | inl far ↦ rw (select, hit, far) (ap (λ (t : List ℕ). x ∷ t) (select-select last v l h))
    | inr near ↦ rw (select, hit, near) (select-select last v l h)
  ]
  | inr miss ↦
      let near : ltb v x ≡ false = ground arith in
      rw (select, miss, near) (select-select last v l h)
]

-- The last element of a page is one of the list.
last-All : (P : ℕ → Type 0) (n v : ℕ) (l : List ℕ) → get_last? (take n l) ≡ some v → All P l → P v
last-All P zero v l e h = cc
last-All P (suc n) v [] e h = cc
last-All P (suc zero) v (x ∷ l) e h = rw (← some-injective _ _ e) (h.0)
last-All P (suc (suc n)) v (x ∷ []) e h = rw (← some-injective _ _ e) (h.0)
last-All P (suc (suc n)) v (x ∷ y ∷ l) e h = last-All P (suc n) v (y ∷ l) e h.1

select-skip : (v x : ℕ) (l : List ℕ) → x ≤ v → select (ltb v) (x ∷ l) ≡ select (ltb v) l
select-skip v x l h = let near : ltb v x ≡ false = ground arith in rw (select, near) refl

-- What lies above the last element of a page is the rest of an ascending list.
select-drop :
    (n v : ℕ) (l : List ℕ)
    → Ascending l
    → get_last? (take (suc n) l) ≡ some v
    → select (ltb v) l ≡ drop (suc n) l
select-drop n v [] h e = refl
select-drop zero v (x ∷ l) (hx, h) e =
    let same : x ≡ v = some-injective _ _ e in
    select-skip v x l (omega (arith, same)) ∙ select-above v l (rw same at hx)
select-drop (suc n) v (x ∷ []) (hx, h) e = select-skip v x [] (omega (arith, some-injective x v e))
select-drop (suc n) v (x ∷ y ∷ l) (hx, h) e =
    select-skip v x (y ∷ l) (omega (arith, last-All (λ j. x < j) (suc n) v (y ∷ l) e hx))
    ∙ select-drop n v (y ∷ l) h e

take-nonempty :
    (n : ℕ) (l : List ℕ)
    → 1 ≤ length l
    → (v : ℕ) × (get_last? (take (suc n) l) ≡ some v) × (leb (length (take (suc n) l)) 0 ≡ false)
take-nonempty n [] h = absurd (omega arith)
take-nonempty zero (x ∷ l) h = (x, refl, refl)
take-nonempty (suc n) (x ∷ []) h = (x, refl, refl)
take-nonempty (suc n) (x ∷ y ∷ l) h =
    let (v, e, _) = take-nonempty n (y ∷ l) (omega arith) in (v, e, ground arith)

-- With rows above the cursor a cycle sweeps a page of them and leaves the cursor at its end.
cycle-page :
    (n last v : ℕ) (ids : List ℕ)
    → get_last? (take (suc n) (select (ltb last) ids)) ≡ some v
    → leb (length (take (suc n) (select (ltb last) ids))) 0 ≡ false
    → rolling_cycle (suc n) ids last ≡ (take (suc n) (select (ltb last) ids), v)
unfolding rolling_cycle
cycle-page n last v ids e some_rows = rw (e, some_rows) refl

-- With none above it, a cycle sweeps nothing and leaves the cursor at 0.
cycle-wraps :
    (n last : ℕ) (ids : List ℕ)
    → select (ltb last) ids ≡ []
    → rolling_cycle (suc n) ids last ≡ ([], 0)
unfolding rolling_cycle
cycle-wraps n last ids e = ground (arith, e)

above :
    (last v : ℕ) (ids : List ℕ) (n : ℕ)
    → get_last? (take n (select (ltb last) ids)) ≡ some v
    → All (λ j. last < j) (select (ltb last) ids)
    → last ≤ v
above last v ids n e h = omega (arith, last-All (λ j. last < j) n v (select (ltb last) ids) e h)

length-select : (p : ℕ → Bool) (l : List ℕ) → length (select p l) ≤ length l
length-select p [] = omega arith
length-select p (x ∷ l) = elim (Bool-cases (p x)) [
  | inl hit ↦ rw (select, hit) (omega (arith, length-select p l))
  | inr miss ↦ rw (select, miss) (omega (arith, length-select p l))
]

select-AllAbove : (last : ℕ) (ids : List ℕ) → All (λ j. last < j) (select (ltb last) ids)
select-AllAbove last [] = tt
select-AllAbove last (x ∷ ids) = elim (Bool-cases (ltb last x)) [
  | inl hit ↦ rw (select, hit) (ltb→lt last x hit, select-AllAbove last ids)
  | inr miss ↦ rw (select, miss) (select-AllAbove last ids)
]

empty-or-not : (l : List ℕ) → (l ≡ []) ⊎ (1 ≤ length l)
empty-or-not [] = inl refl
empty-or-not (x ∷ l) = inr (omega arith)

-- After a page, the rows above its end are the rest.
rest-of_page :
    (n last v : ℕ) (ids : List ℕ)
    → Ascending ids
    → get_last? (take (suc n) (select (ltb last) ids)) ≡ some v
    → select (ltb v) ids ≡ drop (suc n) (select (ltb last) ids)
rest-of_page n last v ids asc e =
    sym (select-select last v ids (above last v ids (suc n) e (select-AllAbove last ids)))
    ∙ select-drop n v (select (ltb last) ids) (select-Ascending (ltb last) ids asc) e

-- From any cursor the cycles sweep the ids above it, each once, and come back to 0.
to_the_end :
    (fuel n last : ℕ) (ids : List ℕ)
    → Ascending ids
    → length (select (ltb last) ids) ≤ fuel
    → (cycles : ℕ) × (cycles ≤ fuel + 1)
      × (rolling_cycles cycles (suc n) ids last ≡ (select (ltb last) ids, 0))
unfolding rolling_cycles
to_the_end zero n last ids asc h =
    let none_left : select (ltb last) ids ≡ [] = elim (empty-or-not (select (ltb last) ids)) [
      | inl e ↦ e
      | inr some_left ↦ absurd (omega arith)
    ] in
    (1, omega arith, rw (cycle-wraps n last ids none_left, none_left) refl)
to_the_end (suc fuel) n last ids asc h = elim (empty-or-not (select (ltb last) ids)) [
  | inl none_left ↦ (1, omega arith, rw (cycle-wraps n last ids none_left, none_left) refl)
  | inr some_left ↦
      let rows = select (ltb last) ids in
      let (v, e, paged) = take-nonempty n rows some_left in
      let rest = rest-of_page n last v ids asc e in
      let (cycles, enough, swept) =
        to_the_end fuel n v ids asc (omega (arith, ap length rest, length-drop n rows some_left)) in
      (
        suc cycles,
        omega arith,
        rw (cycle-page n last v ids e paged, swept, rest, take-drop (suc n) rows) refl,
      )
]

cycles-append :
    (k m n last : ℕ) (ids : List ℕ)
    → rolling_cycles (k + m) n ids last ≡ (
      (rolling_cycles k n ids last).0 ++ (rolling_cycles m n ids (rolling_cycles k n ids last).1).0,
      (rolling_cycles m n ids (rolling_cycles k n ids last).1).1,
    )
unfolding rolling_cycles
cycles-append zero m n last ids = let up : 0 + m ≡ m = omega arith in rw up refl
cycles-append (suc k) m n last ids =
    let next = (rolling_cycle n ids last).1 in
    let up : suc k + m ≡ suc (k + m) = omega arith in
    rw
      (
        up,
        cycles-append k m n next ids,
        append_assoc (rolling_cycle n ids last).0 (rolling_cycles k n ids next).0
            (rolling_cycles m n ids (rolling_cycles k n ids next).1).0,
      )
      refl

-- No row is left out. On a table with ascending positive ids and a budget of at least one row,
-- from any cursor, some number of cycles, at most twice the number of rows plus two, sweeps first
-- the ids above the cursor and then every id of the table, in order, and leaves the cursor at 0.
pub rolling_cycles-sweep_every :
    (per_cycle cursor : ℕ) (ids : List ℕ)
    → 1 ≤ per_cycle
    → Ascending ids
    → All (λ i. 0 < i) ids
    → (cycles : ℕ) × (cycles ≤ 2 * (length ids + 1))
      × (rolling_cycles cycles per_cycle ids cursor ≡ (select (ltb cursor) ids ++ ids, 0))
rolling_cycles-sweep_every zero cursor ids h asc p = absurd (omega arith)
rolling_cycles-sweep_every (suc n) cursor ids h asc p =
    let (k, kb, first) =
      to_the_end (length ids) n cursor ids asc (length-select (ltb cursor) ids) in
    let (m, mb, second) = to_the_end (length ids) n 0 ids asc (length-select (ltb 0) ids) in
    (
      k + m,
      omega arith,
      cycles-append k m (suc n) cursor ids ∙ rw (first, second, select-above 0 ids p) refl,
    )
