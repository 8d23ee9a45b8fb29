-- ===== src/Prelude/Lists.antt =====
-- Lists measured and indexed by native numbers, and predicates and filters over table rows.
use Prim.Native.Nat.{ℕ, zero, suc, ◌+◌, ◌≤◌, ◌<◌}
use mathlib.Core.Path.{◌≡◌, refl, ap}
use mathlib.Core.Bool.{Bool, true, false}
use mathlib.Core.Option.{Option, none, some}
use mathlib.Core.List.{List, [], ◌∷◌, ◌++◌, map}
use native.Mathlib.Omega.{arith}

module _ {ℓ} {A : Type ℓ} where
  abbrev pub length : List A → ℕ
  length [] = 0
  length (x ∷ xs) = suc (length xs)

  abbrev pub get_elem? : List A → ℕ → Option A
  get_elem? [] i = none
  get_elem? (x ∷ xs) zero = some x
  get_elem? (x ∷ xs) (suc i) = get_elem? xs i

  abbrev pub to_list : Option A → List A
  to_list none = []
  to_list (some a) = a ∷ []

  -- `l[:-1]`
  abbrev pub drop_last : List A → List A
  drop_last [] = []
  drop_last (x ∷ []) = []
  drop_last (x ∷ y ∷ l) = x ∷ drop_last (y ∷ l)

  -- `l[-1]`
  abbrev pub get_last? : List A → Option A
  get_last? [] = none
  get_last? (x ∷ []) = some x
  get_last? (x ∷ y ∷ l) = get_last? (y ∷ l)

  -- The rows that a WHERE clause selects.
  abbrev pub select : (A → Bool) → List A → List A
  select p [] = []
  select p (x ∷ xs) = let rest = select p xs in elim (p x) [ true ↦ x ∷ rest | false ↦ rest ]

  abbrev pub take : ℕ → List A → List A
  take zero xs = []
  take (suc n) [] = []
  take (suc n) (x ∷ xs) = x ∷ take n xs

  pub length-append : (xs ys : List A) → length (xs ++ ys) ≡ length xs + length ys
  length-append [] ys = omega arith
  length-append (x ∷ xs) ys = omega (arith, length-append xs ys)

  pub length-take : (n : ℕ) (xs : List A) → length (take n xs) ≤ n
  length-take zero xs = omega arith
  length-take (suc n) [] = omega arith
  length-take (suc n) (x ∷ xs) = omega (arith, length-take n xs)

  pub get_elem?-some_lt : (xs : List A) (i : ℕ) {x : A} → get_elem? xs i ≡ some x → i < length xs
  get_elem?-some_lt [] i h = cc
  get_elem?-some_lt (y ∷ xs) zero h = omega arith
  get_elem?-some_lt (y ∷ xs) (suc i) h = omega (arith, get_elem?-some_lt xs i h)

module _ {ℓ κ} {A : Type ℓ} where
  abbrev pub All : (A → Type κ) → List A → Type κ
  All P [] = Unit
  All P (x ∷ xs) = P x × All P xs

  -- "There is a row such that", with the row kept.
  pub data Any (P : A → Type κ) : List A → Type (ℓ ⊔ κ) where
    here : {x : A} {xs : List A} → P x → Any P (x ∷ xs)
    there : {x : A} {xs : List A} → Any P xs → Any P (x ∷ xs)

pub All-map {ℓ κ} :
    {A : Type ℓ} {P : A → Type κ} (f : A → A)
    → ((x : A) → P x → P (f x))
    → (xs : List A) → All P xs
    → All P (map f xs)
All-map f step [] h = tt
All-map f step (x ∷ xs) h = (step x h.0, All-map f step xs h.1)

pub length-map {ℓ κ} :
    {A : Type ℓ} {B : Type κ} (f : A → B) (xs : List A) → length (map f xs) ≡ length xs
length-map f [] = refl
length-map f (x ∷ xs) = ap suc (length-map f xs)

pub All-append {ℓ κ} :
    {A : Type ℓ} (P : A → Type κ) (xs ys : List A) → All P xs → All P ys → All P (xs ++ ys)
All-append P [] ys hx hy = hy
All-append P (x ∷ xs) ys (hx, h) hy = (hx, All-append P xs ys h hy)

pub Any-append {ℓ κ} : {A : Type ℓ} {P : A → Type κ} (xs ys : List A) → Any P xs → Any P (xs ++ ys)
Any-append [] ys m = elim m [ ]
Any-append (x ∷ xs) ys (here e) = here e
Any-append (x ∷ xs) ys (there m) = there (Any-append xs ys m)

pub Any-last {ℓ κ} :
    {A : Type ℓ} {P : A → Type κ} (xs : List A) (x : A) → P x → Any P (xs ++ x ∷ [])
Any-last [] x e = here e
Any-last (y ∷ xs) x e = there (Any-last xs x e)
