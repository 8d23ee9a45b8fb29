-- ===== src/Prelude/Tables.antt =====
-- Tables as lists of rows: UPDATE and ORDER BY, and what they keep.
use Prim.Native.Nat.{ℕ, suc}
use mathlib.Core.Path.{◌≡◌, refl, ap, ◌∙◌}
use mathlib.Core.Bool.{Bool, true, false}
use mathlib.Core.Logic.{inl, inr}
use mathlib.Core.List.{List, [], ◌∷◌, map}
use trust_chain.Prelude.Tests.{leb, Bool-cases}
use trust_chain.Prelude.Lists.{All, length}

module _ {ℓ} {A : Type ℓ} where
  -- UPDATE ... SET f WHERE p.
  abbrev pub update_where : (A → Bool) → (A → A) → List A → List A
  update_where p f [] = []
  update_where p f (x ∷ xs) = elim (p x) [ true ↦ f x | false ↦ x ] ∷ update_where p f xs

  -- The place of a row in a list that is sorted by `key`: after the rows with the same key.
  abbrev pub insert_by : (A → ℕ) → A → List A → List A
  insert_by key x [] = x ∷ []
  insert_by key x (y ∷ ys) =
      let rest = insert_by key x ys in
      elim (leb (key x) (key y)) [ true ↦ x ∷ y ∷ ys | false ↦ y ∷ rest ]

  -- `rows.sort(key=...)` and ORDER BY: a stable sort.
  abbrev pub sort_by : (A → ℕ) → List A → List A
  sort_by key [] = []
  sort_by key (x ∷ xs) = insert_by key x (sort_by key xs)

  pub All-update_where {κ} :
      {P : A → Type κ} (p : A → Bool) (f : A → A)
      → ((x : A) → p x ≡ true → P x → P (f x))
      → (xs : List A) → All P xs
      → All P (update_where p f xs)
  All-update_where p f keep [] h = tt
  All-update_where p f keep (x ∷ xs) (hx, h) = elim (Bool-cases (p x)) [
    | inl hit ↦ rw hit (keep x hit hx, All-update_where p f keep xs h)
    | inr miss ↦ rw miss (hx, All-update_where p f keep xs h)
  ]

  pub map-update_where {κ} :
      {B : Type κ} (g : A → B) (p : A → Bool) (f : A → A)
      → ((x : A) → g (f x) ≡ g x)
      → (xs : List A) → map g (update_where p f xs) ≡ map g xs
  map-update_where g p f keep [] = refl
  map-update_where g p f keep (x ∷ xs) = elim (Bool-cases (p x)) [
    | inl hit ↦ rw (hit, keep x, map-update_where g p f keep xs)
    | inr miss ↦ rw (miss, map-update_where g p f keep xs)
  ]

module _ {ℓ} {A : Type ℓ} where
  length-insert_by :
      (key : A → ℕ) (x : A) (xs : List A) → length (insert_by key x xs) ≡ suc (length xs)
  length-insert_by key x [] = refl
  length-insert_by key x (y ∷ ys) = placed (leb (key x) (key y)) (length-insert_by key x ys)
    where
      placed :
          (b : Bool)
          → length (insert_by key x ys) ≡ suc (length ys)
          → length (elim b [ true ↦ x ∷ y ∷ ys | false ↦ y ∷ insert_by key x ys ])
            ≡ suc (suc (length ys))
      placed true rec = refl
      placed false rec = ap suc rec

  pub length-sort_by : (key : A → ℕ) (xs : List A) → length (sort_by key xs) ≡ length xs
  length-sort_by key [] = refl
  length-sort_by key (x ∷ xs) =
      length-insert_by key x (sort_by key xs) ∙ ap suc (length-sort_by key xs)
