-- ===== src/Prelude/Sorting.antt =====
-- Rows that SELECT, ORDER BY and LIMIT return: which they are, and in which order.
use Prim.Native.Nat.{ℕ, zero, suc, ◌≤◌}
use mathlib.Core.Path.{◌≡◌, refl, ap}
use mathlib.Core.Bool.{Bool, true, false, false≢true}
use mathlib.Core.Logic.{◌⊎◌, inl, inr}
use mathlib.Core.List.{List, [], ◌∷◌}
use native.Mathlib.Omega.{arith}
use native.Mathlib.Nat.{le_trans}
use trust_chain.Prelude.Tests.{leb, leb→le}
use trust_chain.Prelude.Lists.{All, Any, here, there, select, take}
use trust_chain.Prelude.Tables.{insert_by, sort_by, update_where}

not_leb : (a b : ℕ) → leb a b ≡ false → b ≤ a
not_leb a b h = ground arith

module _ {ℓ} {A : Type ℓ} where
  -- `x` is one of the rows.
  abbrev pub Among : A → List A → Type ℓ
  Among x xs = Any (λ y. y ≡ x) xs

  Among-if :
      (b : Bool) (x y : A) (rest : List A)
      → Among x (elim b [ true ↦ y ∷ rest | false ↦ rest ])
      → ((b ≡ true) × (y ≡ x)) ⊎ Among x rest
  Among-if true x y rest (here e) = inl (refl, e)
  Among-if true x y rest (there m) = inr m
  Among-if false x y rest m = inr m

  pub Among-select :
      (p : A → Bool) (x : A) (xs : List A) → Among x (select p xs) → Among x xs × (p x ≡ true)
  Among-select p x [] m = elim m [ ]
  Among-select p x (y ∷ xs) m = elim (Among-if (p y) x y (select p xs) m) [
    | inl (hit, e) ↦ (here e, rw e at hit)
    | inr n ↦ (there (Among-select p x xs n).0, (Among-select p x xs n).1)
  ]

  pub select-Among :
      (p : A → Bool) (x : A) (xs : List A) → Among x xs → p x ≡ true → Among x (select p xs)
  select-Among p x [] m h = elim m [ ]
  select-Among p x (y ∷ xs) m h = placed (p y) refl m (λ n. select-Among p x xs n h)
    where
      placed :
          (b : Bool)
          → p y ≡ b
          → Among x (y ∷ xs)
          → (Among x xs → Among x (select p xs))
          → Among x (elim b [ true ↦ y ∷ select p xs | false ↦ select p xs ])
      placed true e (here q) rec = here q
      placed true e (there n) rec = there (rec n)
      placed false e (here q) rec = absurd (false≢true (cc (e, h, ap p q)))
      placed false e (there n) rec = rec n

  pub Among-take : (n : ℕ) (x : A) (xs : List A) → Among x (take n xs) → Among x xs
  Among-take zero x xs m = elim m [ ]
  Among-take (suc n) x [] m = elim m [ ]
  Among-take (suc n) x (y ∷ xs) (here e) = here e
  Among-take (suc n) x (y ∷ xs) (there m) = there (Among-take n x xs m)

  pub All-Among {κ} : {P : A → Type κ} (xs : List A) → ((x : A) → Among x xs → P x) → All P xs
  All-Among [] f = tt
  All-Among (x ∷ xs) f = (f x (here refl), All-Among xs (λ y m. f y (there m)))

  pub Among-All {κ} : (P : A → Type κ) (x : A) (xs : List A) → All P xs → Among x xs → P x
  Among-All P x [] h m = elim m [ ]
  Among-All P x (y ∷ xs) (hy, h) (here e) = rw (← e) hy
  Among-All P x (y ∷ xs) (hy, h) (there m) = Among-All P x xs h m

module _ {ℓ} {A : Type ℓ} (key : A → ℕ) where
  insert_cases :
      (b : Bool) (x y z : A) (ys rest : List A)
      → Among x (elim b [ true ↦ y ∷ z ∷ ys | false ↦ z ∷ rest ])
      → (y ≡ x) ⊎ ((z ≡ x) ⊎ (Among x ys ⊎ Among x rest))
  insert_cases true x y z ys rest (here e) = inl e
  insert_cases true x y z ys rest (there (here e)) = inr (inl e)
  insert_cases true x y z ys rest (there (there m)) = inr (inr (inl m))
  insert_cases false x y z ys rest (here e) = inr (inl e)
  insert_cases false x y z ys rest (there m) = inr (inr (inr m))

  insert_by-Among : (x y : A) (ys : List A) → Among x (insert_by key y ys) → (y ≡ x) ⊎ Among x ys
  insert_by-Among x y [] (here e) = inl e
  insert_by-Among x y [] (there m) = elim m [ ]
  insert_by-Among x y (z ∷ ys) m =
      elim (insert_cases (leb (key y) (key z)) x y z ys (insert_by key y ys) m) [
        | inl e ↦ inl e
        | inr (inl e) ↦ inr (here e)
        | inr (inr (inl n)) ↦ inr (there n)
        | inr (inr (inr n)) ↦ elim (insert_by-Among x y ys n) [
          | inl e ↦ inl e
          | inr n' ↦ inr (there n')
        ]
      ]

  Among-insert_by : (x y : A) (ys : List A) → (y ≡ x) ⊎ Among x ys → Among x (insert_by key y ys)
  Among-insert_by x y [] (inl e) = here e
  Among-insert_by x y [] (inr m) = elim m [ ]
  Among-insert_by x y (z ∷ ys) m = placed (leb (key y) (key z)) m (λ n. Among-insert_by x y ys n)
    where
      placed :
          (b : Bool)
          → (y ≡ x) ⊎ Among x (z ∷ ys)
          → ((y ≡ x) ⊎ Among x ys → Among x (insert_by key y ys))
          → Among x (elim b [ true ↦ y ∷ z ∷ ys | false ↦ z ∷ insert_by key y ys ])
      placed true (inl e) rec = here e
      placed true (inr n) rec = there n
      placed false (inl e) rec = there (rec (inl e))
      placed false (inr (here e)) rec = here e
      placed false (inr (there n)) rec = there (rec (inr n))

  pub sort_by-Among : (x : A) (xs : List A) → Among x (sort_by key xs) → Among x xs
  sort_by-Among x [] m = elim m [ ]
  sort_by-Among x (y ∷ xs) m = elim (insert_by-Among x y (sort_by key xs) m) [
    | inl e ↦ here e
    | inr n ↦ there (sort_by-Among x xs n)
  ]

  pub Among-sort_by : (x : A) (xs : List A) → Among x xs → Among x (sort_by key xs)
  Among-sort_by x [] m = elim m [ ]
  Among-sort_by x (y ∷ xs) (here e) = Among-insert_by x y (sort_by key xs) (inl e)
  Among-sort_by x (y ∷ xs) (there m) =
      Among-insert_by x y (sort_by key xs) (inr (Among-sort_by x xs m))

  -- Each row's key is at most the keys behind it.
  abbrev pub Ordered : List A → Type ℓ
  Ordered [] = Unit
  Ordered (x ∷ xs) = ((y : A) → Among y xs → key x ≤ key y) × Ordered xs

  insert_by-Ordered : (x : A) (xs : List A) → Ordered xs → Ordered (insert_by key x xs)
  insert_by-Ordered x [] h = ((λ y m. elim m [ ]), tt)
  insert_by-Ordered x (z ∷ xs) (least, h) =
      placed (leb (key x) (key z)) refl (insert_by-Ordered x xs h)
    where
      placed :
          (b : Bool)
          → leb (key x) (key z) ≡ b
          → Ordered (insert_by key x xs)
          → Ordered (elim b [ true ↦ x ∷ z ∷ xs | false ↦ z ∷ insert_by key x xs ])
      placed true first rec = (below_all (leb→le _ _ first), (least, h))
        where
          below_all : key x ≤ key z → (y : A) → Among y (z ∷ xs) → key x ≤ key y
          below_all le y (here e) = rw (← e) le
          below_all le y (there m) = le_trans le (least y m)
      placed false later rec = (above_all (not_leb _ _ later), rec)
        where
          above_all : key z ≤ key x → (y : A) → Among y (insert_by key x xs) → key z ≤ key y
          above_all le y m = elim (insert_by-Among y x xs m) [
            | inl e ↦ rw (← e) le
            | inr n ↦ least y n
          ]

  pub sort_by-Ordered : (xs : List A) → Ordered (sort_by key xs)
  sort_by-Ordered [] = tt
  sort_by-Ordered (x ∷ xs) = insert_by-Ordered x (sort_by key xs) (sort_by-Ordered xs)

  -- LIMIT of an ordered list: a row that is cut off has no smaller key than one that is kept.
  pub Ordered-take :
      (n : ℕ) (x y : A) (xs : List A)
      → Ordered xs
      → Among x (take n xs)
      → Among y xs
      → Among y (take n xs) ⊎ (key x ≤ key y)
  Ordered-take zero x y xs h mx my = elim mx [ ]
  Ordered-take (suc n) x y [] h mx my = elim mx [ ]
  Ordered-take (suc n) x y (z ∷ xs) h mx (here e) = inl (here e)
  Ordered-take (suc n) x y (z ∷ xs) (least, h) (here e) (there my) = inr (rw (← e) (least y my))
  Ordered-take (suc n) x y (z ∷ xs) (least, h) (there mx) (there my) =
      elim (Ordered-take n x y xs h mx my) [ inl kept ↦ inl (there kept) | inr le ↦ inr le ]

module _ {ℓ} {A : Type ℓ} where
  -- Where a row goes under UPDATE.
  pub Among-update_where :
      (p : A → Bool) (f : A → A) (x : A) (xs : List A)
      → Among x xs
      → Among (elim (p x) [ true ↦ f x | false ↦ x ]) (update_where p f xs)
  Among-update_where p f x [] m = elim m [ ]
  Among-update_where p f x (y ∷ xs) (here e) = here (cc e)
  Among-update_where p f x (y ∷ xs) (there m) = there (Among-update_where p f x xs m)

  -- Where a row of the updated table comes from.
  pub update_where-Among :
      (p : A → Bool) (f : A → A) (z : A) (xs : List A)
      → Among z (update_where p f xs)
      → (x : A) × Among x xs × (elim (p x) [ true ↦ f x | false ↦ x ] ≡ z)
  update_where-Among p f z [] m = elim m [ ]
  update_where-Among p f z (x ∷ xs) (here e) = (x, here refl, e)
  update_where-Among p f z (x ∷ xs) (there m) =
      let (y, n, e) = update_where-Among p f z xs m in (y, there n, e)
