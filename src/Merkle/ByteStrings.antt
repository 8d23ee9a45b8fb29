-- ===== src/Merkle/ByteStrings.antt =====
-- Byte strings as Python compares them: `<`, `==` and `+` on `bytes` (blockchain/merkle.py).
use trust_chain.Prelude.{
  ℕ, ◌≡◌, refl, ◌≢◌, ◌⊎◌, inl, inr, ap, Bool, true, false, List, [], ◌∷◌, ◌++◌, ltb, ◌==◌,
  if◌then◌else◌, arith, length,
}

abbrev pub Bytes : Type 0
Bytes = List ℕ

-- `a < b`: lexicographic, a proper prefix is smaller.
unfoldable pub bytes_lt : Bytes → Bytes → Bool
bytes_lt [] [] = false
bytes_lt [] (b ∷ y) = true
bytes_lt (a ∷ x) [] = false
bytes_lt (a ∷ x) (b ∷ y) = if ltb a b then true else if ltb b a then false else bytes_lt x y

-- `a == b`.
unfoldable pub bytes_eq : Bytes → Bytes → Bool
bytes_eq [] [] = true
bytes_eq [] (b ∷ y) = false
bytes_eq (a ∷ x) [] = false
bytes_eq (a ∷ x) (b ∷ y) = if a == b then bytes_eq x y else false

pub bytes_eq_refl : (a : Bytes) → bytes_eq a a ≡ true
unfolding bytes_eq
bytes_eq_refl [] = refl
bytes_eq_refl (a ∷ x) = ground (arith, bytes_eq_refl x)

pub bytes_eq→eq : (a b : Bytes) → bytes_eq a b ≡ true → a ≡ b
unfolding bytes_eq
bytes_eq→eq [] [] h = refl
bytes_eq→eq [] (b ∷ y) h = cc
bytes_eq→eq (a ∷ x) [] h = cc
bytes_eq→eq (a ∷ x) (b ∷ y) h = ground (arith, bytes_eq→eq x y)

-- Two byte strings are equal or differ.
pub bytes_dec : (a b : Bytes) → (a ≡ b) ⊎ (a ≢ b)
bytes_dec a b = by_test (bytes_eq a b) refl
  where
    by_test : (t : Bool) → bytes_eq a b ≡ t → (a ≡ b) ⊎ (a ≢ b)
    by_test true e = inl (bytes_eq→eq a b e)
    by_test false e = inr (λ p. cc (e, ap (bytes_eq a) p, bytes_eq_refl a))

-- The order is total: neither below the other means equal.
pub bytes_lt_total : (a b : Bytes) → bytes_lt a b ≡ false → bytes_lt b a ≡ false → a ≡ b
unfolding bytes_lt
bytes_lt_total [] [] h k = refl
bytes_lt_total [] (b ∷ y) h k = cc
bytes_lt_total (a ∷ x) [] h k = cc
bytes_lt_total (a ∷ x) (b ∷ y) h k = ground (arith, bytes_lt_total x y)

pub bytes_lt_asym : (a b : Bytes) → bytes_lt a b ≡ true → bytes_lt b a ≡ false
unfolding bytes_lt
bytes_lt_asym [] [] h = cc
bytes_lt_asym [] (b ∷ y) h = refl
bytes_lt_asym (a ∷ x) [] h = cc
bytes_lt_asym (a ∷ x) (b ∷ y) h = ground (arith, bytes_lt_asym x y)

-- Concatenations of parts of equal lengths are equal part by part.
pub append_inj : (a b c d : Bytes) → length a ≡ length c → a ++ b ≡ c ++ d → (a ≡ c) × (b ≡ d)
append_inj [] b [] d l e = (refl, e)
append_inj [] b (y ∷ c) d l e = absurd (omega arith)
append_inj (x ∷ a) b [] d l e = absurd (omega arith)
append_inj (x ∷ a) b (y ∷ c) d l e = ground (arith, append_inj a b c d)
