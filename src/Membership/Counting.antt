-- ===== src/Membership/Counting.antt =====
-- How the membership updates change the number of an organization's owners, and the primary key.
use trust_chain.Prelude.{
  ℕ, Bool, false, not, ◌&&◌, some, List, [], ◌∷◌, select, update_where, length, refl, arith, ◌≤◌,
  ◌≡◌, String, Bool-cases, ◌+◌, inr, inl, ◌==◌,
}
use trust_chain.Membership.Roles.{Membership, has_key, first_row, get_membership}
use trust_chain.Membership.Endpoints.{
  is_owner_of, count_owners, with_role, change_role, remove_member,
}

-- The primary key of the memberships table: at most one row for a user and an organization.
abbrev pub IsKeyed : List Membership → Type 0
IsKeyed rows = (user org : ℕ) → length (select (has_key user org) rows) ≤ 1

-- The rows with the key that are owners of `home`.
abbrev pub owners_with_key : (user org home : ℕ) → List Membership → ℕ
owners_with_key user org home rows =
    length (select (λ m. has_key user org m && is_owner_of home m) rows)

length-select_and :
    {A : Type 0} (p q : A → Bool) (xs : List A)
    → length (select (λ x. p x && q x) xs) ≤ length (select p xs)
length-select_and p q [] = omega arith
length-select_and p q (x ∷ xs) = let rec = length-select_and p q xs in ground arith

pub owners_with_key-le_one :
    (user org home : ℕ) (rows : List Membership)
    → IsKeyed rows
    → owners_with_key user org home rows ≤ 1
owners_with_key-le_one user org home rows keyed =
    omega (arith, length-select_and (has_key user org) (is_owner_of home) rows, keyed user org)

only_row :
    {A : Type 0} (p q : A → Bool) (xs : List A) (m : A)
    → first_row (select p xs) ≡ some m
    → length (select p xs) ≤ 1
    → q m ≡ false
    → length (select (λ x. p x && q x) xs) ≡ 0
only_row p q [] m h l r = refl
only_row p q (x ∷ xs) m h l r = elim (Bool-cases (p x)) [
  | inr miss ↦
      let rec = only_row p q xs m (ground (arith, miss, h)) (ground (arith, miss, l)) r in
      ground (arith, miss, rec)
  | inl hit ↦
      let below = length-select_and p q xs in
      let same : x ≡ m = ground (arith, hit, h) in ground (arith, hit, r, same, below, l)
]

pub owners_with_key-none :
    (user org home : ℕ) (rows : List Membership) (m : Membership)
    → IsKeyed rows
    → get_membership user org rows ≡ some m
    → is_owner_of home m ≡ false
    → owners_with_key user org home rows ≡ 0
unfolding get_membership
owners_with_key-none user org home rows m keyed h r =
    only_row (has_key user org) (is_owner_of home) rows m h (keyed user org) r

-- A change of role takes at most the owners among the rows it changes.
pub count_owners-change_role :
    (user org : ℕ) (new_role : String) (now home : ℕ) (rows : List Membership)
    → count_owners home rows
      ≤ count_owners home (change_role user org new_role now rows)
        + owners_with_key user org home rows
unfolding count_owners change_role
count_owners-change_role user org new_role now home [] = omega arith
count_owners-change_role user org new_role now home (m ∷ rows) =
    let rec = count_owners-change_role user org new_role now home rows in ground arith

pub count_owners-remove_member :
    (user org home : ℕ) (rows : List Membership)
    → count_owners home rows
      ≡ count_owners home (remove_member user org rows) + owners_with_key user org home rows
unfolding count_owners remove_member
count_owners-remove_member user org home [] = refl
count_owners-remove_member user org home (m ∷ rows) =
    let rec = count_owners-remove_member user org home rows in ground arith

pub change_role-IsKeyed :
    (user org : ℕ) (new_role : String) (now : ℕ) (rows : List Membership)
    → IsKeyed rows
    → IsKeyed (change_role user org new_role now rows)
unfolding change_role
change_role-IsKeyed user org new_role now rows keyed u o = omega (arith, same rows, keyed u o)
  where
    same :
        (ms : List Membership)
        → length
            (select (has_key u o) (update_where (has_key user org) (with_role new_role now) ms))
          ≡ length (select (has_key u o) ms)
    same [] = refl
    same (m ∷ ms) = let rec = same ms in ground arith

pub remove_member-IsKeyed :
    (user org : ℕ) (rows : List Membership) → IsKeyed rows → IsKeyed (remove_member user org rows)
unfolding remove_member
remove_member-IsKeyed user org rows keyed u o = omega (arith, fewer rows, keyed u o)
  where
    fewer :
        (ms : List Membership)
        → length (select (has_key u o) (select (λ m. not (has_key user org m)) ms))
          ≤ length (select (has_key u o) ms)
    fewer [] = omega arith
    fewer (m ∷ ms) = let rec = fewer ms in ground arith

pub get_membership-org_id :
    (user org : ℕ) (rows : List Membership) (m : Membership)
    → get_membership user org rows ≡ some m
    → m.org_id ≡ org
unfolding get_membership
get_membership-org_id user org [] m h = ground arith
get_membership-org_id user org (x ∷ rows) m h = elim (Bool-cases (has_key user org x)) [
  | inl hit ↦ let same : x ≡ m = ground (arith, hit, h) in ground (arith, hit, same)
  | inr miss ↦ get_membership-org_id user org rows m (ground (arith, miss, h))
]

pub owners_with_key-elsewhere :
    (user org home : ℕ) (rows : List Membership)
    → (home == org) ≡ false
    → owners_with_key user org home rows ≡ 0
owners_with_key-elsewhere user org home [] h = refl
owners_with_key-elsewhere user org home (m ∷ rows) h =
    let rec = owners_with_key-elsewhere user org home rows h in ground arith
