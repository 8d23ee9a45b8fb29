-- ===== src/Membership/Transfer.antt =====
-- What `transfer_ownership` does to the number of owners, for another user and for the same one.
use trust_chain.Prelude.{
  ℕ, Bool, true, false, some, List, [], ◌∷◌, str_eq, refl, arith, inl, inr, ◌≤◌, ◌≢◌, ◌≡◌,
  Bool-cases, Option-cases, subst, sym, ◌+◌,
}
use trust_chain.Membership.Roles.{Membership, has_key, get_membership, admin, owner}
use trust_chain.Membership.Endpoints.{count_owners, change_role, with_role, transfer_ownership}
use trust_chain.Membership.Counting.{owners_with_key}

module _ {A : Type 0} (x y : A) where
  changed : (b : Bool) → b ≡ true → elim b [ true ↦ y | false ↦ x ] ≡ y
  changed b h = rw h refl

  unchanged : (b : Bool) → b ≡ false → elim b [ true ↦ y | false ↦ x ] ≡ x
  unchanged b h = rw h refl

abbrev demoted : (from org now : ℕ) → Membership → Membership
demoted from org now y = elim (has_key from org y) [ true ↦ with_role admin now y | false ↦ y ]

pub transferred-count :
    (from to org now : ℕ) (rows : List Membership) (m : Membership)
    → from ≢ to
    → get_membership to org rows ≡ some m
    → 1 ≤ count_owners org (change_role from org admin now (change_role to org owner now rows))
unfolding get_membership count_owners change_role
transferred-count from to org now [] m differ h = ground arith
transferred-count from to org now (x ∷ rows) m differ h = elim (Bool-cases (has_key to org x)) [
  | inl hit ↦
      subst
        (λ y.
          1
          ≤ count_owners org (
              demoted from org now y
              ∷ change_role from org admin now (change_role to org owner now rows)))
        (sym (changed x (with_role owner now x) (has_key to org x) hit))
        (new_owner x (change_role from org admin now (change_role to org owner now rows)) hit)
  | inr miss ↦
      let rec = transferred-count from to org now rows m differ (ground (arith, miss, h)) in
      subst
        (λ y.
          1
          ≤ count_owners org (
              demoted from org now y
              ∷ change_role from org admin now (change_role to org owner now rows)))
        (sym (unchanged x (with_role owner now x) (has_key to org x) miss))
        (counted_on (demoted from org now x)
          (change_role from org admin now (change_role to org owner now rows)) rec)
]
  where
    new_owner :
        (y : Membership) (rest : List Membership)
        → has_key to org y ≡ true
        → 1 ≤ count_owners org (demoted from org now (with_role owner now y) ∷ rest)
    new_owner y rest hit =
        subst (λ z. 1 ≤ count_owners org (z ∷ rest))
          (sym (
            unchanged (with_role owner now y) (with_role admin now (with_role owner now y))
              (has_key from org (with_role owner now y)) (ground (arith, hit, differ))))
          (ground (arith, hit))

    counted_on :
        (y : Membership) (rest : List Membership)
        → 1 ≤ count_owners org rest
        → 1 ≤ count_owners org (y ∷ rest)
    counted_on y rest h = ground arith

pub transfer_ownership-rows :
    (from to org now : ℕ) (rows after : List Membership)
    → transfer_ownership from to org now rows ≡ some after
    → ((m : Membership) × (get_membership to org rows ≡ some m))
      × (after ≡ change_role from org admin now (change_role to org owner now rows))
unfolding transfer_ownership
transfer_ownership-rows from to org now rows after h =
    elim (Option-cases (get_membership to org rows)) [
      | inl absent ↦ ground (arith, absent, h)
      | inr (m, member) ↦ ((m, member), ground (arith, h))
    ]

self_demoted :
    (user org now : ℕ) (rows : List Membership)
    → count_owners org rows
      ≡ count_owners org (change_role user org admin now (change_role user org owner now rows))
        + owners_with_key user org org rows
unfolding count_owners change_role
self_demoted user org now [] = refl
self_demoted user org now (m ∷ rows) =
    let rec = self_demoted user org now rows in
    elim (Bool-cases (has_key user org m)) [
      | inl hit ↦
          let owning = with_role owner now m in
          subst
            (λ y.
              count_owners org (m ∷ rows)
              ≡ count_owners org (demoted user org now y ∷ rest)
                + owners_with_key user org org (m ∷ rows))
            (sym (changed m owning (has_key user org m) hit))
            (subst
              (λ y.
                count_owners org (m ∷ rows)
                ≡ count_owners org (y ∷ rest) + owners_with_key user org org (m ∷ rows))
              (sym (
                changed owning (with_role admin now owning) (has_key user org owning)
                  (ground (arith, hit))))
              (ground (arith, hit, rec)))
      | inr miss ↦
          subst
            (λ y.
              count_owners org (m ∷ rows)
              ≡ count_owners org (demoted user org now y ∷ rest)
                + owners_with_key user org org (m ∷ rows))
            (sym (unchanged m (with_role owner now m) (has_key user org m) miss))
            (subst
              (λ y.
                count_owners org (m ∷ rows)
                ≡ count_owners org (y ∷ rest) + owners_with_key user org org (m ∷ rows))
              (sym (unchanged m (with_role admin now m) (has_key user org m) miss))
              (ground (arith, miss, rec)))
    ]
  where
    rest : List Membership
    rest = change_role user org admin now (change_role user org owner now rows)

owner_counted :
    (user org : ℕ) (rows : List Membership) (m : Membership)
    → get_membership user org rows ≡ some m
    → str_eq m.role owner ≡ true
    → 1 ≤ owners_with_key user org org rows
unfolding get_membership
owner_counted user org [] m found owns = ground arith
owner_counted user org (x ∷ rows) m found owns = elim (Bool-cases (has_key user org x)) [
  | inl hit ↦ let same : x ≡ m = ground (arith, hit, found) in ground (arith, hit, owns, same)
  | inr miss ↦
      let rec = owner_counted user org rows m (ground (arith, miss, found)) owns in
      ground (arith, miss, rec)
]

-- An owner who is the only one can transfer the ownership to the own account, and then the
-- organization has no owner: the one membership row is set to owner and then to admin.
pub transfer_to_self-loses_owner :
    (user org now : ℕ) (rows : List Membership) (m : Membership)
    → get_membership user org rows ≡ some m
    → str_eq m.role owner ≡ true
    → count_owners org rows ≡ 1
    → (after : List Membership) × (transfer_ownership user user org now rows ≡ some after)
      × (count_owners org after ≡ 0)
unfolding transfer_ownership
transfer_to_self-loses_owner user org now rows m found owns one = (
  change_role user org admin now (change_role user org owner now rows),
  ground (arith, found),
  omega (arith, one, self_demoted user org now rows, owner_counted user org rows m found owns),
)
