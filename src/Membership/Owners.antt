-- ===== src/Membership/Owners.antt =====
-- What each membership endpoint does to the number of an organization's owners.
use trust_chain.Membership.Transfer.{transfer_ownership-rows, transferred-count}
use trust_chain.Membership.Guards.{and_then-all, refuse_if-all, ok_rank, or_not_found-found}
use trust_chain.Prelude.{
  ℕ, false, some, List, [], ◌∷◌, String, str_eq, arith, inl, inr, ◌≤◌, ◌≢◌, ◌≡◌, ◌<◌, Bool-cases,
  eq_iff, subst, some-injective, sym, ◌&&◌, leb, ◌+◌, All, ◌==◌, ==→eq,
}
use trust_chain.Membership.Roles.{
  Membership, get_membership, admin, owner, ok, raised, ApiError, OrgDb, role_rank, rank_of,
}
use trust_chain.Membership.Endpoints.{
  count_owners, change_role, Response, change_role_endpoint, rank_allows_target_modification,
  leave_org_endpoint, remove_member_endpoint, remove_member, is_owner_of,
  transfer_ownership_endpoint, transfer_ownership,
}
use trust_chain.Membership.Counting.{
  IsKeyed, owners_with_key, owners_with_key-none, change_role-IsKeyed, count_owners-change_role,
  remove_member-IsKeyed, count_owners-remove_member, get_membership-org_id, owners_with_key-le_one,
  owners_with_key-elsewhere,
}

-- The primary key holds, and `home` has an owner.
abbrev pub IsOwned : (home : ℕ) → OrgDb → Type 0
IsOwned home db = IsKeyed db.memberships × (1 ≤ count_owners home db.memberships)

role_rank-le : (role : String) (r : ℕ) → role_rank role ≡ some r → r ≤ 40
role_rank-le role r h = ground arith

-- Nobody ranks above an owner.
below_top :
    (held target : String) (a t : ℕ)
    → rank_of held ≡ ok a
    → rank_of target ≡ ok t
    → t < a
    → str_eq target owner ≡ false
below_top held target a t ha ht below = elim (Bool-cases (str_eq target owner)) [
  | inr other ↦ other
  | inl same ↦
      let e : target ≡ owner = (eq_iff target owner).0 same in
      let top : some 40 ≡ some t = ok_rank owner t (subst (λ r. rank_of r ≡ ok t) e ht) in
      absurd
        (omega (arith, role_rank-le held a (ok_rank held a ha), below, some-injective 40 t top))
]

-- A call that does not touch an owner of any organization keeps what `IsOwned` says.
module _ (home : ℕ) (db : OrgDb) (good : IsOwned home db) where
  role_changed :
      (target org : ℕ) (new_role : String) (now : ℕ) (row : Membership)
      → get_membership target org db.memberships ≡ some row
      → str_eq row.role owner ≡ false
      → IsKeyed (change_role target org new_role now db.memberships)
        × (1 ≤ count_owners home (change_role target org new_role now db.memberships))
  role_changed target org new_role now row found other =
      let none_lost =
        owners_with_key-none target org home db.memberships row good.0 found
          (ground (arith, other)) in
      (
        change_role-IsKeyed target org new_role now db.memberships good.0,
        omega (
          arith,
          good.1,
          none_lost,
          count_owners-change_role target org new_role now home db.memberships,
        ),
      )

  member_removed :
      (target org : ℕ) (row : Membership)
      → get_membership target org db.memberships ≡ some row
      → (str_eq row.role owner && leb (count_owners org db.memberships) 1) ≡ false
      → IsKeyed (remove_member target org db.memberships)
        × (1 ≤ count_owners home (remove_member target org db.memberships))
  member_removed target org row found not_last =
      (remove_member-IsKeyed target org db.memberships good.0, left)
    where
      removed :
          count_owners home db.memberships
          ≡ count_owners home (remove_member target org db.memberships)
            + owners_with_key target org home db.memberships
      removed = count_owners-remove_member target org home db.memberships

      left : 1 ≤ count_owners home (remove_member target org db.memberships)
      left = elim (Bool-cases (is_owner_of home row)) [
        | inr other ↦ omega (
          arith,
          good.1,
          removed,
          owners_with_key-none target org home db.memberships row good.0 found other,
        )
        | inl owns ↦
            let here : home ≡ org =
              ground (arith, owns, get_membership-org_id target org db.memberships row found) in
            let several : 2 ≤ count_owners org db.memberships = ground (arith, owns, not_last) in
            let several_here : 2 ≤ count_owners home db.memberships =
              subst (λ o. 2 ≤ count_owners o db.memberships) (sym here) several in
            omega (
              arith,
              removed,
              several_here,
              owners_with_key-le_one target org home db.memberships good.0,
            )
      ]

  transferred :
      (actor target org now : ℕ) (rows : List Membership)
      → actor ≢ target
      → transfer_ownership actor target org now db.memberships ≡ some rows
      → IsKeyed rows × (1 ≤ count_owners home rows)
  transferred actor target org now rows differ found =
      let before = db.memberships in
      let promoted = change_role target org owner now before in
      let ((m, member), result) = transfer_ownership-rows actor target org now before rows found in
      subst (λ rs. IsKeyed rs × (1 ≤ count_owners home rs)) (sym result)
        (
          change_role-IsKeyed actor org admin now promoted
              (change_role-IsKeyed target org owner now before good.0),
          elim (Bool-cases (home == org)) [
            | inl here ↦
                subst (λ o. 1 ≤ count_owners o (change_role actor org admin now promoted))
                  (sym (==→eq home org here))
                  (transferred-count actor target org now before m differ member)
            | inr elsewhere ↦ omega (
              arith,
              good.1,
              count_owners-change_role target org owner now home before,
              count_owners-change_role actor org admin now home promoted,
              owners_with_key-elsewhere target org home before elsewhere,
              owners_with_key-elsewhere actor org home promoted elsewhere,
            )
          ],
        )

  change_role_endpoint-IsOwned :
      (actor target org : ℕ) (new_role : String) (now : ℕ)
      → IsOwned home (change_role_endpoint actor target org new_role now db).0
  unfolding change_role_endpoint rank_allows_target_modification
  change_role_endpoint-IsOwned actor target org new_role now =
      let P : Response → Type 0 = λ r. IsOwned home r.0 in
      let same : (e : ApiError) → P (db, raised e) = λ e. good in
      and_then-all P db same _ _ (λ held _. refuse_if-all P db same _ _ _ (λ _.
        refuse_if-all P db same _ _ _ (λ _. and_then-all P db same _ _ (λ row found.
          and_then-all P db same _ _ (λ a ranks. and_then-all P db same _ _ (λ t target_ranks.
            and_then-all P db same _ _ (λ q _. refuse_if-all P db same _ _ _ (λ allowed.
              refuse_if-all P db same _ _ _ (λ _.
                role_changed target org new_role now row
                  (or_not_found-found (get_membership target org db.memberships) row found)
                  (below_top held row.role a t ranks target_ranks
                    (ground (arith, allowed))))))))))))

  leave_org_endpoint-IsOwned : (actor org : ℕ) → IsOwned home (leave_org_endpoint actor org db).0
  unfolding leave_org_endpoint
  leave_org_endpoint-IsOwned actor org =
      let P : Response → Type 0 = λ r. IsOwned home r.0 in
      let same : (e : ApiError) → P (db, raised e) = λ e. good in
      and_then-all P db same _ _ (λ row found. refuse_if-all P db same _ _ _ (λ not_last.
        member_removed actor org row
          (or_not_found-found (get_membership actor org db.memberships) row found) not_last))

  remove_member_endpoint-IsOwned :
      (actor target org : ℕ) → IsOwned home (remove_member_endpoint actor target org db).0
  unfolding remove_member_endpoint
  remove_member_endpoint-IsOwned actor target org =
      let P : Response → Type 0 = λ r. IsOwned home r.0 in
      let same : (e : ApiError) → P (db, raised e) = λ e. good in
      and_then-all P db same _ _ (λ held _. and_then-all P db same _ _ (λ row found.
        and_then-all P db same _ _ (λ t _. and_then-all P db same _ _ (λ a _.
          refuse_if-all P db same _ _ _ (λ _. refuse_if-all P db same _ _ _ (λ not_last.
            member_removed target org row
              (or_not_found-found (get_membership target org db.memberships) row found)
              not_last))))))

  transfer_ownership_endpoint-IsOwned :
      (actor target org now : ℕ)
      → actor ≢ target
      → IsOwned home (transfer_ownership_endpoint actor target org now db).0
  unfolding transfer_ownership_endpoint
  transfer_ownership_endpoint-IsOwned actor target org now differ =
      let P : Response → Type 0 = λ r. IsOwned home r.0 in
      let same : (e : ApiError) → P (db, raised e) = λ e. good in
      and_then-all P db same _ _ (λ held _. and_then-all P db same _ _ (λ rows found.
        transferred actor target org now rows differ
          (or_not_found-found (transfer_ownership actor target org now db.memberships) rows found)))

-- A request to one of the four endpoints that change memberships.
pub data Request : Type 0 where
  change : (actor target org : ℕ) (new_role : String) (now : ℕ) → Request
  leave : (actor org : ℕ) → Request
  remove : (actor target org : ℕ) → Request
  transfer : (actor target org now : ℕ) → Request

abbrev pub handle : Request → OrgDb → Response
handle (change actor target org new_role now) db =
    change_role_endpoint actor target org new_role now db
handle (leave actor org) db = leave_org_endpoint actor org db
handle (remove actor target org) db = remove_member_endpoint actor target org db
handle (transfer actor target org now) db = transfer_ownership_endpoint actor target org now db

abbrev pub handle_all : List Request → OrgDb → OrgDb
handle_all [] db = db
handle_all (r ∷ rs) db = handle_all rs (handle r db).0

-- A transfer names another user than the one who asks.
abbrev pub IsToOther : Request → Type 0
IsToOther (transfer actor target org now) = actor ≢ target
IsToOther _ = Unit

handle-IsOwned :
    (home : ℕ) (r : Request) (db : OrgDb)
    → IsToOther r
    → IsOwned home db
    → IsOwned home (handle r db).0
handle-IsOwned home (change actor target org new_role now) db h good =
    change_role_endpoint-IsOwned home db good actor target org new_role now
handle-IsOwned home (leave actor org) db h good = leave_org_endpoint-IsOwned home db good actor org
handle-IsOwned home (remove actor target org) db h good =
    remove_member_endpoint-IsOwned home db good actor target org
handle-IsOwned home (transfer actor target org now) db h good =
    transfer_ownership_endpoint-IsOwned home db good actor target org now h

-- An organization that has an owner still has one after any sequence of requests to the four
-- membership endpoints, whoever sends them and whether or not they are granted, as long as no
-- transfer names the user who asks for it. The memberships have their primary key throughout.
pub owner_remains :
    (home : ℕ) (rs : List Request) (db : OrgDb)
    → All IsToOther rs
    → IsOwned home db
    → IsOwned home (handle_all rs db)
owner_remains home [] db hs good = good
owner_remains home (r ∷ rs) db (h, hs) good =
    owner_remains home rs (handle r db).0 hs (handle-IsOwned home r db h good)
